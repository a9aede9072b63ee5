-- ===== src/BigInt/Examples.antt =====
-- quickjs.c: the operations of the BigInt section on a few numbers.
use go_quickjs.Base.{
  ℕ, ◌+◌, ◌-◌, ◌/◌, ◌^◌, ◌≡◌, inl, inr, refl, ap, arith, List, [], ◌∷◌, length, true, false, leb,
  ◌*◌, ◌≢◌,
}
use go_quickjs.Base.{All, some}
use Prim.Native.Nat.{max}
use go_quickjs.Base.Int.{pos, neg_part, signed, ◌+ℤ◌, ◌-ℤ◌, ◌*ℤ◌, floor_div, trunc_div, trunc_rem}
use go_quickjs.BigInt.{
  Grants, Result, ok, js_bigint_new, js_bigint_extend, add_loop, js_bigint_add, js_bigint_neg,
  js_bigint_mul, js_bigint_not, js_bigint_shl, js_bigint_shr, js_bigint_cmp, js_bigint_normalize,
  js_bigint_sign,
}
use go_quickjs.BigInt.Sign.{to_int, Means, IsBigInt, Yields}
use go_quickjs.BigInt.Normal.{js_bigint_normalize_exact}
use go_quickjs.BigInt.Sum.{js_bigint_add_exact, js_bigint_neg_exact}
use go_quickjs.BigInt.Multiply.{js_bigint_mul_exact}
use go_quickjs.BigInt.Left.{js_bigint_shl_exact}
use go_quickjs.BigInt.Right.{js_bigint_shr_exact}
use go_quickjs.BigInt.Order.{Ordered, js_bigint_cmp_exact}
use go_quickjs.BigInt.Complement.{js_bigint_not_exact}
use go_quickjs.BigInt.Arrays.Value.{value}
use go_quickjs.BigInt.Divide.{mp_divnorm}
use go_quickjs.BigInt.Divide.Long.{Quotient, mp_divnorm_exact}
use go_quickjs.BigInt.Divrem.{js_bigint_divrem}
use go_quickjs.BigInt.Divrem.Exact.{js_bigint_divrem_exact}
use go_quickjs.BigInt.Text.{js_bigint_from_string, decimal_loop, skip_zeros}
use go_quickjs.BigInt.Text.Read.{IsDecimal, decimal, Reads, decimal_loop-Reads}
use go_quickjs.BigInt.Text.Exact.{signed_text, js_bigint_from_string_exact}

-- An allocator that refuses arrays of more than 100 limbs.
abbrev up_to_100 : Grants
up_to_100 k n = leb n 100

-- -7 and 2 ^ 64 + 5.
abbrev minus_seven : List ℕ
minus_seven = (2 ^ 64 - 7) ∷ []

abbrev two_limbs : List ℕ
two_limbs = 5 ∷ 1 ∷ []

minus_seven-IsBigInt : IsBigInt minus_seven
minus_seven-IsBigInt = record {
  limbs_ok = (omega arith, tt);
  nonempty = omega arith;
  least = inl refl;
}

two_limbs-IsBigInt : IsBigInt two_limbs
two_limbs-IsBigInt = record {
  limbs_ok = (omega arith, (omega arith, tt));
  nonempty = omega arith;
  least = inr ((λ q. absurd (omega (arith, q.0))), (λ q. absurd (omega (arith, q.0))));
}

-- 2 ^ 64 + 5 - 7 is one limb with a zero for the sign above it.
add_value : js_bigint_add up_to_100 minus_seven two_limbs 0 ≡ ok ((2 ^ 64 - 2) ∷ 0 ∷ [])
unfolding js_bigint_add js_bigint_new js_bigint_extend add_loop
add_value = refl

js_bigint_add_exact_example :
    Yields up_to_100
      (max (length minus_seven) (length two_limbs))
      (to_int minus_seven +ℤ to_int two_limbs)
      (js_bigint_add up_to_100 minus_seven two_limbs 0)
    × Yields up_to_100
        (max (length minus_seven) (length two_limbs))
        (to_int minus_seven -ℤ to_int two_limbs)
        (js_bigint_add up_to_100 minus_seven two_limbs 1)
js_bigint_add_exact_example =
    js_bigint_add_exact up_to_100 minus_seven two_limbs minus_seven-IsBigInt two_limbs-IsBigInt

js_bigint_neg_exact_example :
    Yields up_to_100
      (length two_limbs)
      (pos 0 -ℤ to_int two_limbs)
      (js_bigint_neg up_to_100 two_limbs)
js_bigint_neg_exact_example = js_bigint_neg_exact up_to_100 two_limbs two_limbs-IsBigInt

js_bigint_mul_exact_example :
    Yields up_to_100
      (length minus_seven + length two_limbs)
      (to_int minus_seven *ℤ to_int two_limbs)
      (js_bigint_mul up_to_100 minus_seven two_limbs)
js_bigint_mul_exact_example =
    js_bigint_mul_exact up_to_100 minus_seven two_limbs minus_seven-IsBigInt two_limbs-IsBigInt

not_zero : to_int minus_seven ≢ pos 0
unfolding js_bigint_sign
not_zero e = absurd (omega (arith, ap neg_part e))

js_bigint_divrem_exact_example :
    Yields up_to_100
      (length two_limbs + 2)
      (trunc_div (to_int two_limbs) (to_int minus_seven))
      (js_bigint_divrem up_to_100 two_limbs minus_seven false)
    × Yields up_to_100
        (length two_limbs + 2)
        (trunc_rem (to_int two_limbs) (to_int minus_seven))
        (js_bigint_divrem up_to_100 two_limbs minus_seven true)
js_bigint_divrem_exact_example =
    js_bigint_divrem_exact up_to_100 two_limbs minus_seven two_limbs-IsBigInt minus_seven-IsBigInt
      not_zero

js_bigint_shl_exact_example :
    Yields up_to_100
      (length minus_seven + 70 / 64)
      (to_int minus_seven *ℤ pos (2 ^ 70))
      (js_bigint_shl up_to_100 minus_seven 70)
js_bigint_shl_exact_example = js_bigint_shl_exact up_to_100 minus_seven 70 minus_seven-IsBigInt

js_bigint_shr_exact_example :
    Yields up_to_100
      (length two_limbs)
      (floor_div (to_int two_limbs) (2 ^ 66))
      (js_bigint_shr up_to_100 two_limbs 66)
js_bigint_shr_exact_example = js_bigint_shr_exact up_to_100 two_limbs 66 two_limbs-IsBigInt

js_bigint_cmp_exact_example :
    Ordered (js_bigint_cmp minus_seven two_limbs) (to_int minus_seven) (to_int two_limbs)
js_bigint_cmp_exact_example =
    js_bigint_cmp_exact minus_seven two_limbs minus_seven-IsBigInt two_limbs-IsBigInt

js_bigint_not_exact_example :
    Yields up_to_100
      (length two_limbs)
      (pos 0 -ℤ to_int two_limbs -ℤ pos 1)
      (js_bigint_not up_to_100 two_limbs)
js_bigint_not_exact_example = js_bigint_not_exact up_to_100 two_limbs two_limbs-IsBigInt

five-Means : Means (5 ∷ 0 ∷ 0 ∷ []) 5 0
unfolding js_bigint_sign
five-Means = refl

js_bigint_normalize_exact_example :
    IsBigInt (js_bigint_normalize (5 ∷ 0 ∷ 0 ∷ []))
    × Means (js_bigint_normalize (5 ∷ 0 ∷ 0 ∷ [])) 5 0
js_bigint_normalize_exact_example =
    js_bigint_normalize_exact (5 ∷ 0 ∷ 0 ∷ []) 5 0 (omega arith)
      (omega arith, (omega arith, (omega arith, tt))) five-Means

mp_divnorm_exact_example :
    Quotient
      (value (3 ∷ 2 ∷ 1 ∷ []))
      (3 - 2 + 1)
      (7 ∷ (2 ^ 63) ∷ [])
      (mp_divnorm (3 ∷ 2 ∷ 1 ∷ []) (7 ∷ (2 ^ 63) ∷ []))
mp_divnorm_exact_example =
    mp_divnorm_exact (3 ∷ 2 ∷ 1 ∷ []) (7 ∷ (2 ^ 63) ∷ []) (omega arith) (omega arith)
      (omega arith, (omega arith, (omega arith, tt))) (omega arith, (omega arith, tt)) (omega arith)

-- "0042".
abbrev forty_two : List ℕ
forty_two = 48 ∷ 48 ∷ 52 ∷ 50 ∷ []

forty_two-IsDecimal : All IsDecimal forty_two
forty_two-IsDecimal = (
  (omega arith, omega arith),
  ((omega arith, omega arith), ((omega arith, omega arith), ((omega arith, omega arith), tt))),
)

decimal_loop-Reads_example : Reads (decimal forty_two 0) (decimal_loop 4 forty_two (0 ∷ []))
decimal_loop-Reads_example =
    decimal_loop-Reads 4 forty_two (0 ∷ []) (omega arith) forty_two-IsDecimal (omega arith, tt)
      (omega arith)

js_bigint_from_string_exact_example :
    (r : Result) × (js_bigint_from_string up_to_100 (signed_text true forty_two) 10 ≡ some r)
    × Yields up_to_100
        ((length (skip_zeros forty_two) * 27 + 7) / 8 / 64 + 1)
        (signed true (decimal forty_two 0))
        r
js_bigint_from_string_exact_example =
    js_bigint_from_string_exact up_to_100 true forty_two forty_two-IsDecimal (omega arith)
