-- ===== src/BigInt/Divrem/Exact.antt =====
-- quickjs.c: `js_bigint_divrem`, from the arrays to the numbers.
use go_quickjs.Base.{
  ℕ, zero, suc, ◌+◌, ◌-◌, ◌*◌, ◌/◌, ◌%◌, ◌^◌, ◌≤◌, ◌<◌, ◌≡◌, ◌≢◌, inl, inr, refl, ap, ◌∙◌, arith,
  List, [], ◌∷◌, ◌++◌, length, All, get_or, Bool, true, false, not, Bool-cases, ◌==◌, ltb, ltb→lt,
  ltb→le, length-append, bit_xor,
}
use native.Mathlib.Nat.{
  mul-le-mul_left, mul-le-mul_right, one-le-pow, mod-lt, mod-eq_of_lt, div-add-mod',
}
use go_quickjs.Base.Int.{
  ℤ, pos, negsuc, pos_part, neg_part, abs, negative, signed, differ, trunc_div, trunc_rem,
  eq_of_parts, quotient_unique,
}
use go_quickjs.Cutils.Words.{clz64}
use go_quickjs.BigInt.{js_bigint_sign, js_bigint_normalize, is_zero, Grants}
use go_quickjs.BigInt.Sign.{to_int, to_int-Means, Means, IsBigInt, Yields, highest_part}
use go_quickjs.BigInt.Extend.{
  Makes, Makes-Yields, Makes-longer, js_bigint_new_rule, js_bigint_new_plain,
}
use go_quickjs.BigInt.Normal.{js_bigint_normalize_exact}
use go_quickjs.BigInt.Multiply.{limb_power-add}
use go_quickjs.BigInt.Left.{limb_power-positive, zero-Makes, is_zero-to_int}
use go_quickjs.BigInt.Arrays.Value.{
  IsLimb, value, limb_power, value-lt, value-append, IsLimb-append,
}
use go_quickjs.BigInt.Divide.{mp_divnorm}
use go_quickjs.BigInt.Divide.Long.{mp_divnorm_exact}
use go_quickjs.BigInt.Divrem.{
  negate_if, strip, scale_divisor, scale_dividend, unscale_rest, divide_positive, js_bigint_divrem,
}
use go_quickjs.BigInt.Divrem.Scale.{
  Stripped, strip-Stripped, scale_dividend_lem, scale_divisor_lem, unscale_rest_lem,
}
use go_quickjs.BigInt.Divrem.Signed.{negate_if-Means, negate_if-Unsigned, sign_of_quotient}

pub limb_power-le : (m n : ℕ) → m ≤ n → limb_power m ≤ limb_power n
limb_power-le m n h =
    let e : n ≡ m + (n - m) = omega arith in
    omega (
      arith,
      ap limb_power e ∙ limb_power-add m (n - m),
      mul-le-mul_left (limb_power m) (limb_power-positive (n - m)),
    )

-- A limb of zeros on top makes room for the sign.
with_zero :
    (minus : Bool) (t : List ℕ)
    → All IsLimb t
    → let u = js_bigint_normalize (negate_if minus (t ++ (0 ∷ []))) in
      IsBigInt u × Means u (pos_part (signed minus (value t))) (neg_part (signed minus (value t)))
with_zero minus t h =
    let l = length-append t (0 ∷ []) in
    let longer : length (t ++ (0 ∷ [])) ≡ suc (length t) = omega (arith, l) in
    let same : value (t ++ (0 ∷ [])) ≡ value t = omega (arith, value-append t (0 ∷ [])) in
    let ok' = IsLimb-append t (0 ∷ []) h (omega arith, tt) in
    let room : 2 * value (t ++ (0 ∷ [])) < limb_power (length (t ++ (0 ∷ []))) =
      omega (arith, same, value-lt t h, ap limb_power longer) in
    let (limbs, len, m) = negate_if-Means minus (t ++ (0 ∷ [])) (omega (arith, longer)) ok' room in
    js_bigint_normalize_exact (negate_if minus (t ++ (0 ∷ []))) _ _ (omega (arith, len, longer))
      limbs (rw same at m)

-- A division of which both operands are scaled.
scaled_division :
    (q b s a rest : ℕ)
    → 1 ≤ b
    → 1 ≤ s
    → rest < b * s
    → q * (b * s) + rest ≡ a * s
    → (q ≡ a / b) × (rest ≡ a % b * s)
scaled_division q b s a rest hb hs lt e =
    let whole = ap (λ (t : ℕ). t * s) (div-add-mod' a b) in
    let fits : a % b * s < b * s = omega (arith, mul-le-mul_right s (mod-lt a hb), hs) in
    let same : q ≡ a / b =
      quotient_unique q (a / b) (b * s) rest (a % b * s) lt fits (omega (arith, e, whole)) in
    (same, omega (arith, e, whole, ap (λ (t : ℕ). t * (b * s)) same))

signed-abs : (v : ℤ) → signed (negative v) (abs v) ≡ v
signed-abs (pos n) = eq_of_parts _ _ (omega arith)
signed-abs (negsuc n) = eq_of_parts _ _ (ground arith)

signed-zero : (minus : Bool) → pos_part (signed minus 0) ≡ neg_part (signed minus 0)
signed-zero true = refl
signed-zero false = refl

-- The operands without signs and without zeros on top.
record Operands (a b r tabb : List ℕ) : Type 0 where
  dividend : Stripped (abs (to_int a)) (length a) r
  divisor : Stripped (abs (to_int b)) (length b) tabb
  nonzero : 1 ≤ abs (to_int b)

top_nonzero : (a b r tabb : List ℕ) → Operands a b r tabb → get_or tabb (length tabb - 1) 0 ≢ 0
top_nonzero a b r tabb o = elim o.divisor.least [
  | inr ne ↦ ne
  | inl one ↦ λ e.
      let (low, v, lt, x_ok, w) = highest_part tabb o.divisor.nonempty o.divisor.limbs_ok in
      let unit : limb_power (length tabb - 1) ≡ 1 =
        let z : length tabb - 1 ≡ 0 = omega (arith, one) in ap limb_power z in
      let d : value tabb ≡ abs (to_int b) = o.divisor.same in
      let n = o.nonzero in
      absurd (omega (arith, v, lt, unit, d, n, ap (λ (t : ℕ). limb_power (length tabb - 1) * t) e))
]

-- A shorter dividend is below the divisor.
shorter-lt :
    (a b r tabb : List ℕ)
    → Operands a b r tabb
    → length r < length tabb
    → abs (to_int a) < abs (to_int b)
shorter-lt a b r tabb o lt =
    let (low, v, small, x_ok, w) = highest_part tabb o.divisor.nonempty o.divisor.limbs_ok in
    let ne = top_nonzero a b r tabb o in
    let some_top : 1 ≤ get_or tabb (length tabb - 1) 0 = omega (arith, ne) in
    let d : value tabb ≡ abs (to_int b) = o.divisor.same in
    let n : value r ≡ abs (to_int a) = o.dividend.same in
    omega (
      arith,
      v,
      d,
      n,
      value-lt r o.dividend.limbs_ok,
      limb_power-le (length r) (length tabb - 1) (omega (arith, lt)),
      mul-le-mul_left (limb_power (length tabb - 1)) some_top,
    )

-- The limbs that the division leaves.
record Results (a b : List ℕ) (r tabb : List ℕ) (s : ℕ) : Type 0 where
  quotient_exact :
      value (mp_divnorm (scale_dividend r s) (scale_divisor tabb s)).quotient
      ≡ abs (to_int a) / abs (to_int b)
  quotient_ok : All IsLimb (mp_divnorm (scale_dividend r s) (scale_divisor tabb s)).quotient
  rest_exact :
      value (unscale_rest (mp_divnorm (scale_dividend r s) (scale_divisor tabb s)).rest s)
      ≡ abs (to_int a) % abs (to_int b)
  rest_ok :
      All IsLimb (unscale_rest (mp_divnorm (scale_dividend r s) (scale_divisor tabb s)).rest s)
  size : length (scale_dividend r s) ≤ length a + 1

divnorm-Results :
    (a b r tabb : List ℕ)
    → Operands a b r tabb
    → length tabb ≤ length r
    → Results a b r tabb (clz64 (get_or tabb (length tabb - 1) 0))
divnorm-Results a b r tabb o le =
    let s = clz64 (get_or tabb (length tabb - 1) 0) in
    let u = abs (to_int a) in
    let v = abs (to_int b) in
    let (hs, eb, bok, blen, norm) =
      scale_divisor_lem tabb o.divisor.nonempty o.divisor.limbs_ok (top_nonzero a b r tabb o) in
    let (er, rok, rlen, rlen') = scale_dividend_lem r s hs o.dividend.limbs_ok in
    let r1 = scale_dividend r s in
    let tabb1 = scale_divisor tabb s in
    let d = mp_divnorm r1 tabb1 in
    let q =
      mp_divnorm_exact r1 tabb1 (omega (arith, blen, o.divisor.nonempty))
        (omega (arith, blen, rlen, le)) rok bok (rw blen norm) in
    let dividend : value r1 ≡ u * 2 ^ s =
      omega (arith, er, ap (λ (t : ℕ). t * 2 ^ s) o.dividend.same) in
    let divisor : value tabb1 ≡ v * 2 ^ s =
      omega (arith, eb, ap (λ (t : ℕ). t * 2 ^ s) o.divisor.same) in
    let (same, rest) =
      scaled_division (value d.quotient) v (2 ^ s) u (value d.rest) o.nonzero
        (one-le-pow s 2 (omega arith)) (omega (arith, q.small, divisor))
        (omega (arith, q.exact, dividend, ap (λ (t : ℕ). value d.quotient * t) divisor)) in
    let (rv, rest_limbs, rl) = unscale_rest_lem d.rest s (u % v) hs q.rest_ok rest in
    record {
      quotient_exact = same;
      quotient_ok = q.quotient_ok;
      rest_exact = rv;
      rest_ok = rest_limbs;
      size = omega (arith, rlen', o.dividend.shorter);
    }

abbrev truncated : Bool → ℤ → ℤ → ℤ
truncated true u v = trunc_rem u v
truncated false u v = trunc_div u v

signed-eq : (m n : Bool) (v w : ℕ) → m ≡ n → v ≡ w → signed m v ≡ signed n w
signed-eq m n v w e f = rw (e, f) refl

Means-transport :
    (a : List ℕ) (v w : ℤ)
    → v ≡ w
    → IsBigInt a × Means a (pos_part v) (neg_part v)
    → IsBigInt a × Means a (pos_part w) (neg_part w)
Means-transport a v w e m = rw e at m

divide_positive-Makes :
    (grants : Grants) (a b r tabb : List ℕ) (is_rem : Bool)
    → IsBigInt a
    → IsBigInt b
    → Operands a b r tabb
    → let v = truncated is_rem (to_int a) (to_int b) in
      Makes grants
        (length a + 2)
        (pos_part v)
        (neg_part v)
        (divide_positive grants a b r tabb is_rem)
unfolding divide_positive
divide_positive-Makes grants a b r tabb true ha hb o =
    elim (Bool-cases (ltb (length r) (length tabb))) [
      | inl t ↦
          let lt = shorter-lt a b r tabb o (ltb→lt _ _ t) in
          let v : trunc_rem (to_int a) (to_int b) ≡ to_int a =
            ap (λ (n : ℕ). signed (negative (to_int a)) n) (mod-eq_of_lt lt)
            ∙ signed-abs (to_int a) in
          rw t (
            Makes-longer grants (length a) (length a + 2) _ _ _ (omega arith)
              (js_bigint_new_plain grants 2 (length a) _ _ a (ha, rw v (to_int-Means a))))
      | inr f ↦
          let w = divnorm-Results a b r tabb o (ltb→le _ _ f) in
          let x = with_zero (not (js_bigint_sign a == 0)) _ w.rest_ok in
          let sign = (negate_if-Unsigned a ha).sign_set in
          let ne = o.divisor.nonempty in
          rw f (
            Makes-longer grants _ (length a + 2) _ _ _ (omega (arith, w.size, ne)) (
              js_bigint_new_plain grants 2 _ _ _ _
                (Means-transport _ _ _ (signed-eq _ _ _ _ sign w.rest_exact) x)))
    ]
divide_positive-Makes grants a b r tabb false ha hb o =
    elim (Bool-cases (ltb (length r) (length tabb))) [
      | inl t ↦
          let lt = shorter-lt a b r tabb o (ltb→lt _ _ t) in
          let none_whole : abs (to_int a) / abs (to_int b) ≡ 0 =
            quotient_unique (abs (to_int a) / abs (to_int b)) 0 (abs (to_int b))
              (abs (to_int a) % abs (to_int b)) (abs (to_int a)) (mod-lt (abs (to_int a)) o.nonzero)
              lt (omega (arith, div-add-mod' (abs (to_int a)) (abs (to_int b)))) in
          rw t (
            zero-Makes grants 2 (length a + 2) _ _
              (rw none_whole (signed-zero (differ (negative (to_int a)) (negative (to_int b))))))
      | inr f ↦
          let w = divnorm-Results a b r tabb o (ltb→le _ _ f) in
          let x =
            with_zero (not (bit_xor (js_bigint_sign a) (js_bigint_sign b) == 0)) _ w.quotient_ok in
          let ne = o.divisor.nonempty in
          rw f (
            Makes-longer grants _ (length a + 2) _ _ _ (omega (arith, w.size, ne)) (
              js_bigint_new_plain grants 2 _ _ _ _ (
                Means-transport _ _ _
                  (signed-eq _ _ _ _ (sign_of_quotient a b ha hb) w.quotient_exact) x)))
    ]

nonzero_abs : (v : ℤ) → v ≢ pos 0 → 1 ≤ abs v
nonzero_abs (pos zero) ne = absurd (ne refl)
nonzero_abs (pos (suc n)) ne = omega arith
nonzero_abs (negsuc n) ne = omega arith

js_bigint_divrem-Makes :
    (grants : Grants) (a b : List ℕ) (is_rem : Bool)
    → IsBigInt a
    → IsBigInt b
    → to_int b ≢ pos 0
    → let v = truncated is_rem (to_int a) (to_int b) in
      Makes grants (length a + 2) (pos_part v) (neg_part v) (js_bigint_divrem grants a b is_rem)
unfolding js_bigint_divrem
js_bigint_divrem-Makes grants a b is_rem ha hb ne =
    let ua = negate_if-Unsigned a ha in
    let ub = negate_if-Unsigned b hb in
    let ma = negate_if (not (js_bigint_sign a == 0)) a in
    let mb = negate_if (not (js_bigint_sign b == 0)) b in
    let sa = strip-Stripped ma (omega (arith, ua.same_length, ha.nonempty)) ua.limbs_ok in
    let sb = strip-Stripped mb (omega (arith, ub.same_length, hb.nonempty)) ub.limbs_ok in
    let o : Operands a b (strip ma) (strip mb) = record {
      dividend = stripped_to ma _ _ _ _ ua.same ua.same_length sa;
      divisor = stripped_to mb _ _ _ _ ub.same ub.same_length sb;
      nonzero = nonzero_abs (to_int b) ne;
    } in
    let d = divide_positive-Makes grants a b (strip ma) (strip mb) is_rem ha hb o in
    elim (Bool-cases (is_zero b)) [
      | inl z ↦ absurd (ne (is_zero-to_int b z))
      | inr nz ↦ rw nz (
          js_bigint_new_rule grants 0 (length a + 2) _ _ ma _
            (elim (Bool-cases (grants 1 (length b))) [
              | inl g ↦ rw g d
              | inr g ↦ rw g (1, length b, g)
            ]))
    ]
  where
    stripped_to :
        (m : List ℕ) (v w l n : ℕ) → v ≡ w → l ≡ n → Stripped v l (strip m) → Stripped w n (strip m)
    stripped_to m v w l n e f s = rw (e, f) at s

-- `js_bigint_divrem` by a number that is not 0 is the quotient rounded towards 0, or the remainder,
-- which has the sign of the dividend; the result has the least length, unless the operand would be
-- too large for the two more limbs or a request is not granted.
pub js_bigint_divrem_exact :
    (grants : Grants) (a b : List ℕ)
    → IsBigInt a
    → IsBigInt b
    → to_int b ≢ pos 0
    → Yields grants
        (length a + 2)
        (trunc_div (to_int a) (to_int b))
        (js_bigint_divrem grants a b false)
      × Yields grants
          (length a + 2)
          (trunc_rem (to_int a) (to_int b))
          (js_bigint_divrem grants a b true)
js_bigint_divrem_exact grants a b ha hb ne = (
  Makes-Yields grants (length a + 2) _ _ (js_bigint_divrem-Makes grants a b false ha hb ne),
  Makes-Yields grants (length a + 2) _ _ (js_bigint_divrem-Makes grants a b true ha hb ne),
)
