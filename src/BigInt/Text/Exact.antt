-- ===== src/BigInt/Text/Exact.antt =====
-- quickjs.c: `js_bigint_from_string` on decimal digits.
use go_quickjs.Base.{
  ℕ, suc, ◌+◌, ◌-◌, ◌*◌, ◌/◌, ◌^◌, ◌≤◌, ◌<◌, ◌≡◌, inl, inr, refl, sym, ap, ◌∙◌, arith, List, [],
  ◌∷◌, ◌++◌, length, All, get_or, ltb, ltb→lt, Bool, true, false, Bool-cases, ◌==◌, ==→eq, some,
  length-append, if◌then◌else◌,
}
use Prim.Native.Nat.{max}
use native.Mathlib.Nat.{mul-le-mul_left}
use go_quickjs.Base.Int.{ℤ, pos, signed, ◌-ℤ◌, -ℤ_parts, eq_of_parts}
use go_quickjs.BigInt.{
  js_bigint_new, js_bigint_normalize, js_bigint_neg, Grants, Result, later, ok, range_error,
  out_of_memory, max_size, ◌>>=◌,
}
use go_quickjs.BigInt.Sign.{to_int, Means, Means-to_int, IsBigInt, Yields, highest_part}
use go_quickjs.BigInt.Normal.{js_bigint_normalize_exact}
use go_quickjs.BigInt.Multiply.{HasSign-Means}
use go_quickjs.BigInt.Sum.{js_bigint_neg_exact}
use go_quickjs.BigInt.Arrays.Value.{value, limb_power, value-lt, value-append, IsLimb-append}
use go_quickjs.BigInt.Text.{
  skip_zeros, decimal_loop, sign_limb, limbs_for, from_digits, js_bigint_from_string,
}
use go_quickjs.BigInt.Text.Room.{decimal-lt, length-le, sign_limb-le, within_lem}
use go_quickjs.BigInt.Text.Read.{
  IsDecimal, decimal, Reads, decimal_loop-Reads, decimal_loop-NoExcess,
}

-- The leading zeros say nothing.
skip_zeros_lem :
    (p : List ℕ)
    → All IsDecimal p
    → (decimal (skip_zeros p) 0 ≡ decimal p 0)
      × All IsDecimal (skip_zeros p)
      × (length (skip_zeros p) ≤ length p)
skip_zeros_lem [] h = (refl, tt, omega arith)
skip_zeros_lem (c ∷ p) (hc, h) = elim (Bool-cases (c == 48)) [
  | inl z ↦
      let (d, all, l) = skip_zeros_lem p h in
      let first : 0 * 10 + (c - 48) ≡ 0 = let e = ==→eq _ _ z in omega (arith, e) in
      rw (z, first) (d, all, omega (arith, l))
  | inr o ↦ rw o (refl, (hc, h), omega arith)
]

sign_limb-Means :
    (r : List ℕ) (v : ℕ)
    → Reads v r
    → IsBigInt (js_bigint_normalize (sign_limb r)) × Means (js_bigint_normalize (sign_limb r)) v 0
unfolding sign_limb
sign_limb-Means r v h =
    let (low, e, lt, limb_ok, w) = highest_part r h.nonempty h.limbs_ok in
    let top = get_or r (length r - 1) 0 in
    let p = limb_power (length r - 1) in
    elim (Bool-cases (top / 2 ^ 63 == 0)) [
      | inl z ↦
          let small : top + 1 ≤ 2 ^ 63 = let e' = ==→eq _ _ z in omega (arith, e') in
          let room : 2 * value r < limb_power (length r) =
            omega (arith, e, lt, w, mul-le-mul_left p small) in
          rw z (
            js_bigint_normalize_exact r v 0 h.nonempty h.limbs_ok (
              HasSign-Means r 0 v 0 _ h.nonempty h.limbs_ok refl (inl (refl, room))
                (omega (arith, h.same))))
      | inr o ↦
          let t = r ++ (0 ∷ []) in
          let l : length t ≡ suc (length r) = omega (arith, length-append r (0 ∷ [])) in
          let same : value t ≡ v = omega (arith, h.same, value-append r (0 ∷ [])) in
          let limbs = IsLimb-append r (0 ∷ []) h.limbs_ok (omega arith, tt) in
          let room : 2 * value t < limb_power (length t) =
            omega (arith, same, h.same, value-lt r h.limbs_ok, ap limb_power l) in
          rw o (
            js_bigint_normalize_exact t v 0 (omega (arith, l)) limbs (
              HasSign-Means t 0 v 0 _ (omega (arith, l)) limbs refl (inl (refl, room))
                (omega (arith, same))))
    ]

minus-eq : (v : ℕ) → pos 0 -ℤ pos v ≡ signed true v
minus-eq v = eq_of_parts _ _ (ground (arith, -ℤ_parts (pos 0) (pos v)))

-- The requests of the negation come after the first one.
Yields-later :
    (grants : Grants) (l m : ℕ) (v w : ℤ) (r : Result)
    → l ≤ m
    → v ≡ w
    → Yields (later 1 grants) l v r
    → Yields grants m w r
Yields-later grants l m v w (ok r) le e (b, same) = (b, same ∙ e)
Yields-later grants l m v w range_error le e h = omega (arith, h, le)
Yields-later grants l m v w out_of_memory le e (k, n, g) = (k + 1, n, g)

new-Yields :
    (grants : Grants) (n : ℕ) (v : ℤ) (tab : List ℕ) (f : List ℕ → Result)
    → Yields grants n v (f tab)
    → Yields grants n v (js_bigint_new grants 0 n tab >>= f)
unfolding js_bigint_new
new-Yields grants n v tab f h = elim (Bool-cases (ltb max_size n)) [
  | inl t ↦ rw t (ltb→lt _ _ t)
  | inr s ↦ rw s (elim (Bool-cases (grants 0 n)) [ inl g ↦ rw g h | inr g ↦ rw g (0, n, g) ])
]

-- A text of digits, with a minus sign in front of it or not.
abbrev pub signed_text : Bool → List ℕ → List ℕ
signed_text true ds = 45 ∷ ds
signed_text false ds = ds

sign_result :
    (grants : Grants) (minus : Bool) (n v : ℕ) (r : List ℕ)
    → IsBigInt r
    → to_int r ≡ pos v
    → length r ≤ n
    → Yields grants n (signed minus v) (if minus then js_bigint_neg (later 1 grants) r else ok r)
sign_result grants true n v r is e le =
    Yields-later grants (length r) n _ _ _ le (ap (λ (t : ℤ). pos 0 -ℤ t) e ∙ minus-eq v)
      (js_bigint_neg_exact (later 1 grants) r is)
sign_result grants false n v r is e le = (is, e)

from_digits-Yields :
    (grants : Grants) (minus : Bool) (ds : List ℕ)
    → All IsDecimal ds
    → length ds * 27 + 7 < 2 ^ 31
    → (r : Result) × (from_digits grants minus ds 10 ≡ some r)
      × Yields grants
          ((length (skip_zeros ds) * 27 + 7) / 8 / 64 + 1)
          (signed minus (decimal ds 0))
          r
unfolding from_digits limbs_for
from_digits-Yields grants minus ds h le =
    let p = skip_zeros ds in
    let (same, all, shorter) = skip_zeros_lem ds h in
    let limit : ltb (length p * 27 + 7) (2 ^ 31) ≡ true = ground (arith, le, shorter) in
    let n = (length p * 27 + 7) / 8 / 64 + 1 in
    let one : max 1 n ≡ n = omega arith in
    let q =
      decimal_loop-Reads (length p) p (0 ∷ []) (omega arith) all (omega arith, tt) (omega arith) in
    let r = js_bigint_normalize (sign_limb (decimal_loop (length p) p (0 ∷ []))) in
    let (is, m) = sign_limb-Means (decimal_loop (length p) p (0 ∷ [])) (decimal p 0) q in
    let v = Means-to_int r (pos (decimal p 0)) m in
    let below : decimal p 0 < 10 ^ length p = omega (arith, decimal-lt p 0 all) in
    let fits = length-le r (decimal p 0) (length p) is m below in
    let ex =
      decimal_loop-NoExcess (length p) p (0 ∷ []) all (omega arith, tt) (omega arith) (inl refl) in
    let stays = within_lem (max 1 n) (sign_limb (decimal_loop (length p) p (0 ∷ []))) (
      rw one
        (sign_limb-le (decimal_loop (length p) p (0 ∷ [])) (decimal p 0) (length p) q ex below)) in
    let result =
      js_bigint_new grants 0 (max 1 n) r
      >>= (λ r. if minus then js_bigint_neg (later 1 grants) r else ok r) in
    (
      result,
      rw (from_digits, limit) (rw stays refl),
      rw (one, sym same)
          (new-Yields grants n _ r _ (sign_result grants minus n (decimal p 0) r is v fits)),
    )

-- `js_bigint_from_string` reads decimal digits, with a minus sign in front of them or not, of which
-- there are few enough for an `int` to count their bits: it writes nothing past the end of the array
-- that it asks for, and the result stands for the number and has the least length. A RangeError is
-- only for more than `max_size` limbs counted for the digits, and no memory only when a request is not
-- granted.
pub js_bigint_from_string_exact :
    (grants : Grants) (minus : Bool) (ds : List ℕ)
    → All IsDecimal ds
    → length ds * 27 + 7 < 2 ^ 31
    → (r : Result) × (js_bigint_from_string grants (signed_text minus ds) 10 ≡ some r)
      × Yields grants
          ((length (skip_zeros ds) * 27 + 7) / 8 / 64 + 1)
          (signed minus (decimal ds 0))
          r
unfolding js_bigint_from_string
js_bigint_from_string_exact grants true ds h le = from_digits-Yields grants true ds h le
js_bigint_from_string_exact grants false [] h le = from_digits-Yields grants false [] h le
js_bigint_from_string_exact grants false (c ∷ ds) (hc, h) le =
    let plain : (c == 45) ≡ false = ground arith in
    rw plain (from_digits-Yields grants false (c ∷ ds) (hc, h) le)
