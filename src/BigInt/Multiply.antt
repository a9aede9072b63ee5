-- ===== src/BigInt/Multiply.antt =====
-- quickjs.c: `js_bigint_mul`, the product of the arrays with the corrections for negative operands.
use go_quickjs.Base.{
  ℕ, zero, suc, ◌+◌, ◌-◌, ◌*◌, ◌≤◌, ◌<◌, ◌≡◌, ◌⊎◌, inl, inr, refl, sym, ap, ◌∙◌, arith, List, [],
  ◌∷◌, length, All, take, drop, ◌==◌, length-append,
}
use native.Mathlib.Nat.{mul-le-mul}
use go_quickjs.Base.Int.{pos_part, neg_part, ◌*ℤ◌, *ℤ_parts}
use go_quickjs.BigInt.{js_bigint_sign, sub_high, js_bigint_mul, js_bigint_normalize, Grants}
use go_quickjs.BigInt.Sign.{to_int, Means, IsBigInt, Yields, sign-lt, sign_bounds, sign_of_bounds}
use go_quickjs.BigInt.Extend.{Makes-Yields, js_bigint_new_plain}
use go_quickjs.BigInt.Normal.{take-IsLimb, js_bigint_normalize_exact}
use go_quickjs.BigInt.Arrays.{mp_sub, mp_mul_basecase}
use go_quickjs.BigInt.Arrays.Value.{
  IsLimb, value, limb_power, value-lt, value-append, IsLimb-append,
}
use go_quickjs.BigInt.Arrays.Linear.{mp_sub_exact}
use go_quickjs.BigInt.Arrays.Product.{mp_mul_basecase_exact}

-- An array, cut at limb `n`.
pub cut_value :
    (n : ℕ) (r : List ℕ)
    → n ≤ length r
    → All IsLimb r
    → (value r ≡ value (take n r) + limb_power n * value (drop n r))
      × (length (drop n r) ≡ length r - n)
      × (length (take n r) ≡ n)
      × All IsLimb (drop n r)
cut_value zero r h hr = (omega arith, omega arith, refl, hr)
cut_value (suc n) [] h hr = absurd (omega arith)
cut_value (suc n) (x ∷ r) h (hx, hr) =
    let (v, d, t, ok) = cut_value n r (omega arith) hr in
    (omega (arith, v), omega (arith, d), omega (arith, t), ok)

pub limb_power-add : (m n : ℕ) → limb_power (m + n) ≡ limb_power m * limb_power n
limb_power-add zero n = let e : 0 + n ≡ n = omega arith in omega (arith, ap limb_power e)
limb_power-add (suc m) n =
    let e : suc m + n ≡ suc (m + n) = omega arith in
    omega (arith, limb_power-add m n, ap limb_power e)

-- The correction for the sign `s` of the other operand: `b` is taken away from limb `n` on, up to
-- a borrow out of the array.
record Corrected (s n : ℕ) (r b tab : List ℕ) : Type 0 where
  borrow : ℕ
  exact : value tab + s * (limb_power n * value b) ≡ value r + borrow * limb_power (length r)
  limbs_ok : All IsLimb tab
  same_length : length tab ≡ length r
  small : borrow ≤ 1

sub_high_exact :
    (s n : ℕ) (r b : List ℕ)
    → s ≤ 1
    → length r ≡ n + length b
    → All IsLimb r
    → All IsLimb b
    → Corrected s n r b (sub_high (s == 1) r n b)
unfolding sub_high
sub_high_exact zero n r b hs e hr hb = record {
  borrow = 0;
  exact = omega arith;
  limbs_ok = hr;
  same_length = refl;
  small = omega arith;
}
sub_high_exact (suc (suc s)) n r b hs e hr hb = absurd (omega arith)
sub_high_exact (suc zero) n r b hs e hr hb =
    let (v, d, t, ok) = cut_value n r (omega (arith, e)) hr in
    let w = mp_sub_exact (drop n r) b 0 (omega (arith, d, e)) ok hb (omega arith) in
    let low = take n r in
    let high = (mp_sub (drop n r) b 0).tab in
    let out = (mp_sub (drop n r) b 0).out in
    let p : limb_power n * (out * limb_power (length (drop n r))) ≡ out * limb_power (length r) =
      let both : n + length (drop n r) ≡ length r = omega (arith, d, e) in
      omega (
        arith,
        ap (λ (k : ℕ). out * k) (sym (limb_power-add n (length (drop n r))) ∙ ap limb_power both),
      ) in
    record {
      borrow = out;
      exact = omega (
        arith,
        v,
        p,
        value-append low high,
        ap (λ (k : ℕ). limb_power k * value high) t,
        ap (λ (k : ℕ). limb_power n * k) w.exact,
      );
      limbs_ok = IsLimb-append low high (take-IsLimb n r hr) w.limbs_ok;
      same_length = omega (arith, length-append low high, t, w.same_length, d, e);
      small = w.small;
    }

-- The sign, and how far a number is from 0: at most half of the power of the limbs.
abbrev pub Magnitude : List ℕ → Type 0
Magnitude a =
    ((js_bigint_sign a ≡ 0)
      × (pos_part (to_int a) ≡ value a)
      × (neg_part (to_int a) ≡ 0)
      × (2 * value a < limb_power (length a)))
    ⊎ ((js_bigint_sign a ≡ 1)
        × (pos_part (to_int a) ≡ 0)
        × (neg_part (to_int a) + value a ≡ limb_power (length a))
        × (2 * neg_part (to_int a) ≤ limb_power (length a))
        × (1 ≤ neg_part (to_int a)))

pub sign-Magnitude : (a : List ℕ) → 1 ≤ length a → All IsLimb a → Magnitude a
sign-Magnitude a h hl = elim (sign_bounds a h hl) [
  | inl (s, lt) ↦ rw s (inl (refl, ground arith, ground arith, lt))
  | inr (s, le, lt) ↦ rw s (inr (refl, ground arith, ground arith, ground arith, ground arith))
]

-- The sign that a number below the power `m` has.
abbrev pub HasSign : ℕ → ℕ → ℕ → Type 0
HasSign s v m = ((s ≡ 0) × (2 * v < m)) ⊎ ((s ≡ 1) × (m ≤ 2 * v))

pub HasSign-Means :
    (a : List ℕ) (s p k m : ℕ)
    → 1 ≤ length a
    → All IsLimb a
    → limb_power (length a) ≡ m
    → HasSign s (value a) m
    → value a + k ≡ p + s * m
    → Means a p k
HasSign-Means a s p k m ne hl e h v =
    let is : js_bigint_sign a ≡ s = sign_of_bounds a s ne hl (rw e h) in rw (is, e) v

-- `d` counts the borrow that the true product has none of.
positive_case :
    (u m r c d p k : ℕ)
    → r < m
    → 4 * u ≤ m
    → c ≤ 2
    → d ≤ 1
    → r + d * m ≡ u + c * m
    → p ≡ k + u
    → (s : ℕ) × HasSign s r m × (r + k ≡ p + s * m)
positive_case u m r zero zero p k lt le hc hd e f = (0, inl (refl, omega arith), omega arith)
positive_case u m r (suc zero) zero p k lt le hc hd e f = absurd (omega arith)
positive_case u m r (suc (suc c)) zero p k lt le hc hd e f = absurd (omega arith)
positive_case u m r zero (suc zero) p k lt le hc hd e f = absurd (omega arith)
positive_case u m r (suc zero) (suc zero) p k lt le hc hd e f =
    (0, inl (refl, omega arith), omega arith)
positive_case u m r (suc (suc zero)) (suc zero) p k lt le hc hd e f = absurd (omega arith)
positive_case u m r (suc (suc (suc c))) (suc d) p k lt le hc hd e f = absurd (omega arith)
positive_case u m r c (suc (suc d)) p k lt le hc hd e f = absurd (omega arith)

negative_case :
    (u m r c p k : ℕ)
    → r < m
    → 4 * u ≤ m
    → c ≤ 2
    → r + u ≡ c * m
    → p + u ≡ k
    → (s : ℕ) × HasSign s r m × (r + k ≡ p + s * m)
negative_case u m r zero p k lt le hc e f = (0, inl (omega arith, omega arith), omega arith)
negative_case u m r (suc zero) p k lt le hc e f = (1, inr (omega arith, omega arith), omega arith)
negative_case u m r (suc (suc zero)) p k lt le hc e f = absurd (omega arith)
negative_case u m r (suc (suc (suc c))) p k lt le hc e f = absurd (omega arith)

quarter : (u w m n : ℕ) → 2 * u ≤ m → 2 * w ≤ n → 4 * (u * w) ≤ m * n
quarter u w m n h k = omega (arith, mul-le-mul h k)

-- The array after both corrections stands for the product.
corrected_product :
    (a b : List ℕ) (r c : ℕ)
    → Magnitude a
    → Magnitude b
    → r < limb_power (length a) * limb_power (length b)
    → c ≤ 2
    → r
        + js_bigint_sign a * (limb_power (length a) * value b)
        + js_bigint_sign b * (limb_power (length b) * value a)
      ≡ value a * value b + c * (limb_power (length a) * limb_power (length b))
    → (s : ℕ) × HasSign s r (limb_power (length a) * limb_power (length b))
      × (r + neg_part (to_int a *ℤ to_int b)
          ≡ pos_part (to_int a *ℤ to_int b) + s * (limb_power (length a) * limb_power (length b)))
corrected_product a b r c ma mb lt hc e =
    let va = value a in
    let vb = value b in
    let pa = limb_power (length a) in
    let pb = limb_power (length b) in
    let na = neg_part (to_int a) in
    let nb = neg_part (to_int b) in
    let parts = *ℤ_parts (to_int a) (to_int b) in
    elim ma [
      | inl (sa, xa, ya, la) ↦ elim mb [
        | inl (sb, xb, yb, lb) ↦
            let e' = rw (sa, sb) at e in
            let parts' = rw (xa, ya, xb, yb) at parts in
            positive_case (va * vb) (pa * pb) r c 0 _ _ lt
              (quarter va vb pa pb (omega arith) (omega arith)) hc (omega arith) (omega (arith, e'))
              (omega (arith, parts'))
        | inr (sb, xb, yb, lb, lb') ↦
            let e' = rw (sa, sb) at e in
            let parts' = rw (xa, ya, xb) at parts in
            negative_case (va * nb) (pa * pb) r c _ _ lt (quarter va nb pa pb (omega arith) lb) hc
              (omega (arith, e', ap (λ (t : ℕ). t * va) yb)) (omega (arith, parts'))
      ]
      | inr (sa, xa, ya, la, la') ↦ elim mb [
        | inl (sb, xb, yb, lb) ↦
            let e' = rw (sa, sb) at e in
            let parts' = rw (xa, xb, yb) at parts in
            negative_case (na * vb) (pa * pb) r c _ _ lt (quarter na vb pa pb la (omega arith)) hc
              (omega (arith, e', ap (λ (t : ℕ). t * vb) ya)) (omega (arith, parts'))
        | inr (sb, xb, yb, lb, lb') ↦
            let e' = rw (sa, sb) at e in
            let parts' = rw (xa, xb) at parts in
            positive_case (na * nb) (pa * pb) r c 1 _ _ lt (quarter na nb pa pb la lb) hc
              (omega arith)
              (omega (
                arith,
                e',
                ap (λ (t : ℕ). t * vb) ya,
                ap (λ (t : ℕ). t * na) yb,
                ap (λ (t : ℕ). t * pb) ya,
              ))
              (omega (arith, parts'))
      ]
    ]

-- `js_bigint_mul` is the product: the result stands for it and has the least length, unless both
-- operands have together too many limbs or the request is not granted.
pub js_bigint_mul_exact :
    (grants : Grants) (a b : List ℕ)
    → IsBigInt a
    → IsBigInt b
    → Yields grants (length a + length b) (to_int a *ℤ to_int b) (js_bigint_mul grants a b)
unfolding js_bigint_mul
js_bigint_mul_exact grants a b ha hb =
    let n = length a + length b in
    let v = to_int a *ℤ to_int b in
    let r0 = mp_mul_basecase a b in
    let p = mp_mul_basecase_exact a b hb.nonempty ha.limbs_ok hb.limbs_ok in
    let sa : js_bigint_sign a ≤ 1 = omega (arith, sign-lt a ha.nonempty ha.limbs_ok) in
    let sb : js_bigint_sign b ≤ 1 = omega (arith, sign-lt b hb.nonempty hb.limbs_ok) in
    let r1 = sub_high (js_bigint_sign a == 1) r0 (length a) b in
    let c1 : Corrected (js_bigint_sign a) (length a) r0 b r1 =
      sub_high_exact (js_bigint_sign a) (length a) r0 b sa p.exact_length p.limbs_ok hb.limbs_ok in
    let r2 = sub_high (js_bigint_sign b == 1) r1 (length b) a in
    let c2 : Corrected (js_bigint_sign b) (length b) r1 a r2 =
      sub_high_exact (js_bigint_sign b) (length b) r1 a sb
        (omega (arith, c1.same_length, p.exact_length)) c1.limbs_ok ha.limbs_ok in
    let len : length r2 ≡ n = omega (arith, c1.same_length, c2.same_length, p.exact_length) in
    let whole : (t : List ℕ)
        → length t ≡ n
        → limb_power (length t) ≡ limb_power (length a) * limb_power (length b) =
      λ t h. ap limb_power h ∙ limb_power-add (length a) (length b) in
    let power : limb_power (length r2) ≡ limb_power (length a) * limb_power (length b) =
      whole r2 len in
    let c = c1.borrow + c2.borrow in
    let power0 = ap (λ (k : ℕ). c1.borrow * k) (whole r0 p.exact_length) in
    let power1 = ap (λ (k : ℕ). c2.borrow * k) (whole r1 (c1.same_length ∙ p.exact_length)) in
    let (s, sign, m) =
      corrected_product a b (value r2) c (sign-Magnitude a ha.nonempty ha.limbs_ok)
        (sign-Magnitude b hb.nonempty hb.limbs_ok) (rw power at (value-lt r2 c2.limbs_ok))
        (omega (arith, c1.small, c2.small))
        (omega (arith, c1.exact, c2.exact, p.same, power0, power1)) in
    let ne : 1 ≤ length r2 = omega (arith, len, ha.nonempty) in
    Makes-Yields grants n v _ (
      js_bigint_new_plain grants 0 n _ _ (js_bigint_normalize r2) (
        js_bigint_normalize_exact r2 _ _ ne c2.limbs_ok
          (HasSign-Means r2 s _ _ _ ne c2.limbs_ok power sign m)))
