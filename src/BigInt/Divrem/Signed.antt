-- ===== src/BigInt/Divrem/Signed.antt =====
-- quickjs.c, `js_bigint_divrem`: the signs that are taken off the operands and given to the result.
use go_quickjs.Base.{
  ℕ, zero, suc, ◌+◌, ◌-◌, ◌*◌, ◌≤◌, ◌<◌, ◌≡◌, ◌⊎◌, inl, inr, refl, ap, arith, List, length, All,
  Bool, true, false, not, ◌==◌, bit_xor,
}
use go_quickjs.Base.Int.{ℤ, pos, negsuc, pos_part, neg_part, abs, negative, signed, differ}
use go_quickjs.BigInt.{js_bigint_sign}
use go_quickjs.BigInt.Sign.{to_int, Means, IsBigInt}
use go_quickjs.BigInt.Multiply.{sign-Magnitude, HasSign-Means}
use go_quickjs.BigInt.Arrays.{mp_neg}
use go_quickjs.BigInt.Arrays.Value.{IsLimb, value, limb_power, value-lt}
use go_quickjs.BigInt.Arrays.Linear.{mp_neg_exact}
use go_quickjs.BigInt.Divrem.{negate_if}

minus_parts : (n : ℕ) → (pos_part (signed true n) ≡ 0) × (neg_part (signed true n) ≡ n)
minus_parts n = (ground arith, ground arith)

-- `mp_neg` has no carry but for 0.
no_carry : (out v t p : ℕ) → out ≤ 1 → 1 ≤ t → t ≤ p → v + out * p ≡ p - t → v ≡ p - t
no_carry zero v t p h k l e = omega arith
no_carry (suc zero) v t p h k l e = absurd (omega arith)
no_carry (suc (suc out)) v t p h k l e = absurd (omega arith)

-- The number under the other sign, as long as there is room for it.
pub negate_if-Means :
    (minus : Bool) (t : List ℕ)
    → 1 ≤ length t
    → All IsLimb t
    → 2 * value t < limb_power (length t)
    → All IsLimb (negate_if minus t)
      × (length (negate_if minus t) ≡ length t)
      × Means
          (negate_if minus t)
          (pos_part (signed minus (value t)))
          (neg_part (signed minus (value t)))
unfolding negate_if
negate_if-Means false t ne h lt =
    (h, refl, HasSign-Means t 0 _ _ _ ne h refl (inl (refl, lt)) (omega arith))
negate_if-Means true t ne h lt =
    let w = mp_neg_exact t h in
    let u = (mp_neg t).tab in
    let out = (mp_neg t).out in
    let p = limb_power (length t) in
    let power = ap limb_power w.same_length in
    let (no_pos, neg) = minus_parts (value t) in
    let fits : value u < p = let f = value-lt u w.limbs_ok in omega (arith, f, power) in
    let ne' : 1 ≤ length u = omega (arith, w.same_length, ne) in
    (
      w.limbs_ok,
      w.same_length,
      elim (zero_or_more (value t)) [
        | inl z ↦
            let none_left : value u ≡ 0 =
              (multiple out (value u) p w.small fits (omega (arith, w.exact, z))).0 in
            HasSign-Means u 0 _ _ p ne' w.limbs_ok power (inl (refl, omega (arith, none_left, lt)))
              (omega (arith, none_left, no_pos, neg, z))
        | inr some_left ↦
            let exact : value u ≡ p - value t =
              (no_carry out (value u) (value t) p w.small some_left (omega (arith, lt)) w.exact) in
            HasSign-Means u 1 _ _ p ne' w.limbs_ok power (inr (refl, omega (arith, exact, lt)))
              (omega (arith, exact, no_pos, neg, lt))
      ],
    )
  where
    zero_or_more : (n : ℕ) → (n ≡ 0) ⊎ (1 ≤ n)
    zero_or_more zero = inl refl
    zero_or_more (suc n) = inr (omega arith)

    multiple : (out v p : ℕ) → out ≤ 1 → v < p → v + out * p ≡ p → (v ≡ 0) × (out ≡ 1)
    multiple zero v p h lt e = absurd (omega arith)
    multiple (suc zero) v p h lt e = (omega arith, refl)
    multiple (suc (suc out)) v p h lt e = absurd (omega arith)

-- An operand without its sign.
pub record Unsigned (a m : List ℕ) : Type 0 where
  pub same : value m ≡ abs (to_int a)
  pub limbs_ok : All IsLimb m
  pub same_length : length m ≡ length a
  pub sign_bit : (js_bigint_sign a == 1) ≡ negative (to_int a)
  pub sign_set : not (js_bigint_sign a == 0) ≡ negative (to_int a)

sign_of_parts :
    (v : ℤ) → ((neg_part v ≡ 0) → negative v ≡ false) × ((1 ≤ neg_part v) → negative v ≡ true)
sign_of_parts (pos n) = (λ h. refl, λ h. absurd (omega arith))
sign_of_parts (negsuc n) = (λ h. absurd (omega arith), λ h. refl)

pub negate_if-Unsigned :
    (a : List ℕ) → IsBigInt a → Unsigned a (negate_if (not (js_bigint_sign a == 0)) a)
unfolding negate_if
negate_if-Unsigned a h = elim (sign-Magnitude a h.nonempty h.limbs_ok) [
  | inl (z, x, y, lt) ↦
      let f = (sign_of_parts (to_int a)).0 y in
      let eq0 : (js_bigint_sign a == 0) ≡ true = ap (λ (s : ℕ). s == 0) z in
      let eq1 : (js_bigint_sign a == 1) ≡ false = ap (λ (s : ℕ). s == 1) z in
      rw eq0 (record {
        same = omega (arith, x, y);
        limbs_ok = h.limbs_ok;
        same_length = refl;
        sign_bit = rw (eq1, f) refl;
        sign_set = rw (eq0, f) refl;
      })
  | inr (o, x, y, le, some_left) ↦
      let f = (sign_of_parts (to_int a)).1 some_left in
      let eq0 : (js_bigint_sign a == 0) ≡ false = ap (λ (s : ℕ). s == 0) o in
      let eq1 : (js_bigint_sign a == 1) ≡ true = ap (λ (s : ℕ). s == 1) o in
      let w = mp_neg_exact a h.limbs_ok in
      let p = limb_power (length a) in
      let fits : value (mp_neg a).tab < p =
        let f = value-lt (mp_neg a).tab w.limbs_ok in
        omega (arith, f, ap limb_power w.same_length) in
      let some_value : 1 ≤ value a = omega (arith, y, le, some_left) in
      let exact : value (mp_neg a).tab ≡ p - value a =
        no_carry (mp_neg a).out (value (mp_neg a).tab) (value a) p w.small some_value
          (omega (arith, y)) w.exact in
      rw eq0 (record {
        same = omega (arith, x, y, exact);
        limbs_ok = w.limbs_ok;
        same_length = w.same_length;
        sign_bit = rw (eq1, f) refl;
        sign_set = rw (eq0, f) refl;
      })
]

-- The sign of the quotient.
pub sign_of_quotient :
    (a b : List ℕ)
    → IsBigInt a
    → IsBigInt b
    → not (bit_xor (js_bigint_sign a) (js_bigint_sign b) == 0)
      ≡ differ (negative (to_int a)) (negative (to_int b))
sign_of_quotient a b ha hb = elim (sign-Magnitude a ha.nonempty ha.limbs_ok) [
  | inl (z, x, y, lt) ↦ elim (sign-Magnitude b hb.nonempty hb.limbs_ok) [
    | inl (z', x', y', lt') ↦
        rw ((sign_of_parts (to_int a)).0 y, (sign_of_parts (to_int b)).0 y', z, z') refl
    | inr (o', x', y', le', k') ↦
        rw ((sign_of_parts (to_int a)).0 y, (sign_of_parts (to_int b)).1 k', z, o') refl
  ]
  | inr (o, x, y, le, k) ↦ elim (sign-Magnitude b hb.nonempty hb.limbs_ok) [
    | inl (z', x', y', lt') ↦
        rw ((sign_of_parts (to_int a)).1 k, (sign_of_parts (to_int b)).0 y', o, z') refl
    | inr (o', x', y', le', k') ↦
        rw ((sign_of_parts (to_int a)).1 k, (sign_of_parts (to_int b)).1 k', o, o') refl
  ]
]
