-- ===== src/Dtoa/Big/Sticky.antt =====
-- dtoa.c: the bits below the rounding bit, joined by `|`.
use go_quickjs.Base.{
  ℕ, zero, suc, ◌+◌, ◌-◌, ◌*◌, ◌/◌, ◌%◌, ◌^◌, ◌≤◌, ◌<◌, ◌≡◌, ◌↔◌, refl, ap, ◌∙◌, arith, List, [],
  ◌∷◌, length, take, drop, get_or, All, ltb, leb, bit_and, bit_or, Bool-cases, inl, inr, ltb→lt,
}
use native.Mathlib.Nat.{mod-eq_of_lt, add-mul-mod_self_left}
use go_quickjs.Base.Bits.{and_mask, bit_or-eq-zero}
use go_quickjs.Dtoa.Limbs.Value.{IsLimb, value, limb_power}
use go_quickjs.Dtoa.Limbs.Shift.{limb_cut}
use go_quickjs.Dtoa.Big.{or_limbs, sticky}
use go_quickjs.Dtoa.Big.Length.{take_all}
use go_quickjs.Dtoa.Big.Bits.{
  value-shift, value-shift_out, pow-limb_power, get_or-drop, limb_power-pos,
}

or_limbs-eq-zero :
    (n : ℕ) (tab : List ℕ) (acc : ℕ)
    → (or_limbs n tab acc ≡ 0) ↔ ((acc ≡ 0) × (value (take n tab) ≡ 0))
unfolding or_limbs
or_limbs-eq-zero zero tab acc = (λ e. (e, refl), λ (p, q). p)
or_limbs-eq-zero (suc n) [] acc = (λ e. (e, refl), λ (p, q). p)
or_limbs-eq-zero (suc n) (x ∷ xs) acc =
    let ih = or_limbs-eq-zero n xs (bit_or acc x) in
    let both = bit_or-eq-zero acc x in
    (
      λ e. (let (p, q) = ih.0 e in let (r, t) = both.0 p in (r, omega (arith, q, t))),
      λ (p, q). ih.1 (both.1 (p, omega (arith, q)), omega (arith, q)),
    )

-- The low bits of a number are those of its lowest limb.
low_limb_rest : (x v s : ℕ) → s < 32 → (x + 2 ^ 32 * v) % 2 ^ s ≡ x % 2 ^ s
low_limb_rest x v s h =
    let same : x + 2 ^ 32 * v ≡ x + 2 ^ s * (2 ^ (32 - s) * v) =
      omega (arith, ap (λ (t : ℕ). t * v) (limb_cut s (omega arith))) in
    rw same (add-mul-mod_self_left x (2 ^ s) (2 ^ (32 - s) * v))

product_zero : (p x : ℕ) → 0 < p → p * x ≡ 0 → x ≡ 0
product_zero p x h e = grind arith

module _ (r : List ℕ) (k : ℕ) (ok : All IsLimb r) where
  inside_zero :
      k / 32 < length r
      → ((value (take (k / 32) r) ≡ 0) × (get_or r (k / 32) 0 % 2 ^ (k % 32) ≡ 0))
        ↔ (value r % 2 ^ k ≡ 0)
  inside_zero lt =
      let l = k / 32 in
      let s = k % 32 in
      let split : 2 ^ k ≡ limb_power l * 2 ^ s =
        (let t : k ≡ 32 * l + s = omega arith in ap (λ (n : ℕ). 2 ^ n) t) ∙ pow-limb_power l s in
      let (rest, e) = get_or-drop l r lt in
      let low : value (drop l r) % 2 ^ s ≡ get_or r l 0 % 2 ^ s =
        rw e (low_limb_rest (get_or r l 0) (value rest) s (omega arith)) in
      let whole : value r % 2 ^ k ≡ value (take l r) + limb_power l * (get_or r l 0 % 2 ^ s) =
        rw (split, (value-shift r l s (omega arith) ok).1, low) in
      (
        λ (p, q). rw (whole, p, q) (omega arith),
        λ z. (
          omega (arith, z, whole),
          product_zero (limb_power l) _ (limb_power-pos l) (omega (arith, z, whole)),
        ),
      )

  outside_zero : length r ≤ k / 32 → (value (take (length r) r) ≡ 0) ↔ (value r % 2 ^ k ≡ 0)
  outside_zero h =
      let split : 2 ^ k ≡ limb_power (k / 32) * 2 ^ (k % 32) =
        (let t : k ≡ 32 * (k / 32) + k % 32 = omega arith in ap (λ (n : ℕ). 2 ^ n) t)
        ∙ pow-limb_power (k / 32) (k % 32) in
      let small : value r < 2 ^ k = rw split (value-shift_out r (k / 32) (k % 32) h ok) in
      rw (take_all r, mod-eq_of_lt small) (λ e. e, λ e. e)

sticky_inside :
    (r : List ℕ) (k : ℕ)
    → k / 32 < length r
    → All IsLimb r
    → (bit_or (or_limbs (k / 32) r 0) (bit_and (get_or r (k / 32) 0) (2 ^ bit_and k 31 - 1)) ≡ 0)
      ↔ (value r % 2 ^ k ≡ 0)
sticky_inside r k lt ok =
    let x = get_or r (k / 32) 0 in
    let both = bit_or-eq-zero (or_limbs (k / 32) r 0) (x % 2 ^ (k % 32)) in
    let low = or_limbs-eq-zero (k / 32) r 0 in
    let all = inside_zero r k ok lt in
    rw (and_mask 5 k, and_mask (k % 32) x)
      (
        λ e. (let (p, q) = both.0 e in all.0 ((low.0 p).1, q)),
        λ z. (let (p, q) = all.1 z in both.1 (low.1 (refl, p), q)),
      )

sticky_outside :
    (r : List ℕ) (k : ℕ)
    → length r ≤ k / 32
    → All IsLimb r
    → (or_limbs (length r) r 0 ≡ 0) ↔ (value r % 2 ^ k ≡ 0)
sticky_outside r k h ok =
    let low = or_limbs-eq-zero (length r) r 0 in
    let all = outside_zero r k ok h in (λ e. all.0 (low.0 e).1, λ z. low.1 (refl, all.1 z))

-- The joined bits are 0 exactly when the number is a multiple of `2 ^ (shift - 1)`.
pub sticky-eq-zero :
    (r : List ℕ) (shift : ℕ)
    → 1 ≤ shift
    → All IsLimb r
    → (sticky r shift ≡ 0) ↔ (value r % 2 ^ (shift - 1) ≡ 0)
unfolding sticky
sticky-eq-zero r shift h ok = elim (Bool-cases (leb 2 shift)) [
  | inr one ↦ let e : shift - 1 ≡ 0 = ground arith in rw (one, e) (λ z. omega arith, λ z. refl)
  | inl two ↦ elim (Bool-cases (ltb ((shift - 1) / 32) (length r))) [
    | inl t ↦ rw (two, t) (sticky_inside r (shift - 1) (ltb→lt _ _ t) ok)
    | inr f ↦ rw (two, f) (sticky_outside r (shift - 1) (ground arith) ok)
  ]
]
