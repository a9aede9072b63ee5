-- ===== src/Dtoa/Big/Bits.antt =====
-- dtoa.c: limbs and bits of a number, and `mpb_get_bit`.
use go_quickjs.Base.{
  ℕ, zero, suc, ◌+◌, ◌-◌, ◌*◌, ◌/◌, ◌%◌, ◌^◌, ◌≤◌, ◌<◌, ◌≡◌, refl, sym, ap, ◌∙◌, arith, List, [],
  ◌∷◌, length, take, drop, get_or, All, leb, Bool-cases, inl, inr, leb→le,
}
use native.Mathlib.Nat.{pow-suc, div-eq_of_lt, mul-le-mul_left, add-mul-div_left, one-le-pow}
use go_quickjs.Base.Bits.{and_mask}
use go_quickjs.Base.Powers.{pow-add, split_division}
use go_quickjs.Dtoa.Limbs.Value.{IsLimb, value, limb_power, value-lt}
use go_quickjs.Dtoa.Big.{mpb_get_bit}

pub limb_power-pos : (l : ℕ) → 0 < limb_power l
limb_power-pos zero = omega arith
limb_power-pos (suc l) = omega (arith, limb_power-pos l)

-- `2 ^ (32 * l + s)` moves a number by `l` limbs and `s` bits.
pub pow-limb_power : (l s : ℕ) → 2 ^ (32 * l + s) ≡ limb_power l * 2 ^ s
pow-limb_power zero s = let e : 32 * 0 + s ≡ s = omega arith in rw e (omega arith)
pow-limb_power (suc l) s =
    let e : 32 * suc l + s ≡ 32 + (32 * l + s) = omega arith in
    rw (e, pow-add 2 32 (32 * l + s), pow-limb_power l s) (omega arith)

-- The number is its low `l` limbs and the rest.
pub value-take-drop :
    (l : ℕ) (xs : List ℕ)
    → l ≤ length xs
    → value xs ≡ value (take l xs) + limb_power l * value (drop l xs)
value-take-drop zero xs h = omega arith
value-take-drop (suc l) [] h = absurd (omega arith)
value-take-drop (suc l) (x ∷ xs) h = omega (arith, value-take-drop l xs (omega arith))

pub value-take-lt :
    (l : ℕ) (xs : List ℕ) → l ≤ length xs → All IsLimb xs → value (take l xs) < limb_power l
value-take-lt zero xs h ok = omega arith
value-take-lt (suc l) [] h ok = absurd (omega arith)
value-take-lt (suc l) (x ∷ xs) h (p, ok) = omega (arith, value-take-lt l xs (omega arith) ok)

pub drop-All : (l : ℕ) (xs : List ℕ) → All IsLimb xs → All IsLimb (drop l xs)
drop-All zero xs h = h
drop-All (suc l) [] h = tt
drop-All (suc l) (x ∷ xs) (p, h) = drop-All l xs h

-- Dividing by a power of 2 that splits into limbs and bits.
pub value-shift :
    (xs : List ℕ) (l s : ℕ)
    → l ≤ length xs
    → All IsLimb xs
    → (value xs / (limb_power l * 2 ^ s) ≡ value (drop l xs) / 2 ^ s)
      × (value xs % (limb_power l * 2 ^ s)
          ≡ value (take l xs) + limb_power l * (value (drop l xs) % 2 ^ s))
value-shift xs l s h ok = rw (value-take-drop l xs h) (
    split_division (value (take l xs)) (limb_power l) (value (drop l xs)) (2 ^ s)
      (value-take-lt l xs h ok) (one-le-pow s 2 (omega arith)))

limb_power-le : (n l : ℕ) → n ≤ l → limb_power n ≤ limb_power l
limb_power-le zero l h = limb_power-pos l
limb_power-le (suc n) zero h = absurd (omega arith)
limb_power-le (suc n) (suc l) h = omega (arith, limb_power-le n l (omega arith))

-- A number of fewer limbs is shifted out whole.
pub value-shift_out :
    (xs : List ℕ) (l s : ℕ) → length xs ≤ l → All IsLimb xs → value xs < limb_power l * 2 ^ s
value-shift_out xs l s h ok = omega (
  arith,
  value-lt xs ok,
  limb_power-le (length xs) l h,
  mul-le-mul_left (limb_power l) (one-le-pow s 2 (omega arith)),
)

-- A bit of the lowest limb is a bit of the number.
low_limb_bit : (x v s : ℕ) → s < 32 → (x + 2 ^ 32 * v) / 2 ^ s % 2 ≡ x / 2 ^ s % 2
low_limb_bit x v s h =
    let pos = one-le-pow s 2 (omega arith) in
    let cut : 2 ^ s * (2 ^ (31 - s) * 2) ≡ 2 ^ 32 =
      rw (← pow-suc 2 (31 - s), ← pow-add 2 s (suc (31 - s)))
        (let t : s + suc (31 - s) ≡ 32 = omega arith in ap (λ (k : ℕ). 2 ^ k) t) in
    let e = add-mul-div_left x (2 ^ (31 - s) * 2 * v) pos in
    let same : x + 2 ^ 32 * v ≡ x + 2 ^ s * (2 ^ (31 - s) * 2 * v) =
      omega (arith, ap (λ (t : ℕ). t * v) cut) in
    rw (same, e) (omega arith)

pub get_or-drop :
    (l : ℕ) (xs : List ℕ) → l < length xs → (rest : List ℕ) × (drop l xs ≡ get_or xs l 0 ∷ rest)
get_or-drop l [] h = absurd (omega arith)
get_or-drop zero (x ∷ xs) h = (xs, refl)
get_or-drop (suc l) (x ∷ xs) h = get_or-drop l xs (omega arith)

-- `mpb_get_bit` reads bit `k` of the number, which is 0 above its limbs.
pub mpb_get_bit_exact : (r : List ℕ) (k : ℕ) → All IsLimb r → mpb_get_bit r k ≡ value r / 2 ^ k % 2
unfolding mpb_get_bit
mpb_get_bit_exact r k ok =
    let l = k / 32 in
    let s = k % 32 in
    let split : 2 ^ k ≡ limb_power l * 2 ^ s =
      (let t : k ≡ 32 * l + s = omega arith in ap (λ (n : ℕ). 2 ^ n) t) ∙ pow-limb_power l s in
    elim (Bool-cases (leb (length r) l)) [
      | inl out ↦
          let zero_high = div-eq_of_lt (value-shift_out r l s (leb→le _ _ out) ok) in
          rw (out, split, zero_high)
      | inr inside ↦
          let lt : l < length r = ground arith in
          let (rest, e) = get_or-drop l r lt in
          let high = (value-shift r l s (omega arith) ok).0 in
          let bit = and_mask 1 (get_or r l 0 / 2 ^ s) in
          rw (inside, split, high, and_mask 5 k, e, bit)
            (sym (low_limb_bit (get_or r l 0) (value rest) s (omega arith)))
    ]
