-- ===== src/Dtoa/Compare/Log.antt =====
-- dtoa.c: the highest bit of a big integer, `mpb_floor_log2`.
use go_quickjs.Base.{
  ℕ, zero, suc, ◌+◌, ◌-◌, ◌*◌, ◌^◌, ◌≤◌, ◌<◌, ◌≡◌, ◌⊎◌, inl, inr, refl, ap, arith, List, [], ◌∷◌,
  length, get_or, All, ◌==◌, Bool-cases, ==→eq, ==→ne,
}
use native.Mathlib.Nat.{mul-le-mul_left, le_trans}
use go_quickjs.Base.Int.{pos, negsuc}
use go_quickjs.Cutils.Words.{clz32, leading_zeros, leading_zeros_bounds}
use go_quickjs.Dtoa.Limbs.Value.{IsLimb, value, limb_power}
use go_quickjs.Dtoa.Big.Bits.{pow-limb_power}
use go_quickjs.Dtoa.Compare.{mpb_floor_log2}
use go_quickjs.Dtoa.Compare.Exact.{IsRenormed}

-- A number by its highest limb and what is below it.
top_digit :
    (n : ℕ) (r : List ℕ)
    → length r ≡ suc n
    → All IsLimb r
    → (limb_power n * get_or r n 0 ≤ value r)
      × (value r < limb_power n * (get_or r n 0 + 1))
      × IsLimb (get_or r n 0)
top_digit n [] e h = absurd (omega arith)
top_digit zero (x ∷ []) e (p, h) = (omega arith, omega arith, p)
top_digit zero (x ∷ y ∷ r) e h = absurd (omega arith)
top_digit (suc n) (x ∷ r) e (p, h) =
    let (lo, hi, ok) = top_digit n r (omega arith) h in
    (omega (arith, lo), omega (arith, hi, p), ok)

-- On a number without a zero limb on top, `mpb_floor_log2` returns -1 for 0, and otherwise the
-- position of the highest bit.
pub mpb_floor_log2_exact :
    (a : List ℕ)
    → IsRenormed a
    → ((mpb_floor_log2 a ≡ negsuc 0) × (value a ≡ 0))
      ⊎ ((k : ℕ) × (mpb_floor_log2 a ≡ pos k) × (2 ^ k ≤ value a) × (value a < 2 ^ suc k))
unfolding mpb_floor_log2 clz32
mpb_floor_log2_exact a h =
    let n = length a - 1 in
    let v = get_or a n 0 in
    let len : length a ≡ suc n = omega (arith, h.nonempty) in
    let (lo, hi, ok) = top_digit n a len h.limbs_ok in
    elim (Bool-cases (v == 0)) [
      | inl z ↦ rw z (
          inl (
            refl,
            elim h.top [
              | inl one ↦
                  let none : n ≡ 0 = omega arith in
                  let hi' : value a < 1 * (get_or a 0 0 + 1) = rw none at hi in
                  let z' : get_or a 0 0 ≡ 0 = rw none at (==→eq v 0 z) in omega (arith, hi', z')
              | inr high ↦ absurd (high (==→eq v 0 z))
            ],
          ))
      | inr f ↦
          let (k, s, below, above) = leading_zeros_bounds 32 v (omega (arith, ==→ne v 0 f)) ok in
          let place : length a * 32 - 1 - leading_zeros 32 v ≡ 32 * n + k = omega (arith, s, len) in
          let step : suc (32 * n + k) ≡ 32 * n + suc k = omega arith in
          rw f (
            inr (
              32 * n + k,
              ap pos place,
              rw (pow-limb_power n k) (le_trans (mul-le-mul_left (limb_power n) below) lo),
              rw (step, pow-limb_power n (suc k))
                  (le_trans hi (mul-le-mul_left (limb_power n) (omega (arith, above)))),
            ))
    ]
