-- ===== src/BigInt/Reciprocal/Quotient.antt =====
-- quickjs.c: `udiv1norm`, a division of two limbs by one.
use go_quickjs.Base.{ℕ, ◌+◌, ◌-◌, ◌*◌, ◌/◌, ◌%◌, ◌^◌, ◌≤◌, ◌<◌, ◌≡◌, ap, ◌∙◌, arith, bit_or}
use Prim.Native.Nat.{bit_and-bitwise}
use native.Mathlib.Nat.{
  div-add-mod, div-add-mod', mod-lt, mod-eq_of_lt, div-lt_iff_lt-mul, mul-le-mul_left,
  mul-le-mul_right, le_of_lt, mul-le-mul, le-pred_of_lt, lt_of_mul-lt-mul_right,
}
use native.Mathlib.Decide.{dec_le}
use go_quickjs.Base.Bits.{or_high_low, mask_and}
use go_quickjs.BigInt.Reciprocal.{
  udiv1norm_init, Division, udiv1norm_estimate, udiv1norm_correct, udiv1norm,
}

abbrev pub IsNormal : ℕ → Type 0
IsNormal d = (2 ^ 63 ≤ d) × (d < 2 ^ 64)

quotient_fits : (d : ℕ) → IsNormal d → (2 ^ 128 - d * 2 ^ 64 - 1) / d < 2 ^ 64
quotient_fits d (lo, hi) = (div-lt_iff_lt-mul (omega arith)).1 (omega arith)

udiv1norm_init_eq : (d : ℕ) → IsNormal d → udiv1norm_init d ≡ (2 ^ 128 - d * 2 ^ 64 - 1) / d
unfolding udiv1norm_init
udiv1norm_init_eq d (lo, hi) =
    let w : bit_or ((2 ^ 65 - d - 1) % 2 ^ 64 * 2 ^ 64) (2 ^ 64 - 1) ≡ 2 ^ 128 - d * 2 ^ 64 - 1 =
      or_high_low 64 ((2 ^ 65 - d - 1) % 2 ^ 64) (2 ^ 64 - 1) (omega arith) ∙ omega arith in
    rw w (mod-eq_of_lt (quotient_fits d (lo, hi)))

-- `2 ^ 64 + d_inv` is the quotient of `2 ^ 128 - 1` by `d`.
reciprocal_bounds :
    (d : ℕ)
    → IsNormal d
    → (udiv1norm_init d < 2 ^ 64)
      × (2 ^ 64 * d + udiv1norm_init d * d < 2 ^ 128)
      × (2 ^ 128 ≤ 2 ^ 64 * d + udiv1norm_init d * d + d)
reciprocal_bounds d (lo, hi) =
    let n = 2 ^ 128 - d * 2 ^ 64 - 1 in
    let e = div-add-mod n d in
    let m : n % d < d = mod-lt n (omega arith) in
    rw (udiv1norm_init_eq d (lo, hi))
      (quotient_fits d (lo, hi), omega (arith, e), omega (arith, e, m))

-- The estimate `z + a1` is the quotient or one below it, from the bounds of the reciprocal `v`.
module _ (d e v k a1 a0 : ℕ) (de : d + e ≡ 2 ^ 64) (norm : 2 ^ 63 ≤ d)
    (recip : 2 ^ 64 * d + v * d + k ≡ 2 ^ 128) (k_pos : 1 ≤ k) (k_le : k ≤ d) (top : a1 < d)
    (low : a0 < 2 ^ 64) where
  estimate_low :
      (z : ℕ)
      → a0 < 2 ^ 63
      → 2 ^ 64 * z ≤ v * a1 + a0
      → v * a1 + a0 < 2 ^ 64 * z + 2 ^ 64
      → ((z + a1) * d ≤ a1 * 2 ^ 64 + a0) × (a1 * 2 ^ 64 + a0 < (z + a1) * d + 2 * d)
  estimate_low z small lo hi =
      let f1 = ap (λ (t : ℕ). t * a1) recip in
      let f2 = mul-le-mul_right d lo in
      let f3 = mul-le-mul_right d hi in
      let f4 = mul-le-mul_right k top in
      let f5 = mul-le-mul_left d k_le in
      let f6 = ap (λ (t : ℕ). d * t) de in
      let f7 = mul-le-mul_right e small in
      let f8 = mul-le-mul_right e norm in
      let f9 = ap (λ (t : ℕ). a0 * t) de in
      (omega (arith, f1, f2, f9), omega (arith, f1, f3, f4, f5, f6, f7, f8, f9))

  -- Here `y` is `a0 - e`, which is `a0 + d` without its carry.
  estimate_high :
      (z y : ℕ)
      → 2 ^ 63 ≤ a0
      → y + e ≡ a0
      → 2 ^ 64 * z ≤ v * (a1 + 1) + y
      → v * (a1 + 1) + y < 2 ^ 64 * z + 2 ^ 64
      → ((z + a1) * d ≤ a1 * 2 ^ 64 + a0) × (a1 * 2 ^ 64 + a0 < (z + a1) * d + 2 * d)
  estimate_high z y large split lo hi =
      let f1 = ap (λ (t : ℕ). t * (a1 + 1)) recip in
      let f2 = mul-le-mul_right d lo in
      let f3 = mul-le-mul_right d hi in
      let f4 = mul-le-mul_right k top in
      let f5 = mul-le-mul_left d k_le in
      let f6 = ap (λ (t : ℕ). d * t) de in
      let f7 = ap (λ (t : ℕ). e * t) de in
      let f8 = mul-le-mul_right e norm in
      let f9 = ap (λ (t : ℕ). y * t) de in
      let f10 = mul-le-mul_right e (le_of_lt low) in
      let f11 = ap (λ (t : ℕ). t * d) split in
      let f12 = ap (λ (t : ℕ). t * e) split in
      let y_le : y ≤ d = omega arith in
      let f13 = mul-le-mul_right e y_le in
      (omega (arith, f1, f2, f6, f7, f9, f11), omega (arith, f1, f3, f4, f5, f6, f7, f9, f11, f13))

estimate_fits : (q d a1 a0 : ℕ) → q * d ≤ a1 * 2 ^ 64 + a0 → a1 < d → a0 < 2 ^ 64 → q < 2 ^ 64
estimate_fits q d a1 a0 h top low = lt_of_mul-lt-mul_right d (omega arith)

word_product : (v t y : ℕ) → v < 2 ^ 64 → t < 2 ^ 64 → y < 2 ^ 64 → v * t + y < 2 ^ 128
word_product v t y hv ht hy = omega (arith, mul-le-mul (le-pred_of_lt hv) (le-pred_of_lt ht))

module _ (d v a1 a0 : ℕ) (hi : d < 2 ^ 64) (v_fits : v < 2 ^ 64) (top : a1 < d)
    (low : a0 < 2 ^ 64) where
  estimate_eq_low :
      a0 < 2 ^ 63
      → ((v * a1 + a0) / 2 ^ 64 + a1) * d ≤ a1 * 2 ^ 64 + a0
      → udiv1norm_estimate a1 a0 d v ≡ (v * a1 + a0) / 2 ^ 64 + a1
  unfolding udiv1norm_estimate
  estimate_eq_low small h =
      let fits = estimate_fits ((v * a1 + a0) / 2 ^ 64 + a1) d a1 a0 h top low in
      let word = word_product v a1 a0 v_fits (omega arith) low in
      let same : (a1 + 2 ^ 64 - 0) % 2 ^ 64 ≡ a1 = omega arith in
      let off = bit_and-bitwise 0 d in ground (arith, fits, word, same, off)

  estimate_eq_high :
      (y : ℕ)
      → 2 ^ 63 ≤ a0
      → 2 ^ 63 ≤ d
      → y + 2 ^ 64 ≡ a0 + d
      → ((v * (a1 + 1) + y) / 2 ^ 64 + a1) * d ≤ a1 * 2 ^ 64 + a0
      → udiv1norm_estimate a1 a0 d v ≡ (v * (a1 + 1) + y) / 2 ^ 64 + a1
  unfolding udiv1norm_estimate
  estimate_eq_high y large norm split h =
      let fits = estimate_fits ((v * (a1 + 1) + y) / 2 ^ 64 + a1) d a1 a0 h top low in
      let word = word_product v (a1 + 1) y v_fits (omega arith) (omega arith) in
      let same : (a1 + 2 ^ 64 - (2 ^ 64 - 1)) % 2 ^ 64 ≡ a1 + 1 = omega arith in
      let adj : (a0 + d) % 2 ^ 64 ≡ y = omega arith in
      ground (arith, fits, word, same, adj, mask_and 64 d hi)

-- The estimate is the quotient or one below it.
estimate_bounds :
    (d a1 a0 : ℕ)
    → IsNormal d
    → a1 < d
    → a0 < 2 ^ 64
    → let q = udiv1norm_estimate a1 a0 d (udiv1norm_init d) in
      (q * d ≤ a1 * 2 ^ 64 + a0) × (a1 * 2 ^ 64 + a0 < q * d + 2 * d)
estimate_bounds d a1 a0 (lo, hi) top low =
    let v = udiv1norm_init d in
    let (v_fits, below, above) = reciprocal_bounds d (lo, hi) in
    let k = 2 ^ 128 - (2 ^ 64 * d + v * d) in
    let e = 2 ^ 64 - d in
    let de : d + e ≡ 2 ^ 64 = omega arith in
    let recip : 2 ^ 64 * d + v * d + k ≡ 2 ^ 128 = omega (arith, below) in
    let k_pos : 1 ≤ k = omega (arith, below) in
    let k_le : k ≤ d = omega (arith, above) in
    elim (dec_le (2 ^ 63) a0) [
      | yes large ↦
          let y = a0 - e in
          let b =
            estimate_high d e v k a1 a0 de lo recip k_pos k_le top low ((v * (a1 + 1) + y) / 2 ^ 64)
              y large (omega arith) (omega arith) (omega arith) in
          rw (estimate_eq_high d v a1 a0 hi v_fits top low y large lo (omega arith) b.0) b
      | no small ↦
          let b =
            estimate_low d e v k a1 a0 de lo recip k_pos k_le top low ((v * a1 + a0) / 2 ^ 64)
              (omega arith) (omega arith) (omega arith) in
          rw (estimate_eq_low d v a1 a0 hi v_fits top low (omega arith) b.0) b
    ]

abbrev pub division : ℕ → ℕ → Division
division a b = record { quotient = a; rest = b }

-- The correction adds one unless the remainder would become negative.
correct_up :
    (a1 a0 d q : ℕ)
    → d < 2 ^ 64
    → a1 < d
    → a0 < 2 ^ 64
    → q * d + d ≤ a1 * 2 ^ 64 + a0
    → a1 * 2 ^ 64 + a0 < q * d + 2 * d
    → udiv1norm_correct a1 a0 d q ≡ division (q + 1) (a1 * 2 ^ 64 + a0 - q * d - d)
unfolding udiv1norm_correct
correct_up a1 a0 d q hi top low lower upper =
    let fits : q + 1 < 2 ^ 64 = lt_of_mul-lt-mul_right d (omega arith) in
    let n = a1 * 2 ^ 64 + a0 in
    let a : ((n + 2 ^ 128 - q * d % 2 ^ 128) % 2 ^ 128 + 2 ^ 128 - d) % 2 ^ 128 ≡ n - q * d - d =
      omega arith in
    let high : (n - q * d - d) / 2 ^ 64 ≡ 0 = omega arith in
    rw (or_high_low 64 a1 a0 low, a, high, bit_and-bitwise 0 d) (ground arith)

correct_down :
    (a1 a0 d q : ℕ)
    → d < 2 ^ 64
    → a1 < d
    → a0 < 2 ^ 64
    → q * d ≤ a1 * 2 ^ 64 + a0
    → a1 * 2 ^ 64 + a0 < q * d + d
    → udiv1norm_correct a1 a0 d q ≡ division q (a1 * 2 ^ 64 + a0 - q * d)
unfolding udiv1norm_correct
correct_down a1 a0 d q hi top low lower upper =
    let fits : q < 2 ^ 64 = lt_of_mul-lt-mul_right d (omega arith) in
    let n = a1 * 2 ^ 64 + a0 in
    let a : ((n + 2 ^ 128 - q * d % 2 ^ 128) % 2 ^ 128 + 2 ^ 128 - d) % 2 ^ 128
        ≡ n + 2 ^ 128 - q * d - d =
      omega arith in
    let high : (n + 2 ^ 128 - q * d - d) / 2 ^ 64 ≡ 2 ^ 64 - 1 = omega arith in
    rw (or_high_low 64 a1 a0 low, a, high, mask_and 64 d hi) (ground arith)

unique_quotient :
    (n d q : ℕ) → q * d ≤ n → n < q * d + d → division q (n - q * d) ≡ division (n / d) (n % d)
unique_quotient n d q lo hi =
    let m : n % d < d = mod-lt n (omega arith) in
    let whole = div-add-mod' n d in
    let up : q < n / d + 1 = lt_of_mul-lt-mul_right d (omega (arith, whole, m)) in
    let down : n / d < q + 1 = lt_of_mul-lt-mul_right d (omega (arith, whole)) in
    let same : q ≡ n / d = omega arith in ground (arith, whole, same)

-- For a divisor of 64 bits and a high limb below it, `udiv1norm` with the reciprocal that
-- `udiv1norm_init` computes returns the quotient and the remainder of the two limbs by the divisor.
pub udiv1norm_exact64 :
    (d a1 a0 : ℕ)
    → 2 ^ 63 ≤ d
    → d < 2 ^ 64
    → a1 < d
    → a0 < 2 ^ 64
    → udiv1norm a1 a0 d (udiv1norm_init d)
      ≡ division ((a1 * 2 ^ 64 + a0) / d) ((a1 * 2 ^ 64 + a0) % d)
unfolding udiv1norm
udiv1norm_exact64 d a1 a0 lo hi top low =
    let q = udiv1norm_estimate a1 a0 d (udiv1norm_init d) in
    let n = a1 * 2 ^ 64 + a0 in
    let (b, c) = estimate_bounds d a1 a0 (lo, hi) top low in
    elim (dec_le (q * d + d) n) [
      | yes more ↦
          correct_up a1 a0 d q hi top low more c
          ∙ (let e : n - q * d - d ≡ n - (q + 1) * d = omega arith in
              rw e (unique_quotient n d (q + 1) (omega arith) (omega arith)))
      | no less ↦
          correct_down a1 a0 d q hi top low b (omega arith) ∙ unique_quotient n d q b (omega arith)
    ]
