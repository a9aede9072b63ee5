-- ===== src/Dtoa/Big/Round.antt =====
-- dtoa.c: `mpb_shr_round`, the shift with rounding.
mod Shift
use go_quickjs.Base.{
  ℕ, zero, suc, ◌+◌, ◌-◌, ◌*◌, ◌/◌, ◌%◌, ◌^◌, ◌≤◌, ◌<◌, ◌≡◌, ◌↔◌, ◌≢◌, ◌⊎◌, inl, inr, refl, sym, ap,
  ◌∙◌, arith, List, length, All, ◌==◌, if◌then◌else◌, Bool-cases, ==→eq,
}
use go_quickjs.Base.Int.{pos, negsuc}
use native.Mathlib.Nat.{
  pow-suc, one-le-pow, div-add-mod, mod-lt, div-div-eq-div-mul, add-zero, add-suc,
}
use native.Mathlib.Decide.{dec_lt}
use go_quickjs.Dtoa.Limbs.Value.{IsLimb, value}
use go_quickjs.Dtoa.Big.{RoundMode, rndn, rndna, rndz, mpb_get_bit, sticky, round_up, mpb_shr_round}
use go_quickjs.Dtoa.Big.Bits.{mpb_get_bit_exact}
use go_quickjs.Dtoa.Big.Sticky.{sticky-eq-zero}
use Shift.{IsBig, mpb_shift_right_exact, mpb_shift_left_exact}

-- `q` is `v / m` rounded in the mode: to the nearest with ties to even, to the nearest with ties
-- away from zero, or down.
abbrev pub Rounds : RoundMode → ℕ → ℕ → ℕ → Type 0
Rounds rndn v m q =
    ((2 * v < 2 * (q * m) + m) × (2 * (q * m) < 2 * v + m))
    ⊎ (((2 * v ≡ 2 * (q * m) + m) ⊎ (2 * (q * m) ≡ 2 * v + m)) × (q % 2 ≡ 0))
Rounds rndna v m q = (2 * (q * m) ≤ 2 * v + m) × (2 * v + m < 2 * (q * m) + 2 * m)
Rounds rndz v m q = (q * m ≤ v) × (v < q * m + m)

-- A number by its quotient, its rounding bit and the rest.
parts :
    (v h : ℕ)
    → 0 < h
    → (v ≡ v / (h * 2) * (2 * h) + v / h % 2 * h + v % h) × (v % h < h) × (v / h % 2 < 2)
parts v h h_pos =
    let d = div-add-mod v h in
    let q : v / (h * 2) ≡ v / h / 2 = sym (div-div-eq-div-mul v h 2) in
    let e : v / h ≡ 2 * (v / h / 2) + v / h % 2 = omega arith in
    rw q (omega (arith, d, ap (λ (t : ℕ). h * t) e), mod-lt v h_pos, omega arith)

-- What the two tests of the rounding decide.
module _ (v h q b rest : ℕ) (h_pos : 0 < h) (whole : v ≡ q * (2 * h) + b * h + rest)
    (small : rest < h) (bit : b < 2) where
  away_case : (u : ℕ) → u ≡ b → Rounds rndna v (h * 2) (q + u)
  away_case u e = elim (dec_lt b 1) [
    | yes z ↦
        let k : b ≡ 0 = omega arith in
        omega (arith, ap (λ (t : ℕ). t * h) k, ap (λ (t : ℕ). t * h) e)
    | no z ↦
        let k : b ≡ 1 = omega arith in
        omega (arith, ap (λ (t : ℕ). t * h) k, ap (λ (t : ℕ). t * h) e)
  ]

  low_case : b ≡ 0 → Rounds rndn v (h * 2) (q + 0)
  low_case k = inl (omega (arith, ap (λ (t : ℕ). t * h) k), omega (arith, ap (λ (t : ℕ). t * h) k))

  high_case : b ≡ 1 → rest ≢ 0 → Rounds rndn v (h * 2) (q + 1)
  high_case k n =
      inl (omega (arith, ap (λ (t : ℕ). t * h) k), omega (arith, ap (λ (t : ℕ). t * h) k))

  tie_case : b ≡ 1 → rest ≡ 0 → Rounds rndn v (h * 2) (q + q % 2)
  tie_case k z = elim (dec_lt (q % 2) 1) [
    | yes even ↦
        let u : q % 2 ≡ 0 = omega arith in
        rw u (inr (inl (omega (arith, ap (λ (t : ℕ). t * h) k)), omega arith))
    | no odd ↦
        let u : q % 2 ≡ 1 = omega arith in
        rw u (inr (inr (omega (arith, ap (λ (t : ℕ). t * h) k)), omega arith))
  ]

module _ (r : List ℕ) (s : ℕ) (ok : All IsLimb r) where
  abbrev h : ℕ
  h = 2 ^ s

  abbrev v : ℕ
  v = value r

  low_bit : mpb_get_bit r (suc s - 1) ≡ v / h % 2
  low_bit = let e : suc s - 1 ≡ s = omega arith in rw e (mpb_get_bit_exact r s ok)

  rest_zero : (sticky r (suc s) ≡ 0) ↔ (v % h ≡ 0)
  rest_zero =
      let e : suc s - 1 ≡ s = omega arith in rw e at (sticky-eq-zero r (suc s) (omega arith) ok)

  upper_bit : mpb_get_bit r (suc s) ≡ v / (h * 2) % 2
  upper_bit = rw (← pow-suc 2 s) (mpb_get_bit_exact r (suc s) ok)

  round_up-le : (mode : RoundMode) → round_up r (suc s) mode ≤ 1
  unfolding round_up
  round_up-le rndz = omega arith
  round_up-le rndna = ground arith
  round_up-le rndn = let u = upper_bit in ground arith

  round_up-Rounds :
      (mode : RoundMode) → Rounds mode v (h * 2) (v / (h * 2) + round_up r (suc s) mode)
  unfolding round_up
  round_up-Rounds rndz =
      let n = mod-lt v {m = h * 2} (omega (arith, one-le-pow s 2)) in
      omega (arith, div-add-mod v (h * 2), n)
  round_up-Rounds rndna =
      let (whole, small, bit) = parts v h (one-le-pow s 2 (omega arith)) in
      rw low_bit (
        away_case v h (v / (h * 2)) (v / h % 2) (v % h) (one-le-pow s 2 (omega arith)) whole small
          bit _ (ground arith))
  round_up-Rounds rndn =
      let h_pos = one-le-pow s 2 (omega arith) in
      let (whole, small, bit) = parts v h h_pos in
      let q = v / (h * 2) in
      let b = v / h % 2 in
      elim (Bool-cases (b == 0)) [
        | inl z ↦ rw (low_bit, z) (low_case v h q b (v % h) h_pos whole small bit (==→eq b 0 z))
        | inr n ↦ elim (Bool-cases (sticky r (suc s) == 0)) [
          | inl t ↦
              rw (low_bit, n, t, upper_bit)
                (tie_case v h q b (v % h) h_pos whole small bit (ground arith)
                  (rest_zero.0 (==→eq _ 0 t)))
          | inr f ↦
              rw (low_bit, n, f)
                (high_case v h q b (v % h) h_pos whole small bit (ground arith)
                  (λ e. ground (arith, rest_zero.1 e)))
        ]
      ]

-- `mpb_shr_round` by a positive shift is the division by the power of 2, rounded in the mode; by a
-- negative one it is the product; by 0 it is the number itself.
pub mpb_shr_round_exact :
    (r : List ℕ) (n : ℕ) (mode : RoundMode)
    → All IsLimb r
    → 1 ≤ length r
    → Rounds mode (value r) (2 ^ suc n) (value (mpb_shr_round r (pos (suc n)) mode))
      × (value (mpb_shr_round r (negsuc n) mode) ≡ value r * 2 ^ suc n)
      × (value (mpb_shr_round r (pos zero) mode) ≡ value r)
unfolding mpb_shr_round
mpb_shr_round_exact r n mode ok ne =
    let up = round_up-le r n ok mode in
    let right = mpb_shift_right_exact r (suc n) (round_up r (suc n) mode) ok up in
    let self : IsBig (value r) r = record { same = refl; limbs_ok = ok; nonempty = ne } in
    let left = mpb_shift_left_exact r (suc n) (value r) self in
    let e = pow-suc 2 n in (rw (right.same, e) (round_up-Rounds r n ok mode), left.same, refl)
