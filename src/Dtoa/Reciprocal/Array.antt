-- ===== src/Dtoa/Reciprocal/Array.antt =====
-- dtoa.c: `mp_div1norm`, for a divisor that is shifted up by the caller.
use go_quickjs.Base.{
  ℕ, zero, suc, ◌+◌, ◌-◌, ◌*◌, ◌/◌, ◌%◌, ◌^◌, ◌≤◌, ◌<◌, ◌≡◌, refl, ap, ◌∙◌, arith, bit_or, List, [],
  ◌∷◌, length, All, false, ◌==◌,
}
use native.Mathlib.Nat.{
  mul-le-mul_right, mod-eq_of_lt, one-le-pow, div-lt_iff_lt-mul, mul-div_cancel,
  le_of_mul-le-mul_right,
}
use go_quickjs.Base.Bits.{or_high_low}
use go_quickjs.Dtoa.Limbs.{Limbs, mp_shl, mp_div1}
use go_quickjs.Dtoa.Limbs.Value.{IsLimb, value, limb_power}
use go_quickjs.Dtoa.Limbs.Divide.{mp_div1_exact, long_division_step}
use go_quickjs.Dtoa.Limbs.Shift.{mp_shl_exact}
use go_quickjs.Dtoa.Reciprocal.{udiv1norm_init, div1norm_loop, mp_div1norm}
use go_quickjs.Dtoa.Reciprocal.Quotient.{IsNormal, udiv1norm_exact}

-- The loop computes what `mp_div1` computes.
div1norm_loop-mp_div1 :
    (xs : List ℕ) (b r : ℕ)
    → IsNormal b
    → All IsLimb xs
    → r < b
    → div1norm_loop xs b r (udiv1norm_init b) ≡ mp_div1 xs b r
unfolding div1norm_loop mp_div1
div1norm_loop-mp_div1 [] b r n h hr = refl
div1norm_loop-mp_div1 (x ∷ xs) b r (lo, hi) (p, h) hr =
    let (e, small, ok, len) = mp_div1_exact xs b r h hr in
    let o = (mp_div1 xs b r).out in
    rw (
      div1norm_loop-mp_div1 xs b r (lo, hi) h hr,
      or_high_low 32 o x p,
      udiv1norm_exact b o x lo hi small p,
      mod-eq_of_lt (long_division_step b o x small p).2,
    )

-- A remainder of a division that was scaled by `s` is a multiple of `s`.
unscale :
    (v b s r m : ℕ)
    → 0 < s
    → r < b * s
    → v * (b * s) + r ≡ m * s
    → (v * b + r / s ≡ m) × (r / s < b)
unscale v b s r m pos small e =
    let le : v * b ≤ m = le_of_mul-le-mul_right {k = s} (omega (arith, e)) pos in
    let t = m - v * b in
    let whole : m ≡ v * b + t = omega arith in
    let multiple : r ≡ t * s = omega (arith, e, ap (λ (k : ℕ). k * s) whole) in
    let q : r / s ≡ m - v * b = rw multiple (mul-div_cancel t pos) in
    (omega (arith, q), (div-lt_iff_lt-mul pos).1 small)

-- What a division of `r * 2 ^ (32 * n) + value xs` by `b` must return.
pub record Divides (xs : List ℕ) (b r : ℕ) (result : Limbs) : Type 0 where
  pub exact : value result.tab * b + result.out ≡ r * limb_power (length xs) + value xs
  pub small : result.out < b
  pub limbs_ok : All IsLimb result.tab
  pub same_length : length result.tab ≡ length xs

loop-Divides :
    (xs : List ℕ) (b r : ℕ)
    → IsNormal b
    → All IsLimb xs
    → r < b
    → Divides xs b r (div1norm_loop xs b r (udiv1norm_init b))
loop-Divides xs b r n h hr =
    let (e, small, ok, len) = mp_div1_exact xs b r h hr in
    rw (div1norm_loop-mp_div1 xs b r n h hr)
      (record { exact = e; small = small; limbs_ok = ok; same_length = len })

mp_div1norm_unshifted :
    (xs : List ℕ) (b r : ℕ)
    → IsNormal (b * 2 ^ 0)
    → All IsLimb xs
    → r < b
    → Divides xs b r (mp_div1norm xs (b * 2 ^ 0) r (udiv1norm_init (b * 2 ^ 0)) 0)
unfolding mp_div1norm
mp_div1norm_unshifted xs b r n h hr =
    let same : b * 2 ^ 0 ≡ b = omega arith in
    let d = loop-Divides xs b r (rw same at n) h hr in
    let one : (div1norm_loop xs b r (udiv1norm_init b)).out / 2 ^ 0
        ≡ (div1norm_loop xs b r (udiv1norm_init b)).out =
      omega arith in
    rw (same, one)
      (record {
        exact = d.exact;
        small = d.small;
        limbs_ok = d.limbs_ok;
        same_length = d.same_length;
      })

mp_div1norm_shifted :
    (xs : List ℕ) (b r s : ℕ)
    → IsNormal (b * 2 ^ suc s)
    → suc s < 32
    → All IsLimb xs
    → r < b
    → Divides xs b r (mp_div1norm xs (b * 2 ^ suc s) r (udiv1norm_init (b * 2 ^ suc s)) (suc s))
unfolding mp_div1norm
mp_div1norm_shifted xs b r s n hs h hr =
    let p = 2 ^ suc s in
    let pos : 0 < p = one-le-pow (suc s) 2 (omega arith) in
    let (e, top, ok, len) = mp_shl_exact xs (suc s) 0 (omega arith) hs h pos in
    let o = (mp_shl xs (suc s) 0).out in
    let fits = mul-le-mul_right p hr in
    let start : bit_or (r * p % 2 ^ 32) o ≡ r * p + o =
      rw (mod-eq_of_lt {n = r * p} {m = 2 ^ 32} (omega (arith, fits, n.1)))
        (or_high_low (suc s) r o top) in
    let d =
      loop-Divides (mp_shl xs (suc s) 0).tab (b * p) (r * p + o) n ok (omega (arith, fits, top)) in
    let nonzero : (suc s == 0) ≡ false = ground arith in
    let done =
      div1norm_loop (mp_shl xs (suc s) 0).tab (b * p) (r * p + o) (udiv1norm_init (b * p)) in
    let big = limb_power (length xs) in
    let scaled : value done.tab * (b * p) + done.out ≡ (r * big + value xs) * p =
      omega (arith, rw len at d.exact, e) in
    let (exact, small) =
      unscale (value done.tab) b p done.out (r * big + value xs) pos d.small scaled in
    rw (nonzero, start)
      (record {
        exact = exact;
        small = small;
        limbs_ok = d.limbs_ok;
        same_length = d.same_length ∙ len;
      })

-- With the divisor `b` shifted up to its highest bit and the reciprocal of that, `mp_div1norm`
-- returns the quotient and the remainder of the division by `b` itself.
pub mp_div1norm_exact :
    (xs : List ℕ) (b r shift : ℕ)
    → IsNormal (b * 2 ^ shift)
    → shift < 32
    → All IsLimb xs
    → r < b
    → Divides xs b r (mp_div1norm xs (b * 2 ^ shift) r (udiv1norm_init (b * 2 ^ shift)) shift)
mp_div1norm_exact xs b r zero n hs h hr = mp_div1norm_unshifted xs b r n h hr
mp_div1norm_exact xs b r (suc s) n hs h hr = mp_div1norm_shifted xs b r s n hs h hr
