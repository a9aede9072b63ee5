-- ===== src/Dtoa/Reciprocal.antt =====
-- dtoa.c, `udiv1norm_init`, `udiv1norm` and `mp_div1norm`: division of a limb pair, and of an array,
-- by a normalised limb with the help of a precomputed reciprocal.
pub mod Quotient
pub mod Array
use go_quickjs.Base.{
  ℕ, zero, suc, ◌+◌, ◌-◌, ◌*◌, ◌/◌, ◌%◌, ◌^◌, bit_and, bit_or, List, [], ◌∷◌, leb, ◌==◌,
  if◌then◌else◌,
}
use go_quickjs.Dtoa.Limbs.{Limbs, limbs, mp_shl}

-- `d` is at least `2 ^ 31`.
unfoldable pub udiv1norm_init : ℕ → ℕ
udiv1norm_init d =
    let a1 = (2 ^ 33 - d - 1) % 2 ^ 32 in
    let a0 = 2 ^ 32 - 1 in bit_or (a1 * 2 ^ 32) a0 / d % 2 ^ 32

pub record Division : Type 0 where
  pub quotient : ℕ
  pub rest : ℕ

-- `(slimb_t)a0 >> 31`, as a limb: all ones or zero.
unfoldable pub sign_mask : ℕ → ℕ
sign_mask a0 = if leb (2 ^ 31) a0 then 2 ^ 32 - 1 else 0

-- The estimate of the quotient, which may be one too small.
unfoldable pub udiv1norm_estimate : ℕ → ℕ → ℕ → ℕ → ℕ
unfolding sign_mask
udiv1norm_estimate a1 a0 d d_inv =
    let n1m = sign_mask a0 in
    let n_adj = (a0 + bit_and n1m d) % 2 ^ 32 in
    let a = (d_inv * ((a1 + 2 ^ 32 - n1m) % 2 ^ 32) % 2 ^ 64 + n_adj) % 2 ^ 64 in
    (a / 2 ^ 32 + a1) % 2 ^ 32

-- The remainder for the next larger quotient, whose high limb tells whether it is negative.
unfoldable pub udiv1norm_correct : ℕ → ℕ → ℕ → ℕ → Division
udiv1norm_correct a1 a0 d q =
    let n = bit_or (a1 * 2 ^ 32) a0 in
    let a = ((n + 2 ^ 64 - q * d % 2 ^ 64) % 2 ^ 64 + 2 ^ 64 - d) % 2 ^ 64 in
    let ah = a / 2 ^ 32 in
    record { quotient = (q + 1 + ah) % 2 ^ 32; rest = (a % 2 ^ 32 + bit_and ah d) % 2 ^ 32 }

unfoldable pub udiv1norm : ℕ → ℕ → ℕ → ℕ → Division
udiv1norm a1 a0 d d_inv = udiv1norm_correct a1 a0 d (udiv1norm_estimate a1 a0 d d_inv)

-- The loop of `mp_div1norm`, down from the highest limb.
unfoldable pub div1norm_loop : List ℕ → ℕ → ℕ → ℕ → Limbs
div1norm_loop [] b r b_inv = limbs [] r
div1norm_loop (x ∷ xs) b r b_inv =
    let high = div1norm_loop xs b r b_inv in
    let here = udiv1norm high.out x b b_inv in limbs (here.quotient ∷ high.tab) here.rest

-- In place, as it is called: the array that is divided is the one that is written.
unfoldable pub mp_div1norm : List ℕ → ℕ → ℕ → ℕ → ℕ → Limbs
unfolding div1norm_loop
mp_div1norm xs b r b_inv shift =
    let shifted = mp_shl xs shift 0 in
    let r' = if shift == 0 then r else bit_or (r * 2 ^ shift % 2 ^ 32) shifted.out in
    let xs' = if shift == 0 then xs else shifted.tab in
    let done = div1norm_loop xs' b r' b_inv in limbs done.tab (done.out / 2 ^ shift)
