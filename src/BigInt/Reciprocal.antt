-- ===== src/BigInt/Reciprocal.antt =====
-- quickjs.c, `udiv1norm_init`, `udiv1norm` and `mp_div1norm`: division by a limb of which the highest
-- bit is set, with the help of a precomputed reciprocal when the array is long enough.
pub mod Quotient
pub mod Single
use go_quickjs.Base.{
  ℕ, zero, suc, ◌+◌, ◌-◌, ◌*◌, ◌/◌, ◌%◌, ◌^◌, bit_and, bit_or, List, [], ◌∷◌, leb, length,
  if◌then◌else◌,
}
use go_quickjs.Dtoa.Limbs.{Limbs, limbs}
use go_quickjs.BigInt.Arrays.{mp_div1}

-- `d` is at least `2 ^ 63`.
unfoldable pub udiv1norm_init : ℕ → ℕ
udiv1norm_init d =
    let a1 = (2 ^ 65 - d - 1) % 2 ^ 64 in
    let a0 = 2 ^ 64 - 1 in bit_or (a1 * 2 ^ 64) a0 / d % 2 ^ 64

pub record Division : Type 0 where
  pub quotient : ℕ
  pub rest : ℕ

-- `(js_slimb_t)a0 >> 63`, as a limb: all ones or zero.
unfoldable pub high_bit_mask : ℕ → ℕ
high_bit_mask a0 = if leb (2 ^ 63) a0 then 2 ^ 64 - 1 else 0

-- The estimate of the quotient, which may be one too small.
unfoldable pub udiv1norm_estimate : ℕ → ℕ → ℕ → ℕ → ℕ
unfolding high_bit_mask
udiv1norm_estimate a1 a0 d d_inv =
    let n1m = high_bit_mask a0 in
    let n_adj = (a0 + bit_and n1m d) % 2 ^ 64 in
    let a = (d_inv * ((a1 + 2 ^ 64 - n1m) % 2 ^ 64) % 2 ^ 128 + n_adj) % 2 ^ 128 in
    (a / 2 ^ 64 + a1) % 2 ^ 64

-- The remainder for the next larger quotient, whose high limb tells whether it is negative.
unfoldable pub udiv1norm_correct : ℕ → ℕ → ℕ → ℕ → Division
udiv1norm_correct a1 a0 d q =
    let n = bit_or (a1 * 2 ^ 64) a0 in
    let a = ((n + 2 ^ 128 - q * d % 2 ^ 128) % 2 ^ 128 + 2 ^ 128 - d) % 2 ^ 128 in
    let ah = a / 2 ^ 64 in
    record { quotient = (q + 1 + ah) % 2 ^ 64; rest = (a % 2 ^ 64 + bit_and ah d) % 2 ^ 64 }

unfoldable pub udiv1norm : ℕ → ℕ → ℕ → ℕ → Division
udiv1norm a1 a0 d d_inv = udiv1norm_correct a1 a0 d (udiv1norm_estimate a1 a0 d d_inv)

-- The first loop of `mp_div1norm`, down from the highest limb.
unfoldable pub div1norm_loop : List ℕ → ℕ → ℕ → ℕ → Limbs
div1norm_loop [] b r b_inv = limbs [] r
div1norm_loop (x ∷ xs) b r b_inv =
    let high = div1norm_loop xs b r b_inv in
    let here = udiv1norm high.out x b b_inv in limbs (here.quotient ∷ high.tab) here.rest

-- UDIV1NORM_THRESHOLD: from this many limbs on, the reciprocal pays.
abbrev pub threshold : ℕ
threshold = 3

unfoldable pub mp_div1norm : List ℕ → ℕ → ℕ → Limbs
unfolding div1norm_loop mp_div1
mp_div1norm taba b r =
    if leb threshold (length taba)
    then div1norm_loop taba b r (udiv1norm_init b)
    else mp_div1 taba b r
