-- ===== src/BigInt/Arrays/Shift.antt =====
-- quickjs.c: `mp_shl` and `mp_shr`, the shifts by less than a limb.
use go_quickjs.Base.{
  ℕ, ◌+◌, ◌-◌, ◌*◌, ◌/◌, ◌%◌, ◌^◌, ◌≤◌, ◌<◌, ◌≡◌, arith, List, [], ◌∷◌, length, All, bit_or, sym,
  ap, ◌∙◌,
}
use native.Mathlib.Nat.{
  mul-le-mul_right, mul_comm, mod-lt, div-add-mod, div-lt_iff_lt-mul, mul-lt-mul_of_pos_right,
  one-le-pow,
}
use go_quickjs.Base.Powers.{pow-add}
use go_quickjs.Base.Bits.{or_high_low, or_low_high, and_mask}
use go_quickjs.BigInt.Arrays.{mp_shl, mp_shr, mp_shr_loop}
use go_quickjs.BigInt.Arrays.Value.{IsLimb, value, limb_power}

-- A limb that is cut at bit `s`: `2 ^ s * 2 ^ (64 - s)` is `2 ^ 64`.
pub limb_cut : (s : ℕ) → s ≤ 64 → 2 ^ s * 2 ^ (64 - s) ≡ 2 ^ 64
limb_cut s h =
    let e : s + (64 - s) ≡ 64 = omega arith in sym (pow-add 2 s (64 - s)) ∙ ap (λ (k : ℕ). 2 ^ k) e

-- `x << s` in a limb keeps the low `64 - s` bits of `x`; `a` and `b` are the two powers of 2.
module _ (x a b : ℕ) (cut : a * b ≡ 2 ^ 64) (pos : 0 < a) (pos' : 0 < b) where
  low_part : x % b * a < 2 ^ 64
  low_part = omega (arith, cut, mul-lt-mul_of_pos_right (mod-lt x pos') pos)

  shifted_limb : x * a % 2 ^ 64 ≡ x % b * a
  shifted_limb =
      omega
        (arith, low_part, ap (λ (t : ℕ). t * a) (div-add-mod x b), ap (λ (t : ℕ). x / b * t) cut)

  high_part : x < 2 ^ 64 → x / b < a
  high_part h = (div-lt_iff_lt-mul pos').1 (omega (arith, cut))

pos_pow : (s : ℕ) → 0 < 2 ^ s
pos_pow s = one-le-pow s 2 (omega arith)

-- One limb of `mp_shl`.
shl_limb :
    (x s l : ℕ)
    → s ≤ 64
    → IsLimb x
    → l < 2 ^ s
    → (bit_or (x * 2 ^ s % 2 ^ 64) l ≡ x % 2 ^ (64 - s) * 2 ^ s + l)
      × (bit_or (x * 2 ^ s % 2 ^ 64) l < 2 ^ 64)
      × (x / 2 ^ (64 - s) < 2 ^ s)
      × (x * 2 ^ s ≡ x / 2 ^ (64 - s) * 2 ^ 64 + x % 2 ^ (64 - s) * 2 ^ s)
shl_limb x s l hs hx hl =
    let cut = limb_cut s hs in
    let t = 2 ^ (64 - s) in
    let e = shifted_limb x (2 ^ s) t cut (pos_pow s) (pos_pow (64 - s)) in
    let w : bit_or (x * 2 ^ s % 2 ^ 64) l ≡ x % t * 2 ^ s + l = rw e (or_high_low s (x % t) l hl) in
    let whole : x * 2 ^ s ≡ x / t * 2 ^ 64 + x % t * 2 ^ s =
      omega (arith, ap (λ (k : ℕ). k * 2 ^ s) (div-add-mod x t), ap (λ (k : ℕ). x / t * k) cut) in
    let fits = mul-le-mul_right (2 ^ s) (mod-lt x (pos_pow (64 - s))) in
    (
      w,
      omega (arith, w, cut, hl, fits),
      high_part x (2 ^ s) t cut (pos_pow s) (pos_pow (64 - s)) hx,
      whole,
    )

-- The limbs that `mp_shl` writes and the bits that it returns, also for a shift by 0 or 64.
mp_shl_limbs :
    (xs : List ℕ) (s low : ℕ)
    → s ≤ 64
    → All IsLimb xs
    → low < 2 ^ s
    → (value (mp_shl xs s low).tab + (mp_shl xs s low).out * limb_power (length xs)
        ≡ value xs * 2 ^ s + low)
      × ((mp_shl xs s low).out < 2 ^ s)
      × All IsLimb (mp_shl xs s low).tab
      × (length (mp_shl xs s low).tab ≡ length xs)
unfolding mp_shl
mp_shl_limbs [] s low hs h hl = ground arith
mp_shl_limbs (x ∷ xs) s low hs (p, h) hl =
    ground (arith, shl_limb x s low hs p hl, mp_shl_limbs xs s (x / 2 ^ (64 - s)) hs h)

-- `mp_shl` is the exact shift by less than a limb: the number times the
-- power of 2 and the low bits are the limbs that are written and the high bits that are returned.
pub mp_shl64_exact :
    (xs : List ℕ) (s low : ℕ)
    → 1 ≤ s
    → s < 64
    → All IsLimb xs
    → low < 2 ^ s
    → (value (mp_shl xs s low).tab + (mp_shl xs s low).out * limb_power (length xs)
        ≡ value xs * 2 ^ s + low)
      × ((mp_shl xs s low).out < 2 ^ s)
      × All IsLimb (mp_shl xs s low).tab
      × (length (mp_shl xs s low).tab ≡ length xs)
mp_shl64_exact xs s low lo hi h hl = mp_shl_limbs xs s low (omega arith) h hl

-- One limb of `mp_shr`; `l` is the limb above it.
shr_limb :
    (x s l : ℕ)
    → s ≤ 64
    → IsLimb x
    → let y = bit_or (x / 2 ^ s) (l * 2 ^ (64 - s) % 2 ^ 64) in
      (y * 2 ^ s + x % 2 ^ s ≡ l % 2 ^ s * 2 ^ 64 + x) × (y < 2 ^ 64)
shr_limb x s l hs hx =
    let t = 2 ^ (64 - s) in
    let cut : t * 2 ^ s ≡ 2 ^ 64 = mul_comm t (2 ^ s) ∙ limb_cut s hs in
    let e = shifted_limb l t (2 ^ s) cut (pos_pow (64 - s)) (pos_pow s) in
    let low = high_part x t (2 ^ s) cut (pos_pow (64 - s)) (pos_pow s) hx in
    let w : bit_or (x / 2 ^ s) (l * t % 2 ^ 64) ≡ l % 2 ^ s * t + x / 2 ^ s =
      rw e (or_low_high (64 - s) (l % 2 ^ s) (x / 2 ^ s) low) in
    let fits = mul-le-mul_right t (mod-lt l (pos_pow s)) in
    (
      omega (
        arith,
        ap (λ (k : ℕ). k * 2 ^ s) w,
        ap (λ (k : ℕ). l % 2 ^ s * k) cut,
        div-add-mod x (2 ^ s),
      ),
      omega (arith, w, cut, low, fits),
    )

mp_shr_loop_exact :
    (xs : List ℕ) (s high : ℕ)
    → s ≤ 64
    → All IsLimb xs
    → (value (mp_shr_loop xs s high).tab * 2 ^ s + (mp_shr_loop xs s high).out % 2 ^ s
        ≡ value xs + high % 2 ^ s * limb_power (length xs))
      × All IsLimb (mp_shr_loop xs s high).tab
      × (length (mp_shr_loop xs s high).tab ≡ length xs)
unfolding mp_shr_loop
mp_shr_loop_exact [] s high hs h = (omega arith, tt, omega arith)
mp_shr_loop_exact (x ∷ xs) s high hs (p, h) =
    ground (arith, shr_limb x s (mp_shr_loop xs s high).out hs p, mp_shr_loop_exact xs s high hs h)

-- `mp_shr` is the exact shift by less than a limb, of the number with the low bits of `high` on top:
-- the quotient is written and the remainder returned.
pub mp_shr64_exact :
    (xs : List ℕ) (s high : ℕ)
    → 1 ≤ s
    → s < 64
    → All IsLimb xs
    → (value (mp_shr xs s high).tab * 2 ^ s + (mp_shr xs s high).out
        ≡ value xs + high % 2 ^ s * limb_power (length xs))
      × ((mp_shr xs s high).out < 2 ^ s)
      × All IsLimb (mp_shr xs s high).tab
      × (length (mp_shr xs s high).tab ≡ length xs)
unfolding mp_shr
mp_shr64_exact xs s high lo hi h =
    let (e, ok, len) = mp_shr_loop_exact xs s high (omega arith) h in
    let r = mp_shr_loop xs s high in
    (rw (and_mask s r.out) e, rw (and_mask s r.out) (mod-lt r.out (pos_pow s)), ok, len)
