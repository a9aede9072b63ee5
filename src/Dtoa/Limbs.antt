-- ===== src/Dtoa/Limbs.antt =====
-- dtoa.c, the `mp_` functions: arrays of 32-bit limbs, lowest limb first. An array of `n` limbs is a
-- list of `n` numbers, and a function returns the array that it writes with its C result.
pub mod Value
pub mod AddMul
pub mod Divide
pub mod Shift
use go_quickjs.Base.{
  ℕ, zero, suc, ◌+◌, ◌-◌, ◌*◌, ◌/◌, ◌%◌, ◌^◌, bit_and, bit_or, List, [], ◌∷◌, ltb, ◌==◌,
  if◌then◌else◌,
}

-- The array that is written, and the value that is returned.
pub record Limbs : Type 0 where
  pub tab : List ℕ
  pub out : ℕ

abbrev pub limbs : List ℕ → ℕ → Limbs
limbs t k = record { tab = t; out = k }

-- The loop ends early when there is no carry left.
unfoldable pub mp_add_ui : List ℕ → ℕ → Limbs
mp_add_ui [] k = limbs [] k
mp_add_ui (x ∷ xs) k =
    let a = (x + k) % 2 ^ 32 in
    let rest = mp_add_ui xs (if ltb a k then 1 else 0) in
    if k == 0 then limbs (x ∷ xs) 0 else limbs (a ∷ rest.tab) rest.out

-- `t` is a `dlimb_t`, of 64 bits.
unfoldable pub mp_mul1 : List ℕ → ℕ → ℕ → Limbs
mp_mul1 [] b l = limbs [] l
mp_mul1 (x ∷ xs) b l =
    let t = (x * b + l) % 2 ^ 64 in
    let rest = mp_mul1 xs b (t / 2 ^ 32) in limbs (t % 2 ^ 32 ∷ rest.tab) rest.out

-- The loop goes down from the highest limb; `r` is the remainder so far.
unfoldable pub mp_div1 : List ℕ → ℕ → ℕ → Limbs
mp_div1 [] b r = limbs [] r
mp_div1 (x ∷ xs) b r =
    let high = mp_div1 xs b r in
    let a1 = bit_or (high.out * 2 ^ 32) x in limbs (a1 / b % 2 ^ 32 ∷ high.tab) (a1 % b)

-- The loop of `mp_shr`; the result is the last limb that was read.
unfoldable pub mp_shr_loop : List ℕ → ℕ → ℕ → Limbs
mp_shr_loop [] shift l = limbs [] l
mp_shr_loop (x ∷ xs) shift l =
    let high = mp_shr_loop xs shift l in
    limbs (bit_or (x / 2 ^ shift) (high.out * 2 ^ (32 - shift) % 2 ^ 32) ∷ high.tab) x

unfoldable pub mp_shr : List ℕ → ℕ → ℕ → Limbs
unfolding mp_shr_loop
mp_shr xs shift high =
    let r = mp_shr_loop xs shift high in limbs r.tab (bit_and r.out (2 ^ shift - 1))

unfoldable pub mp_shl : List ℕ → ℕ → ℕ → Limbs
mp_shl [] shift l = limbs [] l
mp_shl (x ∷ xs) shift l =
    let rest = mp_shl xs shift (x / 2 ^ (32 - shift)) in
    limbs (bit_or (x * 2 ^ shift % 2 ^ 32) l ∷ rest.tab) rest.out
