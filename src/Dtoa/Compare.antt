-- ===== src/Dtoa/Compare.antt =====
-- dtoa.c, `mpb_cmp`, `mpb_set_u64`, `mpb_get_u64` and `mpb_floor_log2`: comparison of big integers, their
-- exchange with machine words, and their highest bit.
pub mod Exact
pub mod Log
use go_quickjs.Base.{
  ℕ, zero, suc, ◌+◌, ◌-◌, ◌*◌, ◌/◌, ◌%◌, ◌^◌, bit_or, List, [], ◌∷◌, length, get_or, ltb, ◌==◌,
  if◌then◌else◌,
}
use go_quickjs.Base.Int.{ℤ, pos, negsuc}
use go_quickjs.Cutils.Words.{clz32}

-- The loop from the highest limb down, on arrays of one length: the limbs that are left decide when
-- those above are equal.
unfoldable pub cmp_limbs : List ℕ → List ℕ → ℤ
cmp_limbs [] b = pos 0
cmp_limbs (x ∷ a) [] = pos 0
cmp_limbs (x ∷ a) (y ∷ b) =
    let here = if x == y then pos 0 else if ltb x y then negsuc 0 else pos 1 in
    elim (cmp_limbs a b) [ pos zero ↦ here | pos (suc n) ↦ pos (suc n) | negsuc n ↦ negsuc n ]

unfoldable pub mpb_cmp : List ℕ → List ℕ → ℤ
mpb_cmp a b =
    if ltb (length a) (length b)
    then negsuc 0
    else if ltb (length b) (length a)
    then pos 1
    else cmp_limbs a b

unfoldable pub mpb_set_u64 : ℕ → List ℕ
mpb_set_u64 m =
    let high = m / 2 ^ 32 % 2 ^ 32 in if high == 0 then m % 2 ^ 32 ∷ [] else m % 2 ^ 32 ∷ high ∷ []

-- The first two limbs.
unfoldable pub mpb_get_u64 : List ℕ → ℕ
mpb_get_u64 r =
    if length r == 1 then get_or r 0 0 else bit_or (get_or r 0 0) (get_or r 1 0 * 2 ^ 32 % 2 ^ 64)

unfoldable pub mpb_floor_log2 : List ℕ → ℤ
mpb_floor_log2 a =
    let v = get_or a (length a - 1) 0 in
    if v == 0 then negsuc 0 else pos (length a * 32 - 1 - clz32 v)
