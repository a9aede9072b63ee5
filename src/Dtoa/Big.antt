-- ===== src/Dtoa/Big.antt =====
-- dtoa.c, the `mpb_` functions: multiple precision integers of a changing length. An `mpb_t` is the
-- list of its `len` limbs, lowest first; the storage above `len` is not modelled, since it is
-- written before it is read.
pub mod Length
pub mod Bits
pub mod Sticky
pub mod Round
use go_quickjs.Base.{
  ℕ, zero, suc, ◌+◌, ◌-◌, ◌*◌, ◌/◌, ◌%◌, ◌^◌, bit_and, bit_or, List, [], ◌∷◌, ◌++◌, ltb, leb, ◌==◌,
  if◌then◌else◌, length, take, drop, get_or,
}
use go_quickjs.Base.Int.{ℤ, pos, negsuc}
use go_quickjs.Cutils.Words.{clz32}
use go_quickjs.Dtoa.Limbs.{Limbs, mp_shl, mp_shr, mp_add_ui}

-- The new length: the loop lowers it while it is above 1 and the highest limb is 0.
unfoldable pub renorm_len : ℕ → List ℕ → ℕ
renorm_len zero tab = zero
renorm_len (suc zero) tab = 1
renorm_len (suc (suc n)) tab =
    let shorter = renorm_len (suc n) tab in
    if get_or tab (suc n) 0 == 0 then shorter else suc (suc n)

unfoldable pub mpb_renorm : List ℕ → List ℕ
unfolding renorm_len
mpb_renorm tab = take (renorm_len (length tab) tab) tab

unfoldable pub mpb_get_bit : List ℕ → ℕ → ℕ
mpb_get_bit r k =
    let l = k / 32 in if leb (length r) l then 0 else bit_and (get_or r l 0 / 2 ^ bit_and k 31) 1

pub data RoundMode : Type 0 where
  rndn rndna rndz : RoundMode

-- `for(i = 0; i < n; i++) bit2 |= tab[i];`
unfoldable pub or_limbs : ℕ → List ℕ → ℕ → ℕ
or_limbs zero tab acc = acc
or_limbs (suc n) [] acc = acc
or_limbs (suc n) (x ∷ xs) acc = or_limbs n xs (bit_or acc x)

-- The bits below the highest bit that is shifted out, joined into one number.
unfoldable pub sticky : List ℕ → ℕ → ℕ
unfolding or_limbs
sticky r shift =
    if leb 2 shift
    then (let k = shift - 1 in
        let l = k / 32 in
        let low = or_limbs (if ltb l (length r) then l else length r) r 0 in
        if ltb l (length r)
        then bit_or low (bit_and (get_or r l 0) (2 ^ bit_and k 31 - 1))
        else low)
    else 0

-- Whether the result is rounded up.
unfoldable pub round_up : List ℕ → ℕ → RoundMode → ℕ
round_up r shift rndz = 0
round_up r shift rndna = if mpb_get_bit r (shift - 1) == 0 then 0 else 1
round_up r shift rndn =
    if mpb_get_bit r (shift - 1) == 0
    then 0
    else if sticky r shift == 0
    then mpb_get_bit r shift
    else 1

unfoldable pub increment : List ℕ → List ℕ
increment tab = let a = mp_add_ui tab 1 in if a.out == 0 then a.tab else a.tab ++ (a.out ∷ [])

unfoldable pub mpb_shift_right : List ℕ → ℕ → ℕ → List ℕ
mpb_shift_right r shift add_one =
    let l = shift / 32 in
    let s = bit_and shift 31 in
    if leb (length r) l
    then add_one ∷ []
    else (let high = drop l r in
        let low = if s == 0 then high else mpb_renorm (mp_shr high s 0).tab in
        if add_one == 0 then low else increment low)

abbrev pub zeros : ℕ → List ℕ
zeros zero = []
zeros (suc n) = 0 ∷ zeros n

unfoldable pub mpb_shift_left : List ℕ → ℕ → List ℕ
mpb_shift_left r shift =
    let s = bit_and shift 31 in
    let up = mp_shl r s 0 in
    let r' = if s == 0 then r else mpb_renorm (up.tab ++ (up.out ∷ [])) in zeros (shift / 32) ++ r'

unfoldable pub mpb_shr_round : List ℕ → ℤ → RoundMode → List ℕ
mpb_shr_round r (pos zero) mode = r
mpb_shr_round r (pos (suc n)) mode = mpb_shift_right r (suc n) (round_up r (suc n) mode)
mpb_shr_round r (negsuc n) mode = mpb_shift_left r (suc n)
