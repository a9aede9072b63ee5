-- ===== src/BigInt/Text.antt =====
-- quickjs.c, `js_bigint_from_string`: numbers from their digits.
pub mod Read
pub mod Room
pub mod Exact
use go_quickjs.Base.{
  ℕ, zero, suc, ◌+◌, ◌-◌, ◌*◌, ◌/◌, ◌%◌, ◌^◌, List, [], ◌∷◌, ◌++◌, length, get_or, leb, ltb, ◌==◌,
  if◌then◌else◌, bit_or, Bool, true, false, ◌&&◌, not, Option, none, some,
}
use Prim.Native.Nat.{max}
use go_quickjs.Cutils.Words.{clz32}
use go_quickjs.BigInt.{
  js_bigint_new, js_bigint_normalize, js_bigint_neg, Grants, Result, ok, later, ◌>>=◌, zeros,
}
use go_quickjs.BigInt.Arrays.{mp_mul1}

unfoldable pub to_digit : ℕ → ℕ
to_digit c =
    if leb 48 c && leb c 57
    then c - 48
    else if leb 65 c && leb c 90
    then c - 65 + 10
    else if leb 97 c && leb c 122
    then c - 97 + 10
    else 36

abbrev pub js_pow_dec : List ℕ
js_pow_dec =
    1 ∷ 10 ∷ 100 ∷ 1000 ∷ 10000 ∷ 100000 ∷ 1000000 ∷ 10000000 ∷ 100000000 ∷ 1000000000 ∷ 10000000000
    ∷ 100000000000 ∷ 1000000000000 ∷ 10000000000000 ∷ 100000000000000 ∷ 1000000000000000
    ∷ 10000000000000000 ∷ 100000000000000000 ∷ 1000000000000000000 ∷ 10000000000000000000 ∷ []

-- The digits that are taken at once: how many, their number, and the text after them.
pub record Group : Type 0 where
  pub count : ℕ
  pub digits : ℕ
  pub rest : List ℕ

abbrev pub group : ℕ → ℕ → List ℕ → Group
group i v p = record { count = i; digits = v; rest = p }

-- The inner loop; the first argument is what is left of `digits_per_limb`. At the end of the text the
-- C string has a 0, which is no digit.
unfoldable pub read_group : ℕ → List ℕ → ℕ → ℕ → Group
unfolding to_digit
read_group zero p i v = group i v p
read_group (suc n) [] i v = group i v []
read_group (suc n) (c ∷ p) i v =
    let more = read_group n p (suc i) ((v * 10 + to_digit c) % 2 ^ 64) in
    if leb 10 (to_digit c) then group i v (c ∷ p) else more

unfoldable pub push_group : List ℕ → Group → List ℕ
unfolding mp_mul1
push_group r g =
    let up = mp_mul1 r (get_or js_pow_dec g.count 0) g.digits in
    if length r == 1 && get_or r 0 0 == 0
    then g.digits ∷ []
    else if up.out == 0
    then up.tab
    else up.tab ++ (up.out ∷ [])

-- The outer loop. Every round but the last takes a digit, so the length of the text is enough fuel.
unfoldable pub decimal_loop : ℕ → List ℕ → List ℕ → List ℕ
unfolding read_group push_group
decimal_loop zero p r = r
decimal_loop (suc fuel) p r =
    let g = read_group 19 p 0 0 in
    let more = decimal_loop fuel g.rest (push_group r g) in if g.count == 0 then r else more

-- One extra limb to have the correct sign.
unfoldable pub sign_limb : List ℕ → List ℕ
sign_limb r = if get_or r (length r - 1) 0 / 2 ^ 63 == 0 then r else r ++ (0 ∷ [])

-- `r->tab[pos] |= x`, with `pos` in bounds.
abbrev pub or_at : List ℕ → ℕ → ℕ → List ℕ
or_at [] pos x = []
or_at (y ∷ r) zero x = bit_or y x ∷ r
or_at (y ∷ r) (suc pos) x = y ∷ or_at r pos x

-- The loop for the powers of two, on the digits from the last one on; `i` of them are done. `none` is
-- a write past the end of the array.
unfoldable pub binary_loop : ℕ → ℕ → List ℕ → List ℕ → Option (List ℕ)
unfolding to_digit
binary_loop log2_radix i [] r = some r
binary_loop log2_radix i (d ∷ p) r =
    let c = to_digit d in
    let shift = i * log2_radix % 64 in
    let pos = i * log2_radix / 64 in
    let crosses = ltb 64 (shift + log2_radix) in
    let low = or_at r pos (c * 2 ^ shift % 2 ^ 64) in
    let rest =
      binary_loop log2_radix (suc i) p
        (if crosses then or_at low (suc pos) (c / 2 ^ (64 - shift)) else low) in
    if ltb (if crosses then suc pos else pos) (length r) then rest else none

-- The array that the decimal loop has written, if it was written within `n_limbs` limbs. No write
-- makes it shorter, so its length at the end tells of all of them.
unfoldable pub within : ℕ → List ℕ → Option (List ℕ)
within n_limbs r = if ltb n_limbs (length r) then none else some r

abbrev pub skip_zeros : List ℕ → List ℕ
skip_zeros [] = []
skip_zeros (c ∷ p) = if c == 48 then skip_zeros p else c ∷ p

abbrev pub backwards : List ℕ → List ℕ → List ℕ
backwards [] done = done
backwards (c ∷ p) done = backwards p (c ∷ done)

-- The maximum number of limbs, or `none` where `n_digits * 27 + 7` or `n_digits * log2_radix` is too
-- large for an `int` (undefined in C).
unfoldable pub limbs_for : ℕ → ℕ → Option ℕ
unfolding clz32
limbs_for radix n_digits =
    let n_bits = if radix == 10 then n_digits * 27 + 7 else n_digits * (32 - clz32 (radix - 1)) in
    let used = if radix == 10 then n_bits / 8 else n_bits in
    if ltb n_bits (2 ^ 31) then some (max 1 (used / 64 + 1)) else none

-- After the sign: `text` are the digits. `none` is undefined in C: as for `limbs_for`, or a write past
-- the end of the array that was granted.
unfoldable pub from_digits : Grants → Bool → List ℕ → ℕ → Option Result
unfolding limbs_for decimal_loop sign_limb binary_loop within
from_digits grants is_neg text radix =
    let p = skip_zeros text in
    elim (limbs_for radix (length p)) [
      | none ↦ none
      | some n_limbs ↦
          let written =
            if radix == 10
            then within n_limbs (sign_limb (decimal_loop (length p) p (0 ∷ [])))
            else binary_loop (32 - clz32 (radix - 1)) 0 (backwards p []) (zeros n_limbs) in
          elim written [
            | none ↦ elim (js_bigint_new grants 0 n_limbs []) [
              | ok tab ↦ none
              | refused ↦ some refused
            ]
            | some r ↦ some (
                js_bigint_new grants 0 n_limbs (js_bigint_normalize r) >>= λ r.
                if is_neg then js_bigint_neg (later 1 grants) r else ok r)
          ]
    ]

-- `radix` is 2, 8, 10 or 16.
unfoldable pub js_bigint_from_string : Grants → List ℕ → ℕ → Option Result
unfolding from_digits
js_bigint_from_string grants [] radix = from_digits grants false [] radix
js_bigint_from_string grants (c ∷ p) radix =
    if c == 45 then from_digits grants true p radix else from_digits grants false (c ∷ p) radix
