-- ===== src/Cutils/Utf8.antt =====
-- cutils.c, `unicode_to_utf8` and `unicode_from_utf8`: code points of up to 31 bits as one to six
-- bytes. A byte string is a list of numbers below 256.
pub mod RoundTrip
pub mod Canonical
pub mod Bounds
mod Bytes
use go_quickjs.Base.{
  ℕ, zero, suc, ◌-◌, ◌*◌, ◌/◌, ◌%◌, ◌^◌, bit_and, bit_or, Option, none, some, List, [], ◌∷◌, ltb,
  leb, get_or, if◌then◌else◌, ◌||◌, ◌&&◌,
}

-- What is stored through a `uint8_t *`: `(c >> k) | mark`, and `((c >> k) & 0x3f) | 0x80`.
unfoldable pub lead_byte : ℕ → ℕ → ℕ → ℕ
lead_byte c k mark = bit_or (c / 2 ^ k) mark % 256

unfoldable pub next_byte : ℕ → ℕ → ℕ
next_byte c k = bit_or (bit_and (c / 2 ^ k) 0x3f) 0x80 % 256

-- The bytes written to `buf`; the result of the C function is their number.
unfoldable pub unicode_to_utf8 : ℕ → List ℕ
unicode_to_utf8 c =
    if ltb c 0x80
    then c % 256 ∷ []
    else if ltb c 0x800
    then lead_byte c 6 0xc0 ∷ next_byte c 0 ∷ []
    else if ltb c 0x10000
    then lead_byte c 12 0xe0 ∷ next_byte c 6 ∷ next_byte c 0 ∷ []
    else if ltb c 0x200000
    then lead_byte c 18 0xf0 ∷ next_byte c 12 ∷ next_byte c 6 ∷ next_byte c 0 ∷ []
    else if ltb c 0x4000000
    then lead_byte c 24 0xf8 ∷ next_byte c 18 ∷ next_byte c 12 ∷ next_byte c 6 ∷ next_byte c 0 ∷ []
    else if ltb c 0x80000000
    then lead_byte c 30 0xfc
      ∷ next_byte c 24
      ∷ next_byte c 18
      ∷ next_byte c 12
      ∷ next_byte c 6
      ∷ next_byte c 0
      ∷ []
    else []

-- `invalid` is the result -1, which leaves `*pp` alone. `fault` is a read past the end of the
-- bytes, which C leaves undefined.
pub data Decoded : Type 0 where
  code_point : ℕ → List ℕ → Decoded
  invalid fault : Decoded

abbrev pub utf8_min_code : List ℕ
utf8_min_code = 0x80 ∷ 0x800 ∷ 0x10000 ∷ 0x200000 ∷ 0x4000000 ∷ []

abbrev pub utf8_first_code_mask : List ℕ
utf8_first_code_mask = 0x1f ∷ 0xf ∷ 0x7 ∷ 0x3 ∷ 0x1 ∷ []

-- The `switch` on the first byte: how many bytes follow; `none` is its default.
unfoldable pub following : ℕ → Option ℕ
following c =
    if leb 0xc0 c && leb c 0xdf
    then some 1
    else if leb 0xe0 c && leb c 0xef
    then some 2
    else if leb 0xf0 c && leb c 0xf7
    then some 3
    else if leb 0xf8 c && leb c 0xfb
    then some 4
    else if leb 0xfc c && leb c 0xfd
    then some 5
    else none

-- The `for` loop over the bytes that follow, and the test for the shortest form behind it.
unfoldable pub read_following : ℕ → ℕ → ℕ → List ℕ → Decoded
read_following least zero c p = if ltb c least then invalid else code_point c p
read_following least (suc l) c [] = fault
read_following least (suc l) c (b ∷ p) =
    let rest = read_following least l (bit_or (c * 2 ^ 6) (bit_and b 0x3f)) p in
    if ltb b 0x80 || leb 0xc0 b then invalid else rest

unfoldable pub from_lead : ℕ → List ℕ → ℕ → Option ℕ → Decoded
from_lead c p max_len none = invalid
from_lead c p max_len (some l) =
    if ltb (max_len - 1) l
    then invalid
    else read_following (get_or utf8_min_code (l - 1) 0) l
        (bit_and c (get_or utf8_first_code_mask (l - 1) 0)) p

-- `max_len` is at least 1.
unfoldable pub unicode_from_utf8 : List ℕ → ℕ → Decoded
unfolding from_lead following
unicode_from_utf8 [] max_len = fault
unicode_from_utf8 (c ∷ p) max_len =
    if ltb c 0x80 then code_point c p else from_lead c p max_len (following c)
