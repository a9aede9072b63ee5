-- ===== src/Dtoa/Decimal.antt =====
-- dtoa.c, the integer printers: `u32toa`, `u64toa`, `i32toa`, `i64toa` and the printers in a radix.
-- Text is a list of character codes; a printer returns the characters that it writes to `buf`, and
-- their number is the C result.
pub mod Digits
pub mod Fixed
pub mod Whole
pub mod Wide
pub mod Radix
use go_quickjs.Base.{
  ℕ, zero, suc, ◌+◌, ◌-◌, ◌*◌, ◌/◌, ◌%◌, ◌^◌, bit_and, List, [], ◌∷◌, ◌++◌, ltb, leb, ◌==◌,
  if◌then◌else◌, Option, none, some, map,
}
use mathlib.Core.Option
use go_quickjs.Base.Int.{ℤ, pos, negsuc}
use go_quickjs.Cutils.Words.{clz32, clz64}

-- '0' to '9', then 'a' to 'z'.
unfoldable pub digit_char : ℕ → ℕ
digit_char d = if ltb d 10 then d + b'0' else d + (b'a' - 10)

-- `i` goes down from `len - 1`; the digits already written stand in `acc`.
unfoldable pub u32toa_len : ℕ → ℕ → List ℕ → List ℕ
u32toa_len zero n acc = acc
u32toa_len (suc i) n acc = u32toa_len i (n / 10) ((n % 10 + b'0') ∷ acc)

unfoldable pub u64toa_bin_len : ℕ → ℕ → ℕ → List ℕ → List ℕ
u64toa_bin_len radix_bits n zero acc = acc
u64toa_bin_len radix_bits n (suc i) acc =
    u64toa_bin_len radix_bits (n / 2 ^ radix_bits) i
      (digit_char (bit_and n (2 ^ radix_bits - 1)) ∷ acc)

-- `limb_to_a` for a radix other than 10.
unfoldable pub radix_len : ℕ → ℕ → ℕ → List ℕ → List ℕ
radix_len radix n zero acc = acc
radix_len radix n (suc i) acc = radix_len radix (n / radix) i (digit_char (n % radix) ∷ acc)

unfoldable pub limb_to_a : ℕ → ℕ → ℕ → List ℕ
limb_to_a n radix len = if radix == 10 then u32toa_len len n [] else radix_len radix n len []

-- The `do` loop, which fills a buffer of `room` characters from its end; `none` is a write in front
-- of the buffer.
unfoldable pub digits_loop : ℕ → ℕ → ℕ → List ℕ → Option (List ℕ)
digits_loop radix zero n acc = none
digits_loop radix (suc room) n acc =
    let acc' = digit_char (n % radix) ∷ acc in
    let more = digits_loop radix room (n / radix) acc' in if n / radix == 0 then some acc' else more

-- `buf1` has 10 characters.
unfoldable pub u32toa : ℕ → Option (List ℕ)
unfolding digits_loop
u32toa n = digits_loop 10 10 n []

infixr 65 ◌<+>◌
abbrev pub ◌<+>◌ : Option (List ℕ) → List ℕ → Option (List ℕ)
a <+> b = Option.map (λ s. s ++ b) a

-- The digits in front of the last 18: at most two.
unfoldable pub top_digits : ℕ → List ℕ
top_digits n = if leb 10 n then (n / 10 + b'0') ∷ (n % 10 + b'0') ∷ [] else (n + b'0') ∷ []

unfoldable pub u64toa : ℕ → Option (List ℕ)
unfolding u32toa u32toa_len top_digits
u64toa n =
    let n1 = n / 1_000_000_000 in
    let low = u32toa_len 9 (n % 1_000_000_000 % 2 ^ 32) [] in
    let n2 = n1 / 1_000_000_000 % 2 ^ 32 in
    if ltb n 0x100000000
    then u32toa n
    else if leb 0x100000000 n1
    then some (top_digits n2 ++ (u32toa_len 9 (n1 % 1_000_000_000 % 2 ^ 32) [] ++ low))
    else u32toa n1 <+> low

-- The magnitude of a negative number is `-(uint32_t)n`, that is 0 - (2 ^ 32 - (k + 1)) in 32 bits.
unfoldable pub i32toa : ℤ → Option (List ℕ)
unfolding u32toa
i32toa (pos n) = u32toa n
i32toa (negsuc k) = Option.map (λ s. b'-' ∷ s) (u32toa ((2 ^ 32 - (2 ^ 32 - suc k)) % 2 ^ 32))

unfoldable pub i64toa : ℤ → Option (List ℕ)
unfolding u64toa
i64toa (pos n) = u64toa n
i64toa (negsuc k) = Option.map (λ s. b'-' ∷ s) (u64toa ((2 ^ 64 - (2 ^ 64 - suc k)) % 2 ^ 64))

-- In a radix that is a power of 2 the number of digits is computed first; `buf1` has 41 characters.
unfoldable pub u64toa_radix : ℕ → ℕ → Option (List ℕ)
unfolding u64toa u64toa_bin_len digits_loop
u64toa_radix n radix =
    let bits = 31 - clz32 radix in
    let l = if n == 0 then 1 else (64 - clz64 n + bits - 1) / bits in
    if radix == 10
    then u64toa n
    else if bit_and radix (radix - 1) == 0
    then some (u64toa_bin_len bits n l [])
    else digits_loop radix 41 n []

unfoldable pub i64toa_radix : ℤ → ℕ → Option (List ℕ)
unfolding u64toa_radix
i64toa_radix (pos n) radix = u64toa_radix n radix
i64toa_radix (negsuc k) radix =
    Option.map (λ s. b'-' ∷ s) (u64toa_radix ((2 ^ 64 - (2 ^ 64 - suc k)) % 2 ^ 64) radix)
