-- ===== src/Dtoa/Examples/Text.antt =====
-- dtoa.c: the integer printers at concrete inputs.
use go_quickjs.Base.{ℕ, ◌≤◌, ◌≡◌, refl, arith, List, [], ◌∷◌, length, some}
use go_quickjs.Cutils.Words.{clz32, clz64, leading_zeros}
use go_quickjs.Dtoa.Decimal.{u32toa, u64toa, u64toa_radix, u64toa_bin_len, digits_loop, digit_char}
use go_quickjs.Dtoa.Decimal.Digits.{Prints}
use go_quickjs.Dtoa.Decimal.Wide.{u64toa_exact}
use go_quickjs.Dtoa.Decimal.Radix.{u64toa_radix_exact}

-- Ten characters fill the buffer of `u32toa`.
largest_32 :
    u32toa 4294967295
    ≡ some (b'4' ∷ b'2' ∷ b'9' ∷ b'4' ∷ b'9' ∷ b'6' ∷ b'7' ∷ b'2' ∷ b'9' ∷ b'5' ∷ [])
unfolding u32toa digits_loop digit_char
largest_32 = refl

hexadecimal : u64toa_radix 0xbeef 16 ≡ some (b'b' ∷ b'e' ∷ b'e' ∷ b'f' ∷ [])
unfolding u64toa_radix u64toa_bin_len digit_char clz32 clz64 leading_zeros
hexadecimal = refl

u64toa_exact_example :
    (text : List ℕ) × (u64toa 12345678901234567890 ≡ some text)
    × Prints 10 12345678901234567890 text
    × (length text ≤ 20)
u64toa_exact_example = u64toa_exact 12345678901234567890 (omega arith)

u64toa_radix_exact_example :
    (text : List ℕ) × (u64toa_radix 0xbeef 16 ≡ some text)
    × Prints 16 0xbeef text
    × (length text ≤ 64)
u64toa_radix_exact_example = u64toa_radix_exact 0xbeef 16 (omega arith) (omega arith) (omega arith)
