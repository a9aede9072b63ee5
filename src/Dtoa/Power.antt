-- ===== src/Dtoa/Power.antt =====
-- dtoa.c, `pow_ui` and `pow_ui_inv`: powers by table and by repeated squaring, and a power with its
-- reciprocal for `mp_div1norm`.
pub mod Modular
pub mod Exact
use go_quickjs.Base.{
  ℕ, zero, suc, ◌+◌, ◌-◌, ◌*◌, ◌/◌, ◌%◌, ◌^◌, bit_or, bit_and, List, [], ◌∷◌, Bool, true, false,
  ◌&&◌, ◌||◌, leb, ◌==◌, get_or, if◌then◌else◌,
}
use go_quickjs.Cutils.Words.{clz32, leading_zeros}
use go_quickjs.Dtoa.Reciprocal.{udiv1norm_init}

abbrev pub pow5_table : List ℕ
pow5_table =
    0x00000005 ∷ 0x00000019 ∷ 0x0000007d ∷ 0x00000271 ∷ 0x00000c35 ∷ 0x00003d09 ∷ 0x0001312d
    ∷ 0x0005f5e1 ∷ 0x001dcd65 ∷ 0x009502f9 ∷ 0x02e90edd ∷ 0x0e8d4a51 ∷ 0x48c27395 ∷ 0x6bcc41e9
    ∷ 0x1afd498d ∷ 0x86f26fc1 ∷ 0xa2bc2ec5 ∷ []

abbrev pub pow5h_table : List ℕ
pow5h_table = 0x00000001 ∷ 0x00000007 ∷ 0x00000023 ∷ 0x000000b1 ∷ []

abbrev pub pow5_inv_table : List ℕ
pow5_inv_table =
    0x99999999 ∷ 0x47ae147a ∷ 0x0624dd2f ∷ 0xa36e2eb1 ∷ 0x4f8b588e ∷ 0x0c6f7a0b ∷ 0xad7f29ab
    ∷ 0x5798ee23 ∷ 0x12e0be82 ∷ 0xb7cdfd9d ∷ 0x5fd7fe17 ∷ 0x19799812 ∷ 0xc25c2684 ∷ []

-- The powers of 5 and 10 that the tables hold.
unfoldable pub pow_by_table : ℕ → ℕ → ℕ
pow_by_table a b =
    let low = get_or pow5_table (b - 1) 0 in
    let r = if leb 14 b then bit_or low (get_or pow5h_table (b - 14) 0 * 2 ^ 32) else low in
    if a == 10 then r * 2 ^ b % 2 ^ 64 else r

-- The `for` loop with `i + 1` rounds left is at `suc i`.
unfoldable pub pow_loop : ℕ → ℕ → ℕ → ℕ → ℕ
pow_loop zero a b r = r
pow_loop (suc i) a b r =
    let square = r * r % 2 ^ 64 in
    pow_loop i a b (if bit_and (b / 2 ^ i) 1 == 1 then square * a % 2 ^ 64 else square)

unfoldable pub pow_ui : ℕ → ℕ → ℕ
pow_ui a b =
    if b == 0
    then 1
    else if b == 1
    then a
    else if (a == 5 || a == 10) && leb b 17
    then pow_by_table a b
    else pow_loop (32 - clz32 b - 1) a b a

-- The power shifted up to its highest bit, its reciprocal and the shift.
pub record Scaled : Type 0 where
  pub power : ℕ
  pub inverse : ℕ
  pub shift : ℕ

unfoldable pub pow_ui_inv : ℕ → ℕ → Scaled
pow_ui_inv a b =
    let by_table = a == 5 && leb 1 b && leb b 13 in
    let r = if by_table then get_or pow5_table (b - 1) 0 else pow_ui a b % 2 ^ 32 in
    let shift = clz32 r in
    let scaled = r * 2 ^ shift % 2 ^ 32 in
    let inverse = if by_table then get_or pow5_inv_table (b - 1) 0 else udiv1norm_init scaled in
    record { power = scaled; inverse = inverse; shift = shift }
