-- ===== src/Cutils/Utf8/RoundTrip.antt =====
-- cutils.c, UTF-8: decoding what was encoded.
use go_quickjs.Base.{
  ℕ, ◌+◌, ◌/◌, ◌%◌, ◌^◌, ◌≤◌, ◌<◌, ◌≡◌, arith, List, [], ◌∷◌, ◌++◌, length, ◌⊎◌, inl, inr,
}
use go_quickjs.Base.Bits.{and_mask}
use go_quickjs.Cutils.Utf8.{read_following, code_point, unicode_to_utf8, unicode_from_utf8}
use go_quickjs.Cutils.Utf8.Bytes.{
  next_byte_sum, lead_byte_sum, read_1, read_2, read_3, read_4, read_5,
}

pub encode_1 : (c : ℕ) → c < 0x80 → unicode_to_utf8 c ≡ c ∷ []
unfolding unicode_to_utf8
encode_1 c h = ground arith

pub encode_2 :
    (c : ℕ) → 0x80 ≤ c → c < 0x800 → unicode_to_utf8 c ≡ (c / 64 + 0xc0) ∷ (c % 64 + 128) ∷ []
unfolding unicode_to_utf8
encode_2 c lo h = ground (arith, lead_byte_sum c 6 5 6, next_byte_sum c 0)

pub encode_3 :
    (c : ℕ)
    → 0x800 ≤ c
    → c < 0x10000
    → unicode_to_utf8 c ≡ (c / 2 ^ 12 + 0xe0) ∷ (c / 64 % 64 + 128) ∷ (c % 64 + 128) ∷ []
unfolding unicode_to_utf8
encode_3 c lo h = ground (arith, lead_byte_sum c 12 4 14, next_byte_sum c 6, next_byte_sum c 0)

pub encode_4 :
    (c : ℕ)
    → 0x10000 ≤ c
    → c < 0x200000
    → unicode_to_utf8 c
      ≡ (c / 2 ^ 18 + 0xf0) ∷ (c / 2 ^ 12 % 64 + 128) ∷ (c / 64 % 64 + 128) ∷ (c % 64 + 128) ∷ []
unfolding unicode_to_utf8
encode_4 c lo h =
    ground
      (arith, lead_byte_sum c 18 3 30, next_byte_sum c 12, next_byte_sum c 6, next_byte_sum c 0)

pub encode_5 :
    (c : ℕ)
    → 0x200000 ≤ c
    → c < 0x4000000
    → unicode_to_utf8 c
      ≡ (c / 2 ^ 24 + 0xf8)
        ∷ (c / 2 ^ 18 % 64 + 128)
        ∷ (c / 2 ^ 12 % 64 + 128)
        ∷ (c / 64 % 64 + 128)
        ∷ (c % 64 + 128)
        ∷ []
unfolding unicode_to_utf8
encode_5 c lo h = ground (
  arith,
  lead_byte_sum c 24 2 62,
  next_byte_sum c 18,
  next_byte_sum c 12,
  next_byte_sum c 6,
  next_byte_sum c 0,
)

pub encode_6 :
    (c : ℕ)
    → 0x4000000 ≤ c
    → c < 0x80000000
    → unicode_to_utf8 c
      ≡ (c / 2 ^ 30 + 0xfc)
        ∷ (c / 2 ^ 24 % 64 + 128)
        ∷ (c / 2 ^ 18 % 64 + 128)
        ∷ (c / 2 ^ 12 % 64 + 128)
        ∷ (c / 64 % 64 + 128)
        ∷ (c % 64 + 128)
        ∷ []
unfolding unicode_to_utf8
encode_6 c lo h = ground (
  arith,
  lead_byte_sum c 30 1 126,
  next_byte_sum c 24,
  next_byte_sum c 18,
  next_byte_sum c 12,
  next_byte_sum c 6,
  next_byte_sum c 0,
)

-- The first byte of two to six: it gives the count, and its low bits start the value.
module _ (x : ℕ) (p : List ℕ) (max_len : ℕ) where
  pub lead_2 :
      x < 32 → 2 ≤ max_len → unicode_from_utf8 ((x + 0xc0) ∷ p) max_len ≡ read_following 0x80 1 x p
  unfolding unicode_from_utf8
  lead_2 h m = ground (arith, and_mask 5 (x + 0xc0))

  pub lead_3 :
      x < 16 → 3 ≤ max_len → unicode_from_utf8 ((x + 0xe0) ∷ p) max_len ≡ read_following 0x800 2 x p
  unfolding unicode_from_utf8
  lead_3 h m = ground (arith, and_mask 4 (x + 0xe0))

  pub lead_4 :
      x < 8
      → 4 ≤ max_len
      → unicode_from_utf8 ((x + 0xf0) ∷ p) max_len ≡ read_following 0x10000 3 x p
  unfolding unicode_from_utf8
  lead_4 h m = ground (arith, and_mask 3 (x + 0xf0))

  pub lead_5 :
      x < 4
      → 5 ≤ max_len
      → unicode_from_utf8 ((x + 0xf8) ∷ p) max_len ≡ read_following 0x200000 4 x p
  unfolding unicode_from_utf8
  lead_5 h m = ground (arith, and_mask 2 (x + 0xf8))

  pub lead_6 :
      x < 2
      → 6 ≤ max_len
      → unicode_from_utf8 ((x + 0xfc) ∷ p) max_len ≡ read_following 0x4000000 5 x p
  unfolding unicode_from_utf8
  lead_6 h m = ground (arith, and_mask 1 (x + 0xfc))

module _ (c max_len : ℕ) (rest : List ℕ) where
  ReadsBack : Type 0
  ReadsBack =
      length (unicode_to_utf8 c) ≤ max_len
      → unicode_from_utf8 (unicode_to_utf8 c ++ rest) max_len ≡ code_point c rest

  back_1 : c < 0x80 → ReadsBack
  unfolding ReadsBack
  back_1 h m = rw (encode_1 c h) (unfold unicode_from_utf8 in ground arith)

  back_2 : 0x80 ≤ c → c < 0x800 → ReadsBack
  unfolding ReadsBack
  back_2 lo h = rw (encode_2 c lo h) λ m.
      ground
        (arith, lead_2 (c / 64) ((c % 64 + 128) ∷ rest) max_len, read_1 0x80 rest (c / 64) (c % 64))

  back_3 : 0x800 ≤ c → c < 0x10000 → ReadsBack
  unfolding ReadsBack
  back_3 lo h = rw (encode_3 c lo h) λ m. ground (
    arith,
    lead_3 (c / 2 ^ 12) ((c / 64 % 64 + 128) ∷ (c % 64 + 128) ∷ rest) max_len,
    read_2 0x800 rest (c / 2 ^ 12) (c / 64 % 64) (c % 64),
  )

  back_4 : 0x10000 ≤ c → c < 0x200000 → ReadsBack
  unfolding ReadsBack
  back_4 lo h = rw (encode_4 c lo h) λ m. ground (
    arith,
    lead_4 (c / 2 ^ 18) ((c / 2 ^ 12 % 64 + 128) ∷ (c / 64 % 64 + 128) ∷ (c % 64 + 128) ∷ rest)
        max_len,
    read_3 0x10000 rest (c / 2 ^ 18) (c / 2 ^ 12 % 64) (c / 64 % 64) (c % 64),
  )

  back_5 : 0x200000 ≤ c → c < 0x4000000 → ReadsBack
  unfolding ReadsBack
  back_5 lo h = rw (encode_5 c lo h) λ m. ground (
    arith,
    lead_5 (c / 2 ^ 24)
        ((c / 2 ^ 18 % 64 + 128)
          ∷ (c / 2 ^ 12 % 64 + 128)
          ∷ (c / 64 % 64 + 128)
          ∷ (c % 64 + 128)
          ∷ rest)
        max_len,
    read_4 0x200000 rest (c / 2 ^ 24) (c / 2 ^ 18 % 64) (c / 2 ^ 12 % 64) (c / 64 % 64) (c % 64),
  )

  back_6 : 0x4000000 ≤ c → c < 0x80000000 → ReadsBack
  unfolding ReadsBack
  back_6 lo h = rw (encode_6 c lo h) λ m. ground (
    arith,
    lead_6 (c / 2 ^ 30)
        ((c / 2 ^ 24 % 64 + 128)
          ∷ (c / 2 ^ 18 % 64 + 128)
          ∷ (c / 2 ^ 12 % 64 + 128)
          ∷ (c / 64 % 64 + 128)
          ∷ (c % 64 + 128)
          ∷ rest)
        max_len,
    read_5 0x4000000 rest (c / 2 ^ 30) (c / 2 ^ 24 % 64) (c / 2 ^ 18 % 64) (c / 2 ^ 12 % 64)
        (c / 64 % 64) (c % 64),
  )

-- The ranges of the encoder.
utf8_ranges :
    (c : ℕ)
    → c < 2 ^ 31
    → (c < 0x80)
      ⊎ ((0x80 ≤ c) × (c < 0x800))
      ⊎ ((0x800 ≤ c) × (c < 0x10000))
      ⊎ ((0x10000 ≤ c) × (c < 0x200000))
      ⊎ ((0x200000 ≤ c) × (c < 0x4000000))
      ⊎ ((0x4000000 ≤ c) × (c < 0x80000000))
utf8_ranges c h = grind arith

-- A code point of up to 31 bits is read back from its encoding, whatever follows it, when
-- `max_len` allows as many bytes as were written.
pub unicode_from_utf8-unicode_to_utf8 :
    (c max_len : ℕ) (rest : List ℕ)
    → c < 2 ^ 31
    → length (unicode_to_utf8 c) ≤ max_len
    → unicode_from_utf8 (unicode_to_utf8 c ++ rest) max_len ≡ code_point c rest
unfolding ReadsBack
unicode_from_utf8-unicode_to_utf8 c max_len rest h = elim (utf8_ranges c h) [
  | inl a ↦ back_1 c max_len rest a
  | inr (inl (a, b)) ↦ back_2 c max_len rest a b
  | inr (inr (inl (a, b))) ↦ back_3 c max_len rest a b
  | inr (inr (inr (inl (a, b)))) ↦ back_4 c max_len rest a b
  | inr (inr (inr (inr (inl (a, b))))) ↦ back_5 c max_len rest a b
  | inr (inr (inr (inr (inr (a, b))))) ↦ back_6 c max_len rest a b
]
