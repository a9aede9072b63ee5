-- ===== src/Cutils/Utf8/Canonical.antt =====
-- cutils.c, UTF-8: the texts that the decoder accepts.
use go_quickjs.Base.{
  ℕ, ◌+◌, ◌-◌, ◌*◌, ◌^◌, ◌≤◌, ◌<◌, ◌≡◌, sym, ◌∙◌, arith, List, [], ◌∷◌, ◌++◌, length, ◌⊎◌, inl, inr,
}
use go_quickjs.Cutils.Utf8.{read_following, code_point, unicode_to_utf8, unicode_from_utf8}
use go_quickjs.Cutils.Utf8.Bytes.{read_next_inv, read_end_inv}
use go_quickjs.Cutils.Utf8.RoundTrip.{
  encode_1, encode_2, encode_3, encode_4, encode_5, encode_6, lead_2, lead_3, lead_4, lead_5,
  lead_6,
}

-- The first bytes that are accepted, and what `max_len` must allow.
first_byte :
    (b : ℕ) (p : List ℕ) (m v : ℕ) (rest : List ℕ)
    → unicode_from_utf8 (b ∷ p) m ≡ code_point v rest
    → ((b < 0x80) × (v ≡ b) × (p ≡ rest))
      ⊎ ((0xc0 ≤ b) × (b < 0xe0) × (2 ≤ m))
      ⊎ ((0xe0 ≤ b) × (b < 0xf0) × (3 ≤ m))
      ⊎ ((0xf0 ≤ b) × (b < 0xf8) × (4 ≤ m))
      ⊎ ((0xf8 ≤ b) × (b < 0xfc) × (5 ≤ m))
      ⊎ ((0xfc ≤ b) × (b < 0xfe) × (6 ≤ m))
unfolding unicode_from_utf8
first_byte b p m v rest e = ground arith

-- The input is the encoding of `v` followed by `rest`.
record Canonical (p : List ℕ) (m v : ℕ) (rest : List ℕ) : Type 0 where
  text : p ≡ unicode_to_utf8 v ++ rest
  within : length (unicode_to_utf8 v) ≤ m
  small : v < 2 ^ 31

module _ (m v x : ℕ) (p rest : List ℕ) where
  shortest_2 :
      x < 32
      → 2 ≤ m
      → read_following 0x80 1 x p ≡ code_point v rest
      → Canonical ((x + 0xc0) ∷ p) m v rest
  shortest_2 h hm e =
      let (b, q, hb, ep, r) = read_next_inv 0x80 0 x v p rest e in
      let (ev, eq, lo) = read_end_inv 0x80 (x * 64 + b) v q rest r in
      let enc = encode_2 v lo (omega arith) in
      record { text = ground (arith, enc); within = ground (arith, enc); small = omega arith }

  shortest_3 :
      x < 16
      → 3 ≤ m
      → read_following 0x800 2 x p ≡ code_point v rest
      → Canonical ((x + 0xe0) ∷ p) m v rest
  shortest_3 h hm e =
      let (b, q0, hb, eb, r0) = read_next_inv 0x800 1 x v p rest e in
      let (d, q1, hd, ed, r1) = read_next_inv 0x800 0 (x * 64 + b) v q0 rest r0 in
      let (ev, eq, lo) = read_end_inv 0x800 ((x * 64 + b) * 64 + d) v q1 rest r1 in
      let enc = encode_3 v lo (omega arith) in
      record { text = ground (arith, enc); within = ground (arith, enc); small = omega arith }

  shortest_4 :
      x < 8
      → 4 ≤ m
      → read_following 0x10000 3 x p ≡ code_point v rest
      → Canonical ((x + 0xf0) ∷ p) m v rest
  shortest_4 h hm e =
      let (b, q0, hb, eb, r0) = read_next_inv 0x10000 2 x v p rest e in
      let (d, q1, hd, ed, r1) = read_next_inv 0x10000 1 (x * 64 + b) v q0 rest r0 in
      let (f, q2, hf, ef, r2) = read_next_inv 0x10000 0 ((x * 64 + b) * 64 + d) v q1 rest r1 in
      let (ev, eq, lo) = read_end_inv 0x10000 (((x * 64 + b) * 64 + d) * 64 + f) v q2 rest r2 in
      let enc = encode_4 v lo (omega arith) in
      record { text = ground (arith, enc); within = ground (arith, enc); small = omega arith }

  shortest_5 :
      x < 4
      → 5 ≤ m
      → read_following 0x200000 4 x p ≡ code_point v rest
      → Canonical ((x + 0xf8) ∷ p) m v rest
  shortest_5 h hm e =
      let (b, q0, hb, eb, r0) = read_next_inv 0x200000 3 x v p rest e in
      let (d, q1, hd, ed, r1) = read_next_inv 0x200000 2 (x * 64 + b) v q0 rest r0 in
      let (f, q2, hf, ef, r2) = read_next_inv 0x200000 1 ((x * 64 + b) * 64 + d) v q1 rest r1 in
      let (g, q3, hg, eg, r3) =
        read_next_inv 0x200000 0 (((x * 64 + b) * 64 + d) * 64 + f) v q2 rest r2 in
      let (ev, eq, lo) =
        read_end_inv 0x200000 ((((x * 64 + b) * 64 + d) * 64 + f) * 64 + g) v q3 rest r3 in
      let enc = encode_5 v lo (omega arith) in
      record { text = ground (arith, enc); within = ground (arith, enc); small = omega arith }

  shortest_6 :
      x < 2
      → 6 ≤ m
      → read_following 0x4000000 5 x p ≡ code_point v rest
      → Canonical ((x + 0xfc) ∷ p) m v rest
  shortest_6 h hm e =
      let (b, q0, hb, eb, r0) = read_next_inv 0x4000000 4 x v p rest e in
      let (d, q1, hd, ed, r1) = read_next_inv 0x4000000 3 (x * 64 + b) v q0 rest r0 in
      let (f, q2, hf, ef, r2) = read_next_inv 0x4000000 2 ((x * 64 + b) * 64 + d) v q1 rest r1 in
      let (g, q3, hg, eg, r3) =
        read_next_inv 0x4000000 1 (((x * 64 + b) * 64 + d) * 64 + f) v q2 rest r2 in
      let (k, q4, hk, ek, r4) =
        read_next_inv 0x4000000 0 ((((x * 64 + b) * 64 + d) * 64 + f) * 64 + g) v q3 rest r3 in
      let (ev, eq, lo) =
        read_end_inv 0x4000000 (((((x * 64 + b) * 64 + d) * 64 + f) * 64 + g) * 64 + k) v q4 rest
          r4 in
      let enc = encode_6 v lo (omega arith) in
      record { text = ground (arith, enc); within = ground (arith, enc); small = omega arith }

from_first_byte :
    (b : ℕ) (p : List ℕ) (m v : ℕ) (rest : List ℕ)
    → 1 ≤ m
    → unicode_from_utf8 (b ∷ p) m ≡ code_point v rest
    → Canonical (b ∷ p) m v rest
from_first_byte b p m v rest hm e = elim (first_byte b p m v rest e) [
  | inl (h, ev, ep) ↦
      let enc = encode_1 v (omega arith) in
      record { text = ground (arith, enc); within = ground (arith, enc); small = omega arith }
  | inr (inl (lo, hi, n)) ↦
      let same : b ≡ (b - 0xc0) + 0xc0 = omega arith in
      rw same (
        shortest_2 m v (b - 0xc0) p rest (omega arith) n
          (sym (lead_2 (b - 0xc0) p m (omega arith) n) ∙ rw (← same) e))
  | inr (inr (inl (lo, hi, n))) ↦
      let same : b ≡ (b - 0xe0) + 0xe0 = omega arith in
      rw same (
        shortest_3 m v (b - 0xe0) p rest (omega arith) n
          (sym (lead_3 (b - 0xe0) p m (omega arith) n) ∙ rw (← same) e))
  | inr (inr (inr (inl (lo, hi, n)))) ↦
      let same : b ≡ (b - 0xf0) + 0xf0 = omega arith in
      rw same (
        shortest_4 m v (b - 0xf0) p rest (omega arith) n
          (sym (lead_4 (b - 0xf0) p m (omega arith) n) ∙ rw (← same) e))
  | inr (inr (inr (inr (inl (lo, hi, n))))) ↦
      let same : b ≡ (b - 0xf8) + 0xf8 = omega arith in
      rw same (
        shortest_5 m v (b - 0xf8) p rest (omega arith) n
          (sym (lead_5 (b - 0xf8) p m (omega arith) n) ∙ rw (← same) e))
  | inr (inr (inr (inr (inr (lo, hi, n))))) ↦
      let same : b ≡ (b - 0xfc) + 0xfc = omega arith in
      rw same (
        shortest_6 m v (b - 0xfc) p rest (omega arith) n
          (sym (lead_6 (b - 0xfc) p m (omega arith) n) ∙ rw (← same) e))
]

-- The decoder accepts only shortest forms: when it reads a code point, the bytes that it consumed
-- are the encoding of that code point, at most `max_len` of them, and the value has at most 31 bits.
pub unicode_from_utf8_canonical :
    (p : List ℕ) (max_len v : ℕ) (rest : List ℕ)
    → 1 ≤ max_len
    → unicode_from_utf8 p max_len ≡ code_point v rest
    → (p ≡ unicode_to_utf8 v ++ rest) × (length (unicode_to_utf8 v) ≤ max_len) × (v < 2 ^ 31)
unicode_from_utf8_canonical [] m v rest hm e = unfold unicode_from_utf8 in cc
unicode_from_utf8_canonical (b ∷ p) m v rest hm e =
    let c = from_first_byte b p m v rest hm e in (c.text, c.within, c.small)
