-- ===== src/Cutils/Utf8/Bounds.antt =====
-- cutils.c, UTF-8: the bytes that are read, and the size of what is written.
use go_quickjs.Base.{
  ℕ, zero, suc, ◌-◌, ◌*◌, ◌≤◌, ◌<◌, ◌^◌, ◌≢◌, arith, List, [], ◌∷◌, length, All, bit_and, bit_or,
  get_or, Option-cases, ◌↔◌, inl, inr, some,
}
use go_quickjs.Cutils.Utf8.{
  read_following, following, from_lead, fault, unicode_to_utf8, unicode_from_utf8, utf8_min_code,
  utf8_first_code_mask, lead_byte, next_byte,
}

read_following-ne-fault :
    (least l c : ℕ) (p : List ℕ) → l ≤ length p → read_following least l c p ≢ fault
unfolding read_following
read_following-ne-fault least zero c p h = ground arith
read_following-ne-fault least (suc l) c [] h = absurd (omega arith)
read_following-ne-fault least (suc l) c (b ∷ p) h =
    ground (arith, read_following-ne-fault least l (bit_or (c * 2 ^ 6) (bit_and b 0x3f)) p)

from_lead-ne-fault :
    (c : ℕ) (p : List ℕ) (m l : ℕ) → m ≤ suc (length p) → from_lead c p m (some l) ≢ fault
unfolding from_lead
from_lead-ne-fault c p m l h = ground (
  arith,
  read_following-ne-fault (get_or utf8_min_code (l - 1) 0) l
      (bit_and c (get_or utf8_first_code_mask (l - 1) 0)) p,
)

-- With `max_len` between 1 and the number of bytes there are, the decoder reads none past the end.
pub unicode_from_utf8-ne-fault :
    (p : List ℕ) (max_len : ℕ)
    → 1 ≤ max_len
    → max_len ≤ length p
    → unicode_from_utf8 p max_len ≢ fault
unicode_from_utf8-ne-fault [] m lo hi = absurd (omega arith)
unicode_from_utf8-ne-fault (c ∷ p) m lo hi =
    unfold unicode_from_utf8 in
    elim (Option-cases (following c)) [
      | inl e ↦ ground (arith, e)
      | inr (l, e) ↦ ground (arith, e, from_lead-ne-fault c p m l hi)
    ]

abbrev pub IsByte : ℕ → Type 0
IsByte b = b < 256

-- The encoder writes bytes, one to six of them for a value of up to 31 bits, and none for any other.
pub length-unicode_to_utf8 :
    (c : ℕ)
    → All IsByte (unicode_to_utf8 c)
      × (length (unicode_to_utf8 c) ≤ 6)
      × ((1 ≤ length (unicode_to_utf8 c)) ↔ (c < 2 ^ 31))
unfolding unicode_to_utf8 lead_byte next_byte
length-unicode_to_utf8 c = ground arith
