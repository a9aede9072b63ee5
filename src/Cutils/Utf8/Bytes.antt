-- ===== src/Cutils/Utf8/Bytes.antt =====
-- cutils.c, UTF-8: the bytes and masks of the encoder and the decoder as plain arithmetic.
use go_quickjs.Base.{
  ℕ, suc, ◌+◌, ◌-◌, ◌*◌, ◌/◌, ◌%◌, ◌^◌, ◌≤◌, ◌<◌, ◌≡◌, refl, sym, ap, ◌∙◌, arith, List, [], ◌∷◌,
  ltb, if◌then◌else◌,
}
use go_quickjs.Base.Bits.{or_high_low, or_low_high, and_mask}
use go_quickjs.Cutils.Utf8.{lead_byte, next_byte, read_following, Decoded, code_point, invalid}

pub next_byte_sum : (c k : ℕ) → next_byte c k ≡ c / 2 ^ k % 64 + 128
unfolding next_byte
next_byte_sum c k =
    rw (and_mask 6 (c / 2 ^ k), or_low_high 6 2 (c / 2 ^ k % 64) (omega arith)) (omega arith)

-- `mark` has its bits above the `j` low ones, where `c >> k` lies.
pub lead_byte_sum :
    (c k j q : ℕ)
    → c / 2 ^ k < 2 ^ j
    → q * 2 ^ j + 2 ^ j ≤ 256
    → lead_byte c k (q * 2 ^ j) ≡ q * 2 ^ j + c / 2 ^ k
unfolding lead_byte
lead_byte_sum c k j q h fits = rw (or_low_high j q (c / 2 ^ k) h) (omega arith)

-- One round of the decoder's loop on a byte in range, and on any other.
pub read_next :
    (least l c b : ℕ) (p : List ℕ)
    → b < 64
    → read_following least (suc l) c ((b + 128) ∷ p) ≡ read_following least l (c * 64 + b) p
unfolding read_following
read_next least l c b p h = ground (arith, and_mask 6 (b + 128), or_high_low 6 c b)

-- The reader on one to five bytes that carry six bits each.
module _ (least : ℕ) (rest : List ℕ) where
  abbrev pub finish : ℕ → Decoded
  finish v = if ltb v least then invalid else code_point v rest

  pub read_1 :
      (c b : ℕ) → b < 64 → read_following least 1 c ((b + 128) ∷ rest) ≡ finish (c * 64 + b)
  read_1 c b h = read_next least 0 c b rest h ∙ (unfold read_following in refl)

  pub read_2 :
      (c b d : ℕ)
      → b < 64
      → d < 64
      → read_following least 2 c ((b + 128) ∷ (d + 128) ∷ rest) ≡ finish ((c * 64 + b) * 64 + d)
  read_2 c b d hb hd = read_next least 1 c b _ hb ∙ read_1 (c * 64 + b) d hd

  pub read_3 :
      (c b d e : ℕ)
      → b < 64
      → d < 64
      → e < 64
      → read_following least 3 c ((b + 128) ∷ (d + 128) ∷ (e + 128) ∷ rest)
        ≡ finish (((c * 64 + b) * 64 + d) * 64 + e)
  read_3 c b d e hb hd he = read_next least 2 c b _ hb ∙ read_2 (c * 64 + b) d e hd he

  pub read_4 :
      (c b d e f : ℕ)
      → b < 64
      → d < 64
      → e < 64
      → f < 64
      → read_following least 4 c ((b + 128) ∷ (d + 128) ∷ (e + 128) ∷ (f + 128) ∷ rest)
        ≡ finish ((((c * 64 + b) * 64 + d) * 64 + e) * 64 + f)
  read_4 c b d e f hb hd he hf = read_next least 3 c b _ hb ∙ read_3 (c * 64 + b) d e f hd he hf

  pub read_5 :
      (c b d e f g : ℕ)
      → b < 64
      → d < 64
      → e < 64
      → f < 64
      → g < 64
      → read_following least 5 c ((b + 128) ∷ (d + 128) ∷ (e + 128) ∷ (f + 128) ∷ (g + 128) ∷ rest)
        ≡ finish (((((c * 64 + b) * 64 + d) * 64 + e) * 64 + f) * 64 + g)
  read_5 c b d e f g hb hd he hf hg =
      read_next least 4 c b _ hb ∙ read_4 (c * 64 + b) d e f g hd he hf hg

-- A successful round read a byte of the range 0x80 to 0xbf.
pub read_next_inv :
    (least l c v : ℕ) (p rest : List ℕ)
    → read_following least (suc l) c p ≡ code_point v rest
    → (b : ℕ) × (q : List ℕ) × (b < 64)
      × (p ≡ (b + 128) ∷ q)
      × (read_following least l (c * 64 + b) q ≡ code_point v rest)
read_next_inv least l c v [] rest e = unfold read_following in cc
read_next_inv least l c v (x ∷ q) rest e = (x - 128, q, lt, ap (λ (t : ℕ). t ∷ q) same, step)
  where
    range : (128 ≤ x) × (x < 192)
    range = unfold read_following in ground arith

    lt : x - 128 < 64
    lt = omega (arith, range)

    same : x ≡ (x - 128) + 128
    same = omega (arith, range)

    step : read_following least l (c * 64 + (x - 128)) q ≡ code_point v rest
    step = sym (read_next least l c (x - 128) q lt) ∙ rw (← same) e

pub read_end_inv :
    (least c v : ℕ) (p rest : List ℕ)
    → read_following least 0 c p ≡ code_point v rest
    → (v ≡ c) × (p ≡ rest) × (least ≤ v)
unfolding read_following
read_end_inv least c v p rest e = ground arith
