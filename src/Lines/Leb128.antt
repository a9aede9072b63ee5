-- ===== src/Lines/Leb128.antt =====
-- quickjs.c, the numbers of variable length: dbuf_put_leb128, dbuf_put_sleb128, get_leb128 and
-- get_sleb128. What is written is the list of the bytes that are put into the buffer, in order; what
-- is read is the value and the rest of the bytes, or `none` for -1. An `int32_t` is its bit pattern.
use go_quickjs.Base.{
  ℕ, zero, suc, ◌+◌, ◌-◌, ◌*◌, ◌/◌, ◌%◌, ◌^◌, ◌≤◌, ◌<◌, ◌≡◌, ap, ◌∙◌, arith, bit_or, bit_xor, List,
  [], ◌∷◌, ◌++◌, Option, none, some, ◌==◌, if◌then◌else◌, true, false, Bool-cases, inl, inr,
}
use native.Mathlib.Nat.{mod-eq_of_lt, mul-le-mul_right}
use go_quickjs.Base.Bits.{or_low_high}
use go_quickjs.Base.Words.{xor_zero, xor_ones, xor-lt-pow}
use go_quickjs.Base.Powers.{pow-add}

-- A word of 32 bits has five groups of 7 bits at most.
unfoldable pub put_groups : ℕ → ℕ → List ℕ
put_groups zero v = []
put_groups (suc rounds) v =
    let a = v % 128 in
    let more = bit_or a 0x80 ∷ put_groups rounds (v / 128) in if v / 128 == 0 then a ∷ [] else more

unfoldable pub dbuf_put_leb128 : ℕ → List ℕ
unfolding put_groups
dbuf_put_leb128 v = put_groups 5 v

-- `-x` of a word.
abbrev pub negate : ℕ → ℕ
negate x = (2 ^ 32 - x) % 2 ^ 32

unfoldable pub zigzag : ℕ → ℕ
zigzag v = bit_xor (2 * v % 2 ^ 32) (negate (v / 2 ^ 31))

unfoldable pub dbuf_put_sleb128 : ℕ → List ℕ
unfolding dbuf_put_leb128 zigzag
dbuf_put_sleb128 v = dbuf_put_leb128 (zigzag v)

unfoldable pub get_groups : ℕ → ℕ → ℕ → List ℕ → Option (ℕ × List ℕ)
get_groups zero i v buf = none
get_groups (suc rounds) i v [] = none
get_groups (suc rounds) i v (a ∷ buf) =
    let w = bit_or v (a % 128 * 2 ^ (i * 7) % 2 ^ 32) in
    let next = get_groups rounds (suc i) w buf in if a / 128 % 2 == 0 then some (w, buf) else next

unfoldable pub get_leb128 : List ℕ → Option (ℕ × List ℕ)
unfolding get_groups
get_leb128 buf = get_groups 5 0 0 buf

unfoldable pub unzigzag : ℕ → ℕ
unzigzag val = bit_xor (val / 2) (negate (val % 2))

unfoldable pub get_sleb128 : List ℕ → Option (ℕ × List ℕ)
unfolding get_leb128 unzigzag
get_sleb128 buf = elim (get_leb128 buf) [
  | none ↦ none
  | some (val, rest) ↦ some (unzigzag val, rest)
]

-- One more group of 7 bits.
shift_group : (i : ℕ) → 2 ^ (suc i * 7) ≡ 128 * 2 ^ (i * 7)
shift_group i =
    let e : suc i * 7 ≡ 7 + i * 7 = omega arith in ap (λ n. 2 ^ n) e ∙ pow-add 2 7 (i * 7)

-- A group that is read goes in front of those that were.
add_group :
    (i acc d : ℕ)
    → acc < 2 ^ (i * 7)
    → d * 2 ^ (i * 7) < 2 ^ 32
    → bit_or acc (d * 2 ^ (i * 7) % 2 ^ 32) ≡ acc + d * 2 ^ (i * 7)
add_group i acc d low fits =
    ap (bit_or acc) (mod-eq_of_lt fits) ∙ (or_low_high (i * 7) d acc low ∙ omega arith)

-- The byte that is not the last one, and what its parts are.
more_byte : (d : ℕ) → d < 128 → (bit_or d 0x80 % 128 ≡ d) × (bit_or d 0x80 / 128 % 2 ≡ 1)
more_byte d h = let e = or_low_high 7 1 d h in (omega (arith, e), omega (arith, e))

-- The groups of a number, the low one times `p` and the rest times 128 `p`.
split_groups : (v p : ℕ) → v * p ≡ v % 128 * p + v / 128 * (128 * p)
split_groups v p =
    let e : v ≡ v % 128 + v / 128 * 128 = omega arith in omega (arith, ap (λ (t : ℕ). t * p) e)

get_groups-last :
    (rounds i acc v : ℕ) (rest : List ℕ)
    → acc < 2 ^ (i * 7)
    → v < 128
    → v * 2 ^ (i * 7) < 2 ^ 32
    → get_groups (suc rounds) i acc (v ∷ rest) ≡ some (acc + v * 2 ^ (i * 7), rest)
unfolding get_groups
get_groups-last rounds i acc v rest low small fits =
    let same : v % 128 ≡ v = omega arith in
    let last : (v / 128 % 2 == 0) ≡ true = ground arith in
    rw last (rw same (ap (λ w. some (w, rest)) (add_group i acc v low fits)))

get_groups-more :
    (rounds i acc d : ℕ) (buf : List ℕ)
    → acc < 2 ^ (i * 7)
    → d < 128
    → d * 2 ^ (i * 7) < 2 ^ 32
    → get_groups (suc rounds) i acc (bit_or d 0x80 ∷ buf)
      ≡ get_groups rounds (suc i) (acc + d * 2 ^ (i * 7)) buf
unfolding get_groups
get_groups-more rounds i acc d buf low small fits =
    let (group, more) = more_byte d small in
    let go_on : (bit_or d 0x80 / 128 % 2 == 0) ≡ false = ground arith in
    rw go_on (rw group (ap (λ w. get_groups rounds (suc i) w buf) (add_group i acc d low fits)))

get_groups-put_groups :
    (rounds i acc v : ℕ) (rest : List ℕ)
    → acc < 2 ^ (i * 7)
    → v < 2 ^ (suc rounds * 7)
    → v * 2 ^ (i * 7) < 2 ^ 32
    → get_groups (suc rounds) i acc (put_groups (suc rounds) v ++ rest)
      ≡ some (acc + v * 2 ^ (i * 7), rest)
unfolding put_groups
get_groups-put_groups zero i acc v rest low few fits =
    let last : (v / 128 == 0) ≡ true = ground arith in
    let same : v % 128 ≡ v = omega arith in
    rw last (rw same (get_groups-last zero i acc v rest low few fits))
get_groups-put_groups (suc rounds) i acc v rest low few fits =
    let d = v % 128 in
    let p = 2 ^ (i * 7) in
    let q = v / 128 in
    let parts = split_groups v p in
    elim (Bool-cases (q == 0)) [
      | inl last ↦
          let small : v < 128 = ground arith in
          let same : v % 128 ≡ v = omega arith in
          rw last (rw same (get_groups-last (suc rounds) i acc v rest low small fits))
      | inr more ↦
          let s = shift_group i in
          let scaled : q * 2 ^ (suc i * 7) ≡ q * (128 * p) = ap (λ t. q * t) s in
          let low_d : d * p ≤ 127 * p = mul-le-mul_right p (omega arith) in
          rw more (
            get_groups-more (suc rounds) i acc d (put_groups (suc rounds) q ++ rest) low
              (omega arith) (omega (arith, parts))
            ∙ (get_groups-put_groups rounds (suc i) (acc + d * p) q rest
                  (omega (arith, low, low_d, s)) (omega (arith, few, shift_group (suc rounds)))
                  (omega (arith, parts, scaled))
                ∙ ap (λ w. some (w, rest)) (omega (arith, parts, scaled))))
    ]

-- A word is read back from its encoding, whatever follows it.
pub get_leb128-dbuf_put_leb128 :
    (v : ℕ) (rest : List ℕ) → v < 2 ^ 32 → get_leb128 (dbuf_put_leb128 v ++ rest) ≡ some (v, rest)
unfolding get_leb128 dbuf_put_leb128
get_leb128-dbuf_put_leb128 v rest h =
    get_groups-put_groups 4 0 0 v rest (omega arith) (omega arith) (omega arith)
    ∙ ap (λ w. some (w, rest)) (omega arith)

pub zigzag-lt : (v : ℕ) → zigzag v < 2 ^ 32
unfolding zigzag
zigzag-lt v = xor-lt-pow 32 (2 * v % 2 ^ 32) (negate (v / 2 ^ 31)) (omega arith) (omega arith)

pub unzigzag-zigzag : (v : ℕ) → v < 2 ^ 32 → unzigzag (zigzag v) ≡ v
unfolding unzigzag zigzag
unzigzag-zigzag v h = elim (Bool-cases (v / 2 ^ 31 == 0)) [
  | inl low ↦
      let z : negate (v / 2 ^ 31) ≡ 0 = ground arith in
      let first : bit_xor (2 * v % 2 ^ 32) (negate (v / 2 ^ 31)) ≡ 2 * v =
        ap (bit_xor (2 * v % 2 ^ 32)) z
        ∙ (xor_zero 32 (2 * v % 2 ^ 32) (omega arith) ∙ ground arith) in
      let half : 2 * v / 2 ≡ v = omega arith in
      let even : negate (2 * v % 2) ≡ 0 = omega arith in
      ap (λ w. bit_xor (w / 2) (negate (w % 2))) first
      ∙ (ap (bit_xor (2 * v / 2)) even ∙ (ap (λ w. bit_xor w 0) half ∙ xor_zero 32 v h))
  | inr high ↦
      let z : negate (v / 2 ^ 31) ≡ 2 ^ 32 - 1 = ground arith in
      let x = 2 ^ 33 - 1 - 2 * v in
      let first : bit_xor (2 * v % 2 ^ 32) (negate (v / 2 ^ 31)) ≡ x =
        ap (bit_xor (2 * v % 2 ^ 32)) z
        ∙ (xor_ones 32 (2 * v % 2 ^ 32) (omega arith) ∙ ground arith) in
      let half : x / 2 ≡ 2 ^ 32 - 1 - v = omega arith in
      let odd : negate (x % 2) ≡ 2 ^ 32 - 1 = ground arith in
      ap (λ w. bit_xor (w / 2) (negate (w % 2))) first
      ∙ (ap (bit_xor (x / 2)) odd
          ∙ (ap (λ w. bit_xor w (2 ^ 32 - 1)) half
              ∙ (xor_ones 32 (2 ^ 32 - 1 - v) (omega arith) ∙ omega arith)))
]

-- An `int32_t` is read back from its encoding, whatever follows it.
pub get_sleb128-dbuf_put_sleb128 :
    (v : ℕ) (rest : List ℕ) → v < 2 ^ 32 → get_sleb128 (dbuf_put_sleb128 v ++ rest) ≡ some (v, rest)
unfolding get_sleb128 dbuf_put_sleb128
get_sleb128-dbuf_put_sleb128 v rest h =
    rw (get_leb128-dbuf_put_leb128 (zigzag v) rest (zigzag-lt v), get_sleb128)
      (ap (λ w. some (w, rest)) (unzigzag-zigzag v h))
