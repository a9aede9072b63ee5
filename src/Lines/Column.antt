-- ===== src/Lines/Column.antt =====
-- quickjs.c, get_line_col and get_line_col_cached: the line and the column of a position, counted
-- from 0. The source is the list of its bytes, and a pointer into it is an offset.
pub mod Cached
use go_quickjs.Base.{
  ℕ, zero, suc, ◌+◌, ◌-◌, List, [], ◌∷◌, take, drop, get_or, ltb, leb, ◌==◌, ◌||◌, if◌then◌else◌,
  Bool,
}

pub record LineCol : Type 0 where
  pub line_num : ℕ
  pub col_num : ℕ

abbrev pub newline : ℕ
newline = 10

-- A byte that begins a character.
abbrev pub is_first : ℕ → Bool
is_first c = ltb c 0x80 || leb 0xc0 c

abbrev pub count_byte : LineCol → ℕ → LineCol
count_byte p c =
    if c == newline
    then record { line_num = p.line_num + 1; col_num = 0 }
    else if is_first c
    then record { line_num = p.line_num; col_num = p.col_num + 1 }
    else p

unfoldable pub line_col_loop : LineCol → List ℕ → LineCol
line_col_loop p [] = p
line_col_loop p (c ∷ buf) = line_col_loop (count_byte p c) buf

abbrev pub origin : LineCol
origin = record { line_num = 0; col_num = 0 }

unfoldable pub get_line_col : List ℕ → LineCol
unfolding line_col_loop
get_line_col buf = line_col_loop origin buf

-- `GetLineColCache`, without the buffer.
pub record LineColCache : Type 0 where
  pub ptr : ℕ
  pub at : LineCol

-- The loop that goes back from a position to the begin of its line.
unfoldable pub column_back : List ℕ → ℕ → ℕ → ℕ
column_back buf zero col_num = col_num
column_back buf (suc p) col_num =
    let c = get_or buf p 0 in
    let before = column_back buf p (if is_first c then col_num + 1 else col_num) in
    if c == newline then col_num else before

-- The bytes from an offset up to another.
abbrev pub between : List ℕ → ℕ → ℕ → List ℕ
between buf a b = take (b - a) (drop a buf)

unfoldable pub get_line_col_cached : List ℕ → LineColCache → ℕ → LineColCache
get_line_col_cached buf s ptr =
    let on = get_line_col (between buf s.ptr ptr) in
    let back = get_line_col (between buf ptr s.ptr) in
    if leb s.ptr ptr
    then record {
      ptr = ptr;
      at =
          if on.line_num == 0
          then record { line_num = s.at.line_num; col_num = s.at.col_num + on.col_num }
          else record { line_num = s.at.line_num + on.line_num; col_num = on.col_num };
    }
    else record {
      ptr = ptr;
      at =
          if back.line_num == 0
          then record { line_num = s.at.line_num; col_num = s.at.col_num - back.col_num }
          else record { line_num = s.at.line_num - back.line_num; col_num = column_back buf ptr 0 };
    }
