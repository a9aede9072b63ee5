-- ===== src/Lines/Table.antt =====
-- quickjs.c, add_pc2line_info, compute_pc2line_info and find_line_num. An `int` is its bit pattern of
-- 32 bits. What is written is the list of the bytes that are put into `pc2line`, in order.
use go_quickjs.Base.{
  ℕ, zero, suc, ◌+◌, ◌-◌, ◌*◌, ◌/◌, ◌%◌, ◌^◌, List, [], ◌∷◌, ◌++◌, length, ltb, leb, ◌==◌, ◌&&◌,
  not, if◌then◌else◌, Bool, Option, none, some,
}
use go_quickjs.Lines.Column.{LineCol, LineColCache, get_line_col_cached}
use go_quickjs.Lines.Leb128.{dbuf_put_leb128, dbuf_put_sleb128, get_leb128, get_sleb128}

abbrev pub int_mod : ℕ
int_mod = 2 ^ 32

-- `a < b` and `a - b` of two `int`s.
abbrev pub int_lt : ℕ → ℕ → Bool
int_lt a b = ltb ((a + 2 ^ 31) % int_mod) ((b + 2 ^ 31) % int_mod)

abbrev pub int_sub : ℕ → ℕ → ℕ
int_sub a b = (a + int_mod - b) % int_mod

-- -1.
abbrev pub pc2line_base : ℕ
pc2line_base = int_mod - 1

abbrev pub pc2line_range : ℕ
pc2line_range = 5

abbrev pub pc2line_op_first : ℕ
pc2line_op_first = 1

abbrev pub pc2line_diff_pc_max : ℕ
pc2line_diff_pc_max = (255 - pc2line_op_first) / pc2line_range

pub record LineNumberSlot : Type 0 where
  pub pc : ℕ
  pub source_pos : ℕ

-- The part of `JSFunctionDef` that add_pc2line_info writes; the slots are allocated, and `size` many.
pub record LineNumbers : Type 0 where
  pub slots : List LineNumberSlot
  pub size : ℕ
  pub last : ℕ
  pub last_pc : ℕ

unfoldable pub add_pc2line_info : LineNumbers → ℕ → ℕ → LineNumbers
add_pc2line_info s pc source_pos =
    if ltb (length s.slots) s.size && (leb s.last_pc pc && not (source_pos == s.last))
    then record {
      slots = s.slots ++ record { pc = pc; source_pos = source_pos } ∷ [];
      size = s.size;
      last = source_pos;
      last_pc = pc;
    }
    else s

-- Whether the differences fit one byte.
abbrev pub is_short : ℕ → ℕ → Bool
is_short diff_pc diff_line =
    not (int_lt diff_line pc2line_base)
    && (int_lt diff_line ((pc2line_base + pc2line_range) % int_mod)
        && leb diff_pc pc2line_diff_pc_max)

-- The bytes of one slot.
unfoldable pub put_entry : ℕ → ℕ → ℕ → List ℕ
put_entry diff_pc diff_line diff_col =
    (if is_short diff_pc diff_line
      then (int_sub diff_line pc2line_base + diff_pc * pc2line_range + pc2line_op_first) % 256 ∷ []
      else 0 ∷ (dbuf_put_leb128 diff_pc ++ dbuf_put_sleb128 diff_line))
    ++ dbuf_put_sleb128 diff_col

-- `last` is the position that was written last, at `last_pc`.
unfoldable pub put_slots : List ℕ → LineColCache → ℕ → LineCol → List LineNumberSlot → List ℕ
put_slots buf cache last_pc last [] = []
put_slots buf cache last_pc last (s ∷ more) =
    let moved = get_line_col_cached buf cache s.source_pos in
    let diff_pc = int_sub s.pc last_pc in
    let diff_line = int_sub moved.at.line_num last.line_num in
    let diff_col = int_sub moved.at.col_num last.col_num in
    let passed = put_slots buf cache last_pc last more in
    let same = put_slots buf moved last_pc last more in
    let rest = put_entry diff_pc diff_line diff_col ++ put_slots buf moved s.pc moved.at more in
    if s.source_pos == int_mod - 1
    then passed
    else if int_lt diff_pc 0
    then passed
    else if diff_line == 0 && diff_col == 0
    then same
    else rest

-- With `strip_debug` unset. `source_pos` is that of the function.
unfoldable pub compute_pc2line_info : List ℕ → LineColCache → ℕ → List LineNumberSlot → List ℕ
unfolding put_slots
compute_pc2line_info buf cache source_pos slots =
    let start = get_line_col_cached buf cache source_pos in
    dbuf_put_leb128 start.at.line_num
    ++ (dbuf_put_leb128 start.at.col_num ++ put_slots buf start 0 start.at slots)

-- What one round of the reading loop reads, and the bytes behind it.
pub record Entry : Type 0 where
  pub diff_pc : ℕ
  pub diff_line : ℕ
  pub diff_col : ℕ
  pub rest : List ℕ

unfoldable pub get_col : ℕ → ℕ → List ℕ → Option Entry
get_col diff_pc diff_line p = elim (get_sleb128 p) [
  | none ↦ none
  | some (v, rest) ↦
      some (record { diff_pc = diff_pc; diff_line = diff_line; diff_col = v; rest = rest })
]

unfoldable pub get_line : ℕ → List ℕ → Option Entry
get_line diff_pc p = elim (get_sleb128 p) [ none ↦ none | some (v, rest) ↦ get_col diff_pc v rest ]

unfoldable pub get_entry : ℕ → List ℕ → Option Entry
unfolding get_line get_col
get_entry op p =
    let first = op - pc2line_op_first in
    let long : Option Entry = elim (get_leb128 p) [
      | none ↦ none
      | some (val, rest) ↦ get_line val rest
    ] in
    if op == 0
    then long
    else get_col (first / pc2line_range) ((first % pc2line_range + pc2line_base) % int_mod) p

-- `none` is the failure, for which find_line_num returns 0.
unfoldable pub find_loop : ℕ → ℕ → ℕ → LineCol → List ℕ → Option LineCol
find_loop rounds pc_value pc p [] = some p
find_loop zero pc_value pc p (op ∷ buf) = none
find_loop (suc rounds) pc_value pc p (op ∷ buf) = elim (get_entry op buf) [
  | none ↦ none
  | some e ↦
      let pc' = (pc + e.diff_pc) % int_mod in
      let next =
        find_loop rounds pc_value pc'
          (record {
            line_num = (p.line_num + e.diff_line) % int_mod;
            col_num = (p.col_num + e.diff_col) % int_mod;
          })
          e.rest in
      if ltb pc_value pc' then some p else next
]

-- For -1 the position of the function is returned. Every round takes a byte.
unfoldable pub find_in : ℕ → LineCol → List ℕ → Option LineCol
find_in pc_value p buf =
    if pc_value == int_mod - 1 then some p else find_loop (length buf) pc_value 0 p buf

unfoldable pub find_col : ℕ → ℕ → List ℕ → Option LineCol
unfolding find_in
find_col pc_value line_num buf = elim (get_leb128 buf) [
  | none ↦ none
  | some (val, rest) ↦
      find_in pc_value (record { line_num = line_num; col_num = (val + 1) % int_mod }) rest
]

-- `none` for the buffer is a function that was stripped.
unfoldable pub find_line_num : Option (List ℕ) → ℕ → Option LineCol
unfolding find_col
find_line_num none pc_value = none
find_line_num (some buf) pc_value = elim (get_leb128 buf) [
  | none ↦ none
  | some (val, rest) ↦ find_col pc_value ((val + 1) % int_mod) rest
]
