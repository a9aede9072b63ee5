-- ===== src/Lines/Examples.antt =====
-- quickjs.c, the table of positions: concrete runs, and the theorems at concrete inputs.
use go_quickjs.Base.{
  ℕ, ◌-◌, ◌^◌, ◌≡◌, refl, arith, List, [], ◌∷◌, ◌++◌, take, ◌==◌, if◌then◌else◌, some,
}
use go_quickjs.Lines.Column.{
  LineColCache, origin, get_line_col, line_col_loop, get_line_col_cached, column_back,
}
use go_quickjs.Lines.Column.Cached.{IsCached, get_line_col_cached_exact}
use go_quickjs.Lines.Leb128.{
  dbuf_put_sleb128, get_sleb128, dbuf_put_leb128, get_leb128, put_groups, get_groups,
  get_sleb128-dbuf_put_sleb128,
}
use go_quickjs.Lines.Table.{
  int_mod, LineNumberSlot, LineNumbers, put_entry, put_slots, compute_pc2line_info, get_entry,
  find_loop, find_line_num, add_pc2line_info,
}
use go_quickjs.Lines.Search.{last_slot, shown, position}
use go_quickjs.Lines.Exact.{find_line_num-compute_pc2line_info}
use go_quickjs.Lines.Slots.{AreCollected, find_line_num-add_pc2line_info}

-- "ab", "", "cd" on three lines.
abbrev source : List ℕ
source = b'a' ∷ b'b' ∷ 10 ∷ 10 ∷ b'c' ∷ b'd' ∷ []

abbrev fresh : LineColCache
fresh = record { ptr = 0; at = origin }

fresh-IsCached : IsCached source fresh
unfolding get_line_col line_col_loop
fresh-IsCached = record { within = omega arith; known = refl }

abbrev slot : ℕ → ℕ → LineNumberSlot
slot pc pos = record { pc = pc; source_pos = pos }

abbrev slots : List LineNumberSlot
slots = slot 2 5 ∷ slot 90 1 ∷ []

third_line :
    find_line_num (some (compute_pc2line_info source fresh 0 slots)) 7
    ≡ some (record { line_num = 3; col_num = 2 })
unfolding find_line_num find_loop get_entry get_groups compute_pc2line_info put_slots put_entry
    put_groups get_line_col_cached get_line_col line_col_loop column_back get_leb128 dbuf_put_leb128
    get_sleb128 dbuf_put_sleb128
third_line = refl

get_line_col_cached_exact_example :
    ((get_line_col_cached source fresh 5).at ≡ get_line_col (take 5 source))
    × IsCached source (get_line_col_cached source fresh 5)
get_line_col_cached_exact_example =
    get_line_col_cached_exact source fresh 5 fresh-IsCached (omega arith)

-- -3 takes one byte.
get_sleb128-dbuf_put_sleb128_example :
    get_sleb128 (dbuf_put_sleb128 (2 ^ 32 - 3) ++ (7 ∷ [])) ≡ some (2 ^ 32 - 3, (7 ∷ []))
get_sleb128-dbuf_put_sleb128_example =
    get_sleb128-dbuf_put_sleb128 (2 ^ 32 - 3) (7 ∷ []) (omega arith)

find_line_num-compute_pc2line_info_example :
    find_line_num (some (compute_pc2line_info source fresh 0 slots)) 95
    ≡ some (shown (position source (if 95 == int_mod - 1 then 0 else last_slot 0 slots 95)))
find_line_num-compute_pc2line_info_example =
    find_line_num-compute_pc2line_info source (omega arith) fresh 0 95 slots fresh-IsCached
      (omega arith) (omega arith)

abbrev collected : LineNumbers
collected = record { slots = slot 2 5 ∷ []; size = 4; last = 5; last_pc = 2 }

collected-AreCollected : AreCollected source collected
collected-AreCollected = record { fits = omega arith; slots = omega arith; behind = omega arith }

find_line_num-add_pc2line_info_example :
    (find_line_num
        (some (compute_pc2line_info source fresh 0 (add_pc2line_info collected 90 1).slots))
        95
      ≡ some (shown (position source 1)))
    × AreCollected source (add_pc2line_info collected 90 1)
find_line_num-add_pc2line_info_example =
    find_line_num-add_pc2line_info source (omega arith) collected 90 1 collected-AreCollected
      (omega arith) (omega arith) (omega arith) (omega arith) (omega arith) fresh 0 95
      fresh-IsCached (omega arith) (omega arith) (omega arith)
