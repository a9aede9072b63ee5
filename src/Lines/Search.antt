-- ===== src/Lines/Search.antt =====
-- quickjs.c, find_line_num: what is to be found, and one round of the search.
use go_quickjs.Base.{
  ℕ, zero, suc, ◌+◌, ◌%◌, ◌^◌, ◌≤◌, ◌<◌, ◌≡◌, refl, ap, ◌∙◌, arith, List, [], ◌∷◌, ◌++◌, length,
  take, ltb, if◌then◌else◌, some,
}
use go_quickjs.Lines.Column.{LineCol, get_line_col}
use go_quickjs.Lines.Table.{int_mod, LineNumberSlot, put_entry, find_loop}
use go_quickjs.Lines.Entry.{get_entry-put_entry}

-- The position of the last slot that is not after `pc_value`, or else `pos`.
unfoldable pub last_slot : ℕ → List LineNumberSlot → ℕ → ℕ
last_slot pos [] pc_value = pos
last_slot pos (s ∷ more) pc_value =
    let later = last_slot s.source_pos more pc_value in if ltb pc_value s.pc then pos else later

-- Slots whose offsets do not fall, from `low` on, with positions in the source.
abbrev pub AreSlots : List ℕ → ℕ → List LineNumberSlot → Type 0
AreSlots buf low [] = Unit {0}
AreSlots buf low (s ∷ more) =
    (low ≤ s.pc) × (s.pc < 2 ^ 31) × (s.source_pos ≤ length buf) × AreSlots buf s.pc more

-- Lines and columns are counted from 1 when they are shown.
abbrev pub shown : LineCol → LineCol
shown p = record { line_num = p.line_num + 1; col_num = p.col_num + 1 }

abbrev pub position : List ℕ → ℕ → LineCol
position buf pos = get_line_col (take pos buf)

pub last_slot-before :
    (buf : List ℕ) (low pos pc_value : ℕ) (slots : List LineNumberSlot)
    → AreSlots buf low slots
    → pc_value < low
    → last_slot pos slots pc_value ≡ pos
unfolding last_slot
last_slot-before buf low pos pc_value [] h lt = refl
last_slot-before buf low pos pc_value (s ∷ more) h lt = ground arith

-- One round of the reading loop on an entry that was written.
pub find_loop-put_entry :
    (rounds pc_value pc : ℕ) (p : LineCol) (dp dl dc : ℕ) (rest : List ℕ)
    → dp < int_mod
    → dl < int_mod
    → dc < int_mod
    → length (put_entry dp dl dc ++ rest) ≤ rounds
    → (fewer : ℕ) × (length rest ≤ fewer)
      × (find_loop rounds pc_value pc p (put_entry dp dl dc ++ rest) ≡ (
          if ltb pc_value ((pc + dp) % int_mod)
          then some p
          else find_loop fewer pc_value
              ((pc + dp) % int_mod)
              (record {
                line_num = (p.line_num + dl) % int_mod;
                col_num = (p.col_num + dc) % int_mod;
              })
              rest))
unfolding find_loop
find_loop-put_entry zero pc_value pc p dp dl dc rest hp hl hc room =
    let (op, buf, e, len, read) = get_entry-put_entry dp dl dc rest hp hl hc in
    absurd (omega (arith, ap length e, room))
find_loop-put_entry (suc rounds) pc_value pc p dp dl dc rest hp hl hc room =
    let (op, buf, e, len, read) = get_entry-put_entry dp dl dc rest hp hl hc in
    (
      rounds,
      omega (arith, ap length e, room, len),
      ap (find_loop (suc rounds) pc_value pc p) e ∙ rw (read, find_loop) refl,
    )

pub find_loop-nil :
    (rounds pc_value pc : ℕ) (p : LineCol) → find_loop rounds pc_value pc p [] ≡ some p
unfolding find_loop
find_loop-nil zero pc_value pc p = refl
find_loop-nil (suc rounds) pc_value pc p = refl

pub LineCol-eq : (p q : LineCol) → p.line_num ≡ q.line_num → p.col_num ≡ q.col_num → p ≡ q
LineCol-eq p q l k = ground arith
