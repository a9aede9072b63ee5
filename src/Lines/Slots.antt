-- ===== src/Lines/Slots.antt =====
-- quickjs.c, add_pc2line_info: the slots that it collects are such that the table can be written.
use go_quickjs.Base.{
  ℕ, ◌-◌, ◌^◌, ◌≤◌, ◌<◌, ◌≡◌, ◌≢◌, refl, ap, ◌∙◌, arith, List, [], ◌∷◌, ◌++◌, length, ltb, leb,
  ◌==◌, ◌&&◌, not, Bool-cases, inl, inr, length-append, some, false,
}
use go_quickjs.Lines.Table.{
  int_mod, LineNumberSlot, LineNumbers, add_pc2line_info, compute_pc2line_info, find_line_num,
}
use go_quickjs.Lines.Search.{AreSlots, last_slot, shown, position}
use go_quickjs.Lines.Exact.{find_line_num-compute_pc2line_info}
use go_quickjs.Lines.Column.{LineColCache}
use go_quickjs.Lines.Column.Cached.{IsCached}

-- The offset of the last slot.
abbrev last_offset : ℕ → List LineNumberSlot → ℕ
last_offset low [] = low
last_offset low (s ∷ more) = last_offset s.pc more

AreSlots-append :
    (buf : List ℕ) (low : ℕ) (slots : List LineNumberSlot) (s : LineNumberSlot)
    → AreSlots buf low slots
    → last_offset low slots ≤ s.pc
    → s.pc < 2 ^ 31
    → s.source_pos ≤ length buf
    → AreSlots buf low (slots ++ s ∷ [])
AreSlots-append buf low [] s h le high within = (le, high, within, tt)
AreSlots-append buf low (t ∷ more) s h le high within =
    (h.0, h.1, h.2, AreSlots-append buf t.pc more s h.3 le high within)

last_offset-append :
    (low : ℕ) (slots : List LineNumberSlot) (s : LineNumberSlot)
    → last_offset low (slots ++ s ∷ []) ≡ s.pc
last_offset-append low [] s = refl
last_offset-append low (t ∷ more) s = last_offset-append t.pc more s

-- The slots fit their room and do not fall, and `last_pc` is not before them.
pub record AreCollected (buf : List ℕ) (s : LineNumbers) : Type 0 where
  pub fits : length s.slots ≤ s.size
  pub slots : AreSlots buf 0 s.slots
  pub behind : last_offset 0 s.slots ≤ s.last_pc

-- One call, for an offset that fits an `int` and a position in the source, keeps the slots within
-- their room, with offsets that do not fall and positions in the source.
pub add_pc2line_info-AreCollected :
    (buf : List ℕ) (s : LineNumbers) (pc source_pos : ℕ)
    → AreCollected buf s
    → pc < 2 ^ 31
    → source_pos ≤ length buf
    → AreCollected buf (add_pc2line_info s pc source_pos)
unfolding add_pc2line_info
add_pc2line_info-AreCollected buf s pc source_pos c high within =
    elim (Bool-cases
      (ltb (length s.slots) s.size && (leb s.last_pc pc && not (source_pos == s.last)))) [
        | inl taken ↦
            let slot : LineNumberSlot = record { pc = pc; source_pos = source_pos } in
            let room : length s.slots < s.size = ground arith in
            let ahead : s.last_pc ≤ pc = ground arith in
            rw taken (record {
              fits = omega (arith, room, length-append s.slots (slot ∷ []));
              slots =
                  AreSlots-append buf 0 s.slots slot c.slots (omega (arith, ahead, c.behind)) high
                    within;
              behind = omega (arith, last_offset-append 0 s.slots slot);
            })
        | inr left_out ↦ rw left_out c
      ]

-- No slot is after the last one.
first-le :
    (buf : List ℕ) (low : ℕ) (slots : List LineNumberSlot)
    → AreSlots buf low slots
    → low ≤ last_offset low slots
first-le buf low [] h = omega arith
first-le buf low (t ∷ more) h = omega (arith, h.0, first-le buf t.pc more h.3)

add_pc2line_info-slots :
    (s : LineNumbers) (pc source_pos : ℕ)
    → length s.slots < s.size
    → s.last_pc ≤ pc
    → source_pos ≢ s.last
    → (add_pc2line_info s pc source_pos).slots
      ≡ s.slots ++ record { pc = pc; source_pos = source_pos } ∷ []
unfolding add_pc2line_info
add_pc2line_info-slots s pc source_pos room ahead other = ground arith

last_slot-append :
    (pos low pc_value : ℕ) (slots : List LineNumberSlot) (s : LineNumberSlot) (buf : List ℕ)
    → AreSlots buf low slots
    → last_offset low slots ≤ s.pc
    → s.pc ≤ pc_value
    → last_slot pos (slots ++ s ∷ []) pc_value ≡ s.source_pos
unfolding last_slot
last_slot-append pos low pc_value [] s buf h le up = ground arith
last_slot-append pos low pc_value (t ∷ more) s buf h le up =
    let t_le = first-le buf t.pc more h.3 in
    ground (arith, t_le, last_slot-append t.source_pos t.pc pc_value more s buf h.3 le up)

-- A slot that there is room for, at an offset from the last one on and another position, is found:
-- in the table of the slots collected then, `find_line_num` returns the line and the column of its
-- position, counted from 1, for every offset from its own on, and the slots stay collected.
pub find_line_num-add_pc2line_info :
    (buf : List ℕ)
    → length buf < 2 ^ 31
    → (s : LineNumbers) (pc source_pos : ℕ) → AreCollected buf s
    → length s.slots < s.size
    → s.last_pc ≤ pc
    → source_pos ≢ s.last
    → pc < 2 ^ 31
    → source_pos ≤ length buf
    → (cache : LineColCache) (start pc_value : ℕ) → IsCached buf cache
    → start ≤ length buf
    → pc ≤ pc_value
    → pc_value < int_mod - 1
    → (find_line_num
          (some (compute_pc2line_info buf cache start (add_pc2line_info s pc source_pos).slots))
          pc_value
        ≡ some (shown (position buf source_pos)))
      × AreCollected buf (add_pc2line_info s pc source_pos)
find_line_num-add_pc2line_info buf small s pc source_pos c room ahead other high within cache start
      pc_value cached inside from below =
    let slot : LineNumberSlot = record { pc = pc; source_pos = source_pos } in
    let c' = add_pc2line_info-AreCollected buf s pc source_pos c high within in
    let slots : (add_pc2line_info s pc source_pos).slots ≡ s.slots ++ slot ∷ [] =
      add_pc2line_info-slots s pc source_pos room ahead other in
    let not_start : (pc_value == int_mod - 1) ≡ false = ground arith in
    let found =
      last_slot-append start 0 pc_value s.slots slot buf c.slots (omega (arith, ahead, c.behind))
        from in
    (
      find_line_num-compute_pc2line_info buf small cache start pc_value _ cached inside c'.slots
          ∙ ap (λ n. some (shown (position buf n)))
              (rw not_start (ap (λ l. last_slot start l pc_value) slots ∙ found)),
      c',
    )
