-- ===== src/Lines/Exact.antt =====
-- quickjs.c, compute_pc2line_info and find_line_num together: the table gives back the positions.
use go_quickjs.Base.{
  ℕ, ◌+◌, ◌-◌, ◌%◌, ◌^◌, ◌≤◌, ◌<◌, ◌≡◌, refl, sym, ap, ◌∙◌, arith, List, [], ◌∷◌, ◌++◌, length, ltb,
  ◌==◌, ◌&&◌, if◌then◌else◌, true, false, some, Bool-cases, inl, inr, ltb→lt,
}
use go_quickjs.Lines.Column.{LineCol, LineColCache, get_line_col_cached}
use go_quickjs.Lines.Column.Cached.{IsCached, get_line_col_cached_exact, get_line_col-le}
use go_quickjs.Lines.Leb128.{dbuf_put_leb128, get_leb128-dbuf_put_leb128}
use go_quickjs.Lines.Table.{
  int_mod, int_lt, int_sub, LineNumberSlot, put_entry, put_slots, compute_pc2line_info, find_loop,
  find_in, find_col, find_line_num,
}
use go_quickjs.Lines.Search.{
  last_slot, AreSlots, shown, position, last_slot-before, find_loop-put_entry, find_loop-nil,
  LineCol-eq,
}

module _ (buf : List ℕ) (small : length buf < 2 ^ 31) where
  -- What is written from a slot on that moves to `q`, for slots that go forward in the source.
  abbrev from_slot :
      LineColCache → ℕ → LineCol → LineNumberSlot → List LineNumberSlot → LineCol → List ℕ
  from_slot moved pc last s more q =
      let dl = int_sub q.line_num last.line_num in
      let dc = int_sub q.col_num last.col_num in
      if dl == 0 && dc == 0
      then put_slots buf moved pc last more
      else put_entry (s.pc - pc) dl dc ++ put_slots buf moved s.pc q more

  put_slots-cons :
      (cache : LineColCache) (pc : ℕ) (last : LineCol) (s : LineNumberSlot)
      (more : List LineNumberSlot)
      → IsCached buf cache
      → pc ≤ s.pc
      → s.pc < 2 ^ 31
      → s.source_pos ≤ length buf
      → put_slots buf cache pc last (s ∷ more)
        ≡ from_slot
            (get_line_col_cached buf cache s.source_pos)
            pc
            last
            s
            more
            (position buf s.source_pos)
  unfolding put_slots
  put_slots-cons cache pc last s more c le high within =
      let moved = get_line_col_cached buf cache s.source_pos in
      let known : (s.source_pos == int_mod - 1) ≡ false = ground arith in
      let forward : int_lt (int_sub s.pc pc) 0 ≡ false = ground arith in
      let diff : int_sub s.pc pc ≡ s.pc - pc = omega arith in
      rw known (
        rw forward (
          rw diff (
            ap (from_slot moved pc last s more)
              (get_line_col_cached_exact buf cache s.source_pos c within).0)))

  same_position :
      (pos pos' : ℕ)
      → (int_sub (position buf pos').line_num (position buf pos).line_num == 0
          && int_sub (position buf pos').col_num (position buf pos).col_num == 0)
        ≡ true
      → position buf pos ≡ position buf pos'
  same_position pos pos' e =
      let (l, k) = get_line_col-le buf pos in
      let (l', k') = get_line_col-le buf pos' in ground arith

  -- The position that is read after an entry.
  next_position :
      (pos pos' : ℕ)
      → let p = position buf pos in
        let q = position buf pos' in
        ((p.line_num + 1 + int_sub q.line_num p.line_num) % int_mod ≡ q.line_num + 1)
        × ((p.col_num + 1 + int_sub q.col_num p.col_num) % int_mod ≡ q.col_num + 1)
  next_position pos pos' =
      let (l, k) = get_line_col-le buf pos in
      let (l', k') = get_line_col-le buf pos' in (omega arith, omega arith)

  put_slots-nil :
      (cache : LineColCache) (pc pos : ℕ) → put_slots buf cache pc (position buf pos) [] ≡ []
  unfolding put_slots
  put_slots-nil cache pc pos = refl

  -- A slot at the position of the last one changes nothing.
  stay :
      (s : LineNumberSlot) (more : List LineNumberSlot) (pos pc_value : ℕ)
      → AreSlots buf s.pc more
      → position buf pos ≡ position buf s.source_pos
      → some (shown (position buf (last_slot s.source_pos more pc_value)))
        ≡ some (shown (position buf (last_slot pos (s ∷ more) pc_value)))
  unfolding last_slot
  stay s more pos pc_value h same = elim (Bool-cases (ltb pc_value s.pc)) [
    | inl e ↦ rw e (
        ap (λ z. some (shown (position buf z)))
          (last_slot-before buf s.pc s.source_pos pc_value more h (ltb→lt pc_value s.pc e))
        ∙ ap (λ z. some (shown z)) (sym same))
    | inr e ↦ rw e refl
  ]

  -- A slot at another position ends the search or goes on from there.
  move :
      (fewer pc_value : ℕ) (s : LineNumberSlot) (p q : LineCol) (pc : ℕ) (next : LineCol)
      (rest : List ℕ)
      → pc ≡ s.pc
      → next ≡ shown q
      → (pos : ℕ) (more : List LineNumberSlot) → p ≡ position buf pos
      → find_loop fewer pc_value s.pc (shown q) rest
        ≡ some (shown (position buf (last_slot s.source_pos more pc_value)))
      → (if ltb pc_value pc then some (shown p) else find_loop fewer pc_value pc next rest)
        ≡ some (shown (position buf (last_slot pos (s ∷ more) pc_value)))
  unfolding last_slot
  move fewer pc_value s p q pc next rest to_pc to_next pos more is_pos ih =
      ap (λ z. if ltb pc_value z then some (shown p) else find_loop fewer pc_value z next rest)
        to_pc
      ∙ (ap
            (λ z.
              if ltb pc_value s.pc then some (shown p) else find_loop fewer pc_value s.pc z rest)
            to_next
          ∙ elim (Bool-cases (ltb pc_value s.pc)) [
            | inl e ↦ rw e (ap (λ z. some (shown z)) is_pos)
            | inr e ↦ rw e ih
          ])

  -- The induction is over the slots.
  find_loop-put_slots :
      (rounds pc_value pc low pos : ℕ) (cache : LineColCache) (slots : List LineNumberSlot)
      → IsCached buf cache
      → pc ≤ low
      → AreSlots buf low slots
      → length (put_slots buf cache pc (position buf pos) slots) ≤ rounds
      → find_loop rounds pc_value pc
          (shown (position buf pos))
          (put_slots buf cache pc (position buf pos) slots)
        ≡ some (shown (position buf (last_slot pos slots pc_value)))
  unfolding last_slot
  find_loop-put_slots rounds pc_value pc low pos cache [] c le h room =
      ap (find_loop rounds pc_value pc (shown (position buf pos))) (put_slots-nil cache pc pos)
      ∙ find_loop-nil rounds pc_value pc (shown (position buf pos))
  find_loop-put_slots rounds pc_value pc low pos cache (s ∷ more) c le h room =
      let moved = get_line_col_cached buf cache s.source_pos in
      let (at, c') = get_line_col_cached_exact buf cache s.source_pos c h.2 in
      let q = position buf s.source_pos in
      let p = position buf pos in
      let dl = int_sub q.line_num p.line_num in
      let dc = int_sub q.col_num p.col_num in
      let written = put_slots-cons cache pc p s more c (omega (arith, le, h.0)) h.1 h.2 in
      let dp = s.pc - pc in
      elim (Bool-cases (dl == 0 && dc == 0)) [
        | inl stays ↦
            let same = same_position pos s.source_pos stays in
            let shorter : put_slots buf cache pc p (s ∷ more) ≡ put_slots buf moved pc q more =
              written ∙ (rw stays (ap (λ z. put_slots buf moved pc z more) same)) in
            let ih =
              find_loop-put_slots rounds pc_value pc s.pc s.source_pos moved more c'
                (omega (arith, le, h.0)) h.3 (omega (arith, room, ap length shorter)) in
            ap (find_loop rounds pc_value pc (shown p)) shorter
            ∙ (ap (λ z. find_loop rounds pc_value pc (shown z) (put_slots buf moved pc q more)) same
                ∙ (ih ∙ stay s more pos pc_value h.3 same))
        | inr moves ↦
            let rest = put_slots buf moved s.pc q more in
            let longer : put_slots buf cache pc p (s ∷ more) ≡ put_entry dp dl dc ++ rest =
              written ∙ (rw moves refl) in
            let (fewer, len, round) =
              find_loop-put_entry rounds pc_value pc (shown p) dp dl dc rest (omega (arith, h.1))
                (omega arith) (omega arith) (omega (arith, room, ap length longer)) in
            let (to_line, to_col) = next_position pos s.source_pos in
            let to_pc : (pc + dp) % int_mod ≡ s.pc = omega (arith, le, h.0, h.1) in
            let ih =
              find_loop-put_slots fewer pc_value s.pc s.pc s.source_pos moved more c' (omega arith)
                h.3 len in
            ap (find_loop rounds pc_value pc (shown p)) longer
            ∙ (round
                ∙ move fewer pc_value s p q ((pc + dp) % int_mod) _ rest to_pc
                    (LineCol-eq _ (shown q) to_line to_col) pos more refl ih)
      ]

  find_line_num-put :
      (pc_value line col : ℕ) (rest : List ℕ)
      → line < 2 ^ 31
      → col < 2 ^ 31
      → find_line_num (some (dbuf_put_leb128 line ++ (dbuf_put_leb128 col ++ rest))) pc_value
        ≡ find_in pc_value (record { line_num = line + 1; col_num = col + 1 }) rest
  unfolding find_line_num find_col
  find_line_num-put pc_value line col rest hl hc =
      rw
        (get_leb128-dbuf_put_leb128 line (dbuf_put_leb128 col ++ rest) (omega arith), find_line_num)
        (rw (get_leb128-dbuf_put_leb128 col rest (omega arith), find_col)
          (ap (λ z. find_in pc_value z rest) (ground arith)))

  -- For slots whose offsets do not fall and fit an `int`, with positions in a source of less than
  -- `2 ^ 31` bytes: `find_line_num` on the table that `compute_pc2line_info` writes returns the line
  -- and the column, counted from 1, of the last slot that is not after `pc_value`, or those of the
  -- function when there is none or `pc_value` is -1.
  pub find_line_num-compute_pc2line_info :
      (cache : LineColCache) (source_pos pc_value : ℕ) (slots : List LineNumberSlot)
      → IsCached buf cache
      → source_pos ≤ length buf
      → AreSlots buf 0 slots
      → find_line_num (some (compute_pc2line_info buf cache source_pos slots)) pc_value
        ≡ some (
            shown (
              position buf (
                if pc_value == int_mod - 1
                then source_pos
                else last_slot source_pos slots pc_value)))
  unfolding compute_pc2line_info find_in
  find_line_num-compute_pc2line_info cache source_pos pc_value slots c within h =
      let start = get_line_col_cached buf cache source_pos in
      let (at, c') = get_line_col_cached_exact buf cache source_pos c within in
      let p = position buf source_pos in
      let (l, k) = get_line_col-le buf source_pos in
      let rest = put_slots buf start 0 p slots in
      ap
        (λ (z : LineCol).
          find_line_num
            (some (
              dbuf_put_leb128 z.line_num
              ++ (dbuf_put_leb128 z.col_num ++ put_slots buf start 0 z slots)))
            pc_value)
        at
      ∙ (find_line_num-put pc_value p.line_num p.col_num rest (omega (arith, l)) (omega (arith, k))
          ∙ elim (Bool-cases (pc_value == int_mod - 1)) [
            | inl e ↦ rw e refl
            | inr e ↦ rw e (
                find_loop-put_slots (length rest) pc_value 0 0 source_pos start slots c'
                  (omega arith) h (omega arith))
          ])
