-- ===== src/Lines/Entry.antt =====
-- quickjs.c: an entry of the table is read as it was written.
use go_quickjs.Base.{
  ℕ, ◌+◌, ◌-◌, ◌*◌, ◌/◌, ◌%◌, ◌≤◌, ◌<◌, ◌≡◌, refl, ap, ◌∙◌, arith, List, ◌∷◌, ◌++◌, length, ◌==◌,
  true, false, some, Bool-cases, inl, inr, length-append,
}
use mathlib.Core.List.{append_assoc}
use go_quickjs.Lines.Leb128.{
  dbuf_put_leb128, dbuf_put_sleb128, get_leb128-dbuf_put_leb128, get_sleb128-dbuf_put_sleb128,
}
use go_quickjs.Lines.Table.{
  int_mod, int_sub, pc2line_base, pc2line_range, pc2line_op_first, is_short, put_entry, get_col,
  get_line, get_entry,
}

get_col-put :
    (dp dl dc : ℕ) (rest : List ℕ)
    → dc < int_mod
    → get_col dp dl (dbuf_put_sleb128 dc ++ rest)
      ≡ some (record { diff_pc = dp; diff_line = dl; diff_col = dc; rest = rest })
unfolding get_col
get_col-put dp dl dc rest h = rw (get_sleb128-dbuf_put_sleb128 dc rest h, get_col) refl

get_line-put :
    (dp dl : ℕ) (buf : List ℕ)
    → dl < int_mod
    → get_line dp (dbuf_put_sleb128 dl ++ buf) ≡ get_col dp dl buf
unfolding get_line
get_line-put dp dl buf h = rw (get_sleb128-dbuf_put_sleb128 dl buf h, get_line) refl

get_entry-long :
    (dp : ℕ) (buf : List ℕ)
    → dp < int_mod
    → get_entry 0 (dbuf_put_leb128 dp ++ buf) ≡ get_line dp buf
unfolding get_entry
get_entry-long dp buf h = rw (get_leb128-dbuf_put_leb128 dp buf h, get_entry) refl

-- The byte of the short form, and the differences that it stands for.
short_byte :
    (dp dl : ℕ)
    → dl < int_mod
    → is_short dp dl ≡ true
    → let op = (int_sub dl pc2line_base + dp * pc2line_range + pc2line_op_first) % 256 in
      (0 < op)
      × ((op - pc2line_op_first) / pc2line_range ≡ dp)
      × (((op - pc2line_op_first) % pc2line_range + pc2line_base) % int_mod ≡ dl)
short_byte dp dl hl short =
    let few : dp ≤ 50 = ground arith in
    let near : int_sub dl pc2line_base < 5 = ground arith in (omega arith, omega arith, omega arith)

get_entry-short :
    (op : ℕ) (buf : List ℕ)
    → 0 < op
    → get_entry op buf
      ≡ get_col
          ((op - pc2line_op_first) / pc2line_range)
          (((op - pc2line_op_first) % pc2line_range + pc2line_base) % int_mod)
          buf
unfolding get_entry
get_entry-short op buf h = let n : (op == 0) ≡ false = ground arith in rw n refl

-- Whichever form was written, the same differences are read; the entry has at least one byte.
pub get_entry-put_entry :
    (dp dl dc : ℕ) (rest : List ℕ)
    → dp < int_mod
    → dl < int_mod
    → dc < int_mod
    → (op : ℕ) × (buf : List ℕ) × (put_entry dp dl dc ++ rest ≡ op ∷ buf)
      × (length rest ≤ length buf)
      × (get_entry op buf
          ≡ some (record { diff_pc = dp; diff_line = dl; diff_col = dc; rest = rest }))
unfolding put_entry
get_entry-put_entry dp dl dc rest hp hl hc = elim (Bool-cases (is_short dp dl)) [
  | inl short ↦
      let op = (int_sub dl pc2line_base + dp * pc2line_range + pc2line_op_first) % 256 in
      let line = ((op - pc2line_op_first) % pc2line_range + pc2line_base) % int_mod in
      let (pos, to_pc, to_line) = short_byte dp dl hl short in
      (
        op,
        dbuf_put_sleb128 dc ++ rest,
        rw short refl,
        omega (arith, length-append (dbuf_put_sleb128 dc) rest),
        get_entry-short op (dbuf_put_sleb128 dc ++ rest) pos
            ∙ (ap (λ z. get_col z line (dbuf_put_sleb128 dc ++ rest)) to_pc
                ∙ (ap (λ z. get_col dp z (dbuf_put_sleb128 dc ++ rest)) to_line
                    ∙ get_col-put dp dl dc rest hc)),
      )
  | inr long ↦
      let tail = dbuf_put_sleb128 dl ++ (dbuf_put_sleb128 dc ++ rest) in
      let parts : (dbuf_put_leb128 dp ++ dbuf_put_sleb128 dl) ++ dbuf_put_sleb128 dc ++ rest
          ≡ dbuf_put_leb128 dp ++ tail =
        append_assoc (dbuf_put_leb128 dp ++ dbuf_put_sleb128 dl) (dbuf_put_sleb128 dc) rest
        ∙ append_assoc (dbuf_put_leb128 dp) (dbuf_put_sleb128 dl) (dbuf_put_sleb128 dc ++ rest) in
      (
        0,
        dbuf_put_leb128 dp ++ tail,
        rw long (ap (◌∷◌ 0) parts),
        omega (
          arith,
          length-append (dbuf_put_leb128 dp) tail,
          length-append (dbuf_put_sleb128 dl) (dbuf_put_sleb128 dc ++ rest),
          length-append (dbuf_put_sleb128 dc) rest,
        ),
        get_entry-long dp tail hp
            ∙ (get_line-put dp dl (dbuf_put_sleb128 dc ++ rest) hl ∙ get_col-put dp dl dc rest hc),
      )
]
