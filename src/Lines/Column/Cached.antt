-- ===== src/Lines/Column/Cached.antt =====
-- quickjs.c, get_line_col_cached: the cached position is the one that is counted from the begin.
use go_quickjs.Base.{
  ℕ, zero, suc, ◌+◌, ◌-◌, ◌≤◌, ◌<◌, ◌≡◌, refl, sym, ap, ◌∙◌, arith, List, [], ◌∷◌, ◌++◌, length,
  take, drop, get_or, leb, ◌==◌, if◌then◌else◌, Bool-cases, inl, inr, leb→le, leb→lt, length-take,
}
use go_quickjs.Lines.Column.{
  LineCol, LineColCache, count_byte, line_col_loop, origin, get_line_col, column_back, between,
  get_line_col_cached,
}

-- The position after some more bytes.
abbrev moved : LineCol → LineCol → LineCol
moved p q =
    if q.line_num == 0
    then record { line_num = p.line_num; col_num = p.col_num + q.col_num }
    else record { line_num = p.line_num + q.line_num; col_num = q.col_num }

line_col_loop-moved :
    (p q : LineCol) (buf : List ℕ) → line_col_loop (moved p q) buf ≡ moved p (line_col_loop q buf)
unfolding line_col_loop
line_col_loop-moved p q [] = refl
line_col_loop-moved p q (c ∷ buf) =
    ap (λ z. line_col_loop z buf) (ground arith) ∙ line_col_loop-moved p (count_byte q c) buf

line_col_loop-append :
    (p : LineCol) (xs ys : List ℕ)
    → line_col_loop p (xs ++ ys) ≡ line_col_loop (line_col_loop p xs) ys
unfolding line_col_loop
line_col_loop-append p [] ys = refl
line_col_loop-append p (x ∷ xs) ys = line_col_loop-append (count_byte p x) xs ys

-- The position after two pieces of a text is that of the second moved by the first.
get_line_col-append :
    (xs ys : List ℕ) → get_line_col (xs ++ ys) ≡ moved (get_line_col xs) (get_line_col ys)
unfolding get_line_col
get_line_col-append xs ys =
    line_col_loop-append origin xs ys
    ∙ (ap (λ z. line_col_loop z ys) ground arith
        ∙ line_col_loop-moved (line_col_loop origin xs) origin ys)

take-nil : (n : ℕ) → take {A = ℕ} n [] ≡ []
take-nil zero = refl
take-nil (suc n) = refl

between-nil : (a b : ℕ) → between [] a b ≡ []
between-nil zero b = take-nil (b - 0)
between-nil (suc a) b = take-nil (b - suc a)

take-between : (buf : List ℕ) (a b : ℕ) → a ≤ b → take b buf ≡ take a buf ++ between buf a b
take-between buf zero b h = let e : b - 0 ≡ b = omega arith in ap (λ n. take n buf) (sym e)
take-between [] (suc a) b h = take-nil b ∙ sym (between-nil (suc a) b)
take-between (x ∷ buf) (suc a) zero h = absurd (omega arith)
take-between (x ∷ buf) (suc a) (suc b) h =
    let e : suc b - suc a ≡ b - a = omega arith in
    ap (◌∷◌ x)
      (take-between buf a b (omega arith) ∙ ap (λ n. take a buf ++ take n (drop a buf)) (sym e))

take-next :
    (buf : List ℕ) (p : ℕ) → p < length buf → take (suc p) buf ≡ take p buf ++ get_or buf p 0 ∷ []
take-next [] p h = absurd (omega arith)
take-next (x ∷ buf) zero h = refl
take-next (x ∷ buf) (suc p) h = ap (◌∷◌ x) (take-next buf p (omega arith))

get_line_col-next :
    (buf : List ℕ) (p : ℕ)
    → p < length buf
    → get_line_col (take (suc p) buf) ≡ count_byte (get_line_col (take p buf)) (get_or buf p 0)
unfolding get_line_col line_col_loop
get_line_col-next buf p h =
    ap (line_col_loop origin) (take-next buf p h)
    ∙ line_col_loop-append origin (take p buf) (get_or buf p 0 ∷ [])

-- Going back counts what going forward counted since the last newline.
column_back_lem :
    (buf : List ℕ) (p n : ℕ)
    → p ≤ length buf
    → column_back buf p n ≡ (get_line_col (take p buf)).col_num + n
unfolding column_back
column_back_lem buf zero n h = unfold get_line_col line_col_loop in omega arith
column_back_lem buf (suc p) n h =
    let next = ap (λ z. z.col_num) (get_line_col-next buf p (omega arith)) in
    ground (
      arith,
      next,
      column_back_lem buf p (n + 1) (omega arith),
      column_back_lem buf p n (omega arith),
    )

-- The cache has the position of its pointer.
pub record IsCached (buf : List ℕ) (s : LineColCache) : Type 0 where
  pub within : s.ptr ≤ length buf
  pub known : s.at ≡ get_line_col (take s.ptr buf)

at_exact :
    (buf : List ℕ) (s : LineColCache) (ptr : ℕ)
    → IsCached buf s
    → ptr ≤ length buf
    → (get_line_col_cached buf s ptr).at ≡ get_line_col (take ptr buf)
unfolding get_line_col_cached
at_exact buf s ptr c h = elim (Bool-cases (leb s.ptr ptr)) [
  | inl forward ↦
      let parts =
        ap get_line_col (take-between buf s.ptr ptr (leb→le s.ptr ptr forward))
        ∙ get_line_col-append (take s.ptr buf) (between buf s.ptr ptr) in
      rw forward (ground (arith, parts, c.known))
  | inr back ↦
      let parts =
        c.known
        ∙ (ap get_line_col (take-between buf ptr s.ptr (omega (arith, leb→lt s.ptr ptr back)))
            ∙ get_line_col-append (take ptr buf) (between buf ptr s.ptr)) in
      rw back (ground (arith, parts, column_back_lem buf ptr 0 h))
]

ptr_exact : (buf : List ℕ) (s : LineColCache) (ptr : ℕ) → (get_line_col_cached buf s ptr).ptr ≡ ptr
unfolding get_line_col_cached
ptr_exact buf s ptr = ground arith

-- On a cache that has the position of its pointer, `get_line_col_cached` moves the pointer forward
-- or back to any place of the source, and has the position there that `get_line_col` counts from
-- the begin of the source.
pub get_line_col_cached_exact :
    (buf : List ℕ) (s : LineColCache) (ptr : ℕ)
    → IsCached buf s
    → ptr ≤ length buf
    → ((get_line_col_cached buf s ptr).at ≡ get_line_col (take ptr buf))
      × IsCached buf (get_line_col_cached buf s ptr)
get_line_col_cached_exact buf s ptr c h =
    let p = ptr_exact buf s ptr in
    let at = at_exact buf s ptr c h in
    (at, record { within = omega arith; known = at ∙ ap (λ n. get_line_col (take n buf)) (sym p) })

line_col_loop-le :
    (p : LineCol) (buf : List ℕ)
    → ((line_col_loop p buf).line_num ≤ p.line_num + length buf)
      × ((line_col_loop p buf).col_num ≤ p.col_num + length buf)
unfolding line_col_loop
line_col_loop-le p [] = (omega arith, omega arith)
line_col_loop-le p (c ∷ buf) =
    let (l, k) = line_col_loop-le (count_byte p c) buf in (ground arith, ground arith)

-- A position has no more lines and columns than the source has bytes.
pub get_line_col-le :
    (buf : List ℕ) (n : ℕ)
    → ((get_line_col (take n buf)).line_num ≤ length buf)
      × ((get_line_col (take n buf)).col_num ≤ length buf)
unfolding get_line_col
get_line_col-le buf n =
    let (l, k) = line_col_loop-le origin (take n buf) in
    (omega (arith, l, length-take n buf), omega (arith, k, length-take n buf))
