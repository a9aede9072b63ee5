-- ===== src/Unicode/Range/Set.antt =====
-- libunicode.c: `cr_op` and `cr_invert` as operations on sets.
use go_quickjs.Base.{
  ℕ, suc, ◌+◌, ◌-◌, ◌*◌, ◌/◌, ◌%◌, ◌^◌, ◌≤◌, ◌<◌, ◌≡◌, ◌⊎◌, inl, inr, refl, sym, ap, ◌∙◌, arith,
  List, [], ◌∷◌, ◌++◌, length, All, true, false, some, length-append,
}
use mathlib.Core.Option.{some-injective}
use mathlib.Core.Bool.{true≢false}
use Prim.Native.Nat.{max}
use native.Mathlib.Nat.{zero-add}
use native.Mathlib.Decide.{dec_lt}
use go_quickjs.Unicode.Range.{
  CharRange, Changed, changed, CharRangeOp, cr_op_union, cr_op_inter, cr_op_xor, cr_op, cr_invert,
  cr_compress, take_point,
}
use go_quickjs.Unicode.Range.Points.{
  count, inside, Above, IsSorted, IsStrict, count-append, count-eq-zero,
}
use go_quickjs.Unicode.Range.Room.{Refuses, cr_realloc_exact, cr_realloc-asked}
use go_quickjs.Unicode.Range.Compress.{compress-Compressed}
use go_quickjs.Unicode.Range.Op.{combine}
use go_quickjs.Unicode.Range.Op.Loop.{cr_op_loop-Loops, cr_op_loop-Refuses}

-- The points are the only ones of the set that has `member c` for the code point `c`: in pairs, and
-- each below the next.
pub record StandsFor (member : ℕ → ℕ) (points : List ℕ) : Type 0 where
  pub members : (c : ℕ) → inside c points ≡ member c
  pub strict : IsStrict points
  pub paired : length points % 2 ≡ 0

zero_state : (op : CharRangeOp) → 0 ≡ combine op 0 0
zero_state cr_op_union = refl
zero_state cr_op_inter = refl
zero_state cr_op_xor = refl

-- For an empty range, and two lists of points that rise and come in pairs, `cr_op` ends. It fails
-- only with an allocator that does not grant every request; otherwise the points are those of the
-- union, of the intersection or of the symmetric difference, in pairs and strictly rising.
pub cr_op_exact {ℓ} :
    {H : Type ℓ}
    → (cr : CharRange H) (a b : List ℕ) (op : CharRangeOp) → cr.points ≡ []
    → IsSorted a
    → IsSorted b
    → length a % 2 ≡ 0
    → length b % 2 ≡ 0
    → (r : Changed H) × (cr_op cr a b op ≡ some r)
      × (((r.failed ≡ true) × Refuses cr.realloc_func)
          ⊎ ((r.failed ≡ false)
              × StandsFor (λ c. combine op (inside c a) (inside c b)) r.cr.points))
unfolding cr_op cr_compress
cr_op_exact cr a b op empty ha hb pa pb =
    let l =
      cr_op_loop-Loops (length a + length b) op 0 0 cr a b ha hb (omega arith)
        (rw empty (zero_state op)) in
    elim l.outcome [
      | inl bad ↦ (
        l.result,
        rw l.returned (rw bad refl),
        inl (
          bad,
          cr_op_loop-Refuses (length a + length b) op 0 0 cr (take_point a b) l.result l.returned
              bad,
        ),
      )
      | inr (good, (new, e, m)) ↦
          let points : l.result.cr.points ≡ new = rw empty at e in
          let start : length cr.points ≡ 0 = rw empty refl in
          let even : length new % 2 ≡ 0 =
            (rw (start, zero-add (length new), zero-add (length a), zero-add (length b), pa, pb) at
              m.ends)
            ∙ sym (zero_state op) in
          let z = compress-Compressed new even in
          (
            changed false (cr_compress l.result.cr),
            rw l.returned (rw good refl),
            inr (
              refl,
              rw points (record {
                members = λ c.
                    z.same_set c
                    ∙ (rw
                        (start, zero-add (count c new), zero-add (count c a), zero-add (count c b))
                        at (m.member c));
                strict = z.strict tt m.sorted;
                paired = z.paired;
              }),
            ),
          )
    ]

-- 0 in front and the limit behind change every membership below the limit.
inverse-inside :
    (limit c : ℕ) (pt : List ℕ) → c < limit → inside c (0 ∷ (pt ++ (limit ∷ []))) ≡ 1 - inside c pt
inverse-inside limit c pt lt = ground (arith, count-append c pt (limit ∷ []))

inverse-IsSorted :
    (limit m : ℕ) (pt : List ℕ)
    → IsSorted pt
    → All (λ x. x ≤ limit) pt
    → Above m pt
    → m ≤ limit
    → Above m (pt ++ (limit ∷ [])) × IsSorted (pt ++ (limit ∷ []))
inverse-IsSorted limit m [] h top low lim = ((lim, tt), (tt, tt))
inverse-IsSorted limit m (x ∷ pt) (p, h) (t, top) (l, low) lim =
    let (a, s) = inverse-IsSorted limit x pt h top p t in
    ((l, (inverse-IsSorted limit m pt h top low lim).0), (a, s))

zero-Above : (pt : List ℕ) → Above 0 pt
zero-Above [] = tt
zero-Above (x ∷ pt) = (omega arith, zero-Above pt)

-- For points that rise, come in pairs and are at most `UINT32_MAX`, `cr_invert` leaves the range of
-- every code point below `UINT32_MAX` that was not in it, in pairs and strictly rising; or it fails
-- and leaves the points, which is only when there is no room for two more points and the one request
-- for more is not granted.
pub cr_invert_exact {ℓ} :
    {H : Type ℓ}
    → (cr : CharRange H) → IsSorted cr.points
    → length cr.points % 2 ≡ 0
    → All (λ x. x ≤ 2 ^ 32 - 1) cr.points
    → (((cr_invert cr).failed ≡ true)
        × ((cr_invert cr).cr.points ≡ cr.points)
        × (cr.size < length cr.points + 2)
        × ((cr.realloc_func cr.mem_opaque
              (max (length cr.points + 2) (cr.size * 3 / 2) * 4)).granted
            ≡ false))
      ⊎ (((cr_invert cr).failed ≡ false)
          × ((c : ℕ) → c < 2 ^ 32 - 1 → inside c (cr_invert cr).cr.points ≡ 1 - inside c cr.points)
          × IsStrict (cr_invert cr).cr.points
          × (length (cr_invert cr).cr.points % 2 ≡ 0))
unfolding cr_invert cr_compress
cr_invert_exact cr h even top =
    let (same, grows, done) = cr_realloc_exact cr (length cr.points + 2) in
    elim done [
      | inl (bad, size) ↦
          let (full, refused) = cr_realloc-asked cr (length cr.points + 2) bad in
          rw bad (inl (refl, same, full, refused))
      | inr (good, room) ↦
          let all = cr.points ++ ((2 ^ 32 - 1) ∷ []) in
          let z =
            compress-Compressed (0 ∷ all)
              (omega (arith, even, length-append cr.points ((2 ^ 32 - 1) ∷ []))) in
          let sorted =
            inverse-IsSorted (2 ^ 32 - 1) 0 cr.points h top (zero-Above cr.points) (omega arith) in
          rw (good, same)
            (inr (
              refl,
              λ c lt. z.same_set c ∙ inverse-inside (2 ^ 32 - 1) c cr.points lt,
              z.strict tt sorted,
              z.paired,
            ))
    ]

first_same :
    (x y : ℕ) (s t : List ℕ)
    → Above (suc x) s
    → Above (suc y) t
    → ((c : ℕ) → inside c (x ∷ s) ≡ inside c (y ∷ t))
    → x ≡ y
first_same x y s t px py e = elim (dec_lt x y) [
  | yes lt ↦ absurd (
      ground (
        arith,
        e x,
        count-eq-zero x (suc x) s (omega arith) px,
        count-eq-zero x (suc y) t (omega arith) py,
      ))
  | no ge ↦ elim (dec_lt y x) [
    | yes gt ↦ absurd (
        ground (
          arith,
          e y,
          count-eq-zero y (suc x) s (omega arith) px,
          count-eq-zero y (suc y) t (omega arith) py,
        ))
    | no le ↦ omega arith
  ]
]

-- Strictly rising points are the only ones of their set.
strict_unique :
    (s t : List ℕ) → IsStrict s → IsStrict t → ((c : ℕ) → inside c s ≡ inside c t) → s ≡ t
strict_unique [] [] hs ht e = refl
strict_unique [] (y ∷ t) hs (py, ht) e =
    absurd (ground (arith, e y, count-eq-zero y (suc y) t (omega arith) py))
strict_unique (x ∷ s) [] (px, hs) ht e =
    absurd (ground (arith, e x, count-eq-zero x (suc x) s (omega arith) px))
strict_unique (x ∷ s) (y ∷ t) (px, hs) (py, ht) e =
    let same = first_same x y s t px py e in
    let tails = strict_unique s t hs ht (λ c. omega (arith, rw same at (e c))) in
    rw (same, tails) refl

combine_comm : (op : CharRangeOp) (x y : ℕ) → combine op x y ≡ combine op y x
combine_comm cr_op_union x y = omega arith
combine_comm cr_op_inter x y = omega arith
combine_comm cr_op_xor x y = omega arith

succeeded {ℓ} :
    {H : Type ℓ}
    → (cr : CharRange H) (a b : List ℕ) (op : CharRangeOp) → cr.points ≡ []
    → IsSorted a
    → IsSorted b
    → length a % 2 ≡ 0
    → length b % 2 ≡ 0
    → (r : Changed H) → cr_op cr a b op ≡ some r
    → r.failed ≡ false
    → StandsFor (λ c. combine op (inside c a) (inside c b)) r.cr.points
succeeded cr a b op empty ha hb pa pb r e good =
    let (r', e', o) = cr_op_exact cr a b op empty ha hb pa pb in
    let same : r' ≡ r = some-injective r' r (sym e' ∙ e) in
    elim o [
      | inl (bad, refused) ↦
          absurd (true≢false (sym bad ∙ (ap (λ (q : Changed _). q.failed) same ∙ good)))
      | inr (ok, s) ↦ rw same at s
    ]

-- When `cr_op` succeeds for two empty ranges on the same two lists of points, which rise and come in
-- pairs, once in each order, both ranges have the same points, whatever their rooms and allocators.
pub cr_op_comm {ℓ} :
    {H : Type ℓ}
    → (cr cr' : CharRange H) (a b : List ℕ) (op : CharRangeOp) → cr.points ≡ []
    → cr'.points ≡ []
    → IsSorted a
    → IsSorted b
    → length a % 2 ≡ 0
    → length b % 2 ≡ 0
    → (r r' : Changed H) → cr_op cr a b op ≡ some r
    → cr_op cr' b a op ≡ some r'
    → r.failed ≡ false
    → r'.failed ≡ false
    → r.cr.points ≡ r'.cr.points
cr_op_comm cr cr' a b op empty empty' ha hb pa pb r r' e e' good good' =
    let s = succeeded cr a b op empty ha hb pa pb r e good in
    let s' = succeeded cr' b a op empty' hb ha pb pa r' e' good' in
    strict_unique r.cr.points r'.cr.points s.strict s'.strict
      (λ c. s.members c ∙ (combine_comm op (inside c a) (inside c b) ∙ sym (s'.members c)))
