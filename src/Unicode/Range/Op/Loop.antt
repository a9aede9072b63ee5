-- ===== src/Unicode/Range/Op/Loop.antt =====
-- libunicode.c: the loop of `cr_op` from the first point to the last.
use go_quickjs.Base.{
  ℕ, zero, suc, ◌+◌, ◌%◌, ◌≤◌, ◌≡◌, ◌⊎◌, inl, inr, refl, sym, ◌∙◌, arith, List, [], ◌∷◌, ◌++◌,
  length, ◌==◌, true, false, Bool-cases, ==→eq, ==→ne, Option, none, some, bit_and, length-append,
}
use mathlib.Core.List.{append_assoc, append-nil}
use mathlib.Core.Path.{subst}
use go_quickjs.Base.Bits.{and_mask}
use go_quickjs.Unicode.Range.{
  CharRange, Changed, changed, cr_add_point, CharRangeOp, Taken, take_point, is_in, cr_op_loop,
}
use go_quickjs.Unicode.Range.Room.{
  cr_add_point_exact, Refuses, cr_add_point-func, cr_add_point-Refuses,
}
use go_quickjs.Unicode.Range.Points.{IsSorted}
use go_quickjs.Unicode.Range.Op.{
  combine, combine_bit, is_in-combine, Takes, take_point-Takes, Emits, nothing_left, not_emitted,
  emitted,
}

-- The loop ended: the allocator refused, or the points that it put behind those of `cr` are right.
pub record Loops {ℓ} {H : Type ℓ} (op : CharRangeOp) (i j : ℕ) (cr : CharRange H) (a b : List ℕ)
    (o : Option (Changed H)) : Type ℓ where
  pub result : Changed H
  pub returned : o ≡ some result
  pub outcome :
      (result.failed ≡ true)
      ⊎ ((result.failed ≡ false)
          × ((new : List ℕ) × (result.cr.points ≡ cr.points ++ new)
              × Emits op i j (length cr.points) a b new))

-- The bit that is tested: whether the set is entered with the points so far.
changes :
    (op : CharRangeOp) (i j k : ℕ)
    → (((is_in op i j == bit_and k 1) ≡ true) → k % 2 ≡ combine op (i % 2) (j % 2))
      × (((is_in op i j == bit_and k 1) ≡ false) → (k + 1) % 2 ≡ combine op (i % 2) (j % 2))
changes op i j k =
    let m : bit_and k 1 ≡ k % 2 = and_mask 1 k in
    let c = is_in-combine op i j in
    let two = combine_bit op i j in
    (
      λ e. sym m ∙ sym (==→eq _ _ e) ∙ c,
      λ e. omega (arith, λ (q : is_in op i j ≡ bit_and k 1). ==→ne _ _ e q, m, c, two),
    )

stops {ℓ} :
    {H : Type ℓ}
    → (fuel : ℕ) (op : CharRangeOp) (i j : ℕ) (cr : CharRange H)
    → length cr.points % 2 ≡ combine op (i % 2) (j % 2)
    → Loops op i j cr [] [] (cr_op_loop fuel op i j cr none)
unfolding cr_op_loop
stops fuel op i j cr state = record {
  result = changed false cr;
  returned = refl;
  outcome = inr (refl, ([], sym (append-nil cr.points), nothing_left op i j _ state));
}

-- What is left to do after a round, from the range that the round leaves.
one_round {ℓ} :
    {H : Type ℓ}
    → (fuel : ℕ) (op : CharRangeOp) (i j : ℕ) (cr : CharRange H) (a b : List ℕ) (t : Taken)
    → Takes a b t
    → length cr.points % 2 ≡ combine op (i % 2) (j % 2)
    → ((cr' : CharRange H)
        → length cr'.points % 2 ≡ combine op ((i + t.a_step) % 2) ((j + t.b_step) % 2)
        → Loops op
            (i + t.a_step)
            (j + t.b_step)
            cr'
            t.a_rest
            t.b_rest
            (cr_op_loop fuel op (i + t.a_step) (j + t.b_step) cr' (take_point t.a_rest t.b_rest)))
    → Loops op i j cr a b (cr_op_loop (suc fuel) op i j cr (some t))
unfolding cr_op_loop
one_round fuel op i j cr a b t takes state rest =
    let k = length cr.points in
    let (keep, change) = changes op (i + t.a_step) (j + t.b_step) k in
    elim (Bool-cases (is_in op (i + t.a_step) (j + t.b_step) == bit_and k 1)) [
      | inl same ↦
          let l = rest cr (keep same) in
          rw same (record {
            result = l.result;
            returned = l.returned;
            outcome = elim l.outcome [
              | inl bad ↦ inl bad
              | inr (good, (new, e, m)) ↦
                  inr (good, (new, e, not_emitted op i j k a b t takes state new m))
            ];
          })
      | inr differ ↦
          let added = cr_add_point cr t.v in
          elim (cr_add_point_exact cr t.v).outcome [
            | inl (bad, points, size) ↦
                rw (differ, bad)
                  (record { result = changed true added.cr; returned = refl; outcome = inl refl })
            | inr (good, points, fit) ↦
                let len : length added.cr.points ≡ k + 1 =
                  rw points (length-append cr.points (t.v ∷ [])) in
                let l = rest added.cr (rw len (change differ)) in
                rw (differ, good)
                  (record {
                    result = l.result;
                    returned = l.returned;
                    outcome = elim l.outcome [
                      | inl bad ↦ inl bad
                      | inr (good', (new, e, m)) ↦ inr (
                        good',
                        (
                          t.v ∷ new,
                          e ∙ rw points (append_assoc cr.points (t.v ∷ []) new),
                          emitted op i j k a b t takes state new (rw len at m),
                        ),
                      )
                    ];
                  })
          ]
    ]

-- The lengths of the arrays are fuel enough.
pub cr_op_loop-Loops {ℓ} :
    {H : Type ℓ}
    → (fuel : ℕ) (op : CharRangeOp) (i j : ℕ) (cr : CharRange H) (a b : List ℕ) → IsSorted a
    → IsSorted b
    → length a + length b ≤ fuel
    → length cr.points % 2 ≡ combine op (i % 2) (j % 2)
    → Loops op i j cr a b (cr_op_loop fuel op i j cr (take_point a b))
cr_op_loop-Loops zero op i j cr a b ha hb hf state = elim (take_point-Takes a b ha hb) [
  | inl (e, za, zb) ↦ rw (e, za, zb) (stops zero op i j cr state)
  | inr (t, e, takes) ↦ absurd (omega (arith, takes.progress, takes.a_length, takes.b_length))
]
cr_op_loop-Loops (suc fuel) op i j cr a b ha hb hf state = elim (take_point-Takes a b ha hb) [
  | inl (e, za, zb) ↦ rw (e, za, zb) (stops (suc fuel) op i j cr state)
  | inr (t, e, takes) ↦ rw e (
      one_round fuel op i j cr a b t takes state (λ cr' state'.
        cr_op_loop-Loops fuel op (i + t.a_step) (j + t.b_step) cr' t.a_rest t.b_rest takes.a_sorted
          takes.b_sorted (omega (arith, takes.progress, takes.a_length, takes.b_length)) state'))
]

-- The loop fails only when the allocator did not grant a request.
pub cr_op_loop-Refuses {ℓ} :
    {H : Type ℓ}
    → (fuel : ℕ) (op : CharRangeOp) (i j : ℕ) (cr : CharRange H) (t : Option Taken)
    → (r : Changed H) → cr_op_loop fuel op i j cr t ≡ some r
    → r.failed ≡ true
    → Refuses cr.realloc_func
unfolding cr_op_loop
cr_op_loop-Refuses fuel op i j cr none r e bad = absurd (ground arith)
cr_op_loop-Refuses zero op i j cr (some t) r e bad = absurd (ground arith)
cr_op_loop-Refuses (suc fuel) op i j cr (some t) r e bad =
    let i' = i + t.a_step in
    let j' = j + t.b_step in
    let next = take_point t.a_rest t.b_rest in
    elim (Bool-cases (is_in op i' j' == bit_and (length cr.points) 1)) [
      | inl same ↦ cr_op_loop-Refuses fuel op i' j' cr next r (rw same at e) bad
      | inr differ ↦
          let added = cr_add_point cr t.v in
          elim (Bool-cases added.failed) [
            | inl failed ↦ cr_add_point-Refuses cr t.v failed
            | inr good ↦
                subst (λ f. Refuses f) (cr_add_point-func cr t.v)
                  (cr_op_loop-Refuses fuel op i' j' added.cr next r (rw (differ, good) at e) bad)
          ]
    ]
