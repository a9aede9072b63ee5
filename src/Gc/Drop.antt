-- ===== src/Gc/Drop.antt =====
-- quickjs.c, gc_decref: the reference counts without the references among the objects.
use go_quickjs.Base.{
  ℕ, ◌+◌, ◌-◌, ◌≤◌, ◌<◌, ◌≡◌, refl, ◌∙◌, arith, List, [], ◌∷◌, ◌==◌, ◌&&◌, inl, inr, true,
  Bool-cases, some, ltb,
}
use go_quickjs.Gc.{
  JsRuntime, set_ref_count, set_mark, to_tmp, gc_decref_child, visited, decref_children,
  gc_decref_loop,
}
use go_quickjs.Gc.Total.{total, is, count, refs, total-append, total-list_del, list_del-absent}

-- Both lists together hold the objects.
abbrev pub IsSplit : List ℕ → JsRuntime → Type 0
IsSplit objects rt =
    (w : ℕ → ℕ) → total w rt.gc_obj_list + total w rt.tmp_obj_list ≡ total w objects

-- An object with `ext` references from outside, `pending` references from objects that are still to
-- be dropped, and in `unvisited` places of the loop that come yet.
pub record Dropped (rt : JsRuntime) (ext pending unvisited p : ℕ) : Type 0 where
  pub counted : rt.ref_count p ≡ ext + pending
  pub moved : rt.mark p ≡ 1 → rt.ref_count p ≡ 0 → count p rt.gc_obj_list ≡ 0
  pub stays : 0 < count p rt.tmp_obj_list → (rt.mark p ≡ 1) × (rt.ref_count p ≡ 0)
  pub fresh : 0 < unvisited → rt.mark p ≡ 0
  pub marked : unvisited ≡ 0 → rt.mark p ≡ 1

-- Moving an object that is in the first list keeps the objects in both together.
pub to_tmp-IsSplit :
    (objects : List ℕ) (rt : JsRuntime) (c : ℕ)
    → 0 < count c rt.gc_obj_list
    → count c rt.tmp_obj_list ≡ 0
    → IsSplit objects rt
    → IsSplit objects (to_tmp rt c)
to_tmp-IsSplit objects rt c here there split w = rw (list_del-absent c rt.tmp_obj_list there) (
    omega (
      arith,
      split w,
      total-list_del w c rt.gc_obj_list here,
      total-append w rt.tmp_obj_list (c ∷ []),
    ))

decref_children-cons :
    (rt : JsRuntime) {rt' : JsRuntime} (c : ℕ) (cs : List ℕ)
    → gc_decref_child rt c ≡ some rt'
    → decref_children rt (c ∷ cs) ≡ decref_children rt' cs
unfolding decref_children
decref_children-cons rt c cs e = rw (e, decref_children) refl

gc_decref_loop-cons :
    (children : ℕ → List ℕ) (rt : JsRuntime) {rt' : JsRuntime} (c : ℕ) (todo : List ℕ)
    → (rt.mark c == 0) ≡ true
    → decref_children rt (children c) ≡ some rt'
    → gc_decref_loop children rt (c ∷ todo) ≡ gc_decref_loop children (visited rt' c) todo
unfolding gc_decref_loop
gc_decref_loop-cons children rt c todo u e = rw (u, e, gc_decref_loop) refl

module _ (ext : ℕ → ℕ) (objects : List ℕ) where
  pub record Dropping (rt : JsRuntime) (pending : ℕ → ℕ) (unvisited : List ℕ) : Type 0 where
    pub split : IsSplit objects rt
    pub at : (p : ℕ) → 0 < count p objects → Dropped rt (ext p) (pending p) (count p unvisited) p

  module _ (once : (p : ℕ) → count p objects ≤ 1) where
    -- The callback drops one reference, and its assertion holds.
    pub gc_decref_child_exact :
        (rt : JsRuntime) (c : ℕ) (pending : ℕ → ℕ) (unvisited : List ℕ)
        → 0 < count c objects
        → Dropping rt (λ p. is p c + pending p) unvisited
        → (rt' : JsRuntime) × (gc_decref_child rt c ≡ some rt') × Dropping rt' pending unvisited
    unfolding gc_decref_child
    gc_decref_child_exact rt c pending unvisited known d =
        let at_c = d.at c known in
        let some_left : ltb 0 (rt.ref_count c) ≡ true = ground arith in
        elim (Bool-cases (rt.ref_count c - 1 == 0 && rt.mark c == 1)) [
          | inl gone ↦
              let rt' = set_ref_count rt c (rt.ref_count c - 1) in
              let absent : count c rt.tmp_obj_list ≡ 0 = ground arith in
              let here : 0 < count c rt.gc_obj_list = ground (arith, d.split (is c)) in
              (
                to_tmp rt' c,
                rw (some_left, gone) refl,
                record {
                  split = to_tmp-IsSplit objects rt' c here absent d.split;
                  at = λ p k.
                      let at_p = d.at p k in
                      rw (list_del-absent c rt.tmp_obj_list absent) (
                        ground (
                          arith,
                          once p,
                          d.split (is p),
                          total-list_del (is p) c rt.gc_obj_list here,
                          total-append (is p) rt.tmp_obj_list (c ∷ []),
                        ));
                },
              )
          | inr stays ↦ (
            set_ref_count rt c (rt.ref_count c - 1),
            rw (some_left, stays) refl,
            record { split = d.split; at = λ p k. let at_p = d.at p k in ground arith },
          )
        ]

    -- After its references an object is marked, and moved if no reference is left.
    pub visited-Dropping :
        (rt : JsRuntime) (c : ℕ) (pending : ℕ → ℕ) (unvisited : List ℕ)
        → 0 < count c objects
        → count c unvisited ≡ 0
        → Dropping rt pending (c ∷ unvisited)
        → Dropping (visited rt c) pending unvisited
    unfolding visited
    visited-Dropping rt c pending unvisited known fresh d =
        let at_c = d.at c known in
        elim (Bool-cases (rt.ref_count c == 0)) [
          | inl gone ↦
              let rt' = set_mark rt c 1 in
              let absent : count c rt.tmp_obj_list ≡ 0 = ground arith in
              let here : 0 < count c rt.gc_obj_list = ground (arith, d.split (is c)) in
              rw gone (record {
                split = to_tmp-IsSplit objects rt' c here absent d.split;
                at = λ p k.
                    let at_p = d.at p k in
                    rw (list_del-absent c rt.tmp_obj_list absent) (
                      ground (
                        arith,
                        once p,
                        d.split (is p),
                        total-list_del (is p) c rt.gc_obj_list here,
                        total-append (is p) rt.tmp_obj_list (c ∷ []),
                      ));
              })
          | inr stays ↦
              rw stays (record { split = d.split; at = λ p k. let at_p = d.at p k in ground arith })
        ]

    pub decref_children_exact :
        (rt : JsRuntime) (cs : List ℕ) (pending : ℕ → ℕ) (unvisited : List ℕ)
        → ((p : ℕ) → 0 < count p cs → 0 < count p objects)
        → Dropping rt (λ p. count p cs + pending p) unvisited
        → (rt' : JsRuntime) × (decref_children rt cs ≡ some rt') × Dropping rt' pending unvisited
    unfolding decref_children
    decref_children_exact rt [] pending unvisited known d =
        (rt, refl, record { split = d.split; at = λ p k. let at_p = d.at p k in ground arith })
    decref_children_exact rt (c ∷ cs) pending unvisited known d =
        let (one, e, d1) =
          gc_decref_child_exact rt c (λ p. count p cs + pending p) unvisited
            (known c (ground arith))
            (record { split = d.split; at = λ p k. let at_p = d.at p k in ground arith }) in
        let (all, e', d2) =
          decref_children_exact one cs pending unvisited (λ p h. known p (omega arith)) d1 in
        (all, decref_children-cons rt c cs e ∙ e', d2)

    module _ (children : ℕ → List ℕ)
        (closed : (q p : ℕ)
          → 0 < count q objects
          → 0 < count p (children q)
          → 0 < count p objects) where
      -- The loop ends without a failed assertion, with no reference among the objects left.
      pub gc_decref_loop_exact :
          (rt : JsRuntime) (todo : List ℕ)
          → ((p : ℕ) → count p todo ≤ count p objects)
          → Dropping rt (λ p. refs children p todo) todo
          → (rt' : JsRuntime) × (gc_decref_loop children rt todo ≡ some rt')
            × Dropping rt' (λ p. 0) []
      unfolding gc_decref_loop
      gc_decref_loop_exact rt [] known d = (rt, refl, d)
      gc_decref_loop_exact rt (c ∷ todo) known d =
          let in_objects : 0 < count c objects = ground (arith, known c) in
          let alone : count c todo ≡ 0 = ground (arith, known c, once c) in
          let at_c = d.at c in_objects in
          let unmarked : (rt.mark c == 0) ≡ true = ground arith in
          let (left, e, d1) =
            decref_children_exact rt (children c) (λ p. refs children p todo) (c ∷ todo)
              (λ p h. closed c p in_objects h) d in
          let (end, e', d2) =
            gc_decref_loop_exact (visited left c) todo (λ p. omega (arith, known p))
              (visited-Dropping left c (λ p. refs children p todo) todo in_objects alone d1) in
          (end, gc_decref_loop-cons children rt c todo unmarked e ∙ e', d2)
