-- ===== src/Gc/Keep.antt =====
-- quickjs.c, gc_scan: the objects that are referenced from outside, and all that they lead to.
use go_quickjs.Base.{
  ℕ, zero, suc, ◌+◌, ◌≤◌, ◌<◌, ◌≡◌, refl, sym, ap, ◌∙◌, arith, List, [], ◌∷◌, ◌++◌, length, take,
  ◌==◌, inl, inr, true, ==→eq, Bool-cases, Option-cases, some, none, ltb, get_elem?, length-append,
}
use go_quickjs.Gc.{
  JsRuntime, set_ref_count, set_mark, to_gc, gc_scan_incref_child, incref_children, gc_scan_loop,
}
use go_quickjs.Gc.Total.{
  is, count, refs, total-append, total-list_del, list_del-absent, total-one, count-get_elem?,
  total-take, take-append_end, get_elem?-lt, take-past,
}
use go_quickjs.Gc.Drop.{IsSplit}
use mathlib.Core.Path.{subst}
use mathlib.Core.List.{append-nil, append_assoc}

module _ (children : ℕ → List ℕ) (ext : ℕ → ℕ) (objects : List ℕ) where
  -- The objects to which references lead from outside.
  pub data Reach : ℕ → Type 0 where
    root : {p : ℕ} → 0 < count p objects → 0 < ext p → Reach p
    child : {q p : ℕ} → Reach q → 0 < count p (children q) → Reach p

-- An object to which `given` references have been given back.
pub record Kept (rt : JsRuntime) (ext given scanned p : ℕ) : Type 0 where
  pub counted : rt.ref_count p ≡ ext + given
  pub here : 0 < rt.ref_count p → count p rt.tmp_obj_list ≡ 0
  pub there : rt.ref_count p ≡ 0 → count p rt.gc_obj_list ≡ 0
  pub clean : 0 < scanned → rt.mark p ≡ 0

pub to_gc-IsSplit :
    (objects : List ℕ) (rt : JsRuntime) (c : ℕ)
    → 0 < count c rt.tmp_obj_list
    → count c rt.gc_obj_list ≡ 0
    → IsSplit objects rt
    → IsSplit objects (to_gc rt c)
to_gc-IsSplit objects rt c here there split w = rw (list_del-absent c rt.gc_obj_list there) (
    omega (
      arith,
      split w,
      total-list_del w c rt.tmp_obj_list here,
      total-append w rt.gc_obj_list (c ∷ []),
    ))

gc_scan_loop-past :
    (children : ℕ → List ℕ) (rounds i : ℕ) (rt : JsRuntime)
    → get_elem? rt.gc_obj_list i ≡ none
    → gc_scan_loop children (suc rounds) i rt ≡ some rt
unfolding gc_scan_loop
gc_scan_loop-past children rounds i rt e = rw (e, gc_scan_loop) refl

gc_scan_loop-next :
    (children : ℕ → List ℕ) (rounds i : ℕ) (rt : JsRuntime) (c : ℕ)
    → get_elem? rt.gc_obj_list i ≡ some c
    → 0 < rt.ref_count c
    → gc_scan_loop children (suc rounds) i rt
      ≡ gc_scan_loop children rounds (suc i) (incref_children (set_mark rt c 0) (children c))
unfolding gc_scan_loop
gc_scan_loop-next children rounds i rt c e h =
    let t : ltb 0 (rt.ref_count c) ≡ true = ground arith in rw (e, gc_scan_loop) (rw t refl)

-- Objects are only linked behind those that the list has.
abbrev pub Extends : JsRuntime → JsRuntime → Type 0
Extends rt rt' = (more : List ℕ) × (rt'.gc_obj_list ≡ rt.gc_obj_list ++ more)

module _ (children : ℕ → List ℕ) (ext : ℕ → ℕ) (objects : List ℕ) where
  pub record Keeping (rt : JsRuntime) (given : ℕ → ℕ) (scanned : List ℕ) : Type 0 where
    pub split : IsSplit objects rt
    pub at : (p : ℕ) → 0 < count p objects → Kept rt (ext p) (given p) (count p scanned) p
    pub reached : (p : ℕ) → 0 < count p rt.gc_obj_list → Reach children ext objects p

  module _ (once : (p : ℕ) → count p objects ≤ 1) where
    pub gc_scan_incref_child_exact :
        (rt : JsRuntime) (c : ℕ) (given : ℕ → ℕ) (scanned : List ℕ)
        → 0 < count c objects
        → Reach children ext objects c
        → Keeping rt given scanned
        → Keeping (gc_scan_incref_child rt c) (λ p. is p c + given p) scanned
          × Extends rt (gc_scan_incref_child rt c)
    unfolding gc_scan_incref_child
    gc_scan_incref_child_exact rt c given scanned known reach k =
        let at_c = k.at c known in
        elim (Bool-cases (rt.ref_count c + 1 == 1)) [
          | inl found ↦
              let absent : count c rt.gc_obj_list ≡ 0 = ground arith in
              let here : 0 < count c rt.tmp_obj_list = ground (arith, k.split (is c)) in
              let rt' = set_ref_count rt c (rt.ref_count c + 1) in
              rw found (
                record {
                  split = to_gc-IsSplit objects rt' c here absent k.split;
                  at = λ p h.
                      let at_p = k.at p h in
                      rw (list_del-absent c rt.gc_obj_list absent) (
                        ground (
                          arith,
                          once p,
                          k.split (is p),
                          total-list_del (is p) c rt.tmp_obj_list here,
                          total-append (is p) rt.gc_obj_list (c ∷ []),
                        ));
                  reached = λ p h. elim (Bool-cases (c == p)) [
                    | inl same ↦ rw (← ==→eq c p same) reach
                    | inr other ↦ k.reached p (
                        ground (
                          arith,
                          list_del-absent c rt.gc_obj_list absent,
                          total-append (is p) rt.gc_obj_list (c ∷ []),
                        ))
                  ];
                },
                ((c ∷ []), ap (λ l. l ++ c ∷ []) (list_del-absent c rt.gc_obj_list absent)),
              )
          | inr old ↦ rw old (
            record {
              split = k.split;
              at = λ p h. let at_p = k.at p h in ground arith;
              reached = k.reached;
            },
            ([], sym (append-nil _)),
          )
        ]

    pub incref_children_exact :
        (rt : JsRuntime) (cs : List ℕ) (given : ℕ → ℕ) (scanned : List ℕ)
        → ((p : ℕ) → 0 < count p cs → (0 < count p objects) × Reach children ext objects p)
        → Keeping rt given scanned
        → Keeping (incref_children rt cs) (λ p. count p cs + given p) scanned
          × Extends rt (incref_children rt cs)
    unfolding incref_children
    incref_children_exact rt [] given scanned known k = (
      record {
        split = k.split;
        at = λ p h. let at_p = k.at p h in ground arith;
        reached = k.reached;
      },
      ([], sym (append-nil _)),
    )
    incref_children_exact rt (c ∷ cs) given scanned known k =
        let (in_objects, reach) = known c (ground arith) in
        let (k1, e1) = gc_scan_incref_child_exact rt c given scanned in_objects reach k in
        let (k2, e2) =
          incref_children_exact (gc_scan_incref_child rt c) cs (λ p. is p c + given p) scanned
            (λ p h. known p (omega arith)) k1 in
        (
          record {
            split = k2.split;
            at = λ p h. let at_p = k2.at p h in ground arith;
            reached = k2.reached;
          },
          (e1.0 ++ e2.0, e2.1 ∙ (ap (λ l. l ++ e2.0) e1.1 ∙ append_assoc rt.gc_obj_list e1.0 e2.0)),
        )

    module _
        (closed : (q p : ℕ)
          → 0 < count q objects
          → 0 < count p (children q)
          → 0 < count p objects) where
      Keeping-along :
          (rt : JsRuntime) {l l' : List ℕ}
          → l ≡ l'
          → Keeping rt (λ p. refs children p l) l
          → Keeping rt (λ p. refs children p l') l'
      Keeping-along rt e k = subst (λ l. Keeping rt (λ p. refs children p l) l) e k

      -- One round: the object is referenced, and its references are given back.
      scan_round :
          (rt : JsRuntime) (i c : ℕ)
          → get_elem? rt.gc_obj_list i ≡ some c
          → Keeping rt (λ p. refs children p (take i rt.gc_obj_list)) (take i rt.gc_obj_list)
          → let next = incref_children (set_mark rt c 0) (children c) in
            (0 < rt.ref_count c)
            × (suc i ≤ length next.gc_obj_list)
            × Keeping next
                (λ p. refs children p (take (suc i) next.gc_obj_list))
                (take (suc i) next.gc_obj_list)
      scan_round rt i c e k =
          let here : 0 < count c rt.gc_obj_list = count-get_elem? rt.gc_obj_list i c e in
          let in_objects : 0 < count c objects = omega (arith, here, k.split (is c)) in
          let at_c = k.at c in_objects in
          let at_i : i < length rt.gc_obj_list = get_elem?-lt rt.gc_obj_list i c e in
          let (next, more) =
            incref_children_exact (set_mark rt c 0) (children c)
              (λ p. refs children p (take i rt.gc_obj_list)) (take (suc i) rt.gc_obj_list)
              (λ p h. (closed c p in_objects h, Reach.child (k.reached c here) h))
              (record {
                split = k.split;
                at = λ p h.
                    let at_p = k.at p h in ground (arith, total-take (is p) rt.gc_obj_list i c e);
                reached = k.reached;
              }) in
          let rt' = incref_children (set_mark rt c 0) (children c) in
          let same : take (suc i) rt.gc_obj_list ≡ take (suc i) rt'.gc_obj_list = sym (
            ap (take (suc i)) more.1
            ∙ take-append_end rt.gc_obj_list more.0 (suc i) (omega arith)) in
          (
            ground arith,
            omega (arith, at_i, ap length more.1, length-append rt.gc_obj_list more.0),
            Keeping-along rt' same (record {
              split = next.split;
              at = λ p h.
                  let at_p = next.at p h in
                  ground (arith, total-take (λ q. count p (children q)) rt.gc_obj_list i c e);
              reached = next.reached;
            }),
          )

      -- The loop ends at the end of the list, and no assertion fails.
      pub gc_scan_loop_exact :
          (rounds i : ℕ) (rt : JsRuntime)
          → i ≤ length rt.gc_obj_list
          → length objects < rounds + i
          → Keeping rt (λ p. refs children p (take i rt.gc_obj_list)) (take i rt.gc_obj_list)
          → (rt' : JsRuntime) × (gc_scan_loop children rounds i rt ≡ some rt')
            × Keeping rt' (λ p. refs children p rt'.gc_obj_list) rt'.gc_obj_list
      gc_scan_loop_exact zero i rt h few k =
          absurd
            (omega (arith, h, few, k.split (λ q. 1), total-one rt.gc_obj_list, total-one objects))
      gc_scan_loop_exact (suc rounds) i rt h few k =
          elim (Option-cases (get_elem? rt.gc_obj_list i)) [
            | inl past ↦ (
              rt,
              gc_scan_loop-past children rounds i rt past,
              Keeping-along rt (take-past rt.gc_obj_list i past) k,
            )
            | inr (c, e) ↦
                let (referenced, at, k1) = scan_round rt i c e k in
                let (end, e', k2) =
                  gc_scan_loop_exact rounds (suc i) (incref_children (set_mark rt c 0) (children c))
                    at (omega arith) k1 in
                (end, gc_scan_loop-next children rounds i rt c e referenced ∙ e', k2)
          ]
