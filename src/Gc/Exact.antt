-- ===== src/Gc/Exact.antt =====
-- quickjs.c, gc_decref and gc_scan together: which objects the collector finds to be garbage.
use go_quickjs.Base.{
  ℕ, suc, ◌+◌, ◌≤◌, ◌<◌, ◌≡◌, refl, ap, ◌∙◌, ◌↔◌, arith, List, [], ◌∷◌, length, some,
}
use go_quickjs.Gc.{
  JsRuntime, set_ref_count, gc_scan_incref_child2, incref_children2, gc_restore_loop, gc_decref,
  gc_scan, gc_find_cycles,
}
use go_quickjs.Gc.Total.{is, count, refs, total-one, refs-positive}
use go_quickjs.Gc.Drop.{Dropping, gc_decref_loop_exact}
use go_quickjs.Gc.Keep.{Reach, Keeping, gc_scan_loop_exact}

-- Only the counts differ, by `given`.
pub record Restored (rt rt' : JsRuntime) (given : ℕ → ℕ) : Type 0 where
  pub counts : (p : ℕ) → rt'.ref_count p ≡ rt.ref_count p + given p
  pub marks : rt'.mark ≡ rt.mark
  pub gc_list : rt'.gc_obj_list ≡ rt.gc_obj_list
  pub tmp_list : rt'.tmp_obj_list ≡ rt.tmp_obj_list

incref_children2_exact :
    (rt : JsRuntime) (cs : List ℕ) → Restored rt (incref_children2 rt cs) (λ p. count p cs)
unfolding incref_children2 gc_scan_incref_child2
incref_children2_exact rt [] = record {
  counts = λ p. omega arith;
  marks = refl;
  gc_list = refl;
  tmp_list = refl;
}
incref_children2_exact rt (c ∷ cs) =
    let rest = incref_children2_exact (set_ref_count rt c (rt.ref_count c + 1)) cs in
    record {
      counts = λ p. ground (arith, rest.counts p);
      marks = rest.marks;
      gc_list = rest.gc_list;
      tmp_list = rest.tmp_list;
    }

gc_restore_loop_exact :
    (children : ℕ → List ℕ) (rt : JsRuntime) (l : List ℕ)
    → Restored rt (gc_restore_loop children rt l) (λ p. refs children p l)
unfolding gc_restore_loop
gc_restore_loop_exact children rt [] = record {
  counts = λ p. omega arith;
  marks = refl;
  gc_list = refl;
  tmp_list = refl;
}
gc_restore_loop_exact children rt (c ∷ l) =
    let one = incref_children2_exact rt (children c) in
    let rest = gc_restore_loop_exact children (incref_children2 rt (children c)) l in
    record {
      counts = λ p. omega (arith, one.counts p, rest.counts p);
      marks = rest.marks ∙ one.marks;
      gc_list = rest.gc_list ∙ one.gc_list;
      tmp_list = rest.tmp_list ∙ one.tmp_list;
    }

-- Before a collection: each object is linked once and not marked, what an object refers to is an
-- object, and a reference count is the number of references from outside and from the objects.
pub record IsCounted (children : ℕ → List ℕ) (ext : ℕ → ℕ) (rt : JsRuntime) : Type 0 where
  pub once : (p : ℕ) → count p rt.gc_obj_list ≤ 1
  pub closed :
      (q p : ℕ) → 0 < count q rt.gc_obj_list → 0 < count p (children q) → 0 < count p rt.gc_obj_list
  pub unmarked : (p : ℕ) → 0 < count p rt.gc_obj_list → rt.mark p ≡ 0
  pub counted :
      (p : ℕ) → 0 < count p rt.gc_obj_list → rt.ref_count p ≡ ext p + refs children p rt.gc_obj_list

-- After the two passes: the objects to keep are those that references from outside lead to, and are
-- not marked; the others are in the temporary list; the counts are those of before.
pub record Found (children : ℕ → List ℕ) (ext : ℕ → ℕ) (rt rt' : JsRuntime) : Type 0 where
  pub kept : (p : ℕ) → (0 < count p rt'.gc_obj_list) ↔ Reach children ext rt.gc_obj_list p
  pub parted : (p : ℕ) → count p rt'.gc_obj_list + count p rt'.tmp_obj_list ≡ count p rt.gc_obj_list
  pub unmarked : (p : ℕ) → 0 < count p rt'.gc_obj_list → rt'.mark p ≡ 0
  pub restored : (p : ℕ) → 0 < count p rt.gc_obj_list → rt'.ref_count p ≡ rt.ref_count p

module _ (children : ℕ → List ℕ) (ext : ℕ → ℕ) (rt : JsRuntime)
    (counted : IsCounted children ext rt) where
  gc_decref_exact :
      (rt' : JsRuntime) × (gc_decref children rt ≡ some rt')
      × Dropping ext rt.gc_obj_list rt' (λ p. 0) []
  unfolding gc_decref
  gc_decref_exact =
      gc_decref_loop_exact ext rt.gc_obj_list counted.once children counted.closed
        (record {
          ref_count = rt.ref_count;
          mark = rt.mark;
          gc_obj_list = rt.gc_obj_list;
          tmp_obj_list = [];
        })
        rt.gc_obj_list (λ p. omega arith)
        (record {
          split = λ w. omega arith;
          at = λ p h. record {
            counted = counted.counted p h;
            moved = λ m z. absurd (omega (arith, counted.unmarked p h));
            stays = λ t. absurd (omega arith);
            fresh = λ t. counted.unmarked p h;
            marked = λ t. absurd (omega arith);
          };
        })

  gc_scan_exact :
      (rt1 : JsRuntime)
      → Dropping ext rt.gc_obj_list rt1 (λ p. 0) []
      → (rt2 : JsRuntime) × (gc_scan children rt1
          ≡ some (gc_restore_loop children rt2 rt2.tmp_obj_list))
        × Keeping children ext rt.gc_obj_list rt2
            (λ p. refs children p rt2.gc_obj_list)
            rt2.gc_obj_list
  unfolding gc_scan
  gc_scan_exact rt1 d =
      let (rt2, e, k) =
        gc_scan_loop_exact children ext rt.gc_obj_list counted.once counted.closed
          (suc (length rt1.gc_obj_list + length rt1.tmp_obj_list)) 0 rt1 (omega arith)
          (omega (
            arith,
            d.split (λ q. 1),
            total-one rt1.gc_obj_list,
            total-one rt1.tmp_obj_list,
            total-one rt.gc_obj_list,
          ))
          (record {
            split = d.split;
            at = λ p h. let at_p = d.at p h in ground arith;
            reached = λ p h.
                let in_objects : 0 < count p rt.gc_obj_list = omega (arith, h, d.split (is p)) in
                let at_p = d.at p in_objects in Reach.root in_objects (ground arith);
          }) in
      (rt2, rw (e, gc_scan) refl, k)

  module _ (rt2 : JsRuntime)
      (k : Keeping children ext rt.gc_obj_list rt2
        (λ p. refs children p rt2.gc_obj_list)
        rt2.gc_obj_list) where
    in_objects : (p : ℕ) → 0 < count p rt2.gc_obj_list → 0 < count p rt.gc_obj_list
    in_objects p h = omega (arith, h, k.split (is p))

    referenced :
        (p : ℕ) → 0 < count p rt.gc_obj_list → 0 < rt2.ref_count p → 0 < count p rt2.gc_obj_list
    referenced p h r = let at_p = k.at p h in ground (arith, k.split (is p))

    -- What is kept is closed under references.
    Reach-kept : {p : ℕ} → Reach children ext rt.gc_obj_list p → 0 < count p rt2.gc_obj_list
    Reach-kept {p} (Reach.root h r) = let at_p = k.at p h in referenced p h (ground arith)
    Reach-kept {p} (Reach.child {q} reach h) =
        let q_kept = Reach-kept reach in
        let p_known = counted.closed q p (in_objects q q_kept) h in
        let at_p = k.at p p_known in
        referenced p p_known
          (omega (arith, at_p.counted, h, refs-positive children q p rt2.gc_obj_list q_kept h))

  -- From a heap whose reference counts are right, `gc_decref` and `gc_scan` end without a failed
  -- assertion. The objects left in `gc_obj_list` are those that references from outside lead to,
  -- directly or through other objects, with their marks reset; all others, and no more, are in
  -- `tmp_obj_list`; every reference count is what it was.
  pub gc_find_cycles_exact :
      (rt' : JsRuntime) × (gc_find_cycles children rt ≡ some rt') × Found children ext rt rt'
  unfolding gc_find_cycles
  gc_find_cycles_exact =
      let (rt1, e1, d) = gc_decref_exact in
      let (rt2, e2, k) = gc_scan_exact rt1 d in
      let r = gc_restore_loop_exact children rt2 rt2.tmp_obj_list in
      let same = λ (p : ℕ). ap (count p) r.gc_list in
      (
        gc_restore_loop children rt2 rt2.tmp_obj_list,
        rw (e1, gc_find_cycles) e2,
        record {
          kept = λ p. (
            λ h. k.reached p (omega (arith, h, same p)),
            λ reach. omega (arith, same p, Reach-kept rt2 k reach),
          );
          parted = λ p. omega (arith, same p, ap (count p) r.tmp_list, k.split (is p));
          unmarked = λ p h.
              let here : 0 < count p rt2.gc_obj_list = omega (arith, h, same p) in
              ap (λ f. f p) r.marks ∙ (k.at p (in_objects rt2 k p here)).clean here;
          restored = λ p h.
              let at_p = k.at p h in
              omega (
                arith,
                at_p.counted,
                r.counts p,
                counted.counted p h,
                k.split (λ q. count p (children q)),
              );
        },
      )
