-- ===== src/Gc/Holds.antt =====
-- quickjs.c, the collector on objects with their fields: what the program can reach is kept, and nothing
-- else.
use go_quickjs.Base.{ℕ, ◌<◌, ◌≡◌, ◌↔◌, arith, List, Option, some}
use native.Mathlib.Decide.{dec_lt}
use go_quickjs.Gc.{JsRuntime, gc_find_cycles}
use go_quickjs.Gc.Objects.{GcObject, mark_children}
use go_quickjs.Gc.Total.{count}
use go_quickjs.Gc.Ways.{Reachable}
use go_quickjs.Gc.Seen.{Holds-mark_children}
use go_quickjs.Gc.Only.{mark_children-Holds}
use go_quickjs.Gc.Keep.{Reach}
use go_quickjs.Gc.Exact.{IsCounted, gc_find_cycles_exact}

module _ (gc_mark : ℕ → Option (ℕ → List ℕ)) where
  Reachable-Reach :
      (heap : ℕ → GcObject) (ext : ℕ → ℕ) (objects : List ℕ) {p : ℕ}
      → Reachable gc_mark heap ext objects p
      → Reach (λ q. mark_children gc_mark q (heap q)) ext objects p
  Reachable-Reach heap ext objects (Reachable.root here outside) = Reach.root here outside
  Reachable-Reach heap ext objects (Reachable.held {q} {p} r h) =
      Reach.child (Reachable-Reach heap ext objects r) (Holds-mark_children gc_mark (heap q) h)

  Reach-Reachable :
      (heap : ℕ → GcObject) (ext : ℕ → ℕ) (objects : List ℕ) {p : ℕ}
      → Reach (λ q. mark_children gc_mark q (heap q)) ext objects p
      → Reachable gc_mark heap ext objects p
  Reach-Reachable heap ext objects (Reach.root here outside) = Reachable.root here outside
  Reach-Reachable heap ext objects (Reach.child {q} {p} r h) =
      Reachable.held (Reach-Reachable heap ext objects r)
        (mark_children-Holds gc_mark p q (heap q) h)

  -- From a heap whose reference counts are right, the two passes succeed. The objects that they leave
  -- in `gc_obj_list` are exactly those that the program can reach, from a reference from outside and on
  -- through any field of an object or what the callback of its class is applied to; none of these is
  -- in `tmp_obj_list`, and all objects of the list that it cannot reach are.
  pub Holds-kept :
      (heap : ℕ → GcObject) (ext : ℕ → ℕ) (rt : JsRuntime)
      → IsCounted (λ q. mark_children gc_mark q (heap q)) ext rt
      → (rt' : JsRuntime) × (gc_find_cycles (λ q. mark_children gc_mark q (heap q)) rt ≡ some rt')
        × ((p : ℕ) → (0 < count p rt'.gc_obj_list) ↔ Reachable gc_mark heap ext rt.gc_obj_list p)
        × ((p : ℕ) → Reachable gc_mark heap ext rt.gc_obj_list p → count p rt'.tmp_obj_list ≡ 0)
        × ((p : ℕ)
            → 0 < count p rt.gc_obj_list
            → ¬ Reachable gc_mark heap ext rt.gc_obj_list p
            → 0 < count p rt'.tmp_obj_list)
  Holds-kept heap ext rt counted =
      let children = λ (q : ℕ). mark_children gc_mark q (heap q) in
      let objects = rt.gc_obj_list in
      let (rt', e, found) = gc_find_cycles_exact children ext rt counted in
      let to = λ (p : ℕ) (h : 0 < count p rt'.gc_obj_list).
        Reach-Reachable heap ext objects ((found.kept p).0 h) in
      let from = λ (p : ℕ) (r : Reachable gc_mark heap ext objects p).
        (found.kept p).1 (Reachable-Reach heap ext objects r) in
      (
        rt',
        e,
        λ p. (to p, from p),
        λ p r. omega (arith, from p r, found.parted p, counted.once p),
        λ p there lost. elim (dec_lt 0 (count p rt'.gc_obj_list)) [
          | yes kept ↦ absurd (lost (to p kept))
          | no gone ↦ omega (arith, there, found.parted p)
        ],
      )
