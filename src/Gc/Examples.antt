-- ===== src/Gc/Examples.antt =====
-- quickjs.c, the collector: a concrete heap, and the theorem at it.
use go_quickjs.Base.{
  ℕ, ◌<◌, ◌≡◌, ◌↔◌, refl, arith, List, [], ◌∷◌, ◌==◌, if◌then◌else◌, Option, none, some,
}
use go_quickjs.Gc.{
  JsRuntime, list_del, gc_decref_child, visited, gc_scan_incref_child, gc_scan_incref_child2,
  decref_children, incref_children, incref_children2, gc_decref_loop, gc_decref, gc_scan_loop,
  gc_restore_loop, gc_scan, gc_find_cycles,
}
use go_quickjs.Gc.Objects.{GcObject, JsValue, JsProperty, mark_children}
use go_quickjs.Gc.Total.{count}
use go_quickjs.Gc.Ways.{Holds, Reachable}
use go_quickjs.Gc.Holds.{Holds-kept}
use go_quickjs.Gc.Exact.{IsCounted, Found, gc_find_cycles_exact}

-- Two objects that refer to each other, 2 and 3, and one, 1, that is referenced from outside; all
-- have the shape 4, and 1 has itself as a property.
abbrev heap : ℕ → GcObject
heap p =
    if p == 4
    then GcObject.shape none
    else GcObject.js_object 4
        (JsProperty.value (JsValue.object (if p == 2 then 3 else if p == 3 then 2 else 1)) ∷ []) 1

abbrev no_class : ℕ → Option (ℕ → List ℕ)
no_class c = none

abbrev children : ℕ → List ℕ
children p = mark_children no_class p (heap p)

abbrev outside : ℕ → ℕ
outside p = if p == 1 then 1 else 0

abbrev runtime : JsRuntime
runtime = record {
  ref_count = λ p. if p == 1 then 2 else if p == 4 then 3 else 1;
  mark = λ p. 0;
  gc_obj_list = 1 ∷ 4 ∷ 2 ∷ 3 ∷ [];
  tmp_obj_list = [];
}

abbrev lists : Option JsRuntime → Option (List ℕ × List ℕ)
lists none = none
lists (some rt) = some (rt.gc_obj_list, rt.tmp_obj_list)

-- The two that refer to each other are found to be garbage.
found_lists : lists (gc_find_cycles children runtime) ≡ some ((1 ∷ 4 ∷ []), (2 ∷ 3 ∷ []))
unfolding gc_find_cycles gc_decref gc_decref_loop decref_children gc_decref_child visited list_del
    gc_scan gc_scan_loop incref_children gc_scan_incref_child gc_restore_loop incref_children2
    gc_scan_incref_child2 mark_children
found_lists = refl

runtime-IsCounted : IsCounted children outside runtime
unfolding mark_children
runtime-IsCounted = record {
  once = λ p. ground arith;
  closed = λ q p h r. ground arith;
  unmarked = λ p h. refl;
  counted = λ p h. ground arith;
}

gc_find_cycles_exact_example :
    (rt' : JsRuntime) × (gc_find_cycles children runtime ≡ some rt')
    × Found children outside runtime rt'
gc_find_cycles_exact_example = gc_find_cycles_exact children outside runtime runtime-IsCounted

Holds-kept_example :
    (rt' : JsRuntime) × (gc_find_cycles children runtime ≡ some rt')
    × ((p : ℕ)
        → (0 < count p rt'.gc_obj_list) ↔ Reachable no_class heap outside runtime.gc_obj_list p)
    × ((p : ℕ)
        → Reachable no_class heap outside runtime.gc_obj_list p
        → count p rt'.tmp_obj_list ≡ 0)
    × ((p : ℕ)
        → 0 < count p runtime.gc_obj_list
        → ¬ Reachable no_class heap outside runtime.gc_obj_list p
        → 0 < count p rt'.tmp_obj_list)
Holds-kept_example = Holds-kept no_class heap outside runtime runtime-IsCounted

-- The shape is reached from the object that is referenced from outside.
shape_reached : Reachable no_class heap outside (1 ∷ 4 ∷ 2 ∷ 3 ∷ []) 4
shape_reached = Reachable.held (Reachable.root {p = 1} (omega arith) (omega arith)) Holds.shape_of
