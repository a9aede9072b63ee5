-- ===== src/Gc.antt =====
-- quickjs.c: the first two passes of the cycle collector, gc_decref and gc_scan, on the two lists of
-- objects and the reference counts. An object is its address. A list of the runtime is the list of
-- the addresses that are linked in it, in order, and `none` is an assertion that fails.
pub mod Objects
pub mod Total
pub mod Drop
pub mod Keep
pub mod Exact
pub mod Ways
pub mod Seen
pub mod Only
pub mod Holds
mod Examples
use go_quickjs.Base.{
  ℕ, zero, suc, ◌+◌, ◌-◌, List, [], ◌∷◌, ◌++◌, length, get_elem?, ltb, ◌==◌, if◌then◌else◌, ◌&&◌,
  Option, none, some,
}

-- What the passes read and write of the runtime and of the headers of the objects.
pub record JsRuntime : Type 0 where
  pub ref_count : ℕ → ℕ
  pub mark : ℕ → ℕ
  pub gc_obj_list : List ℕ
  pub tmp_obj_list : List ℕ

abbrev pub put : (ℕ → ℕ) → ℕ → ℕ → ℕ → ℕ
put f p v q = if q == p then v else f q

-- An object is linked in one place at most.
unfoldable pub list_del : ℕ → List ℕ → List ℕ
list_del p [] = []
list_del p (q ∷ l) = if q == p then l else q ∷ list_del p l

abbrev pub set_ref_count : JsRuntime → ℕ → ℕ → JsRuntime
set_ref_count rt p n = record {
  ref_count = put rt.ref_count p n;
  mark = rt.mark;
  gc_obj_list = rt.gc_obj_list;
  tmp_obj_list = rt.tmp_obj_list;
}

abbrev pub set_mark : JsRuntime → ℕ → ℕ → JsRuntime
set_mark rt p n = record {
  ref_count = rt.ref_count;
  mark = put rt.mark p n;
  gc_obj_list = rt.gc_obj_list;
  tmp_obj_list = rt.tmp_obj_list;
}

-- `list_del` and `list_add_tail`, to the one list and to the other. The link does not say in which
-- list it is.
abbrev pub to_tmp : JsRuntime → ℕ → JsRuntime
to_tmp rt p = record {
  ref_count = rt.ref_count;
  mark = rt.mark;
  gc_obj_list = list_del p rt.gc_obj_list;
  tmp_obj_list = list_del p rt.tmp_obj_list ++ p ∷ [];
}

abbrev pub to_gc : JsRuntime → ℕ → JsRuntime
to_gc rt p = record {
  ref_count = rt.ref_count;
  mark = rt.mark;
  gc_obj_list = list_del p rt.gc_obj_list ++ p ∷ [];
  tmp_obj_list = list_del p rt.tmp_obj_list;
}

unfoldable pub gc_decref_child : JsRuntime → ℕ → Option JsRuntime
gc_decref_child rt p =
    let n = rt.ref_count p - 1 in
    let rt' = set_ref_count rt p n in
    if ltb 0 (rt.ref_count p)
    then (if n == 0 && rt.mark p == 1 then some (to_tmp rt' p) else some rt')
    else none

-- What follows `mark_children` in the body of the loop.
unfoldable pub visited : JsRuntime → ℕ → JsRuntime
visited rt p = let rt' = set_mark rt p 1 in if rt.ref_count p == 0 then to_tmp rt' p else rt'

unfoldable pub gc_scan_incref_child : JsRuntime → ℕ → JsRuntime
gc_scan_incref_child rt p =
    let n = rt.ref_count p + 1 in
    let rt' = set_ref_count rt p n in if n == 1 then set_mark (to_gc rt' p) p 0 else rt'

unfoldable pub gc_scan_incref_child2 : JsRuntime → ℕ → JsRuntime
gc_scan_incref_child2 rt p = set_ref_count rt p (rt.ref_count p + 1)

-- `mark_children` calls its callback for each of the objects that it is given here, in order.
unfoldable pub decref_children : JsRuntime → List ℕ → Option JsRuntime
decref_children rt [] = some rt
decref_children rt (p ∷ more) = elim (gc_decref_child rt p) [
  | none ↦ none
  | some rt' ↦ decref_children rt' more
]

unfoldable pub incref_children : JsRuntime → List ℕ → JsRuntime
incref_children rt [] = rt
incref_children rt (p ∷ more) = incref_children (gc_scan_incref_child rt p) more

unfoldable pub incref_children2 : JsRuntime → List ℕ → JsRuntime
incref_children2 rt [] = rt
incref_children2 rt (p ∷ more) = incref_children2 (gc_scan_incref_child2 rt p) more

module _ (children : ℕ → List ℕ) where
  -- `list_for_each_safe`: the next object is read before the body runs. It has not been visited, so
  -- that its mark is 0 and the body does not move it: the list is the one that the loop began with.
  unfoldable pub gc_decref_loop : JsRuntime → List ℕ → Option JsRuntime
  gc_decref_loop rt [] = some rt
  gc_decref_loop rt (p ∷ more) =
      if rt.mark p == 0
      then (elim (decref_children rt (children p)) [
        | none ↦ none
        | some rt' ↦ gc_decref_loop (visited rt' p) more
      ])
      else none

  unfoldable pub gc_decref : JsRuntime → Option JsRuntime
  gc_decref rt =
      gc_decref_loop
        (record {
          ref_count = rt.ref_count;
          mark = rt.mark;
          gc_obj_list = rt.gc_obj_list;
          tmp_obj_list = [];
        })
        rt.gc_obj_list

  -- `list_for_each`: the next object is read after the body, which may have linked more objects at
  -- the end of the list, so the loop goes by the position.
  unfoldable pub gc_scan_loop : ℕ → ℕ → JsRuntime → Option JsRuntime
  gc_scan_loop zero i rt = none
  gc_scan_loop (suc rounds) i rt = elim (get_elem? rt.gc_obj_list i) [
    | none ↦ some rt
    | some p ↦
        let next = gc_scan_loop rounds (suc i) (incref_children (set_mark rt p 0) (children p)) in
        if ltb 0 (rt.ref_count p) then next else none
  ]

  unfoldable pub gc_restore_loop : JsRuntime → List ℕ → JsRuntime
  gc_restore_loop rt [] = rt
  gc_restore_loop rt (p ∷ more) = gc_restore_loop (incref_children2 rt (children p)) more

  -- Each object is scanned once at most.
  unfoldable pub gc_scan : JsRuntime → Option JsRuntime
  gc_scan rt = elim (gc_scan_loop (suc (length rt.gc_obj_list + length rt.tmp_obj_list)) 0 rt) [
    | none ↦ none
    | some rt' ↦ some (gc_restore_loop rt' rt'.tmp_obj_list)
  ]

  -- What `JS_RunGCInternal` does before `gc_free_cycles`.
  unfoldable pub gc_find_cycles : JsRuntime → Option JsRuntime
  gc_find_cycles rt = elim (gc_decref rt) [ none ↦ none | some rt' ↦ gc_scan rt' ]
