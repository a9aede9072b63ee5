-- ===== src/Proxy/Object/Read.antt =====
-- go-proxy-value.go, getTargetValue: what an object reads back.
use go_quickjs.Base.{ℕ, Bool, ◌≡◌, ◌≢◌, refl, ap, ◌∙◌, Option, none, some, if◌then◌else◌}
use go_quickjs.Proxy.Store.{Ref, PtrStore, lookup}
use go_quickjs.Proxy.Object.{
  GoOpaque, Proxy, get_ptr_store, get_target_idx, get_target_value, restore_go_obj_idx,
}
use go_quickjs.Proxy.Object.Linked.{IsLinked}

target_idx :
    (x : Proxy) (val : ℕ) (o : GoOpaque) → x.opaque val ≡ some o → get_target_idx x val ≡ o.idx
unfolding get_target_idx
target_idx x val o e = rw (e, get_target_idx, restore_go_obj_idx) refl

no_target_idx : (x : Proxy) (val : ℕ) → x.opaque val ≡ none → get_target_idx x val ≡ 0
unfolding get_target_idx
no_target_idx x val e = rw (e, get_target_idx, restore_go_obj_idx) refl

lookup-at : (s : PtrStore) (i : ℕ) (r : Ref) → s.id2ptr i ≡ some r → lookup s i ≡ some r.ptr
unfolding lookup
lookup-at s i r at = rw (at, lookup) refl

lookup-none : (s : PtrStore) (i : ℕ) → s.id2ptr i ≡ none → lookup s i ≡ none
unfolding lookup
lookup-none s i at = rw (at, lookup) refl

module _ (is_boxed : ℕ → Bool) where
  -- What is read of a value.
  abbrev pub seen : ℕ → Option ℕ
  seen v = if is_boxed v then some v else none

  -- All objects but `val` read back what they did.
  pub record Others (x x' : Proxy) (val : ℕ) : Type 0 where
    pub read :
        (other : ℕ) (o : GoOpaque)
        → other ≢ val
        → x.opaque other ≡ some o
        → get_target_value is_boxed x' o.ctx other ≡ get_target_value is_boxed x o.ctx other

  pub read_back :
      (x : Proxy) (val : ℕ) (o : GoOpaque) (r : Ref)
      → x.opaque val ≡ some o
      → (get_ptr_store x o.ctx).id2ptr o.idx ≡ some r
      → get_target_value is_boxed x o.ctx val ≡ seen r.ptr
  unfolding get_target_value
  read_back x val o r e at =
      let found : lookup (get_ptr_store x o.ctx) (get_target_idx x val) ≡ some r.ptr =
        ap (lookup (get_ptr_store x o.ctx)) (target_idx x val o e)
        ∙ lookup-at (get_ptr_store x o.ctx) o.idx r at in
      rw (found, get_target_value) refl

  -- 0 is no identifier, so that an object with no opaque reads nothing.
  pub reads_nothing :
      {x : Proxy}
      → IsLinked x
      → (ctx val : ℕ) → x.opaque val ≡ none
      → get_target_value is_boxed x ctx val ≡ none
  unfolding get_target_value
  reads_nothing {x} linked ctx val e =
      let found : lookup (get_ptr_store x ctx) (get_target_idx x val) ≡ none =
        ap (lookup (get_ptr_store x ctx)) (no_target_idx x val e)
        ∙ lookup-none (get_ptr_store x ctx) 0 (linked.valid ctx).zero_free in
      rw (found, get_target_value) refl
