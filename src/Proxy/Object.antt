-- ===== src/Proxy/Object.antt =====
-- go-proxy.c, and the calls of the store in go-proxy-value.go and context.go: the objects of the
-- engine that stand for Go values. An object and a context are their addresses. What the engine and
-- `malloc` answer, the new object and whether there was memory, are arguments.
pub mod Linked
pub mod Read
pub mod Making
pub mod Freeing
use go_quickjs.Base.{ℕ, Bool, true, false, Option, none, some, if◌then◌else◌}
use go_quickjs.Proxy.Store.{PtrStore, Registered, put, new_ptr_store, register, lookup, remove}
use go_quickjs.Proxy.Store.Registered.{done}

-- `goOpaque`.
pub record GoOpaque : Type 0 where
  pub ctx : ℕ
  pub idx : ℕ

-- `stores` is the map of `InitPtrStore`; `opaque` is what JS_SetOpaque has set on an object of the
-- class GoObjHandler and JS_GetOpaque returns, `none` for NULL.
pub record Proxy : Type 0 where
  pub stores : ℕ → Option PtrStore
  pub opaque : ℕ → Option GoOpaque

abbrev pub with_store : Proxy → ℕ → PtrStore → Proxy
with_store x ctx s = record { stores = put x.stores ctx (some s); opaque = x.opaque }

-- A store is made when there is none; the caller then has a pointer to the one in the map.
unfoldable pub get_ptr_store : Proxy → ℕ → PtrStore
get_ptr_store x ctx = elim (x.stores ctx) [ none ↦ new_ptr_store | some s ↦ s ]

-- The store is cleared and taken out of the map, which has the only pointer to it.
unfoldable pub del_ptr_store : Proxy → ℕ → Proxy
del_ptr_store x ctx = record { stores = put x.stores ctx none; opaque = x.opaque }

unfoldable pub set_go_obj_opaque : Proxy → ℕ → ℕ → ℕ → Bool → Proxy
set_go_obj_opaque x ctx val idx memory =
    if memory
    then record {
      stores = x.stores;
      opaque = put x.opaque val (some (record { ctx = ctx; idx = idx }));
    }
    else x

-- The object is `none` for an exception. A panic, and a search without end, leave no state.
pub data Made : Type 0 where
  made : Proxy → Option ℕ → Made
  panics spins : Made

-- `makeGoObject` of go-proxy.c: `object` is what JS_NewObjectProtoClass returns.
unfoldable pub make_object : Proxy → ℕ → ℕ → Option ℕ → Bool → Made
make_object x ctx idx none memory = made x none
make_object x ctx idx (some val) memory = made (set_go_obj_opaque x ctx val idx memory) (some val)

-- `makeGoObject` of go-proxy-value.go: `v` is the address of the value that is boxed for the call.
unfoldable pub make_go_object : Proxy → ℕ → ℕ → Option ℕ → Bool → Made
make_go_object x ctx v object memory = elim (register (get_ptr_store x ctx) v) [
  | done s idx ↦ make_object (with_store x ctx s) ctx idx object memory
  | Registered.panics ↦ panics
  | Registered.spins ↦ spins
]

-- `restoreGoObjIdx`: what it writes, or `none` where it returns 0.
unfoldable pub restore_go_obj_idx : Proxy → ℕ → Option GoOpaque
restore_go_obj_idx x val = x.opaque val

-- The result is 0 when nothing was written.
unfoldable pub get_target_idx : Proxy → ℕ → ℕ
unfolding restore_go_obj_idx
get_target_idx x val = elim (restore_go_obj_idx x val) [ none ↦ 0 | some o ↦ o.idx ]

-- The address of the value, or `none` where the result is not ok. `is_boxed` is the type assertion:
-- whether what stands at the address of a registered value has the type `*interface{}`.
unfoldable pub get_target_value : (ℕ → Bool) → Proxy → ℕ → ℕ → Option ℕ
unfolding get_target_idx
get_target_value is_boxed x ctx obj = elim (lookup (get_ptr_store x ctx) (get_target_idx x obj)) [
  | none ↦ none
  | some v ↦ if is_boxed v then some v else none
]

-- What the finalizer of an object calls, before JS_FreeValueRT.
unfoldable pub go_free_id : Proxy → ℕ → ℕ → Proxy
go_free_id x ctx idx = with_store x ctx (remove (get_ptr_store x ctx) idx)
