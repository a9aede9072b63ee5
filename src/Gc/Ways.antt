-- ===== src/Gc/Ways.antt =====
-- quickjs.c, the objects of the collector: how the program comes from one to the next.
use go_quickjs.Base.{ℕ, ◌<◌, ◌≡◌, ◌≢◌, List, [], ◌∷◌, get_elem?, Option, some, false}
use go_quickjs.Gc.Objects.{
  JsValue, JsProperty, JsExportEntry, JsModuleDef, JsContext, GcObject, JsAsyncFunctionState,
  js_class_object,
}
use go_quickjs.Gc.Total.{count}

-- A value that leads to the object `p`.
pub data IsPointer (p : ℕ) : JsValue → Type 0 where
  to_object : IsPointer p (JsValue.object p)
  to_bytecode : IsPointer p (JsValue.function_bytecode p)

-- The value at some place of an array.
pub record IsIn (vs : List JsValue) (p : ℕ) : Type 0 where
  pub place : ℕ
  pub v : JsValue
  pub at : get_elem? vs place ≡ some v
  pub leads : IsPointer p v

-- A property of an object leads to `p`: a value, a getter or a setter, a variable, or the realm of
-- an initialisation that is put off.
pub data PropertyHolds (p : ℕ) : JsProperty → Type 0 where
  value : (v : JsValue) → IsPointer p v → PropertyHolds p (JsProperty.value v)
  getter : (other : Option ℕ) → PropertyHolds p (JsProperty.getset (some p) other)
  setter : (other : Option ℕ) → PropertyHolds p (JsProperty.getset other (some p))
  variable : PropertyHolds p (JsProperty.var_ref p)
  realm : PropertyHolds p (JsProperty.autoinit p)

-- A field of a module leads to `p`.
pub data ModuleHolds (p : ℕ) (m : JsModuleDef) : Type 0 where
  exported :
      (i : ℕ)
      → get_elem? m.export_entries i ≡ some (JsExportEntry.local_export (some p))
      → ModuleHolds p m
  module_field :
      IsIn
        (m.module_ns ∷ m.func_obj ∷ m.eval_exception ∷ m.meta_obj ∷ m.promise ∷ m.resolving_func0
          ∷ m.resolving_func1 ∷ [])
        p
      → ModuleHolds p m

-- A field of a context leads to `p`.
pub data ContextHolds (p : ℕ) (c : JsContext) : Type 0 where
  loaded :
      (i : ℕ) (m : JsModuleDef)
      → get_elem? c.loaded_modules i ≡ some m
      → ModuleHolds p m
      → ContextHolds p c
  global :
      IsIn
        (c.global_obj ∷ c.global_var_obj ∷ c.throw_type_error ∷ c.eval_obj ∷ c.array_proto_values
          ∷ [])
        p
      → ContextHolds p c
  error_prototype : IsIn c.native_error_proto p → ContextHolds p c
  class_prototype : IsIn c.class_proto p → ContextHolds p c
  intrinsic :
      IsIn
        (c.iterator_proto ∷ c.async_iterator_proto ∷ c.promise_ctor ∷ c.array_ctor ∷ c.regexp_ctor
          ∷ c.function_ctor ∷ c.function_proto ∷ [])
        p
      → ContextHolds p c
  array_shape : c.array_shape ≡ some p → ContextHolds p c

-- What an asynchronous function holds: until it has completed its function, `this` and, while it is
-- suspended, its stack, and always the functions that settle its promise.
pub data AsyncHolds (p : ℕ) (s : JsAsyncFunctionState) : Type 0 where
  frame : s.is_completed ≡ false → IsIn (s.cur_func ∷ s.this_val ∷ []) p → AsyncHolds p s
  suspended :
      (vs : List JsValue) → s.is_completed ≡ false → s.stack ≡ some vs → IsIn vs p → AsyncHolds p s
  resolving : IsIn (s.resolving_func0 ∷ s.resolving_func1 ∷ []) p → AsyncHolds p s

-- A way for the program from the object at `q` to `p`: a field of the object, or what the callback of
-- its class is applied to.
pub data Holds (gc_mark : ℕ → Option (ℕ → List ℕ)) (p q : ℕ) : GcObject → Type 0 where
  slot :
      {sh class_id : ℕ} {prop : List JsProperty} (i : ℕ) (pr : JsProperty)
      → get_elem? prop i ≡ some pr
      → PropertyHolds p pr
      → Holds gc_mark p q (GcObject.js_object sh prop class_id)
  class_field :
      {sh class_id : ℕ} {prop : List JsProperty} (mark : ℕ → List ℕ)
      → class_id ≢ js_class_object
      → gc_mark class_id ≡ some mark
      → 0 < count p (mark q)
      → Holds gc_mark p q (GcObject.js_object sh prop class_id)
  shape_of :
      {class_id : ℕ} {prop : List JsProperty}
      → Holds gc_mark p q (GcObject.js_object p prop class_id)
  prototype : Holds gc_mark p q (GcObject.shape (some p))
  constant :
      {realm : Option ℕ} {cpool : List JsValue}
      → IsIn cpool p
      → Holds gc_mark p q (GcObject.bytecode cpool realm)
  realm_of : {cpool : List JsValue} → Holds gc_mark p q (GcObject.bytecode cpool (some p))
  variable : (v : JsValue) → IsPointer p v → Holds gc_mark p q (GcObject.detached_ref v)
  on_stack : Holds gc_mark p q (GcObject.stack_ref (some p))
  async_state :
      {s : JsAsyncFunctionState} → AsyncHolds p s → Holds gc_mark p q (GcObject.async_function s)
  context_field : {c : JsContext} → ContextHolds p c → Holds gc_mark p q (GcObject.context c)

-- The program can reach `p`: a reference from outside leads to it, or an object that it can reach
-- holds it.
pub data Reachable (gc_mark : ℕ → Option (ℕ → List ℕ)) (heap : ℕ → GcObject) (ext : ℕ → ℕ)
    (objects : List ℕ) : ℕ → Type 0 where
  root : {p : ℕ} → 0 < count p objects → 0 < ext p → Reachable gc_mark heap ext objects p
  held :
      {q p : ℕ}
      → Reachable gc_mark heap ext objects q
      → Holds gc_mark p q (heap q)
      → Reachable gc_mark heap ext objects p
