-- ===== src/Gc/Seen.antt =====
-- quickjs.c, the collector on objects with their fields: it sees every way on which the program comes
-- from an object to the next.
use go_quickjs.Base.{
  ℕ, zero, suc, ◌+◌, ◌<◌, ◌≡◌, ◌≢◌, arith, List, [], ◌∷◌, ◌++◌, get_elem?, Option, some, false,
  ◌==◌,
}
use go_quickjs.Gc.Objects.{
  JsValue, JsProperty, JsExportEntry, JsModuleDef, JsContext, GcObject, JsAsyncFunctionState,
  js_class_object, mark_pointer, mark_value, mark_values, mark_property, mark_properties,
  mark_exports, js_mark_module_def, mark_modules, js_mark_context, mark_async, mark_class,
  mark_children,
}
use go_quickjs.Gc.Total.{is, count, total-append}
use go_quickjs.Gc.Ways.{
  IsPointer, IsIn, PropertyHolds, ModuleHolds, ContextHolds, AsyncHolds, Holds,
}
use go_quickjs.Gc.Ways.IsPointer.{to_object, to_bytecode}
use go_quickjs.Gc.Ways.PropertyHolds.{value, getter, setter, realm}
use go_quickjs.Gc.Ways.ModuleHolds.{exported, module_field}
use go_quickjs.Gc.Ways.ContextHolds.{
  loaded, global, error_prototype, class_prototype, intrinsic, array_shape,
}
use go_quickjs.Gc.Ways.AsyncHolds.{frame, suspended, resolving}
use go_quickjs.Gc.Ways.Holds.{
  slot, class_field, shape_of, prototype, constant, realm_of, variable, on_stack, async_state,
  context_field,
}

count-mark_value : {p : ℕ} (v : JsValue) → IsPointer p v → 0 < count p (mark_value v)
unfolding mark_value
count-mark_value {p} v to_object = ground arith
count-mark_value {p} v to_bytecode = ground arith

count-mark_values :
    {p : ℕ} (vs : List JsValue) (i : ℕ) (v : JsValue)
    → get_elem? vs i ≡ some v
    → IsPointer p v
    → 0 < count p (mark_values vs)
unfolding mark_values
count-mark_values [] i v e h = cc
count-mark_values {p} (x ∷ vs) zero v e h =
    ground (arith, total-append (is p) (mark_value x) (mark_values vs), count-mark_value v h)
count-mark_values {p} (x ∷ vs) (suc i) v e h = omega (
  arith,
  total-append (is p) (mark_value x) (mark_values vs),
  count-mark_values {p = p} vs i v e h,
)

count-IsIn : {p : ℕ} {vs : List JsValue} → IsIn vs p → 0 < count p (mark_values vs)
count-IsIn {p} {vs} h = count-mark_values vs h.place h.v h.at h.leads

count-mark_pointer : (p : ℕ) → 0 < count p (mark_pointer (some p))
count-mark_pointer p = ground arith

-- Being among the children is passed on to a longer list.
count-left : (p : ℕ) (xs ys : List ℕ) → 0 < count p xs → 0 < count p (xs ++ ys)
count-left p xs ys h = omega (arith, total-append (is p) xs ys)

count-right : (p : ℕ) (xs ys : List ℕ) → 0 < count p ys → 0 < count p (xs ++ ys)
count-right p xs ys h = omega (arith, total-append (is p) xs ys)

count-mark_property :
    {p : ℕ} (pr : JsProperty) → PropertyHolds p pr → 0 < count p (mark_property pr)
unfolding mark_property
count-mark_property pr (value v h) = count-mark_value v h
count-mark_property {p} pr (getter other) = count-left p (p ∷ []) _ (count-mark_pointer p)
count-mark_property {p} pr (setter other) =
    count-right p (mark_pointer other) (p ∷ []) (count-mark_pointer p)
count-mark_property {p} pr PropertyHolds.variable = count-mark_pointer p
count-mark_property {p} pr realm = count-mark_pointer p

count-mark_properties :
    {p : ℕ} (prop : List JsProperty) (i : ℕ) (pr : JsProperty)
    → get_elem? prop i ≡ some pr
    → PropertyHolds p pr
    → 0 < count p (mark_properties prop)
unfolding mark_properties
count-mark_properties [] i pr e h = cc
count-mark_properties {p} (x ∷ prop) zero pr e h =
    ground (
      arith,
      total-append (is p) (mark_property x) (mark_properties prop),
      count-mark_property pr h,
    )
count-mark_properties {p} (x ∷ prop) (suc i) pr e h =
    count-right p (mark_property x) _ (count-mark_properties {p = p} prop i pr e h)

count-mark_exports :
    (p : ℕ) (es : List JsExportEntry) (i : ℕ)
    → get_elem? es i ≡ some (JsExportEntry.local_export (some p))
    → 0 < count p (mark_exports es)
unfolding mark_exports
count-mark_exports p [] i e = cc
count-mark_exports p (JsExportEntry.local_export r ∷ es) zero e =
    let same : r ≡ some p = cc in rw same (count-left p (p ∷ []) _ (count-mark_pointer p))
count-mark_exports p (JsExportEntry.other_export ∷ es) zero e = cc
count-mark_exports p (JsExportEntry.local_export r ∷ es) (suc i) e =
    count-right p (mark_pointer r) _ (count-mark_exports p es i e)
count-mark_exports p (JsExportEntry.other_export ∷ es) (suc i) e = count-mark_exports p es i e

count-js_mark_module_def :
    {p : ℕ} (m : JsModuleDef) → ModuleHolds p m → 0 < count p (js_mark_module_def m)
unfolding js_mark_module_def
count-js_mark_module_def {p} m (exported i e) =
    count-left p (mark_exports m.export_entries) _ (count-mark_exports p m.export_entries i e)
count-js_mark_module_def {p} m (module_field h) =
    count-right p (mark_exports m.export_entries) _ (count-IsIn h)

count-mark_modules :
    {p : ℕ} (ms : List JsModuleDef) (i : ℕ) (m : JsModuleDef)
    → get_elem? ms i ≡ some m
    → ModuleHolds p m
    → 0 < count p (mark_modules ms)
unfolding mark_modules
count-mark_modules [] i m e h = cc
count-mark_modules {p} (x ∷ ms) zero m e h = ground (
  arith,
  total-append (is p) (js_mark_module_def x) (mark_modules ms),
  count-js_mark_module_def m h,
)
count-mark_modules {p} (x ∷ ms) (suc i) m e h =
    count-right p (js_mark_module_def x) _ (count-mark_modules {p = p} ms i m e h)

count-js_mark_context : {p : ℕ} (c : JsContext) → ContextHolds p c → 0 < count p (js_mark_context c)
unfolding js_mark_context
count-js_mark_context {p} c h =
    let modules = mark_modules c.loaded_modules in
    let globals = mark_values (
      c.global_obj ∷ c.global_var_obj ∷ c.throw_type_error ∷ c.eval_obj ∷ c.array_proto_values
      ∷ []) in
    let errors = mark_values c.native_error_proto in
    let classes = mark_values c.class_proto in
    let intrinsics = mark_values (
      c.iterator_proto ∷ c.async_iterator_proto ∷ c.promise_ctor ∷ c.array_ctor ∷ c.regexp_ctor
      ∷ c.function_ctor ∷ c.function_proto ∷ []) in
    let l5 = mark_pointer c.array_shape in
    let l4 = intrinsics ++ l5 in
    let l3 = classes ++ l4 in
    let l2 = errors ++ l3 in
    let parts : count p (modules ++ (globals ++ l2))
        ≡ count p modules
          + count p globals
          + count p errors
          + count p classes
          + count p intrinsics
          + count p l5 =
      omega (
        arith,
        total-append (is p) modules (globals ++ l2),
        total-append (is p) globals l2,
        total-append (is p) errors l3,
        total-append (is p) classes l4,
        total-append (is p) intrinsics l5,
      ) in
    elim h [
      | loaded i m e way ↦ omega (arith, parts, count-mark_modules c.loaded_modules i m e way)
      | global way ↦ omega (arith, parts, count-IsIn way)
      | error_prototype way ↦ omega (arith, parts, count-IsIn way)
      | class_prototype way ↦ omega (arith, parts, count-IsIn way)
      | intrinsic way ↦ omega (arith, parts, count-IsIn way)
      | array_shape e ↦
          let last : 0 < count p l5 = rw e (count-mark_pointer p) in omega (arith, parts, last)
    ]

count-mark_async : {p : ℕ} (s : JsAsyncFunctionState) → AsyncHolds p s → 0 < count p (mark_async s)
unfolding mark_async
count-mark_async {p} s (frame running h) =
    rw running (count-left p _ _ (count-left p _ _ (count-IsIn h)))
count-mark_async {p} s (suspended vs running e h) =
    rw (running, e)
      (count-left p _ _
        (count-right p (mark_values (s.cur_func ∷ s.this_val ∷ [])) _ (count-IsIn h)))
count-mark_async {p} s (resolving h) = count-right p _ _ (count-IsIn h)

count-mark_class :
    (p q class_id : ℕ) (gc_mark : ℕ → Option (ℕ → List ℕ)) (mark : ℕ → List ℕ)
    → class_id ≢ js_class_object
    → gc_mark class_id ≡ some mark
    → 0 < count p (mark q)
    → 0 < count p (mark_class gc_mark class_id q)
unfolding mark_class
count-mark_class p q class_id gc_mark mark ne e h =
    let other : (class_id == js_class_object) ≡ false = ground arith in rw (other, e) h

module _ (gc_mark : ℕ → Option (ℕ → List ℕ)) where
  -- The collector sees every such way.
  pub Holds-mark_children :
      {p q : ℕ} (o : GcObject) → Holds gc_mark p q o → 0 < count p (mark_children gc_mark q o)
  unfolding mark_children
  Holds-mark_children {p} {q} o (slot {sh} {class_id} {prop} i pr e h) =
      count-right p (sh ∷ []) _
        (count-left p (mark_properties prop) _ (count-mark_properties prop i pr e h))
  Holds-mark_children {p} {q} o (class_field {sh} {class_id} {prop} mark ne e h) =
      count-right p (sh ∷ []) _
        (count-right p (mark_properties prop) _ (count-mark_class p q class_id gc_mark mark ne e h))
  Holds-mark_children {p} {q} o (shape_of {class_id} {prop}) =
      count-left p (p ∷ []) _ (count-mark_pointer p)
  Holds-mark_children {p} {q} o prototype = count-mark_pointer p
  Holds-mark_children {p} {q} o (constant {realm} {cpool} h) =
      count-left p (mark_values cpool) _ (count-IsIn h)
  Holds-mark_children {p} {q} o (realm_of {cpool}) =
      count-right p (mark_values cpool) _ (count-mark_pointer p)
  Holds-mark_children {p} {q} o (variable v h) = count-mark_value v h
  Holds-mark_children {p} {q} o on_stack = count-mark_pointer p
  Holds-mark_children {p} {q} o (async_state {s} h) = count-mark_async s h
  Holds-mark_children {p} {q} o (context_field {c} h) = count-js_mark_context c h
