-- ===== src/Gc/Objects.antt =====
-- quickjs.c, mark_children: to which objects the collector's callback is applied for an object, in
-- order. An object is its address, and a pointer that may be NULL an option.
use go_quickjs.Base.{ℕ, List, [], ◌∷◌, ◌++◌, ◌==◌, if◌then◌else◌, Option, none, some, Bool}

-- Only these two tags are followed: the rest, strings and symbols too, holds no object.
pub data JsValue : Type 0 where
  object : ℕ → JsValue
  function_bytecode : ℕ → JsValue
  plain : JsValue

-- What a property of a shape and its slot hold. `deleted` has the atom JS_ATOM_NULL, and an
-- initialisation that is put off holds its realm.
pub data JsProperty : Type 0 where
  deleted : JsProperty
  value : JsValue → JsProperty
  getset : Option ℕ → Option ℕ → JsProperty
  var_ref : ℕ → JsProperty
  autoinit : ℕ → JsProperty

-- `other_export` has another `export_type` than JS_EXPORT_TYPE_LOCAL.
pub data JsExportEntry : Type 0 where
  local_export : Option ℕ → JsExportEntry
  other_export : JsExportEntry

pub record JsModuleDef : Type 0 where
  pub export_entries : List JsExportEntry
  pub module_ns : JsValue
  pub func_obj : JsValue
  pub eval_exception : JsValue
  pub meta_obj : JsValue
  pub promise : JsValue
  pub resolving_func0 : JsValue
  pub resolving_func1 : JsValue

pub record JsContext : Type 0 where
  pub loaded_modules : List JsModuleDef
  pub global_obj : JsValue
  pub global_var_obj : JsValue
  pub throw_type_error : JsValue
  pub eval_obj : JsValue
  pub array_proto_values : JsValue
  pub native_error_proto : List JsValue
  pub class_proto : List JsValue
  pub iterator_proto : JsValue
  pub async_iterator_proto : JsValue
  pub promise_ctor : JsValue
  pub array_ctor : JsValue
  pub regexp_ctor : JsValue
  pub function_ctor : JsValue
  pub function_proto : JsValue
  pub array_shape : Option ℕ

-- `stack` is `arg_buf` up to `cur_sp`, which is NULL while the function runs.
pub record JsAsyncFunctionState : Type 0 where
  pub is_completed : Bool
  pub cur_func : JsValue
  pub this_val : JsValue
  pub stack : Option (List JsValue)
  pub resolving_func0 : JsValue
  pub resolving_func1 : JsValue

-- The objects by `gc_obj_type`. A variable that is not detached stands on a stack, which is that of
-- an asynchronous function or not.
pub data GcObject : Type 0 where
  js_object : (shape : ℕ) → (prop : List JsProperty) → (class_id : ℕ) → GcObject
  bytecode : (cpool : List JsValue) → (realm : Option ℕ) → GcObject
  shape : (proto : Option ℕ) → GcObject
  detached_ref : (pvalue : JsValue) → GcObject
  stack_ref : (async_func : Option ℕ) → GcObject
  async_function : JsAsyncFunctionState → GcObject
  context : JsContext → GcObject

abbrev pub js_class_object : ℕ
js_class_object = 1

abbrev pub mark_pointer : Option ℕ → List ℕ
mark_pointer none = []
mark_pointer (some p) = p ∷ []

unfoldable pub mark_value : JsValue → List ℕ
mark_value (object p) = p ∷ []
mark_value (function_bytecode p) = p ∷ []
mark_value plain = []

unfoldable pub mark_values : List JsValue → List ℕ
unfolding mark_value
mark_values [] = []
mark_values (v ∷ more) = mark_value v ++ mark_values more

unfoldable pub mark_property : JsProperty → List ℕ
unfolding mark_value
mark_property deleted = []
mark_property (value v) = mark_value v
mark_property (getset getter setter) = mark_pointer getter ++ mark_pointer setter
mark_property (var_ref p) = p ∷ []
mark_property (autoinit realm) = realm ∷ []

unfoldable pub mark_properties : List JsProperty → List ℕ
unfolding mark_property
mark_properties [] = []
mark_properties (pr ∷ more) = mark_property pr ++ mark_properties more

unfoldable pub mark_exports : List JsExportEntry → List ℕ
mark_exports [] = []
mark_exports (local_export r ∷ more) = mark_pointer r ++ mark_exports more
mark_exports (other_export ∷ more) = mark_exports more

unfoldable pub js_mark_module_def : JsModuleDef → List ℕ
unfolding mark_exports mark_values
js_mark_module_def m =
    mark_exports m.export_entries
    ++ mark_values (
        m.module_ns ∷ m.func_obj ∷ m.eval_exception ∷ m.meta_obj ∷ m.promise ∷ m.resolving_func0
        ∷ m.resolving_func1 ∷ [])

unfoldable pub mark_modules : List JsModuleDef → List ℕ
unfolding js_mark_module_def
mark_modules [] = []
mark_modules (m ∷ more) = js_mark_module_def m ++ mark_modules more

unfoldable pub js_mark_context : JsContext → List ℕ
unfolding mark_modules mark_values
js_mark_context ctx =
    mark_modules ctx.loaded_modules
    ++ (mark_values (
          ctx.global_obj ∷ ctx.global_var_obj ∷ ctx.throw_type_error ∷ ctx.eval_obj
          ∷ ctx.array_proto_values ∷ [])
        ++ (mark_values ctx.native_error_proto
            ++ (mark_values ctx.class_proto
                ++ (mark_values (
                      ctx.iterator_proto ∷ ctx.async_iterator_proto ∷ ctx.promise_ctor
                      ∷ ctx.array_ctor ∷ ctx.regexp_ctor ∷ ctx.function_ctor ∷ ctx.function_proto
                      ∷ [])
                    ++ mark_pointer ctx.array_shape))))

unfoldable pub mark_async : JsAsyncFunctionState → List ℕ
unfolding mark_values
mark_async s =
    let stack : List ℕ = elim s.stack [ none ↦ [] | some vs ↦ mark_values vs ] in
    let running =
      if s.is_completed then [] else mark_values (s.cur_func ∷ s.this_val ∷ []) ++ stack in
    running ++ mark_values (s.resolving_func0 ∷ s.resolving_func1 ∷ [])

-- `gc_mark` is that of the runtime's table of classes, which the embedder extends.
module _ (gc_mark : ℕ → Option (ℕ → List ℕ)) where
  unfoldable pub mark_class : ℕ → ℕ → List ℕ
  mark_class class_id p =
      if class_id == js_class_object
      then []
      else (elim (gc_mark class_id) [ none ↦ [] | some mark ↦ mark p ])

  unfoldable pub mark_children : ℕ → GcObject → List ℕ
  unfolding mark_class mark_properties mark_values mark_value js_mark_context mark_async
  mark_children p (js_object sh prop class_id) =
      sh ∷ (mark_properties prop ++ mark_class class_id p)
  mark_children p (bytecode cpool realm) = mark_values cpool ++ mark_pointer realm
  mark_children p (shape proto) = mark_pointer proto
  mark_children p (detached_ref pvalue) = mark_value pvalue
  mark_children p (stack_ref async_func) = mark_pointer async_func
  mark_children p (async_function s) = mark_async s
  mark_children p (context ctx) = js_mark_context ctx
