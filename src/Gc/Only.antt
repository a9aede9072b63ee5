-- ===== src/Gc/Only.antt =====
-- quickjs.c, the collector on objects with their fields: it sees nothing else than the ways on which
-- the program comes from an object to the next.
use go_quickjs.Base.{
  ℕ, suc, ◌<◌, ◌≡◌, ◌⊎◌, inl, inr, refl, arith, List, [], ◌∷◌, ◌++◌, get_elem?, Option, none, some,
  ◌==◌, Bool-cases, Option-cases, ==→ne,
}
use native.Mathlib.Decide.{dec_lt}
use go_quickjs.Gc.Objects.{
  JsValue, JsProperty, JsExportEntry, JsModuleDef, JsContext, GcObject, JsAsyncFunctionState,
  js_class_object, mark_pointer, mark_value, mark_values, mark_property, mark_properties,
  mark_exports, js_mark_module_def, mark_modules, js_mark_context, mark_async, mark_class,
  mark_children,
}
use go_quickjs.Gc.Total.{is, count, total-append}
use go_quickjs.Gc.Ways.{
  IsPointer, IsIn, PropertyHolds, ModuleHolds, ContextHolds, AsyncHolds, Holds,
}

-- What is in two lists is in one of them.
append_parts :
    (p : ℕ) (xs ys : List ℕ) → 0 < count p (xs ++ ys) → (0 < count p xs) ⊎ (0 < count p ys)
append_parts p xs ys h = elim (dec_lt 0 (count p xs)) [
  | yes left ↦ inl left
  | no not_left ↦ inr (omega (arith, total-append (is p) xs ys))
]

single_is : (p q : ℕ) → 0 < count p (q ∷ []) → q ≡ p
single_is p q h = ground arith

pointer_is : (p : ℕ) (o : Option ℕ) → 0 < count p (mark_pointer o) → o ≡ some p
pointer_is p none h = absurd (omega arith)
pointer_is p (some q) h = let e = single_is p q h in rw e refl

mark_value-IsPointer : (p : ℕ) (v : JsValue) → 0 < count p (mark_value v) → IsPointer p v
unfolding mark_value
mark_value-IsPointer p (JsValue.object q) h = rw (single_is p q h) IsPointer.to_object
mark_value-IsPointer p (JsValue.function_bytecode q) h = rw (single_is p q h) IsPointer.to_bytecode
mark_value-IsPointer p JsValue.plain h = absurd (omega arith)

mark_values-IsIn : (p : ℕ) (vs : List JsValue) → 0 < count p (mark_values vs) → IsIn vs p
unfolding mark_values
mark_values-IsIn p [] h = absurd (omega arith)
mark_values-IsIn p (x ∷ vs) h = elim (append_parts p (mark_value x) (mark_values vs) h) [
  | inl here ↦ record { place = 0; v = x; at = refl; leads = mark_value-IsPointer p x here }
  | inr later ↦
      let r = mark_values-IsIn p vs later in
      record { place = suc r.place; v = r.v; at = r.at; leads = r.leads }
]

mark_property-PropertyHolds :
    (p : ℕ) (pr : JsProperty) → 0 < count p (mark_property pr) → PropertyHolds p pr
unfolding mark_property
mark_property-PropertyHolds p JsProperty.deleted h = absurd (omega arith)
mark_property-PropertyHolds p (JsProperty.value v) h =
    PropertyHolds.value v (mark_value-IsPointer p v h)
mark_property-PropertyHolds p (JsProperty.getset g s) h =
    elim (append_parts p (mark_pointer g) (mark_pointer s) h) [
      | inl left ↦ rw (pointer_is p g left) (PropertyHolds.getter s)
      | inr right ↦ rw (pointer_is p s right) (PropertyHolds.setter g)
    ]
mark_property-PropertyHolds p (JsProperty.var_ref q) h = rw (single_is p q h) PropertyHolds.variable
mark_property-PropertyHolds p (JsProperty.autoinit q) h = rw (single_is p q h) PropertyHolds.realm

mark_properties-PropertyHolds :
    (p : ℕ) (prop : List JsProperty)
    → 0 < count p (mark_properties prop)
    → (i : ℕ) × (pr : JsProperty) × (get_elem? prop i ≡ some pr) × PropertyHolds p pr
unfolding mark_properties
mark_properties-PropertyHolds p [] h = absurd (omega arith)
mark_properties-PropertyHolds p (x ∷ prop) h =
    elim (append_parts p (mark_property x) (mark_properties prop) h) [
      | inl here ↦ (0, x, refl, mark_property-PropertyHolds p x here)
      | inr later ↦
          let (i, pr, e, r) = mark_properties-PropertyHolds p prop later in (suc i, pr, e, r)
    ]

find_export :
    (p : ℕ) (es : List JsExportEntry)
    → 0 < count p (mark_exports es)
    → (i : ℕ) × (get_elem? es i ≡ some (JsExportEntry.local_export (some p)))
unfolding mark_exports
find_export p [] h = absurd (omega arith)
find_export p (JsExportEntry.local_export r ∷ es) h =
    elim (append_parts p (mark_pointer r) (mark_exports es) h) [
      | inl here ↦ (0, rw (pointer_is p r here) refl)
      | inr later ↦ let (i, e) = find_export p es later in (suc i, e)
    ]
find_export p (JsExportEntry.other_export ∷ es) h = let (i, e) = find_export p es h in (suc i, e)

js_mark_module_def-ModuleHolds :
    (p : ℕ) (m : JsModuleDef) → 0 < count p (js_mark_module_def m) → ModuleHolds p m
unfolding js_mark_module_def
js_mark_module_def-ModuleHolds p m h = elim (append_parts p (mark_exports m.export_entries) _ h) [
  | inl here ↦ let (i, e) = find_export p m.export_entries here in ModuleHolds.exported i e
  | inr later ↦ ModuleHolds.module_field (mark_values-IsIn p _ later)
]

mark_modules-ModuleHolds :
    (p : ℕ) (ms : List JsModuleDef)
    → 0 < count p (mark_modules ms)
    → (i : ℕ) × (m : JsModuleDef) × (get_elem? ms i ≡ some m) × ModuleHolds p m
unfolding mark_modules
mark_modules-ModuleHolds p [] h = absurd (omega arith)
mark_modules-ModuleHolds p (x ∷ ms) h =
    elim (append_parts p (js_mark_module_def x) (mark_modules ms) h) [
      | inl here ↦ (0, x, refl, js_mark_module_def-ModuleHolds p x here)
      | inr later ↦ let (i, m, e, r) = mark_modules-ModuleHolds p ms later in (suc i, m, e, r)
    ]

js_mark_context-ContextHolds :
    (p : ℕ) (c : JsContext) → 0 < count p (js_mark_context c) → ContextHolds p c
unfolding js_mark_context
js_mark_context-ContextHolds p c h = elim (append_parts p (mark_modules c.loaded_modules) _ h) [
  | inl a ↦
      let (i, m, e, r) = mark_modules-ModuleHolds p c.loaded_modules a in
      ContextHolds.loaded i m e r
  | inr h1 ↦ elim (append_parts p _ _ h1) [
    | inl a ↦ ContextHolds.global (mark_values-IsIn p _ a)
    | inr h2 ↦ elim (append_parts p (mark_values c.native_error_proto) _ h2) [
      | inl a ↦ ContextHolds.error_prototype (mark_values-IsIn p _ a)
      | inr h3 ↦ elim (append_parts p (mark_values c.class_proto) _ h3) [
        | inl a ↦ ContextHolds.class_prototype (mark_values-IsIn p _ a)
        | inr h4 ↦ elim (append_parts p _ (mark_pointer c.array_shape) h4) [
          | inl a ↦ ContextHolds.intrinsic (mark_values-IsIn p _ a)
          | inr a ↦ ContextHolds.array_shape (pointer_is p c.array_shape a)
        ]
      ]
    ]
  ]
]

mark_async-AsyncHolds :
    (p : ℕ) (s : JsAsyncFunctionState) → 0 < count p (mark_async s) → AsyncHolds p s
unfolding mark_async
mark_async-AsyncHolds p s h =
    elim (append_parts p _ (mark_values (s.resolving_func0 ∷ s.resolving_func1 ∷ [])) h) [
      | inr a ↦ AsyncHolds.resolving (mark_values-IsIn p _ a)
      | inl run ↦ elim (Bool-cases s.is_completed) [
        | inl over ↦ absurd (let a = rw over at run in omega (arith, a))
        | inr running ↦
            let parts = rw running at run in
            elim (append_parts p (mark_values (s.cur_func ∷ s.this_val ∷ [])) _ parts) [
              | inl a ↦ AsyncHolds.frame running (mark_values-IsIn p _ a)
              | inr a ↦ elim (Option-cases s.stack) [
                | inl e ↦ absurd (let b = rw e at a in omega (arith, b))
                | inr (vs, e) ↦
                    AsyncHolds.suspended vs running e (mark_values-IsIn p vs (rw e at a))
              ]
            ]
      ]
    ]

module _ (gc_mark : ℕ → Option (ℕ → List ℕ)) where
  mark_class-Holds :
      (p q class_id sh : ℕ) (prop : List JsProperty)
      → 0 < count p (mark_class gc_mark class_id q)
      → Holds gc_mark p q (GcObject.js_object sh prop class_id)
  unfolding mark_class
  mark_class-Holds p q class_id sh prop h = elim (Bool-cases (class_id == js_class_object)) [
    | inl e ↦ absurd (let a = rw e at h in omega (arith, a))
    | inr n ↦ elim (Option-cases (gc_mark class_id)) [
      | inl e ↦ absurd (let a = rw (n, e) at h in omega (arith, a))
      | inr (mark, e) ↦ Holds.class_field mark (==→ne class_id 1 n) e (rw (n, e) at h)
    ]
  ]

  -- The collector sees no other way.
  pub mark_children-Holds :
      (p q : ℕ) (o : GcObject) → 0 < count p (mark_children gc_mark q o) → Holds gc_mark p q o
  unfolding mark_children
  mark_children-Holds p q (GcObject.js_object sh prop class_id) h =
      elim (append_parts p (sh ∷ []) (mark_properties prop ++ mark_class gc_mark class_id q) h) [
        | inl a ↦ rw (single_is p sh a) Holds.shape_of
        | inr b ↦ elim (append_parts p (mark_properties prop) _ b) [
          | inl a ↦
              let (i, pr, e, r) = mark_properties-PropertyHolds p prop a in Holds.slot i pr e r
          | inr a ↦ mark_class-Holds p q class_id sh prop a
        ]
      ]
  mark_children-Holds p q (GcObject.bytecode cpool realm) h =
      elim (append_parts p (mark_values cpool) (mark_pointer realm) h) [
        | inl a ↦ Holds.constant (mark_values-IsIn p cpool a)
        | inr a ↦ rw (pointer_is p realm a) Holds.realm_of
      ]
  mark_children-Holds p q (GcObject.shape proto) h = rw (pointer_is p proto h) Holds.prototype
  mark_children-Holds p q (GcObject.detached_ref v) h =
      Holds.variable v (mark_value-IsPointer p v h)
  mark_children-Holds p q (GcObject.stack_ref f) h = rw (pointer_is p f h) Holds.on_stack
  mark_children-Holds p q (GcObject.async_function s) h =
      Holds.async_state (mark_async-AsyncHolds p s h)
  mark_children-Holds p q (GcObject.context c) h =
      Holds.context_field (js_mark_context-ContextHolds p c h)
