-- ===== src/Proxy/Object/Making.antt =====
-- go-proxy.c, go-proxy-value.go, makeGoObject: an object reads back the value that it was made for,
-- and the others what they did.
use go_quickjs.Base.{
  ℕ, ◌<◌, ◌≡◌, ◌≢◌, refl, sym, ap, ◌∙◌, arith, none, some, true, false, Bool, Bool-cases, inl, inr,
  ◌==◌, ==→eq,
}
use go_quickjs.Proxy.Store.{Ref, PtrStore, put, id_mod, lookup}
use go_quickjs.Proxy.Store.Valid.{Gained}
use go_quickjs.Proxy.Store.Steps.{register_exact, lookup-known}
use go_quickjs.Proxy.Object.{
  GoOpaque, Proxy, get_ptr_store, set_go_obj_opaque, make_object, make_go_object, get_target_value,
}
use go_quickjs.Proxy.Object.Made.{made}
use go_quickjs.Proxy.Object.Linked.{IsLinked, StoreAt, store_at, IsValid-StoreAt, has-StoreAt}
use go_quickjs.Proxy.Object.Read.{Others, seen, read_back, reads_nothing}

-- There is no object that reads back the value, which stays registered; the objects that there were
-- read back what they did.
pub record Unmade (is_boxed : ℕ → Bool) (x : Proxy) (ctx v val : ℕ) (x' : Proxy) : Type 0 where
  pub linked : IsLinked x'
  pub others : Others is_boxed x x' val
  pub reads : get_target_value is_boxed x' ctx val ≡ none
  pub registered : (i : ℕ) × (lookup (get_ptr_store x' ctx) i ≡ some v)

module _ (is_boxed : ℕ → Bool) {x : Proxy} (linked : IsLinked x) where
  module _ (ctx v val : ℕ) {s : PtrStore} (i : ℕ)
      (new_value : (get_ptr_store x ctx).ptr2id v ≡ none) (new_object : x.opaque val ≡ none)
      (g : Gained (get_ptr_store x ctx) v s i) (free : (get_ptr_store x ctx).id2ptr i ≡ none) where
    abbrev x' : Proxy
    x' = record {
      stores = put x.stores ctx (some s);
      opaque = put x.opaque val (some (record { ctx = ctx; idx = i }));
    }

    at_ctx : StoreAt x x' ctx s
    at_ctx = store_at x x' ctx s refl

    -- No other value is at the address.
    other_value :
        (c j : ℕ) (r : Ref) → (get_ptr_store x c).id2ptr j ≡ some r → (c ≡ ctx) → r.ptr ≢ v
    other_value c j r at same e =
        let b = (linked.valid c).back j r at in
        let n = ap (λ d. (get_ptr_store x d).ptr2id v) same ∙ new_value in cc

    kept :
        (c j : ℕ) (r : Ref)
        → (get_ptr_store x c).id2ptr j ≡ some r
        → (t : Ref) × ((get_ptr_store x' c).id2ptr j ≡ some t) × (t.ptr ≡ r.ptr)
    kept c j r at = has-StoreAt linked at_ctx g.valid g.keeps c j r at (other_value c j r at)

    new_one : (r : Ref) × ((get_ptr_store x' ctx).id2ptr i ≡ some r) × (r.ptr ≡ v)
    new_one =
        let (r, at, is_v) = lookup-known s i v g.found in
        (r, ap (λ z. z.id2ptr i) at_ctx.here ∙ at, is_v)

    at_new : (o : GoOpaque) → x'.opaque val ≡ some o → (o.ctx ≡ ctx) × (o.idx ≡ i)
    at_new o e = ground arith

    not_taken : (w : ℕ) (o : GoOpaque) → x.opaque w ≡ some o → o.ctx ≡ ctx → o.idx ≢ i
    not_taken w o e c same =
        let (r, at) = linked.has w o e in
        let at' = ap (λ d. (get_ptr_store x d).id2ptr o.idx) c in
        let at'' = ap (λ j. (get_ptr_store x ctx).id2ptr j) same in cc

    has_new :
        (w : ℕ) (o : GoOpaque)
        → x'.opaque w ≡ some o
        → (r : Ref) × ((get_ptr_store x' o.ctx).id2ptr o.idx ≡ some r)
    has_new w o e = elim (Bool-cases (w == val)) [
      | inl same ↦
          let (r, at, is_v) = new_one in
          let (c, j) = at_new o (ap x'.opaque (sym (==→eq w val same)) ∙ e) in
          (
            r,
            ap (λ d. (get_ptr_store x' d).id2ptr o.idx) c
                ∙ (ap (λ d. (get_ptr_store x' ctx).id2ptr d) j ∙ at),
          )
      | inr other ↦
          let (r, at) = linked.has w o (ground arith) in
          let (t, there, is_r) = kept o.ctx o.idx r at in (t, there)
    ]

    apart_new :
        (w u : ℕ) (o o' : GoOpaque)
        → x'.opaque w ≡ some o
        → x'.opaque u ≡ some o'
        → o.ctx ≡ o'.ctx
        → o.idx ≡ o'.idx
        → w ≡ u
    apart_new w u o o' e e' c j = elim (Bool-cases (w == val)) [
      | inl first ↦
          let (c1, j1) = at_new o (ap x'.opaque (sym (==→eq w val first)) ∙ e) in
          elim (Bool-cases (u == val)) [
            | inl second ↦ ground arith
            | inr old ↦ absurd (not_taken u o' (ground arith) (sym c ∙ c1) (sym j ∙ j1))
          ]
      | inr old ↦ elim (Bool-cases (u == val)) [
        | inl second ↦
            let (c2, j2) = at_new o' (ap x'.opaque (sym (==→eq u val second)) ∙ e') in
            absurd (not_taken w o (ground arith) (c ∙ c2) (j ∙ j2))
        | inr old' ↦ linked.apart w u o o' (ground arith) (ground arith) c j
      ]
    ]

    made-IsLinked : IsLinked x'
    made-IsLinked = record {
      valid = IsValid-StoreAt linked at_ctx g.valid g.keeps;
      has = has_new;
      apart = apart_new;
    }

    made-reads : get_target_value is_boxed x' ctx val ≡ seen is_boxed v
    made-reads =
        let (r, at, is_v) = new_one in
        read_back is_boxed x' val (record { ctx = ctx; idx = i }) r (ground arith) at
        ∙ ap (seen is_boxed) is_v

    made-Others : Others is_boxed x x' val
    made-Others = record {
      read = λ w o ne e.
          let (r, at) = linked.has w o e in
          let (t, there, is_r) = kept o.ctx o.idx r at in
          read_back is_boxed x' w o t (ground arith) there
          ∙ (ap (seen is_boxed) is_r ∙ sym (read_back is_boxed x w o r e at));
    }

    -- The store with the value, and no object that has its identifier.
    abbrev x'' : Proxy
    x'' = record { stores = put x.stores ctx (some s); opaque = x.opaque }

    at_ctx' : StoreAt x x'' ctx s
    at_ctx' = store_at x x'' ctx s refl

    kept' :
        (c j : ℕ) (r : Ref)
        → (get_ptr_store x c).id2ptr j ≡ some r
        → (t : Ref) × ((get_ptr_store x'' c).id2ptr j ≡ some t) × (t.ptr ≡ r.ptr)
    kept' c j r at = has-StoreAt linked at_ctx' g.valid g.keeps c j r at (other_value c j r at)

    alone-IsLinked : IsLinked x''
    alone-IsLinked = record {
      valid = IsValid-StoreAt linked at_ctx' g.valid g.keeps;
      has = λ w o e.
          let (r, at) = linked.has w o e in
          let (t, there, is_r) = kept' o.ctx o.idx r at in (t, there);
      apart = linked.apart;
    }

    alone-Others : Others is_boxed x x'' val
    alone-Others = record {
      read = λ w o ne e.
          let (r, at) = linked.has w o e in
          let (t, there, is_r) = kept' o.ctx o.idx r at in
          read_back is_boxed x'' w o t e there
          ∙ (ap (seen is_boxed) is_r ∙ sym (read_back is_boxed x w o r e at));
    }

    alone-Unmade : Unmade is_boxed x ctx v val x''
    alone-Unmade = record {
      linked = alone-IsLinked;
      others = alone-Others;
      reads = reads_nothing is_boxed alone-IsLinked ctx val new_object;
      registered = (i, rw at_ctx'.here g.found);
    }

  -- When proxies and stores agree, what is at the value's address is an `*interface{}`, the value is
  -- new to the store of its context, the object is new, and some identifier but 0 is not in use:
  -- `makeGoObject` makes an object that reads back the value, if the engine makes an object and
  -- `malloc` grants the memory. If `malloc` does not, the object reads back nothing, and if the engine
  -- makes no object there is an exception; in both cases the value stays registered. On all branches
  -- all other objects read back what they did, and proxies and stores agree again.
  pub make_go_object_exact :
      (ctx v val f : ℕ)
      → is_boxed v ≡ true
      → (get_ptr_store x ctx).ptr2id v ≡ none
      → x.opaque val ≡ none
      → 0 < f
      → f < id_mod
      → (get_ptr_store x ctx).id2ptr f ≡ none
      → ((x' : Proxy) × (make_go_object x ctx v (some val) true ≡ made x' (some val))
          × IsLinked x'
          × (get_target_value is_boxed x' ctx val ≡ some v)
          × Others is_boxed x x' val)
        × ((x' : Proxy) × (make_go_object x ctx v (some val) false ≡ made x' (some val))
            × Unmade is_boxed x ctx v val x')
        × ((x' : Proxy) × ((memory : Bool) → make_go_object x ctx v none memory ≡ made x' none)
            × Unmade is_boxed x ctx v val x')
  unfolding make_go_object make_object set_go_obj_opaque
  make_go_object_exact ctx v val f boxed new_value new_object pos lim unused =
      let (s, i, e, g, given) = register_exact (linked.valid ctx) v f pos lim unused in
      let free : (get_ptr_store x ctx).id2ptr i ≡ none = elim given [
        | inl old ↦ absurd (cc)
        | inr fresh ↦ fresh.2
      ] in
      let unmade = alone-Unmade ctx v val i new_value new_object g free in
      (
        (
          x' ctx v val i new_value new_object g free,
          rw (e, make_go_object) refl,
          made-IsLinked ctx v val i new_value new_object g free,
          made-reads ctx v val i new_value new_object g free ∙ rw boxed refl,
          made-Others ctx v val i new_value new_object g free,
        ),
        (x'' ctx v val i new_value new_object g free, rw (e, make_go_object) refl, unmade),
        (
          x'' ctx v val i new_value new_object g free,
          λ memory. rw (e, make_go_object) refl,
          unmade,
        ),
      )
