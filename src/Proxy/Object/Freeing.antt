-- ===== src/Proxy/Object/Freeing.antt =====
-- go-proxy-value.go, goFreeId: what the finalizer of an object does to the store, and what the others
-- read back when the object is gone.
use go_quickjs.Base.{ℕ, Bool, ◌≡◌, ◌≢◌, refl, sym, ap, ◌∙◌, arith, none, some}
use go_quickjs.Proxy.Store.{Ref, put, remove}
use go_quickjs.Proxy.Store.Steps.{Lost, remove_exact}
use go_quickjs.Proxy.Object.{
  GoOpaque, Proxy, get_ptr_store, with_store, get_target_value, go_free_id,
}
use go_quickjs.Proxy.Object.Linked.{IsLinked, store_at, IsValid-StoreAt, has-StoreAt}
use go_quickjs.Proxy.Object.Read.{Others, seen, read_back, reads_nothing}

-- The engine has taken an object away: it has no opaque any more.
abbrev pub without : Proxy → ℕ → Proxy
without x val = record { stores = x.stores; opaque = put x.opaque val none }

module _ (is_boxed : ℕ → Bool) {x : Proxy} (linked : IsLinked x) (val : ℕ) (o : GoOpaque)
    (e : x.opaque val ≡ some o) where
  abbrev freed : Proxy
  freed = without (with_store x o.ctx (remove (get_ptr_store x o.ctx) o.idx)) val

  lost :
      (r : Ref) × ((get_ptr_store x o.ctx).id2ptr o.idx ≡ some r)
      × Lost (get_ptr_store x o.ctx) r.ptr o.idx (remove (get_ptr_store x o.ctx) o.idx)
  lost = let (r, at) = linked.has val o e in (r, at, remove_exact (linked.valid o.ctx) o.idx r at)

  -- Another object of the context has another value.
  not_lost :
      (w : ℕ) (o' : GoOpaque) (r r' : Ref)
      → w ≢ val
      → x.opaque w ≡ some o'
      → (get_ptr_store x o.ctx).id2ptr o.idx ≡ some r
      → (get_ptr_store x o'.ctx).id2ptr o'.idx ≡ some r'
      → o'.ctx ≡ o.ctx
      → r'.ptr ≢ r.ptr
  not_lost w o' r r' ne e' at at' c same =
      let b = (linked.valid o.ctx).back o.idx r at in
      let b' = (linked.valid o'.ctx).back o'.idx r' at' in
      let at_one = ap (λ d. (get_ptr_store x d).ptr2id r'.ptr) c in
      let with_one = ap (get_ptr_store x o.ctx).ptr2id same in
      let ids : some o'.idx ≡ some o.idx = sym b' ∙ (at_one ∙ (with_one ∙ b)) in
      ne (linked.apart w val o' o e' e c (ground arith))

  still :
      (w : ℕ) (o' : GoOpaque) (r' : Ref)
      → w ≢ val
      → x.opaque w ≡ some o'
      → (get_ptr_store x o'.ctx).id2ptr o'.idx ≡ some r'
      → (t : Ref) × ((get_ptr_store freed o'.ctx).id2ptr o'.idx ≡ some t) × (t.ptr ≡ r'.ptr)
  still w o' r' ne e' at' =
      let (r, at, l) = lost in
      has-StoreAt linked (store_at x freed o.ctx (remove (get_ptr_store x o.ctx) o.idx) refl)
        l.valid l.keeps o'.ctx o'.idx r' at' (not_lost w o' r r' ne e' at at')

  was_there :
      (w : ℕ) (o' : GoOpaque) → freed.opaque w ≡ some o' → (w ≢ val) × (x.opaque w ≡ some o')
  was_there w o' h = (λ same. ground arith, ground arith)

  freed-IsLinked : IsLinked freed
  freed-IsLinked =
      let (r, at, l) = lost in
      let st = store_at x freed o.ctx (remove (get_ptr_store x o.ctx) o.idx) refl in
      record {
        valid = IsValid-StoreAt linked st l.valid l.keeps;
        has = λ w o' h.
            let (ne, e') = was_there w o' h in
            let (r', at') = linked.has w o' e' in
            let (t, there, is_r) = still w o' r' ne e' at' in (t, there);
        apart = λ w u o1 o2 h h' c j.
            linked.apart w u o1 o2 (was_there w o1 h).1 (was_there u o2 h').1 c j;
      }

  freed-Others : Others is_boxed x freed val
  freed-Others = record {
    read = λ w o' ne e'.
        let (r', at') = linked.has w o' e' in
        let (t, there, is_r) = still w o' r' ne e' at' in
        read_back is_boxed freed w o' t (ground arith) there
        ∙ (ap (seen is_boxed) is_r ∙ sym (read_back is_boxed x w o' r' e' at'));
  }

  -- When proxies and stores agree and an object stands for a value, `goFreeId` with the context and
  -- the identifier of the object's opaque gives up one reference to the value. Once the engine has
  -- taken the object away, all other objects read back what they did, the object reads back nothing,
  -- and proxies and stores agree again.
  pub go_free_id_exact :
      ((r : Ref) × ((get_ptr_store x o.ctx).id2ptr o.idx ≡ some r)
        × Lost (get_ptr_store x o.ctx) r.ptr o.idx (get_ptr_store (go_free_id x o.ctx o.idx) o.ctx))
      × IsLinked (without (go_free_id x o.ctx o.idx) val)
      × Others is_boxed x (without (go_free_id x o.ctx o.idx) val) val
      × ((ctx : ℕ)
          → get_target_value is_boxed (without (go_free_id x o.ctx o.idx) val) ctx val ≡ none)
  unfolding go_free_id get_ptr_store lost
  go_free_id_exact =
      let (r, at, l) = lost in
      let st = store_at x freed o.ctx (remove (get_ptr_store x o.ctx) o.idx) refl in
      (
        (r, at, rw st.here l),
        freed-IsLinked,
        freed-Others,
        λ ctx. reads_nothing is_boxed freed-IsLinked ctx val (ground arith),
      )
