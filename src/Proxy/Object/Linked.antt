-- ===== src/Proxy/Object/Linked.antt =====
-- go-proxy.c, go-proxy-value.go: every object stands for one Go value, until it is freed.
use go_quickjs.Base.{
  ℕ, ◌≡◌, ◌≢◌, refl, ap, ◌∙◌, arith, some, Bool-cases, inl, inr, ◌==◌, ==→eq, ==→ne,
}
use mathlib.Core.Path.{subst}
use go_quickjs.Proxy.Store.{Ref, PtrStore, put}
use go_quickjs.Proxy.Store.Valid.{IsValid, Keeps}
use go_quickjs.Proxy.Object.{GoOpaque, Proxy, get_ptr_store}

-- Every store is valid, an object has a value in the store of its context, and two objects of a
-- context have two identifiers.
pub record IsLinked (x : Proxy) : Type 0 where
  pub valid : (ctx : ℕ) → IsValid (get_ptr_store x ctx)
  pub has :
      (val : ℕ) (o : GoOpaque)
      → x.opaque val ≡ some o
      → (r : Ref) × ((get_ptr_store x o.ctx).id2ptr o.idx ≡ some r)
  pub apart :
      (val other : ℕ) (o o' : GoOpaque)
      → x.opaque val ≡ some o
      → x.opaque other ≡ some o'
      → o.ctx ≡ o'.ctx
      → o.idx ≡ o'.idx
      → val ≡ other

-- A change of the references to one value leaves what is found for the others.
pub lookup-Keeps :
    {s s' : PtrStore} {p : ℕ} (v : IsValid s) (v' : IsValid s') (k : Keeps s s' p) (i : ℕ) (r : Ref)
    → s.id2ptr i ≡ some r
    → r.ptr ≢ p
    → (t : Ref) × (s'.id2ptr i ≡ some t) × (t.ptr ≡ r.ptr)
lookup-Keeps v v' k i r at ne = v'.forth r.ptr i (k.ids r.ptr ne ∙ v.back i r at)

-- The store of one context is another one.
pub record StoreAt (x x' : Proxy) (ctx : ℕ) (s : PtrStore) : Type 0 where
  pub here : get_ptr_store x' ctx ≡ s
  pub elsewhere : (c : ℕ) → c ≢ ctx → get_ptr_store x' c ≡ get_ptr_store x c

pub store_at :
    (x x' : Proxy) (ctx : ℕ) (s : PtrStore)
    → x'.stores ≡ put x.stores ctx (some s)
    → StoreAt x x' ctx s
unfolding get_ptr_store
store_at x x' ctx s e = record {
  here = let at = ap (λ m. m ctx) e in ground arith;
  elsewhere = λ c ne. let at = ap (λ m. m c) e in ground arith;
}

module _ {x x' : Proxy} {ctx p : ℕ} {s : PtrStore} (linked : IsLinked x) (st : StoreAt x x' ctx s)
    (v : IsValid s) (k : Keeps (get_ptr_store x ctx) s p) where
  pub IsValid-StoreAt : (c : ℕ) → IsValid (get_ptr_store x' c)
  IsValid-StoreAt c = elim (Bool-cases (c == ctx)) [
    | inl e ↦ rw (==→eq c ctx e) (rw st.here v)
    | inr n ↦ rw (st.elsewhere c (==→ne c ctx n)) (linked.valid c)
  ]

  -- The values of the other objects are found where they were.
  pub has-StoreAt :
      (c i : ℕ) (r : Ref)
      → (get_ptr_store x c).id2ptr i ≡ some r
      → ((c ≡ ctx) → r.ptr ≢ p)
      → (t : Ref) × ((get_ptr_store x' c).id2ptr i ≡ some t) × (t.ptr ≡ r.ptr)
  has-StoreAt c i r at ne = elim (Bool-cases (c == ctx)) [
    | inl e ↦
        let same = ==→eq c ctx e in
        let at' : (get_ptr_store x ctx).id2ptr i ≡ some r =
          subst (λ d. (get_ptr_store x d).id2ptr i ≡ some r) same at in
        let (t, there, is_r) = lookup-Keeps (linked.valid ctx) v k i r at' (ne same) in
        (
          t,
          ap (λ d. (get_ptr_store x' d).id2ptr i) same ∙ (ap (λ z. z.id2ptr i) st.here ∙ there),
          is_r,
        )
    | inr n ↦ (r, ap (λ z. z.id2ptr i) (st.elsewhere c (==→ne c ctx n)) ∙ at, refl)
  ]
