-- ===== src/Proxy/Store/Runs.antt =====
-- go-ptr-id.go: any run of register and remove from the empty store.
use go_quickjs.Base.{
  ℕ, ◌+◌, ◌-◌, ◌<◌, ◌≡◌, ◌↔◌, refl, sym, ap, ◌∙◌, arith, none, some, Option-cases, Bool-cases, inl,
  inr, ◌==◌, ==→eq, ==→ne,
}
use go_quickjs.Proxy.Store.{
  PtrStore, Registered, put, id_mod, new_ptr_store, register, lookup, remove,
}
use go_quickjs.Proxy.Store.Registered.{done}
use mathlib.Core.Path.{subst}
use go_quickjs.Proxy.Store.Valid.{IsValid, Gained, held, new_ptr_store-IsValid, held-known}
use go_quickjs.Proxy.Store.Steps.{Lost, register_exact, remove_exact, remove-unknown, lookup-known}

-- A run from the empty store, with the number of registrations of each value that no removal has
-- taken back. When a value is registered, some identifier but 0 is not in use.
pub data Run : PtrStore → (ℕ → ℕ) → Type 0 where
  start : Run new_ptr_store (λ p. 0)
  register_one :
      {s s' : PtrStore} {owed : ℕ → ℕ} (p i f : ℕ)
      → Run s owed
      → 0 < f
      → f < id_mod
      → s.id2ptr f ≡ none
      → register s p ≡ done s' i
      → Run s' (put owed p (owed p + 1))
  remove_one :
      {s : PtrStore} {owed : ℕ → ℕ} (i p : ℕ)
      → Run s owed
      → lookup s i ≡ some p
      → Run (remove s i) (put owed p (owed p - 1))
  remove_unknown :
      {s : PtrStore} {owed : ℕ → ℕ} (i : ℕ) → Run s owed → lookup s i ≡ none → Run (remove s i) owed

-- The store counts what is owed.
pub record Agrees (s : PtrStore) (owed : ℕ → ℕ) : Type 0 where
  pub valid : IsValid s
  pub counts : (p : ℕ) → held s p ≡ owed p

Registered-store : Registered → PtrStore
Registered-store (done s i) = s
Registered-store Registered.panics = new_ptr_store
Registered-store Registered.spins = new_ptr_store

gain-Agrees :
    {s s' : PtrStore} {owed : ℕ → ℕ} (p i : ℕ)
    → Gained s p s' i
    → Agrees s owed
    → Agrees s' (put owed p (owed p + 1))
gain-Agrees p i g a = record {
  valid = g.valid;
  counts = λ q. elim (Bool-cases (q == p)) [
    | inl e ↦ let same = ==→eq q p e in rw e (rw same (omega (arith, g.more, a.counts p)))
    | inr n ↦ rw n (g.keeps.others q (==→ne q p n) ∙ a.counts q)
  ];
}

lose-Agrees :
    {s s' : PtrStore} {owed : ℕ → ℕ} (p i : ℕ)
    → Lost s p i s'
    → Agrees s owed
    → Agrees s' (put owed p (owed p - 1))
lose-Agrees p i l a = record {
  valid = l.valid;
  counts = λ q. elim (Bool-cases (q == p)) [
    | inl e ↦ let same = ==→eq q p e in rw e (rw same (omega (arith, l.one_less, a.counts p)))
    | inr n ↦ rw n (l.keeps.others q (==→ne q p n) ∙ a.counts q)
  ];
}

pub Run-Agrees : {s : PtrStore} {owed : ℕ → ℕ} → Run s owed → Agrees s owed
unfolding new_ptr_store Registered-store
Run-Agrees start = record { valid = new_ptr_store-IsValid; counts = λ p. refl }
Run-Agrees (register_one {s} {s'} {owed} p i f run pos lim free e) =
    let a = Run-Agrees run in
    let (s1, i1, e1, g, given) = register_exact a.valid p f pos lim free in
    gain-Agrees p i1 (subst (λ t. Gained s p t i1) (ap Registered-store (sym e1 ∙ e)) g) a
Run-Agrees (remove_one {s} {owed} i p run e) =
    let a = Run-Agrees run in
    let (r, at, same) = lookup-known s i p e in
    lose-Agrees p i (subst (λ q. Lost s q i (remove s i)) same (remove_exact a.valid i r at)) a
Run-Agrees (remove_unknown {s} {owed} i run e) = rw (remove-unknown s i e) (Run-Agrees run)

-- After any run from the empty store in which some identifier but 0 is not in use whenever a value is
-- registered: a value is found under an identifier while, and only while, it was registered more often
-- than removed, and it is found under one identifier at most.
pub Run-finds :
    {s : PtrStore} {owed : ℕ → ℕ}
    → Run s owed
    → (p : ℕ)
    → ((0 < owed p) ↔ ((i : ℕ) × (lookup s i ≡ some p)))
      × ((i j : ℕ) → lookup s i ≡ some p → lookup s j ≡ some p → i ≡ j)
unfolding lookup
Run-finds {s} {owed} run p =
    let a = Run-Agrees run in
    (
      (
        λ pos. elim (Option-cases (s.ptr2id p)) [
          | inl e ↦ absurd (ground (arith, a.counts p))
          | inr (i, e) ↦ let (r, at, is_p) = a.valid.forth p i e in (i, ground arith)
        ],
        λ found.
            let (r, at, is_p) = lookup-known s found.0 p found.1 in
            let known = held-known a.valid found.0 r at in
            let pos = a.valid.counted found.0 r at in ground (arith, a.counts p),
      ),
      λ i j e e'.
          let (r, at, is_p) = lookup-known s i p e in
          let (t, there, is_p') = lookup-known s j p e' in
          let b = a.valid.back i r at in let c = a.valid.back j t there in ground arith,
    )
