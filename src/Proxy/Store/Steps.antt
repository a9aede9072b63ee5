-- ===== src/Proxy/Store/Steps.antt =====
-- go-ptr-id.go: register and remove on a valid store.
use go_quickjs.Base.{
  ℕ, ◌+◌, ◌-◌, ◌%◌, ◌<◌, ◌≡◌, refl, arith, none, some, Option-cases, Bool-cases, inl, inr, ltb, leb,
  if◌then◌else◌,
}
use go_quickjs.Proxy.Store.{Ref, PtrStore, put, id_mod, register, lookup, remove_ref, remove}
use go_quickjs.Proxy.Store.Registered.{done}
use go_quickjs.Proxy.Store.Valid.{
  IsValid, Keeps, Gained, IsGiven, held, recounted-IsValid, recounted-Keeps, held-recounted,
  held-known, count_again-Gained, register_new-Gained,
}

-- On a valid store in which some identifier but 0 is not in use, `register` ends without a panic:
-- the value is found under the identifier, which is the one it had, or else the least from 1 that
-- was not in use; it has one reference more, other values keep identifier and references, and the
-- store is valid.
pub register_exact :
    {s : PtrStore} (v : IsValid s) (p f : ℕ)
    → 0 < f
    → f < id_mod
    → s.id2ptr f ≡ none
    → (s' : PtrStore) × (i : ℕ) × (register s p ≡ done s' i) × Gained s p s' i × IsGiven s p i
unfolding register
register_exact {s} v p f pos lim free = elim (Option-cases (s.ptr2id p)) [
  | inl new ↦
      let (s', i, e, g, given) = register_new-Gained v p f new pos lim free in
      (s', i, rw (new, register) e, g, given)
  | inr (i, old) ↦
      let (s', e, g) = count_again-Gained v p i old in (s', i, rw (old, register) e, g, inl old)
]

-- The store has given up one reference to `p`, of which the identifier is `i`.
pub record Lost (s : PtrStore) (p i : ℕ) (s' : PtrStore) : Type 0 where
  pub valid : IsValid s'
  pub keeps : Keeps s s' p
  pub one_less : held s p ≡ held s' p + 1
  pub stays : 0 < held s' p → lookup s' i ≡ some p
  pub goes : held s' p ≡ 0 → (lookup s' i ≡ none) × (s'.ptr2id p ≡ none)

module _ {s : PtrStore} (v : IsValid s) (i : ℕ) (r : Ref) (at : s.id2ptr i ≡ some r) where
  abbrev dropped : PtrStore
  dropped = record {
    index = if leb i s.index then (i + id_mod - 1) % id_mod else s.index;
    id2ptr = put s.id2ptr i none;
    ptr2id = put s.ptr2id r.ptr none;
    cleared = s.cleared;
  }

  dropped-IsValid : IsValid dropped
  dropped-IsValid =
      let b = v.back i r at in
      let small = v.id-lt i r at in
      let z = v.zero_free in
      let not_zero : 0 < i = ground arith in
      record {
        open_ = v.open_;
        index-lt = let l = v.index-lt in ground arith;
        zero_free = ground arith;
        id-lt = λ j t h. let a = v.id-lt j t in ground arith;
        counted = λ j t h. let a = v.counted j t in ground arith;
        back = λ j t h. let a = v.back j t in ground arith;
        forth =
            λ q j h. let (t, there, is_q) = v.forth q j (ground arith) in (t, ground arith, is_q);
        dense = λ j pos up h. let a = v.dense j pos in let l = v.index-lt in ground arith;
      }

  dropped-Keeps : Keeps s dropped r.ptr
  dropped-Keeps = record {
    others = λ q ne. elim (Option-cases (s.ptr2id q)) [
      | inl e ↦ ground arith
      | inr (j, e) ↦ let (t, there, is_q) = v.forth q j e in ground arith
    ];
    ids = λ q ne. ground arith;
  }

  remove_ref-Lost : Lost s r.ptr i (remove_ref s i r)
  unfolding remove_ref lookup
  remove_ref-Lost = elim (Bool-cases (ltb 0 (r.count - 1))) [
    | inl more ↦
        let known = held-known v i r at in
        let left = held-recounted v i r at (r.count - 1) in
        rw more (record {
          valid = recounted-IsValid v i r at (r.count - 1) (ground arith);
          keeps = recounted-Keeps v i r at (r.count - 1);
          one_less = ground arith;
          stays = λ h. ground arith;
          goes = λ h. absurd (ground arith);
        })
    | inr last ↦
        let known = held-known v i r at in
        let some_left = v.counted i r at in
        rw last (record {
          valid = dropped-IsValid;
          keeps = dropped-Keeps;
          one_less = ground arith;
          stays = λ h. absurd (ground arith);
          goes = λ h. ground arith;
        })
  ]

  -- `remove` of an identifier in use gives up one reference: the value is found as before while it
  -- has another, and else it and the identifier are gone; other values keep identifier and
  -- references, and the store is valid.
  pub remove_exact : Lost s r.ptr i (remove s i)
  unfolding remove
  remove_exact = rw (at, remove) remove_ref-Lost

pub remove-unknown : (s : PtrStore) (i : ℕ) → lookup s i ≡ none → remove s i ≡ s
unfolding remove lookup
remove-unknown s i e = elim (Option-cases (s.id2ptr i)) [
  | inl no_ref ↦ rw (no_ref, remove) refl
  | inr (r, at) ↦ absurd (ground arith)
]

pub lookup-known :
    (s : PtrStore) (i p : ℕ) → lookup s i ≡ some p → (r : Ref) × (s.id2ptr i ≡ some r) × (r.ptr ≡ p)
unfolding lookup
lookup-known s i p e = elim (Option-cases (s.id2ptr i)) [
  | inl no_ref ↦ absurd (ground arith)
  | inr (r, at) ↦ (r, at, ground arith)
]
