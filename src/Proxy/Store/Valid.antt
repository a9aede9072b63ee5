-- ===== src/Proxy/Store/Valid.antt =====
-- go-ptr-id.go: the two maps of a store belong together, and how the methods change them.
use go_quickjs.Base.{
  ℕ, ◌+◌, ◌≤◌, ◌<◌, ◌≡◌, ◌≢◌, ◌⊎◌, refl, arith, Option, none, some, false, Option-cases, Bool-cases,
  inl, inr, ◌==◌,
}
use go_quickjs.Proxy.Store.{
  Ref, PtrStore, put, id_mod, new_ptr_store, register_new, count_again, lookup,
}
use go_quickjs.Proxy.Store.Registered.{done}
use mathlib.Core.Path.{subst}
use go_quickjs.Proxy.Store.Next.{IsNext, next_id-IsNext}

-- The two maps are inverse to each other, every entry is referenced, the identifiers from 1 up to
-- `index` are in use, and 0 is not.
pub record IsValid (s : PtrStore) : Type 0 where
  pub open_ : s.cleared ≡ false
  pub index-lt : s.index < id_mod
  pub zero_free : s.id2ptr 0 ≡ none
  pub id-lt : (i : ℕ) (r : Ref) → s.id2ptr i ≡ some r → i < id_mod
  pub counted : (i : ℕ) (r : Ref) → s.id2ptr i ≡ some r → 0 < r.count
  pub back : (i : ℕ) (r : Ref) → s.id2ptr i ≡ some r → s.ptr2id r.ptr ≡ some i
  pub forth : (p i : ℕ) → s.ptr2id p ≡ some i → (r : Ref) × (s.id2ptr i ≡ some r) × (r.ptr ≡ p)
  pub dense : (i : ℕ) → 0 < i → i ≤ s.index → s.id2ptr i ≢ none

pub new_ptr_store-IsValid : IsValid new_ptr_store
unfolding new_ptr_store
new_ptr_store-IsValid = record {
  open_ = refl;
  index-lt = omega arith;
  zero_free = refl;
  id-lt = λ i r e. cc;
  counted = λ i r e. cc;
  back = λ i r e. cc;
  forth = λ p i e. absurd (cc);
  dense = λ i pos le e. absurd (omega arith);
}

-- How many references a store holds for a value.
abbrev pub count_of : Option Ref → ℕ
count_of none = 0
count_of (some r) = r.count

abbrev pub held : PtrStore → ℕ → ℕ
held s p = elim (s.ptr2id p) [ none ↦ 0 | some i ↦ count_of (s.id2ptr i) ]

-- What a method leaves when it adds and takes away references to `p` only.
pub record Keeps (s s' : PtrStore) (p : ℕ) : Type 0 where
  pub others : (q : ℕ) → q ≢ p → held s' q ≡ held s q
  pub ids : (q : ℕ) → q ≢ p → s'.ptr2id q ≡ s.ptr2id q

-- Another number of references for the value that has the identifier `i`.
abbrev pub recounted : PtrStore → ℕ → Ref → ℕ → PtrStore
recounted s i r n = record {
  index = s.index;
  id2ptr = put s.id2ptr i (some (record { ptr = r.ptr; count = n }));
  ptr2id = s.ptr2id;
  cleared = s.cleared;
}

module _ {s : PtrStore} (v : IsValid s) (i : ℕ) (r : Ref) (at : s.id2ptr i ≡ some r) where
  recounted-forth :
      (n q j : ℕ)
      → s.ptr2id q ≡ some j
      → (u : Ref) × ((recounted s i r n).id2ptr j ≡ some u) × (u.ptr ≡ q)
  recounted-forth n q j h =
      let (t, there, is_q) = v.forth q j h in
      elim (Bool-cases (j == i)) [
        | inl e ↦ (record { ptr = r.ptr; count = n }, ground arith, ground arith)
        | inr ne ↦ (t, ground arith, is_q)
      ]

  pub recounted-IsValid : (n : ℕ) → 0 < n → IsValid (recounted s i r n)
  recounted-IsValid n pos = record {
    open_ = v.open_;
    index-lt = v.index-lt;
    zero_free = let z = v.zero_free in ground arith;
    id-lt = λ j t h. let a = v.id-lt j t in let b = v.id-lt i r at in ground arith;
    counted = λ j t h. let a = v.counted j t in ground arith;
    back = λ j t h. let a = v.back j t in let b = v.back i r at in ground arith;
    forth = λ q j h. recounted-forth n q j h;
    dense = λ j pos le h. let a = v.dense j pos le in ground arith;
  }

  pub recounted-Keeps : (n : ℕ) → Keeps s (recounted s i r n) r.ptr
  recounted-Keeps n = record {
    others = λ q ne. elim (Option-cases (s.ptr2id q)) [
      | inl e ↦ ground arith
      | inr (j, e) ↦ let (t, there, is_q) = v.forth q j e in ground arith
    ];
    ids = λ q ne. refl;
  }

  pub held-recounted : (n : ℕ) → held (recounted s i r n) r.ptr ≡ n
  held-recounted n = let b = v.back i r at in ground arith

  pub held-known : held s r.ptr ≡ r.count
  held-known = let b = v.back i r at in ground arith

-- The store has taken in one reference more for `p`, under the identifier `i`.
pub record Gained (s : PtrStore) (p : ℕ) (s' : PtrStore) (i : ℕ) : Type 0 where
  pub valid : IsValid s'
  pub keeps : Keeps s s' p
  pub more : held s' p ≡ held s p + 1
  pub id : s'.ptr2id p ≡ some i
  pub found : lookup s' i ≡ some p

-- The identifier is that which the value has, or the least one from 1 that is not in use.
abbrev pub IsGiven : PtrStore → ℕ → ℕ → Type 0
IsGiven s p i =
    (s.ptr2id p ≡ some i)
    ⊎ ((s.ptr2id p ≡ none)
        × (0 < i)
        × (s.id2ptr i ≡ none)
        × ((k : ℕ) → 0 < k → k < i → s.id2ptr k ≢ none))

module _ {s : PtrStore} (v : IsValid s) (p : ℕ) where
  pub count_again-Gained :
      (i : ℕ)
      → s.ptr2id p ≡ some i
      → (s' : PtrStore) × (count_again s i ≡ done s' i) × Gained s p s' i
  unfolding count_again lookup
  count_again-Gained i e =
      let (r, at, same) = v.forth p i e in
      let s' = recounted s i r (r.count + 1) in
      (
        s',
        rw (at, count_again) refl,
        record {
          valid = recounted-IsValid v i r at (r.count + 1) (omega arith);
          keeps = subst (Keeps s s') same (recounted-Keeps v i r at (r.count + 1));
          more = ground (arith, held-recounted v i r at (r.count + 1), held-known v i r at);
          id = e;
          found = ground arith;
        },
      )

  abbrev added : ℕ → PtrStore
  added i = record {
    index = i;
    id2ptr = put s.id2ptr i (some (record { ptr = p; count = 1 }));
    ptr2id = put s.ptr2id p (some i);
    cleared = s.cleared;
  }

  added-forth :
      (i q j : ℕ)
      → s.id2ptr i ≡ none
      → put s.ptr2id p (some i) q ≡ some j
      → (u : Ref) × ((added i).id2ptr j ≡ some u) × (u.ptr ≡ q)
  added-forth i q j free h = elim (Bool-cases (q == p)) [
    | inl e ↦ (record { ptr = p; count = 1 }, ground arith, ground arith)
    | inr ne ↦ let (t, there, is_q) = v.forth q j (ground arith) in (t, ground arith, is_q)
  ]

  added-Gained :
      (i f : ℕ)
      → s.ptr2id p ≡ none
      → f < id_mod
      → i ≤ f
      → IsNext s.id2ptr s.index i
      → Gained s p (added i) i
  unfolding lookup
  added-Gained i f new lim le next = record {
    valid = record {
      open_ = v.open_;
      index-lt = omega arith;
      zero_free = let z = v.zero_free in let a = next.after in ground arith;
      id-lt = λ j t h. let a = v.id-lt j t in ground arith;
      counted = λ j t h. let a = v.counted j t in ground arith;
      back = λ j t h. let a = v.back j t in ground arith;
      forth = λ q j h. added-forth i q j next.free h;
      dense = λ j pos up h. let a = v.dense j pos in let b = next.below j in ground arith;
    };
    keeps = record {
      others = λ q ne. elim (Option-cases (s.ptr2id q)) [
        | inl e ↦ ground arith
        | inr (j, e) ↦ let (t, there, is_q) = v.forth q j e in let n = next.free in ground arith
      ];
      ids = λ q ne. ground arith;
    };
    more = ground arith;
    id = ground arith;
    found = ground arith;
  }

  pub register_new-Gained :
      (f : ℕ)
      → s.ptr2id p ≡ none
      → 0 < f
      → f < id_mod
      → s.id2ptr f ≡ none
      → (s' : PtrStore) × (i : ℕ) × (register_new s p ≡ done s' i) × Gained s p s' i × IsGiven s p i
  unfolding register_new
  register_new-Gained f new pos lim free =
      let above : s.index < f = ground (arith, v.dense f pos) in
      let (i, e, le, next) =
        next_id-IsNext id_mod s.id2ptr s.index f above lim (omega arith) free in
      (
        added i,
        i,
        rw (e, register_new) (rw v.open_ refl),
        added-Gained i f new lim le next,
        inr (
          new,
          omega (arith, next.after),
          next.free,
          λ k low high taken. let a = v.dense k low in let b = next.below k in ground arith,
        ),
      )
