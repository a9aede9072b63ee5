-- ===== src/Proxy/Store/Next.antt =====
-- go-ptr-id.go, register: the search for an identifier that is not in use.
use go_quickjs.Base.{
  ℕ, zero, suc, ◌+◌, ◌%◌, ◌≤◌, ◌<◌, ◌≡◌, ◌≢◌, refl, sym, ap, ◌∙◌, ◌==◌, Bool-cases, arith, Option,
  none, some, Option-cases, inl, inr,
}
use go_quickjs.Proxy.Store.{Ref, id_mod, next_id}

-- `j` is the first identifier after `i` that is not in use.
pub record IsNext (m : ℕ → Option Ref) (i j : ℕ) : Type 0 where
  pub after : i < j
  pub free : m j ≡ none
  pub below : (k : ℕ) → i < k → k < j → m k ≢ none

next_id-free :
    (rounds : ℕ) (m : ℕ → Option Ref) (i : ℕ)
    → m ((i + 1) % id_mod) ≡ none
    → next_id (suc rounds) m i ≡ some ((i + 1) % id_mod)
unfolding next_id
next_id-free rounds m i e = rw (e, next_id) refl

next_id-taken :
    (rounds : ℕ) (m : ℕ → Option Ref) (i : ℕ) (r : Ref)
    → m ((i + 1) % id_mod) ≡ some r
    → next_id (suc rounds) m i ≡ next_id rounds m ((i + 1) % id_mod)
unfolding next_id
next_id-taken rounds m i r e = rw (e, next_id) refl

-- If an identifier after `i` is not in use, the search ends at the first of them.
pub next_id-IsNext :
    (rounds : ℕ) (m : ℕ → Option Ref) (i f : ℕ)
    → i < f
    → f < id_mod
    → f ≤ i + rounds
    → m f ≡ none
    → (j : ℕ) × (next_id rounds m i ≡ some j) × (j ≤ f) × IsNext m i j
next_id-IsNext zero m i f lt lim near free = absurd (omega arith)
next_id-IsNext (suc rounds) m i f lt lim near free =
    let wrap : (i + 1) % id_mod ≡ i + 1 = omega arith in
    elim (Option-cases (m ((i + 1) % id_mod))) [
      | inl e ↦ (
        (i + 1) % id_mod,
        next_id-free rounds m i e,
        omega arith,
        record { after = omega arith; free = e; below = λ k a b. absurd (omega arith) },
      )
      | inr (r, e) ↦
          let at : m (i + 1) ≡ some r = ap m (sym wrap) ∙ e in
          let apart : i + 1 ≢ f = λ same. cc in
          let (j, found, le, next) =
            next_id-IsNext rounds m ((i + 1) % id_mod) f (omega (arith, apart)) lim (omega arith)
              free in
          (
            j,
            next_id-taken rounds m i r e ∙ found,
            le,
            record {
              after = omega (arith, next.after);
              free = next.free;
              below = λ k a b taken. elim (Bool-cases (k == i + 1)) [
                | inl here ↦ ground arith
                | inr there ↦ next.below k (ground arith) b taken
              ];
            },
          )
    ]
