-- ===== src/Proxy/Store.antt =====
-- go-ptr-id.go: the store that gives the Go values of a context identifiers of 32 bits. Each method
-- holds the store's lock from its first line to its return, so it is one step. An `interface{}` is
-- the address that it holds, since the callers register pointers; a map is a function, and the nil
-- maps that `clear` leaves are empty and not to be written.
pub mod Next
pub mod Valid
pub mod Steps
pub mod Runs
use go_quickjs.Base.{
  ℕ, zero, suc, ◌+◌, ◌-◌, ◌%◌, ◌^◌, ltb, leb, ◌==◌, if◌then◌else◌, Bool, true, false, Option, none,
  some,
}

-- `ref`. An `int` has 64 bits, more than there can be registrations.
pub record Ref : Type 0 where
  pub ptr : ℕ
  pub count : ℕ

pub record PtrStore : Type 0 where
  pub index : ℕ
  pub id2ptr : ℕ → Option Ref
  pub ptr2id : ℕ → Option ℕ
  pub cleared : Bool

-- `panics` is a write to a nil map or a read through a nil pointer; `spins` is the search for an
-- identifier when all are taken.
pub data Registered : Type 0 where
  done : PtrStore → ℕ → Registered
  panics spins : Registered

abbrev pub put {ℓ} : {A : Type ℓ} → (ℕ → A) → ℕ → A → ℕ → A
put m k v j = if j == k then v else m j

abbrev pub id_mod : ℕ
id_mod = 2 ^ 32

unfoldable pub new_ptr_store : PtrStore
new_ptr_store = record { index = 0; id2ptr = λ i. none; ptr2id = λ p. none; cleared = false }

-- The loop of `register`, for as many rounds as there are identifiers.
unfoldable pub next_id : ℕ → (ℕ → Option Ref) → ℕ → Option ℕ
next_id zero m i = none
next_id (suc rounds) m i = elim (m ((i + 1) % id_mod)) [
  | none ↦ some ((i + 1) % id_mod)
  | some r ↦ next_id rounds m ((i + 1) % id_mod)
]

unfoldable pub register_new : PtrStore → ℕ → Registered
register_new s p = elim (next_id id_mod s.id2ptr s.index) [
  | none ↦ spins
  | some i ↦
      if s.cleared
      then panics
      else done
          (record {
            index = i;
            id2ptr = put s.id2ptr i (some (record { ptr = p; count = 1 }));
            ptr2id = put s.ptr2id p (some i);
            cleared = s.cleared;
          })
          i
]

unfoldable pub count_again : PtrStore → ℕ → Registered
count_again s i = elim (s.id2ptr i) [
  | none ↦ panics
  | some r ↦
      done
        (record {
          index = s.index;
          id2ptr = put s.id2ptr i (some (record { ptr = r.ptr; count = r.count + 1 }));
          ptr2id = s.ptr2id;
          cleared = s.cleared;
        })
        i
]

unfoldable pub register : PtrStore → ℕ → Registered
register s p = elim (s.ptr2id p) [ some i ↦ count_again s i | none ↦ register_new s p ]

unfoldable pub lookup : PtrStore → ℕ → Option ℕ
lookup s i = elim (s.id2ptr i) [ none ↦ none | some r ↦ some r.ptr ]

unfoldable pub remove_ref : PtrStore → ℕ → Ref → PtrStore
remove_ref s i r =
    if ltb 0 (r.count - 1)
    then record {
      index = s.index;
      id2ptr = put s.id2ptr i (some (record { ptr = r.ptr; count = r.count - 1 }));
      ptr2id = s.ptr2id;
      cleared = s.cleared;
    }
    else record {
      index = if leb i s.index then (i + id_mod - 1) % id_mod else s.index;
      id2ptr = put s.id2ptr i none;
      ptr2id = put s.ptr2id r.ptr none;
      cleared = s.cleared;
    }

unfoldable pub remove : PtrStore → ℕ → PtrStore
remove s i = elim (s.id2ptr i) [ none ↦ s | some r ↦ remove_ref s i r ]

unfoldable pub clear : PtrStore → PtrStore
clear s = record { index = s.index; id2ptr = λ i. none; ptr2id = λ p. none; cleared = true }
