-- ===== src/Proxy/Examples.antt =====
-- go-ptr-id.go, go-proxy.c: concrete runs, and the theorems at concrete inputs.
use go_quickjs.Base.{
  ℕ, ◌+◌, ◌-◌, ◌<◌, ◌≡◌, ◌↔◌, Bool, refl, arith, none, some, true, false, inl, inr, Bool-cases,
  ◌==◌, if◌then◌else◌,
}
use go_quickjs.Proxy.Store.{
  Ref, PtrStore, Registered, put, new_ptr_store, next_id, register, register_new, count_again,
  lookup, remove, remove_ref,
}
use go_quickjs.Proxy.Store.Registered.{done}
use go_quickjs.Proxy.Store.Valid.{IsValid, Gained, IsGiven, new_ptr_store-IsValid}
use go_quickjs.Proxy.Store.Steps.{Lost, register_exact, remove_exact}
use go_quickjs.Proxy.Store.Runs.{Run, Run-finds}
use go_quickjs.Proxy.Object.{
  Proxy, get_ptr_store, del_ptr_store, make_go_object, get_target_value, go_free_id,
}
use go_quickjs.Proxy.Object.Made.{made}
use go_quickjs.Proxy.Object.Linked.{IsLinked}
use go_quickjs.Proxy.Object.Read.{Others}
use go_quickjs.Proxy.Object.Making.{Unmade, make_go_object_exact}
use go_quickjs.Proxy.Object.Freeing.{without, go_free_id_exact}

abbrev store_of : Registered → PtrStore
store_of (done s i) = s
store_of Registered.panics = new_ptr_store
store_of Registered.spins = new_ptr_store

-- The values at 70 and at 80, the first of them twice.
abbrev one : PtrStore
one = store_of (register new_ptr_store 70)

abbrev two : PtrStore
two = store_of (register one 80)

second_id : register one 80 ≡ done two 2
unfolding register register_new next_id new_ptr_store
second_id = refl

same_id : lookup (store_of (register two 70)) 1 ≡ some 70
unfolding register register_new count_again next_id new_ptr_store lookup
same_id = refl

-- The identifier of a value that was removed is given again.
given_again : register (remove two 1) 90 ≡ done (store_of (register (remove two 1) 90)) 1
unfolding register register_new next_id new_ptr_store remove remove_ref
given_again = refl

register_exact_example :
    (s' : PtrStore) × (i : ℕ) × (register new_ptr_store 70 ≡ done s' i)
    × Gained new_ptr_store 70 s' i
    × IsGiven new_ptr_store 70 i
unfolding new_ptr_store
register_exact_example = register_exact new_ptr_store-IsValid 70 3 (omega arith) (omega arith) refl

-- The store with the value at 70 under 1, twice.
abbrev twice : PtrStore
twice = record {
  index = 1;
  id2ptr = λ i. if i == 1 then some (record { ptr = 70; count = 2 }) else none;
  ptr2id = λ p. if p == 70 then some 1 else none;
  cleared = false;
}

twice-IsValid : IsValid twice
twice-IsValid = record {
  open_ = refl;
  index-lt = omega arith;
  zero_free = refl;
  id-lt = λ i r e. ground arith;
  counted = λ i r e. ground arith;
  back = λ i r e. ground arith;
  forth = λ p i e. (record { ptr = 70; count = 2 }, ground arith, ground arith);
  dense = λ i pos le e. ground arith;
}

remove_exact_example : Lost twice 70 1 (remove twice 1)
remove_exact_example = remove_exact twice-IsValid 1 (record { ptr = 70; count = 2 }) refl

-- The value at 70 is registered twice and removed once.
abbrev again : PtrStore
again = store_of (register one 70)

abbrev owed : ℕ → ℕ
owed = put (put (put (λ p. 0) 70 (0 + 1)) 70 (1 + 1)) 70 (2 - 1)

run : Run (remove again 1) owed
unfolding register register_new count_again next_id new_ptr_store lookup
run =
    Run.remove_one 1 70
      (Run.register_one 70 1 3
        (Run.register_one 70 1 1 Run.start (omega arith) (omega arith) refl refl) (omega arith)
        (omega arith) refl refl)
      refl

Run-finds_example :
    ((0 < owed 70) ↔ ((i : ℕ) × (lookup (remove again 1) i ≡ some 70)))
    × ((i j : ℕ)
        → lookup (remove again 1) i ≡ some 70
        → lookup (remove again 1) j ≡ some 70
        → i ≡ j)
Run-finds_example = Run-finds run 70

abbrev no_proxies : Proxy
no_proxies = record { stores = λ c. none; opaque = λ w. none }

no_proxies-IsLinked : IsLinked no_proxies
unfolding get_ptr_store
no_proxies-IsLinked = record {
  valid = λ c. new_ptr_store-IsValid;
  has = λ w o e. absurd (cc);
  apart = λ w u o o' e e' c j. cc;
}

-- Every value that is registered has the type `*interface{}`.
abbrev all_boxed : ℕ → Bool
all_boxed v = true

make_go_object_exact_example :
    ((x' : Proxy) × (make_go_object no_proxies 5 70 (some 9) true ≡ made x' (some 9))
      × IsLinked x'
      × (get_target_value all_boxed x' 5 9 ≡ some 70)
      × Others all_boxed no_proxies x' 9)
    × ((x' : Proxy) × (make_go_object no_proxies 5 70 (some 9) false ≡ made x' (some 9))
        × Unmade all_boxed no_proxies 5 70 9 x')
    × ((x' : Proxy) × ((memory : Bool) → make_go_object no_proxies 5 70 none memory ≡ made x' none)
        × Unmade all_boxed no_proxies 5 70 9 x')
unfolding get_ptr_store new_ptr_store
make_go_object_exact_example =
    make_go_object_exact all_boxed no_proxies-IsLinked 5 70 9 1 refl refl refl (omega arith)
      (omega arith) refl

-- The object at 9 stands for the value at 70.
abbrev one_object : Proxy
one_object = record {
  stores = λ c. if c == 5 then some twice else none;
  opaque = λ w. if w == 9 then some (record { ctx = 5; idx = 1 }) else none;
}

one_object-IsLinked : IsLinked one_object
unfolding get_ptr_store
one_object-IsLinked = record {
  valid = λ c. elim (Bool-cases (c == 5)) [
    | inl e ↦ rw (e, get_ptr_store) twice-IsValid
    | inr n ↦ rw (n, get_ptr_store) new_ptr_store-IsValid
  ];
  has = λ w o e. (record { ptr = 70; count = 2 }, ground arith);
  apart = λ w u o o' e e' c j. ground arith;
}

go_free_id_exact_example :
    ((r : Ref) × ((get_ptr_store one_object 5).id2ptr 1 ≡ some r)
      × Lost (get_ptr_store one_object 5) r.ptr 1 (get_ptr_store (go_free_id one_object 5 1) 5))
    × IsLinked (without (go_free_id one_object 5 1) 9)
    × Others all_boxed one_object (without (go_free_id one_object 5 1) 9) 9
    × ((ctx : ℕ) → get_target_value all_boxed (without (go_free_id one_object 5 1) 9) ctx 9 ≡ none)
go_free_id_exact_example =
    go_free_id_exact all_boxed one_object-IsLinked 9 (record { ctx = 5; idx = 1 }) refl

-- An object that is freed after its context's store was deleted has the store made again.
made_again : get_ptr_store (del_ptr_store one_object 5) 5 ≡ new_ptr_store
unfolding get_ptr_store del_ptr_store
made_again = refl
