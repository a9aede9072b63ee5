-- ===== src/Links/Walk.antt =====
-- list.h, init_list_head, list_empty and list_for_each: the elements that a list has.
use go_quickjs.Base.{ℕ, zero, suc, ◌≤◌, ◌≡◌, ◌↔◌, refl, arith, List, [], ◌∷◌, length, some, true}
use go_quickjs.Links.{ListHeads, init_list_head, list_empty, list_for_each}
use go_quickjs.Links.Ring.{Chain, Fresh, IsRing}

list_for_each-Chain :
    (m : ListHeads) (head a : ℕ) (xs : List ℕ) (rounds : ℕ)
    → Chain m a xs head
    → Fresh head xs
    → length xs ≤ rounds
    → list_for_each rounds m head (m.next a) ≡ some xs
unfolding list_for_each
list_for_each-Chain m head a [] zero c f h = ground arith
list_for_each-Chain m head a [] (suc rounds) c f h = ground arith
list_for_each-Chain m head a (x ∷ xs) zero c f h = absurd (omega arith)
list_for_each-Chain m head a (x ∷ xs) (suc rounds) c f h =
    let ih = list_for_each-Chain m head x xs rounds c.2 f.1 (omega arith) in
    let e = f.0 in ground arith

list_empty-Chain :
    (m : ListHeads) (head : ℕ) (xs : List ℕ)
    → Chain m head xs head
    → Fresh head xs
    → (list_empty m head ≡ true) ↔ (xs ≡ [])
unfolding list_empty
list_empty-Chain m head [] c f = (λ e. refl, λ e. ground arith)
list_empty-Chain m head (x ∷ xs) c f = (λ e. absurd (f.0 (ground arith)), λ e. cc)

-- On a list `list_for_each` ends, and visits its elements in order; `list_empty` says whether there
-- is none.
pub list_for_each_exact :
    (m : ListHeads) (head : ℕ) (xs : List ℕ) (rounds : ℕ)
    → IsRing m head xs
    → length xs ≤ rounds
    → (list_for_each rounds m head (m.next head) ≡ some xs)
      × ((list_empty m head ≡ true) ↔ (xs ≡ []))
list_for_each_exact m head xs rounds r h = (
  list_for_each-Chain m head head xs rounds r.chain r.outside h,
  list_empty-Chain m head xs r.chain r.outside,
)

pub init_list_head-IsRing : (m : ListHeads) (head : ℕ) → IsRing (init_list_head m head) head []
unfolding init_list_head
init_list_head-IsRing m head = record {
  chain = (ground arith, ground arith);
  outside = tt;
  apart = tt;
}
