-- ===== src/Links/Examples.antt =====
-- list.h: concrete runs, and the theorems at concrete inputs.
use go_quickjs.Base.{ℕ, ◌≡◌, ◌↔◌, refl, arith, List, [], ◌∷◌, ◌++◌, ◌==◌, if◌then◌else◌, some, true}
use go_quickjs.Links.{
  ListHeads, null, init_list_head, list_add_between, list_add_tail, list_del, list_empty,
  list_for_each,
}
use go_quickjs.Links.Ring.{IsRing}
use go_quickjs.Links.Add.{list_add_tail_exact}
use go_quickjs.Links.Remove.{list_del_exact}
use go_quickjs.Links.Walk.{list_for_each_exact, init_list_head-IsRing}

abbrev zeroed : ListHeads
zeroed = record { prev = λ p. 0; next = λ p. 0 }

-- The head at 10, with the elements 20 and 30.
abbrev two : ListHeads
two = list_add_tail (list_add_tail (init_list_head zeroed 10) 20 10) 30 10

two_elements : list_for_each 5 two 10 (two.next 10) ≡ some (20 ∷ 30 ∷ [])
unfolding list_for_each list_add_tail list_add_between init_list_head
two_elements = refl

last_left : list_for_each 5 (list_del two 20) 10 ((list_del two 20).next 10) ≡ some (30 ∷ [])
unfolding list_for_each list_add_tail list_add_between init_list_head list_del
last_left = refl

-- Two elements, with the links that lead from each to the next.
abbrev pair_elements : List ℕ
pair_elements = 20 ∷ 30 ∷ []

abbrev pair : ListHeads
pair = record {
  prev = λ p. if p == 10 then 30 else if p == 30 then 20 else 10;
  next = λ p. if p == 10 then 20 else if p == 20 then 30 else 10;
}

pair-IsRing : IsRing pair 10 (20 ∷ 30 ∷ [])
pair-IsRing = record {
  chain = (refl, refl, (refl, refl, (refl, refl)));
  outside = omega arith;
  apart = omega arith;
}

list_add_tail_exact_example :
    IsRing (list_add_tail (init_list_head zeroed 10) 20 10) 10 ([] ++ 20 ∷ [])
list_add_tail_exact_example =
    list_add_tail_exact (init_list_head zeroed 10) 10 20 [] (init_list_head-IsRing zeroed 10)
      (omega arith) tt

list_del_exact_example :
    IsRing (list_del pair 20) 10 ([] ++ 30 ∷ [])
    × ((list_del pair 20).next 20 ≡ null)
    × ((list_del pair 20).prev 20 ≡ null)
list_del_exact_example = list_del_exact pair 10 20 [] (30 ∷ []) pair-IsRing

list_for_each_exact_example :
    (list_for_each 2 pair 10 (pair.next 10) ≡ some (20 ∷ 30 ∷ []))
    × ((list_empty pair 10 ≡ true) ↔ (pair_elements ≡ []))
list_for_each_exact_example = list_for_each_exact pair 10 (20 ∷ 30 ∷ []) 2 pair-IsRing (omega arith)
