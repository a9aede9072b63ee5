-- ===== src/Links.antt =====
-- list.h: doubly linked lists whose links stand in the elements. A node is its address, NULL is 0,
-- and the memory is what the two fields of every node hold.
pub mod Ring
pub mod Add
pub mod Remove
pub mod Walk
mod Examples
use go_quickjs.Base.{ℕ, zero, suc, List, [], ◌∷◌, ◌==◌, if◌then◌else◌, Bool, Option, none, some}

pub record ListHeads : Type 0 where
  pub prev : ℕ → ℕ
  pub next : ℕ → ℕ

abbrev pub null : ℕ
null = 0

abbrev pub write : (ℕ → ℕ) → ℕ → ℕ → ℕ → ℕ
write f p v q = if q == p then v else f q

abbrev pub set_prev : ListHeads → ℕ → ℕ → ListHeads
set_prev m p v = record { prev = write m.prev p v; next = m.next }

abbrev pub set_next : ListHeads → ℕ → ℕ → ListHeads
set_next m p v = record { prev = m.prev; next = write m.next p v }

unfoldable pub init_list_head : ListHeads → ℕ → ListHeads
init_list_head m head = set_next (set_prev m head head) head head

-- `__list_add`, its four writes in order.
unfoldable pub list_add_between : ListHeads → ℕ → ℕ → ℕ → ListHeads
list_add_between m el prev next =
    set_prev (set_next (set_prev (set_next m prev el) el prev) el next) next el

unfoldable pub list_add : ListHeads → ℕ → ℕ → ListHeads
unfolding list_add_between
list_add m el head = list_add_between m el head (m.next head)

unfoldable pub list_add_tail : ListHeads → ℕ → ℕ → ListHeads
unfolding list_add_between
list_add_tail m el head = list_add_between m el (m.prev head) head

unfoldable pub list_del : ListHeads → ℕ → ListHeads
list_del m el =
    let prev = m.prev el in
    let next = m.next el in
    set_next (set_prev (set_prev (set_next m prev next) next prev) el null) el null

unfoldable pub list_empty : ListHeads → ℕ → Bool
list_empty m el = m.next el == el

-- The elements that `list_for_each` visits from `el` on, with a body that leaves the links.
unfoldable pub list_for_each : ℕ → ListHeads → ℕ → ℕ → Option (List ℕ)
list_for_each zero m head el = if el == head then some [] else none
list_for_each (suc rounds) m head el =
    let more : Option (List ℕ) = elim (list_for_each rounds m head (m.next el)) [
      | none ↦ none
      | some l ↦ some (el ∷ l)
    ] in
    if el == head then some [] else more
