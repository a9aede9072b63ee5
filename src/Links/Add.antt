-- ===== src/Links/Add.antt =====
-- list.h, list_add and list_add_tail: the list with one element more.
use go_quickjs.Base.{ℕ, ◌≡◌, ◌≢◌, sym, ap, arith, List, [], ◌∷◌, ◌++◌, All}
use mathlib.Core.Path.{subst}
use go_quickjs.Links.{ListHeads, list_add_between, list_add, list_add_tail}
use go_quickjs.Links.Ring.{
  Chain, Fresh, AreApart, IsRing, Chain-frame, Chain-append, last, first, Chain-last, Chain-first,
}

pub Fresh-last : (p a : ℕ) (xs : List ℕ) → a ≢ p → Fresh p xs → last a xs ≢ p
Fresh-last p a [] n f = n
Fresh-last p a (x ∷ xs) n f = Fresh-last p x xs f.0 f.1

pub Fresh-append : (p : ℕ) (xs ys : List ℕ) → Fresh p xs → Fresh p ys → Fresh p (xs ++ ys)
Fresh-append p [] ys f g = g
Fresh-append p (x ∷ xs) ys f g = (f.0, Fresh-append p xs ys f.1 g)

AreApart-end : (xs : List ℕ) (p : ℕ) → AreApart xs → Fresh p xs → AreApart (xs ++ p ∷ [])
AreApart-end [] p a f = (tt, tt)
AreApart-end (x ∷ xs) p a f =
    (Fresh-append x xs (p ∷ []) a.0 ((λ e. f.0 (sym e)), tt), AreApart-end xs p a.1 f.1)

same_after_add :
    (m : ListHeads) (el p n : ℕ) (xs : List ℕ)
    → Fresh el xs
    → Fresh p xs
    → Fresh n xs
    → All
        (λ x.
          ((list_add_between m el p n).next x ≡ m.next x)
          × ((list_add_between m el p n).prev x ≡ m.prev x))
        xs
unfolding list_add_between
same_after_add m el p n [] fe fp fn = tt
same_after_add m el p n (x ∷ xs) fe fp fn =
    let e = fe.0 in
    let q = fp.0 in
    let r = fn.0 in ((ground arith, ground arith), same_after_add m el p n xs fe.1 fp.1 fn.1)

-- The elements in front of the place where `el` is put.
add-front :
    (m : ListHeads) (el n a : ℕ) (xs : List ℕ) (b : ℕ)
    → Chain m a xs b
    → a ≢ el
    → el ≢ n
    → Fresh el xs
    → Fresh n xs
    → Fresh a xs
    → AreApart xs
    → Chain (list_add_between m el (last a xs) n) a xs el
unfolding list_add_between
add-front m el n a [] b c ae en fe fn fa ap' = (ground arith, ground arith)
add-front m el n a (x ∷ xs) b c ae en fe fn fa ap' =
    let apart = Fresh-last a x xs fa.0 fa.1 in
    (ground arith, ground arith, add-front m el n x xs b c.2 fe.0 en fe.1 fn.1 ap'.0 ap'.1)

-- The elements behind it.
add-back :
    (m : ListHeads) (el p a : ℕ) (ys : List ℕ) (b : ℕ)
    → Chain m a ys b
    → p ≢ el
    → b ≢ el
    → Fresh el ys
    → Fresh p ys
    → Fresh b ys
    → AreApart ys
    → Chain (list_add_between m el p (first ys b)) el ys b
unfolding list_add_between
add-back m el p a [] b c pe be fe fp fb ap' = (ground arith, ground arith)
add-back m el p a (y ∷ ys) b c pe be fe fp fb ap' = (
  ground arith,
  ground arith,
  Chain-frame m (list_add_between m el p y) y ys b (ground arith)
      (same_after_add m el p y ys fe.1 fp.1 ap'.0) (ground arith) c.2,
)

add-end : (m : ListHeads) (el p b : ℕ) → Chain (list_add_between m el p b) el [] b
unfolding list_add_between
add-end m el p b = (ground arith, ground arith)

add-begin :
    (m : ListHeads) (el a n : ℕ) → a ≢ el → el ≢ n → Chain (list_add_between m el a n) a [] el
unfolding list_add_between
add-begin m el a n ae en = (ground arith, ground arith)

first-ne : (el b : ℕ) (xs : List ℕ) → el ≢ b → Fresh el xs → el ≢ first xs b
first-ne el b [] n f = n
first-ne el b (x ∷ xs) n f = λ e. f.0 (sym e)

-- A new element goes to the end of the list, for an element that is not in it.
pub list_add_tail_exact :
    (m : ListHeads) (head el : ℕ) (xs : List ℕ)
    → IsRing m head xs
    → el ≢ head
    → Fresh el xs
    → IsRing (list_add_tail m el head) head (xs ++ el ∷ [])
unfolding list_add_tail
list_add_tail_exact m head el xs r ne fe =
    let he : head ≢ el = λ e. ne (sym e) in
    let front = add-front m el head head xs head r.chain he ne fe r.outside r.outside r.apart in
    let m' = list_add_between m el (last head xs) head in
    let same : m' ≡ list_add_between m el (m.prev head) head =
      ap (λ p. list_add_between m el p head) (sym (Chain-last m head xs head r.chain)) in
    record {
      chain =
          subst (λ z. Chain z head (xs ++ el ∷ []) head) same
            (Chain-append m' head xs el [] head front (add-end m el (last head xs) head));
      outside = Fresh-append head xs (el ∷ []) r.outside (ne, tt);
      apart = AreApart-end xs el r.apart fe;
    }

-- A new element goes to the front of the list, for an element that is not in it.
pub list_add_exact :
    (m : ListHeads) (head el : ℕ) (xs : List ℕ)
    → IsRing m head xs
    → el ≢ head
    → Fresh el xs
    → IsRing (list_add m el head) head (el ∷ xs)
unfolding list_add
list_add_exact m head el xs r ne fe =
    let he : head ≢ el = λ e. ne (sym e) in
    let n = first xs head in
    let m' = list_add_between m el head n in
    let same : m' ≡ list_add_between m el head (m.next head) =
      ap (list_add_between m el head) (sym (Chain-first m head xs head r.chain)) in
    let back = add-back m el head head xs head r.chain he he fe r.outside r.outside r.apart in
    let front = add-begin m el head n he (first-ne el head xs ne fe) in
    record {
      chain = subst (λ z. Chain z head (el ∷ xs) head) same (front.0, front.1, back);
      outside = (ne, r.outside);
      apart = (fe, r.apart);
    }
