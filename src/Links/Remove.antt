-- ===== src/Links/Remove.antt =====
-- list.h, list_del: the list with one element less.
use go_quickjs.Base.{ℕ, ◌≡◌, ◌≢◌, sym, arith, List, [], ◌∷◌, ◌++◌, All}
use go_quickjs.Links.{ListHeads, null, list_del}
use go_quickjs.Links.Ring.{
  Chain, Fresh, AreApart, IsRing, Chain-frame, Chain-parts, last, first, Chain-last, Chain-first,
}
use go_quickjs.Links.Add.{Fresh-last, Fresh-append}

same_after_del :
    (m : ListHeads) (el p n : ℕ) (xs : List ℕ)
    → m.prev el ≡ p
    → m.next el ≡ n
    → Fresh el xs
    → Fresh p xs
    → Fresh n xs
    → All (λ x. ((list_del m el).next x ≡ m.next x) × ((list_del m el).prev x ≡ m.prev x)) xs
unfolding list_del
same_after_del m el p n [] to_p to_n fe fp fn = tt
same_after_del m el p n (x ∷ xs) to_p to_n fe fp fn =
    let e = fe.0 in
    let q = fp.0 in
    let r = fn.0 in
    ((ground arith, ground arith), same_after_del m el p n xs to_p to_n fe.1 fp.1 fn.1)

-- The two ends of the place from which `el` is taken are linked.
del-join :
    (m : ListHeads) (el p : ℕ) (ys : List ℕ) (b : ℕ)
    → Chain m el ys b
    → m.prev el ≡ p
    → p ≢ el
    → b ≢ el
    → Fresh el ys
    → Fresh p ys
    → Fresh b ys
    → AreApart ys
    → Chain (list_del m el) p ys b
unfolding list_del
del-join m el p [] b c to_p pe be fe fp fb ap' = (ground arith, ground arith)
del-join m el p (y ∷ ys) b c to_p pe be fe fp fb ap' = (
  ground arith,
  ground arith,
  Chain-frame m (list_del m el) y ys b (ground arith)
      (same_after_del m el p y ys to_p c.0 fe.1 fp.1 ap'.0) (ground arith) c.2,
)

-- The elements in front keep their links up to there.
del-front :
    (m : ListHeads) (el n a : ℕ) (xs ys : List ℕ) (b : ℕ)
    → Chain m a xs el
    → Chain (list_del m el) (last a xs) ys b
    → m.prev el ≡ last a xs
    → m.next el ≡ n
    → a ≢ el
    → Fresh el xs
    → Fresh n xs
    → Fresh a xs
    → AreApart xs
    → Chain (list_del m el) a (xs ++ ys) b
unfolding list_del
del-front m el n a [] ys b c j to_p to_n ae fe fn fa ap' = j
del-front m el n a (x ∷ xs) ys b c j to_p to_n ae fe fn fa ap' =
    let apart = Fresh-last a x xs fa.0 fa.1 in
    (
      ground arith,
      ground arith,
      del-front m el n x xs ys b c.2 j to_p to_n fe.0 fe.1 fn.1 ap'.0 ap'.1,
    )

-- What it means for the elements around `el` that no node is linked twice.
record Around (head el : ℕ) (xs ys : List ℕ) : Type 0 where
  apart_front : AreApart xs
  apart_back : AreApart ys
  el_front : Fresh el xs
  el_back : Fresh el ys
  head_front : Fresh head xs
  head_back : Fresh head ys
  el_head : el ≢ head
  across : All (λ x. Fresh x ys) xs

Fresh-parts :
    (p : ℕ) (xs : List ℕ) (el : ℕ) (ys : List ℕ)
    → Fresh p (xs ++ el ∷ ys)
    → Fresh p xs × (el ≢ p) × Fresh p ys
Fresh-parts p [] el ys f = (tt, f.0, f.1)
Fresh-parts p (x ∷ xs) el ys f = let (a, b, c) = Fresh-parts p xs el ys f.1 in ((f.0, a), b, c)

around :
    (head : ℕ) (xs : List ℕ) (el : ℕ) (ys : List ℕ)
    → Fresh head (xs ++ el ∷ ys)
    → AreApart (xs ++ el ∷ ys)
    → Around head el xs ys
around head [] el ys f a = record {
  apart_front = tt;
  apart_back = a.1;
  el_front = tt;
  el_back = a.0;
  head_front = tt;
  head_back = f.1;
  el_head = f.0;
  across = tt;
}
around head (x ∷ xs) el ys f a =
    let r = around head xs el ys f.1 a.1 in
    let (in_front, not_el, behind) = Fresh-parts x xs el ys a.0 in
    record {
      apart_front = (in_front, r.apart_front);
      apart_back = r.apart_back;
      el_front = ((λ e. not_el (sym e)), r.el_front);
      el_back = r.el_back;
      head_front = (f.0, r.head_front);
      head_back = r.head_back;
      el_head = r.el_head;
      across = (behind, r.across);
    }

across-last :
    (head : ℕ) (xs ys : List ℕ) → Fresh head ys → All (λ x. Fresh x ys) xs → Fresh (last head xs) ys
across-last head [] ys f a = f
across-last head (x ∷ xs) ys f a = across-last x xs ys a.0 a.1

across-first :
    (head : ℕ) (xs ys : List ℕ)
    → Fresh head xs
    → All (λ x. Fresh x ys) xs
    → Fresh (first ys head) xs
across-first head [] [] f a = tt
across-first head [] (y ∷ ys) f a = tt
across-first head (x ∷ xs) [] f a = f
across-first head (x ∷ xs) (y ∷ ys) f a =
    ((λ e. a.0.0 (sym e)), across-first head xs (y ∷ ys) f.1 a.1)

AreApart-join :
    (xs ys : List ℕ) → AreApart xs → AreApart ys → All (λ x. Fresh x ys) xs → AreApart (xs ++ ys)
AreApart-join [] ys a b c = b
AreApart-join (x ∷ xs) ys a b c = (Fresh-append x xs ys a.0 c.0, AreApart-join xs ys a.1 b c.1)

-- Removing an element of a list, wherever it stands, leaves the others in order, and the element
-- with NULL in both links.
pub list_del_exact :
    (m : ListHeads) (head el : ℕ) (xs ys : List ℕ)
    → IsRing m head (xs ++ el ∷ ys)
    → IsRing (list_del m el) head (xs ++ ys)
      × ((list_del m el).next el ≡ null)
      × ((list_del m el).prev el ≡ null)
unfolding list_del
list_del_exact m head el xs ys r =
    let a = around head xs el ys r.outside r.apart in
    let (front, back) = Chain-parts m head xs el ys head r.chain in
    let he : head ≢ el = λ e. a.el_head (sym e) in
    let to_p = Chain-last m head xs el front in
    let to_n = Chain-first m el ys head back in
    let join =
      del-join m el (last head xs) ys head back to_p (Fresh-last el head xs he a.el_front) he
        a.el_back (across-last head xs ys a.head_back a.across) a.head_back a.apart_back in
    (
      record {
        chain =
            del-front m el (first ys head) head xs ys head front join to_p to_n he a.el_front
              (across-first head xs ys a.head_front a.across) a.head_front a.apart_front;
        outside = Fresh-append head xs ys a.head_front a.head_back;
        apart = AreApart-join xs ys a.apart_front a.apart_back a.across;
      },
      ground arith,
      ground arith,
    )
