-- ===== src/Gc/Total.antt =====
-- quickjs.c, the collector: sums over a list of objects, and what linking and unlinking do to them.
use go_quickjs.Base.{
  ℕ, zero, suc, ◌+◌, ◌<◌, ◌≡◌, refl, ap, arith, List, [], ◌∷◌, ◌++◌, length, get_elem?, none, some,
  ◌==◌, if◌then◌else◌, ◌≤◌, take, Bool-cases, inl, inr, ==→eq,
}
use go_quickjs.Gc.{list_del}

abbrev pub total : (ℕ → ℕ) → List ℕ → ℕ
total w [] = 0
total w (q ∷ l) = w q + total w l

abbrev pub is : ℕ → ℕ → ℕ
is p q = if q == p then 1 else 0

-- How often `p` is in a list.
abbrev pub count : ℕ → List ℕ → ℕ
count p = total (is p)

-- How often the objects of a list have `p` as a child.
abbrev pub refs : (ℕ → List ℕ) → ℕ → List ℕ → ℕ
refs children p = total (λ q. count p (children q))

pub total-append : (w : ℕ → ℕ) (xs ys : List ℕ) → total w (xs ++ ys) ≡ total w xs + total w ys
total-append w [] ys = omega arith
total-append w (x ∷ xs) ys = omega (arith, total-append w xs ys)

-- Unlinking an object takes away what it adds to a sum.
pub total-list_del :
    (w : ℕ → ℕ) (p : ℕ) (xs : List ℕ) → 0 < count p xs → total w (list_del p xs) + w p ≡ total w xs
unfolding list_del
total-list_del w p [] h = absurd (omega arith)
total-list_del w p (x ∷ xs) h = ground (arith, total-list_del w p xs)

pub list_del-absent : (p : ℕ) (xs : List ℕ) → count p xs ≡ 0 → list_del p xs ≡ xs
unfolding list_del
list_del-absent p [] h = refl
list_del-absent p (x ∷ xs) h = ground (arith, list_del-absent p xs)

pub total-one : (xs : List ℕ) → total (λ q. 1) xs ≡ length xs
total-one [] = refl
total-one (x ∷ xs) = omega (arith, total-one xs)

-- An object at a position is in the list.
pub count-get_elem? : (xs : List ℕ) (i : ℕ) (p : ℕ) → get_elem? xs i ≡ some p → 0 < count p xs
count-get_elem? [] i p h = cc
count-get_elem? (x ∷ xs) zero p h = ground arith
count-get_elem? (x ∷ xs) (suc i) p h = ground (arith, count-get_elem? xs i p)

-- The sum over the objects up to a position, and with the object there.
pub total-take :
    (w : ℕ → ℕ) (xs : List ℕ) (i : ℕ) (p : ℕ)
    → get_elem? xs i ≡ some p
    → total w (take (suc i) xs) ≡ total w (take i xs) + w p
total-take w [] i p h = cc
total-take w (x ∷ xs) zero p h = ground arith
total-take w (x ∷ xs) (suc i) p h = ground (arith, total-take w xs i p)

-- Linking more objects at the end leaves those in front of a position.
pub take-append_end : (xs ys : List ℕ) (i : ℕ) → i ≤ length xs → take i (xs ++ ys) ≡ take i xs
take-append_end xs ys zero h = refl
take-append_end [] ys (suc i) h = absurd (omega arith)
take-append_end (x ∷ xs) ys (suc i) h = ap (◌∷◌ x) (take-append_end xs ys i (omega arith))

pub get_elem?-lt : (xs : List ℕ) (i : ℕ) (p : ℕ) → get_elem? xs i ≡ some p → i < length xs
get_elem?-lt [] i p h = cc
get_elem?-lt (x ∷ xs) zero p h = omega arith
get_elem?-lt (x ∷ xs) (suc i) p h = omega (arith, get_elem?-lt xs i p h)

pub take-past : (xs : List ℕ) (i : ℕ) → get_elem? xs i ≡ none → take i xs ≡ xs
take-past [] zero h = refl
take-past [] (suc i) h = refl
take-past (x ∷ xs) zero h = cc
take-past (x ∷ xs) (suc i) h = ap (◌∷◌ x) (take-past xs i h)

-- A child of an object in the list is counted.
pub refs-positive :
    (children : ℕ → List ℕ) (q p : ℕ) (xs : List ℕ)
    → 0 < count q xs
    → 0 < count p (children q)
    → 0 < refs children p xs
refs-positive children q p [] h c = absurd (omega arith)
refs-positive children q p (x ∷ xs) h c = elim (Bool-cases (x == q)) [
  | inl e ↦ rw (==→eq x q e) (omega (arith, c))
  | inr n ↦ omega (arith, refs-positive children q p xs (ground arith) c)
]
