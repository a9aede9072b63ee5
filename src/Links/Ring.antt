-- ===== src/Links/Ring.antt =====
-- list.h: when the links of a memory form a list, and what writes elsewhere leave of it.
use go_quickjs.Base.{ℕ, ◌≡◌, ◌≢◌, ◌∙◌, List, [], ◌∷◌, ◌++◌, All}
use go_quickjs.Links.{ListHeads}

-- The links lead from `a` through the elements to `b`, and back.
abbrev pub Chain : ListHeads → ℕ → List ℕ → ℕ → Type 0
Chain m a [] b = (m.next a ≡ b) × (m.prev b ≡ a)
Chain m a (x ∷ xs) b = (m.next a ≡ x) × (m.prev x ≡ a) × Chain m x xs b

abbrev pub Fresh : ℕ → List ℕ → Type 0
Fresh p xs = All (λ x. x ≢ p) xs

abbrev pub AreApart : List ℕ → Type 0
AreApart [] = Unit {0}
AreApart (x ∷ xs) = Fresh x xs × AreApart xs

-- `head` is the head of the list `xs`.
pub record IsRing (m : ListHeads) (head : ℕ) (xs : List ℕ) : Type 0 where
  pub chain : Chain m head xs head
  pub outside : Fresh head xs
  pub apart : AreApart xs

-- Memory that differs at other nodes only has the same chain.
pub Chain-frame :
    (m m' : ListHeads) (a : ℕ) (xs : List ℕ) (b : ℕ)
    → m'.next a ≡ m.next a
    → All (λ x. (m'.next x ≡ m.next x) × (m'.prev x ≡ m.prev x)) xs
    → m'.prev b ≡ m.prev b
    → Chain m a xs b
    → Chain m' a xs b
Chain-frame m m' a [] b n all p c = (n ∙ c.0, p ∙ c.1)
Chain-frame m m' a (x ∷ xs) b n all p c =
    (n ∙ c.0, all.0.1 ∙ c.1, Chain-frame m m' x xs b all.0.0 all.1 p c.2)

pub Chain-append :
    (m : ListHeads) (a : ℕ) (xs : List ℕ) (y : ℕ) (ys : List ℕ) (b : ℕ)
    → Chain m a xs y
    → Chain m y ys b
    → Chain m a (xs ++ y ∷ ys) b
Chain-append m a [] y ys b c d = (c.0, c.1, d)
Chain-append m a (x ∷ xs) y ys b c d = (c.0, c.1, Chain-append m x xs y ys b c.2 d)

pub Chain-parts :
    (m : ListHeads) (a : ℕ) (xs : List ℕ) (y : ℕ) (ys : List ℕ) (b : ℕ)
    → Chain m a (xs ++ y ∷ ys) b
    → Chain m a xs y × Chain m y ys b
Chain-parts m a [] y ys b c = ((c.0, c.1), c.2)
Chain-parts m a (x ∷ xs) y ys b c = let (d, e) = Chain-parts m x xs y ys b c.2 in ((c.0, c.1, d), e)

-- The last element of a chain, or else where it begins.
abbrev pub last : ℕ → List ℕ → ℕ
last a [] = a
last a (x ∷ xs) = last x xs

abbrev pub first : List ℕ → ℕ → ℕ
first [] b = b
first (x ∷ xs) b = x

pub Chain-last :
    (m : ListHeads) (a : ℕ) (xs : List ℕ) (b : ℕ) → Chain m a xs b → m.prev b ≡ last a xs
Chain-last m a [] b c = c.1
Chain-last m a (x ∷ xs) b c = Chain-last m x xs b c.2

pub Chain-first :
    (m : ListHeads) (a : ℕ) (xs : List ℕ) (b : ℕ) → Chain m a xs b → m.next a ≡ first xs b
Chain-first m a [] b c = c.0
Chain-first m a (x ∷ xs) b c = c.0
