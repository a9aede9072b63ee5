-- ===== src/Unicode/Range/Points.antt =====
-- The set of code points that a list of points stands for.
use go_quickjs.Base.{
  ℕ, suc, ◌+◌, ◌%◌, ◌≤◌, ◌<◌, ◌≡◌, refl, arith, List, [], ◌∷◌, ◌++◌, All, leb, if◌then◌else◌,
}

-- How many of the points are at or below `c`.
abbrev pub count : ℕ → List ℕ → ℕ
count c [] = 0
count c (x ∷ pt) = (if leb x c then 1 else 0) + count c pt

-- 1 when `c` is in the set, which the points enter and leave in turns, and 0 otherwise.
abbrev pub inside : ℕ → List ℕ → ℕ
inside c pt = count c pt % 2

abbrev pub Above : ℕ → List ℕ → Type 0
Above m pt = All (λ x. m ≤ x) pt

-- In rising order, points may repeat.
abbrev pub IsSorted : List ℕ → Type 0
IsSorted [] = Unit
IsSorted (x ∷ pt) = Above x pt × IsSorted pt

-- Every point is below the next one.
abbrev pub IsStrict : List ℕ → Type 0
IsStrict [] = Unit
IsStrict (x ∷ pt) = Above (suc x) pt × IsStrict pt

pub count-append : (c : ℕ) (s t : List ℕ) → count c (s ++ t) ≡ count c s + count c t
count-append c [] t = omega arith
count-append c (x ∷ s) t = omega (arith, count-append c s t)

pub count-eq-zero : (c m : ℕ) (pt : List ℕ) → c < m → Above m pt → count c pt ≡ 0
count-eq-zero c m [] lt h = refl
count-eq-zero c m (x ∷ pt) lt (p, h) = ground (arith, count-eq-zero c m pt lt h)

pub Above-weaken : (m n : ℕ) (pt : List ℕ) → m ≤ n → Above n pt → Above m pt
Above-weaken m n [] le h = tt
Above-weaken m n (x ∷ pt) le (p, h) = (omega arith, Above-weaken m n pt le h)
