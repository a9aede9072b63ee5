-- ===== src/BigInt/Arrays/Value.antt =====
-- quickjs.c: the number that an array of limbs stands for, the sum of `tab[i] * 2 ^ (64 * i)`.
use go_quickjs.Base.{ℕ, zero, suc, ◌+◌, ◌*◌, ◌^◌, ◌<◌, ◌≡◌, arith, List, [], ◌∷◌, ◌++◌, length, All}

abbrev pub IsLimb : ℕ → Type 0
IsLimb x = x < 2 ^ 64

abbrev pub value : List ℕ → ℕ
value [] = 0
value (x ∷ xs) = x + 2 ^ 64 * value xs

-- `2 ^ (64 * n)`.
abbrev pub limb_power : ℕ → ℕ
limb_power zero = 1
limb_power (suc n) = 2 ^ 64 * limb_power n

pub value-lt : (xs : List ℕ) → All IsLimb xs → value xs < limb_power (length xs)
value-lt [] h = omega arith
value-lt (x ∷ xs) (p, h) = omega (arith, value-lt xs h)

pub value-append :
    (xs ys : List ℕ) → value (xs ++ ys) ≡ value xs + limb_power (length xs) * value ys
value-append [] ys = omega arith
value-append (x ∷ xs) ys = omega (arith, value-append xs ys)

pub IsLimb-append : (s t : List ℕ) → All IsLimb s → All IsLimb t → All IsLimb (s ++ t)
IsLimb-append [] t h k = k
IsLimb-append (x ∷ s) t (p, h) k = (p, IsLimb-append s t h k)
