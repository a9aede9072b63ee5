-- ===== src/Dtoa/Limbs/Value.antt =====
-- dtoa.c: the number that an array of limbs stands for, the sum of `tab[i] * 2 ^ (32 * i)`.
use go_quickjs.Base.{ℕ, zero, suc, ◌+◌, ◌*◌, ◌^◌, ◌<◌, ◌≡◌, arith, List, [], ◌∷◌, ◌++◌, length, All}

abbrev pub IsLimb : ℕ → Type 0
IsLimb x = x < 2 ^ 32

abbrev pub value : List ℕ → ℕ
value [] = 0
value (x ∷ xs) = x + 2 ^ 32 * value xs

-- `2 ^ (32 * n)`.
abbrev pub limb_power : ℕ → ℕ
limb_power zero = 1
limb_power (suc n) = 2 ^ 32 * limb_power n

pub value-lt : (xs : List ℕ) → All IsLimb xs → value xs < limb_power (length xs)
value-lt [] h = omega arith
value-lt (x ∷ xs) (p, h) = omega (arith, value-lt xs h)

pub value-append :
    (xs ys : List ℕ) → value (xs ++ ys) ≡ value xs + limb_power (length xs) * value ys
value-append [] ys = omega arith
value-append (x ∷ xs) ys = omega (arith, value-append xs ys)
