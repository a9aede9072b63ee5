-- ===== src/Base/Int.antt =====
-- Signed integers over the native numbers.
use Prim.Native.Nat.{ℕ, suc, ◌+◌, ◌-◌, ◌*◌, ◌/◌, ◌%◌, ◌≤◌, ◌<◌}
use mathlib.Core.Bool.{Bool, true, false, not}
use mathlib.Core.Path.{◌≡◌}
use native.Mathlib.Omega.{arith}
use native.Mathlib.Nat.{mul-le-mul_right, div-add-mod, mod-lt}
use native.Mathlib.Decide.{dec_lt}
use go_quickjs.Base.Tests.{leb, if◌then◌else◌}

-- `negsuc n` is -(n + 1).
pub data ℤ : Type 0 where
  pos : ℕ → ℤ
  negsuc : ℕ → ℤ

abbrev pub pos_part : ℤ → ℕ
pos_part (pos n) = n
pos_part (negsuc n) = 0

abbrev pub neg_part : ℤ → ℕ
neg_part (pos n) = 0
neg_part (negsuc n) = suc n

-- a - b, as an integer.
abbrev pub sub_ℕ : ℕ → ℕ → ℤ
sub_ℕ a b = if leb b a then pos (a - b) else negsuc (b - a - 1)

infixl 65 ◌+ℤ◌ ◌-ℤ◌
infixl 70 ◌*ℤ◌
infix 50 ◌≤ℤ◌ ◌<ℤ◌
unfoldable pub ◌+ℤ◌ : ℤ → ℤ → ℤ
a +ℤ b = sub_ℕ (pos_part a + pos_part b) (neg_part a + neg_part b)

unfoldable pub ◌-ℤ◌ : ℤ → ℤ → ℤ
a -ℤ b = sub_ℕ (pos_part a + neg_part b) (neg_part a + pos_part b)

unfoldable pub ◌*ℤ◌ : ℤ → ℤ → ℤ
a *ℤ b =
    sub_ℕ (pos_part a * pos_part b + neg_part a * neg_part b)
      (pos_part a * neg_part b + neg_part a * pos_part b)

abbrev pub ◌≤ℤ◌ : ℤ → ℤ → Type 0
a ≤ℤ b = pos_part a + neg_part b ≤ pos_part b + neg_part a

abbrev pub ◌<ℤ◌ : ℤ → ℤ → Type 0
a <ℤ b = pos_part a + neg_part b < pos_part b + neg_part a

pub sub_ℕ_parts : (a b : ℕ) → pos_part (sub_ℕ a b) + b ≡ neg_part (sub_ℕ a b) + a
sub_ℕ_parts a b = ground arith

pub +ℤ_parts :
    (a b : ℤ)
    → pos_part (a +ℤ b) + neg_part a + neg_part b ≡ neg_part (a +ℤ b) + pos_part a + pos_part b
unfolding ◌+ℤ◌
+ℤ_parts a b = ground arith

pub -ℤ_parts :
    (a b : ℤ)
    → pos_part (a -ℤ b) + neg_part a + pos_part b ≡ neg_part (a -ℤ b) + pos_part a + neg_part b
unfolding ◌-ℤ◌
-ℤ_parts a b = ground arith

pub *ℤ_parts :
    (a b : ℤ)
    → pos_part (a *ℤ b) + (pos_part a * neg_part b + neg_part a * pos_part b)
      ≡ neg_part (a *ℤ b) + (pos_part a * pos_part b + neg_part a * neg_part b)
unfolding ◌*ℤ◌
*ℤ_parts a b =
    sub_ℕ_parts (pos_part a * pos_part b + neg_part a * neg_part b)
      (pos_part a * neg_part b + neg_part a * pos_part b)

pub eq_of_parts : (a b : ℤ) → pos_part a + neg_part b ≡ pos_part b + neg_part a → a ≡ b
eq_of_parts a b h = ground arith

-- The quotient by a number that is not 0, rounded down.
abbrev pub floor_div : ℤ → ℕ → ℤ
floor_div (pos n) m = pos (n / m)
floor_div (negsuc n) m = negsuc (n / m)

pub quotient_unique : (a b m r s : ℕ) → r < m → s < m → a * m + r ≡ b * m + s → a ≡ b
quotient_unique a b m r s hr hs e = elim (dec_lt a b) [
  | yes lt ↦ absurd (omega (arith, mul-le-mul_right m lt))
  | no ge ↦ elim (dec_lt b a) [
    | yes lt ↦ absurd (omega (arith, mul-le-mul_right m lt))
    | no le ↦ omega arith
  ]
]

-- The quotient is the only one that leaves a remainder below the divisor.
pub floor_div_unique :
    (v : ℤ) (m p k r : ℕ)
    → r < m
    → pos_part v + k * m ≡ neg_part v + p * m + r
    → pos_part (floor_div v m) + k ≡ neg_part (floor_div v m) + p
floor_div_unique (pos n) m p k r h e =
    let u =
      quotient_unique (n / m + k) p m (n % m) r (mod-lt n (omega arith)) h
        (omega (arith, e, div-add-mod n m)) in
    omega (arith, u)
floor_div_unique (negsuc n) m p k r h e =
    let u =
      quotient_unique k (n / m + 1 + p) m (m - 1 - r) (n % m) (omega arith) (mod-lt n (omega arith))
        (omega (arith, e, div-add-mod n m)) in
    omega (arith, u)

abbrev pub abs : ℤ → ℕ
abs v = pos_part v + neg_part v

abbrev pub negative : ℤ → Bool
negative (pos n) = false
negative (negsuc n) = true

-- `-n` when `minus`.
abbrev pub signed : Bool → ℕ → ℤ
signed true n = sub_ℕ 0 n
signed false n = pos n

abbrev pub differ : Bool → Bool → Bool
differ false b = b
differ true b = not b

-- The quotient rounded towards 0, and the remainder that has the sign of the dividend.
abbrev pub trunc_div : ℤ → ℤ → ℤ
trunc_div u v = signed (differ (negative u) (negative v)) (abs u / abs v)

abbrev pub trunc_rem : ℤ → ℤ → ℤ
trunc_rem u v = signed (negative u) (abs u % abs v)
