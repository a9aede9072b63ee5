-- ===== src/Cutils/Words.antt =====
-- cutils.h: counting leading zeros.
use go_quickjs.Base.{
  ℕ, zero, suc, ◌+◌, ◌^◌, ◌≤◌, ◌<◌, ◌≡◌, arith, leb, if◌then◌else◌, Bool-cases, inl, inr, leb→le,
}

-- The leading zeros of a word of `n` bits. (The C builtin is undefined at 0; this gives `n` there.)
unfoldable pub leading_zeros : ℕ → ℕ → ℕ
leading_zeros zero a = 0
leading_zeros (suc n) a = if leb (2 ^ n) a then 0 else suc (leading_zeros n a)

unfoldable pub clz32 : ℕ → ℕ
unfolding leading_zeros
clz32 a = leading_zeros 32 a

unfoldable pub clz64 : ℕ → ℕ
unfolding leading_zeros
clz64 a = leading_zeros 64 a

-- What is left of the width is the number of bits of `a`.
pub leading_zeros_bounds :
    (n a : ℕ)
    → 0 < a
    → a < 2 ^ n
    → (k : ℕ) × (leading_zeros n a + suc k ≡ n) × (2 ^ k ≤ a) × (a < 2 ^ suc k)
unfolding leading_zeros
leading_zeros_bounds zero a pos h = absurd (omega arith)
leading_zeros_bounds (suc n) a pos h = elim (Bool-cases (leb (2 ^ n) a)) [
  | inl e ↦ (n, rw e (omega arith), leb→le _ _ e, h)
  | inr e ↦
      let (k, s, lo, hi) = leading_zeros_bounds n a pos (ground arith) in
      (k, rw e (omega (arith, s)), lo, hi)
]
