-- ===== src/Base/Words.antt =====
-- The native bit operations on words of `k` bits: complements, and results that fit the width.
use Prim.Native.Nat.{
  ℕ, zero, suc, ◌+◌, ◌-◌, ◌*◌, ◌/◌, ◌%◌, ◌^◌, ◌<◌, bit_and, bit_or, bit_xor, differ,
}
use mathlib.Core.Path.{◌≡◌, refl, ◌∙◌}
use mathlib.Core.Logic.{◌⊎◌, inl, inr}
use native.Mathlib.Omega.{arith}
use native.Mathlib.Decide.{dec_le}
use native.Mathlib.Nat.{pow-suc, one-le-pow}
use go_quickjs.Base.Bits.{or_digit, and_digit, xor_digit}

double : (k : ℕ) → 2 ^ suc k ≡ 2 * 2 ^ k
double k = pow-suc 2 k ∙ omega arith

pub parity : (n : ℕ) → (n % 2 ≡ 0) ⊎ (n % 2 ≡ 1)
parity n = elim (dec_le (n % 2) 0) [ yes z ↦ inl (omega arith) | no p ↦ inr (omega arith) ]

differ_zero : (x : ℕ) → differ (x % 2) 0 ≡ x % 2
differ_zero x = elim (parity x) [ inl e ↦ rw e | inr e ↦ rw e ]

differ_one : (x : ℕ) → differ (x % 2) 1 ≡ 1 - x % 2
differ_one x = elim (parity x) [ inl e ↦ rw e | inr e ↦ rw e ]

differ-lt : (x y : ℕ) → differ (x % 2) (y % 2) < 2
differ-lt x y = elim (parity y) [
  | inl e ↦ rw (e, differ_zero x) (omega arith)
  | inr e ↦ rw (e, differ_one x) (omega arith)
]

-- `x ^ 0` and, in a word of `k` bits, `x ^ -1`.
pub xor_zero : (k a : ℕ) → a < 2 ^ k → bit_xor a 0 ≡ a
xor_zero zero a h = let e : a ≡ 0 = omega arith in rw e refl
xor_zero (suc k) a h =
    omega (arith, xor_digit a 0, differ_zero a, xor_zero k (a / 2) (omega (arith, double k)))

pub xor_ones : (k a : ℕ) → a < 2 ^ k → bit_xor a (2 ^ k - 1) ≡ 2 ^ k - 1 - a
xor_ones zero a h = let e : a ≡ 0 = omega arith in rw e refl
xor_ones (suc k) a h =
    let pos = one-le-pow k 2 (omega arith) in
    let half : (2 ^ suc k - 1) / 2 ≡ 2 ^ k - 1 = omega (arith, double k, pos) in
    let odd : (2 ^ suc k - 1) % 2 ≡ 1 = omega (arith, double k, pos) in
    let d : bit_xor a (2 ^ suc k - 1) ≡ bit_xor (a / 2) (2 ^ k - 1) * 2 + (1 - a % 2) =
      xor_digit a (2 ^ suc k - 1) ∙ rw (half, odd, differ_one a) in
    omega (arith, d, double k, xor_ones k (a / 2) (omega (arith, double k)))

pub or-lt-pow : (k a b : ℕ) → a < 2 ^ k → b < 2 ^ k → bit_or a b < 2 ^ k
or-lt-pow zero a b h g =
    let e : a ≡ 0 = omega arith in let f : b ≡ 0 = omega arith in rw (e, f) (omega arith)
or-lt-pow (suc k) a b h g = omega (
  arith,
  or_digit a b,
  double k,
  or-lt-pow k (a / 2) (b / 2) (omega (arith, double k)) (omega (arith, double k)),
)

pub and-lt-pow : (k a b : ℕ) → a < 2 ^ k → b < 2 ^ k → bit_and a b < 2 ^ k
and-lt-pow zero a b h g =
    let e : a ≡ 0 = omega arith in let f : b ≡ 0 = omega arith in rw (e, f) (omega arith)
and-lt-pow (suc k) a b h g = omega (
  arith,
  and_digit a b,
  double k,
  and-lt-pow k (a / 2) (b / 2) (omega (arith, double k)) (omega (arith, double k)),
)

pub xor-lt-pow : (k a b : ℕ) → a < 2 ^ k → b < 2 ^ k → bit_xor a b < 2 ^ k
xor-lt-pow zero a b h g =
    let e : a ≡ 0 = omega arith in let f : b ≡ 0 = omega arith in rw (e, f) (omega arith)
xor-lt-pow (suc k) a b h g = omega (
  arith,
  xor_digit a b,
  differ-lt a b,
  double k,
  xor-lt-pow k (a / 2) (b / 2) (omega (arith, double k)) (omega (arith, double k)),
)
