-- ===== src/Base/Powers.antt =====
-- Powers of sums, and division by a product, over the native numbers.
use Prim.Native.Nat.{ℕ, zero, suc, ◌+◌, ◌*◌, ◌/◌, ◌%◌, ◌^◌, ◌<◌}
use mathlib.Core.Path.{◌≡◌, ap, ◌∙◌}
use native.Mathlib.Omega.{arith}
use native.Mathlib.Nat.{
  mul-le-mul_left, mod-lt, div-add-mod, div-eq_of_lt-le, add-zero, add-suc, mul-zero, mul-suc,
  pow-zero, pow-suc, mul_assoc,
}

pub pow-add : (n a b : ℕ) → n ^ (a + b) ≡ n ^ a * n ^ b
pow-add n a zero = rw (add-zero, pow-zero) (omega arith)
pow-add n a (suc b) =
    rw (add-suc, pow-suc n (a + b), pow-suc n b, pow-add n a b) (mul_assoc (n ^ a) (n ^ b) n)

pub pow-one : (n : ℕ) → n ^ 1 ≡ n
pow-one n = pow-suc n 0 ∙ rw (pow-zero n) (omega arith)

-- A remainder and a quotient of the low part and the rest.
pub split_division :
    (low p high m : ℕ)
    → low < p
    → 0 < m
    → ((low + p * high) / (p * m) ≡ high / m) × ((low + p * high) % (p * m) ≡ low + p * (high % m))
split_division low p high m h pos =
    let q = high / m in
    let r = high % m in
    let small = mul-le-mul_left p (mod-lt high pos) in
    let whole = ap (λ (t : ℕ). p * t) (div-add-mod high m) in
    let n = low + p * high in
    let e : n / (p * m) ≡ q =
      div-eq_of_lt-le (p * m) (omega (arith, whole)) (omega (arith, whole, small)) in
    (e, omega (arith, div-add-mod n (p * m), ap (λ (t : ℕ). p * m * t) e, whole))

pub pow-mul : (n a b : ℕ) → n ^ (a * b) ≡ (n ^ a) ^ b
pow-mul n a zero = rw (mul-zero, pow-zero n, pow-zero (n ^ a))
pow-mul n a (suc b) = rw (mul-suc, pow-add n (a * b) a, pow-mul n a b, pow-suc (n ^ a) b)
