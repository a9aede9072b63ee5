-- ===== src/Dtoa/Power/Modular.antt =====
-- Products modulo `2 ^ 64`.
use go_quickjs.Base.{ℕ, ◌*◌, ◌%◌, ◌^◌, ◌≡◌, ap, arith}
use native.Mathlib.Nat.{div-add-mod}

-- One factor may be reduced before the product is.
pub mod_mul : (x y : ℕ) → x % 2 ^ 64 * y % 2 ^ 64 ≡ x * y % 2 ^ 64
mod_mul x y = omega (arith, ap (λ (t : ℕ). t * y) (div-add-mod x (2 ^ 64)))

pub mod_square : (x : ℕ) → x % 2 ^ 64 * (x % 2 ^ 64) % 2 ^ 64 ≡ x * x % 2 ^ 64
mod_square x = omega (arith, mod_mul x (x % 2 ^ 64), mod_mul x x)
