-- ===== src/Dtoa/Limbs/Divide.antt =====
-- dtoa.c: `mp_div1`, the division by one limb.
use go_quickjs.Base.{ℕ, ◌+◌, ◌*◌, ◌/◌, ◌%◌, ◌^◌, ◌<◌, ◌≡◌, arith, List, [], ◌∷◌, length, All}
use native.Mathlib.Nat.{div-lt_iff_lt-mul}
use go_quickjs.Base.Bits.{or_high_low}
use go_quickjs.Dtoa.Limbs.{mp_div1}
use go_quickjs.Dtoa.Limbs.Value.{IsLimb, value, limb_power}

-- One digit of a long division: the quotient fits a limb when the remainder so far is below `b`.
pub long_division_step :
    (b r x : ℕ)
    → r < b
    → IsLimb x
    → let a1 = r * 2 ^ 32 + x in (a1 / b * b + a1 % b ≡ a1) × (a1 % b < b) × (a1 / b < 2 ^ 32)
long_division_step b r x hr hx =
    (omega arith, omega arith, (div-lt_iff_lt-mul (omega arith)).1 (grind arith))

-- For a remainder so far below the divisor, `mp_div1` is the exact division: it writes the quotient,
-- which fits the array, and returns the remainder, which is below the divisor.
pub mp_div1_exact :
    (xs : List ℕ) (b r : ℕ)
    → All IsLimb xs
    → r < b
    → (value (mp_div1 xs b r).tab * b + (mp_div1 xs b r).out
        ≡ r * limb_power (length xs) + value xs)
      × ((mp_div1 xs b r).out < b)
      × All IsLimb (mp_div1 xs b r).tab
      × (length (mp_div1 xs b r).tab ≡ length xs)
unfolding mp_div1
mp_div1_exact [] b r h hr = ground arith
mp_div1_exact (x ∷ xs) b r (p, h) hr =
    let high = mp_div1 xs b r in
    ground
      (arith, or_high_low 32 high.out x, long_division_step b high.out x, mp_div1_exact xs b r h)
