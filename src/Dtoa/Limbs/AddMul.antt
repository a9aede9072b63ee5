-- ===== src/Dtoa/Limbs/AddMul.antt =====
-- dtoa.c: `mp_add_ui` and `mp_mul1`.
use go_quickjs.Base.{
  ℕ, ◌+◌, ◌*◌, ◌/◌, ◌%◌, ◌^◌, ◌<◌, ◌≡◌, arith, List, [], ◌∷◌, length, All, ltb, if◌then◌else◌,
}
use go_quickjs.Dtoa.Limbs.{mp_add_ui, mp_mul1}
use go_quickjs.Dtoa.Limbs.Value.{IsLimb, value, limb_power}

-- `mp_add_ui` is the exact sum: the array and the carry that is returned stand for it, and the
-- array is again one of as many limbs.
pub mp_add_ui_exact :
    (xs : List ℕ) (b : ℕ)
    → All IsLimb xs
    → IsLimb b
    → (value (mp_add_ui xs b).tab + (mp_add_ui xs b).out * limb_power (length xs) ≡ value xs + b)
      × All IsLimb (mp_add_ui xs b).tab
      × (length (mp_add_ui xs b).tab ≡ length xs)
      × IsLimb (mp_add_ui xs b).out
unfolding mp_add_ui
mp_add_ui_exact [] b h hb = ground arith
mp_add_ui_exact (x ∷ xs) b (p, h) hb =
    ground (arith, mp_add_ui_exact xs (if ltb ((x + b) % 2 ^ 32) b then 1 else 0) h)

product_fits : (x b l : ℕ) → IsLimb x → IsLimb b → IsLimb l → x * b + l < 2 ^ 64
product_fits x b l hx hb hl = grind arith

-- `mp_mul1` is the exact product with a limb, plus a limb: the array and the carry that is returned
-- stand for it, and the array is again one of as many limbs.
pub mp_mul1_exact :
    (xs : List ℕ) (b l : ℕ)
    → All IsLimb xs
    → IsLimb b
    → IsLimb l
    → (value (mp_mul1 xs b l).tab + (mp_mul1 xs b l).out * limb_power (length xs)
        ≡ value xs * b + l)
      × All IsLimb (mp_mul1 xs b l).tab
      × (length (mp_mul1 xs b l).tab ≡ length xs)
      × IsLimb (mp_mul1 xs b l).out
unfolding mp_mul1
mp_mul1_exact [] b l h hb hl = ground arith
mp_mul1_exact (x ∷ xs) b l (p, h) hb hl =
    ground
      (arith, product_fits x b l p hb hl, mp_mul1_exact xs b ((x * b + l) % 2 ^ 64 / 2 ^ 32) h hb)
