-- ===== src/Dtoa/Examples.antt =====
-- dtoa.c: concrete runs, and the theorems at concrete inputs.
mod Text
use go_quickjs.Base.{
  ℕ, ◌+◌, ◌*◌, ◌/◌, ◌%◌, ◌^◌, ◌≤◌, ◌<◌, ◌≡◌, ◌≢◌, ◌↔◌, ◌⊎◌, inr, ◌-◌, suc, zero, refl, arith, List,
  [], ◌∷◌, length, All, get_or,
}
use go_quickjs.Base.Int.{pos, negsuc}
use go_quickjs.Dtoa.Limbs.{Limbs, mp_add_ui, mp_mul1, mp_div1, mp_shr, mp_shr_loop, mp_shl}
use go_quickjs.Dtoa.Limbs.Value.{IsLimb, value, limb_power}
use go_quickjs.Dtoa.Limbs.AddMul.{mp_add_ui_exact, mp_mul1_exact}
use go_quickjs.Dtoa.Limbs.Divide.{mp_div1_exact}
use go_quickjs.Dtoa.Limbs.Shift.{mp_shl_exact, mp_shr_exact}
use go_quickjs.Dtoa.Reciprocal.{
  udiv1norm_init, udiv1norm, udiv1norm_estimate, udiv1norm_correct, sign_mask, mp_div1norm,
}
use go_quickjs.Dtoa.Reciprocal.Quotient.{division, udiv1norm_exact}
use go_quickjs.Dtoa.Reciprocal.Array.{Divides, mp_div1norm_exact}
use go_quickjs.Dtoa.Power.{pow_ui, pow_ui_inv}
use go_quickjs.Dtoa.Power.Exact.{pow_ui_exact, pow_ui_inv_exact}
use go_quickjs.Dtoa.Big.{
  mpb_renorm, mpb_get_bit, sticky, rndn, rndna, rndz, mpb_shr_round, mpb_shift_right, round_up,
  or_limbs, increment, renorm_len,
}
use go_quickjs.Dtoa.Big.Length.{mpb_renorm_exact}
use go_quickjs.Dtoa.Big.Bits.{mpb_get_bit_exact}
use go_quickjs.Dtoa.Big.Sticky.{sticky-eq-zero}
use go_quickjs.Dtoa.Big.Round.{Rounds, mpb_shr_round_exact}
use go_quickjs.Dtoa.Compare.{mpb_cmp, mpb_get_u64, mpb_set_u64, mpb_floor_log2}
use go_quickjs.Dtoa.Compare.Exact.{IsRenormed, Orders, mpb_cmp_exact, mpb_get_u64-mpb_set_u64}
use go_quickjs.Dtoa.Compare.Log.{mpb_floor_log2_exact}

-- 5 * 2 ^ 32 + 0xffffffff.
abbrev sample : List ℕ
sample = 0xffff_ffff ∷ 5 ∷ []

sample_limbs : All IsLimb sample
sample_limbs = (omega arith, (omega arith, tt))

sample_plus_one : mp_add_ui sample 1 ≡ record { tab = 0 ∷ 6 ∷ []; out = 0 }
unfolding mp_add_ui
sample_plus_one = refl

-- A tie goes to the even neighbour: 5 / 2 is 2, and 7 / 2 is 4.
tie_down : mpb_shr_round (5 ∷ []) (pos 1) rndn ≡ 2 ∷ []
unfolding mpb_shr_round mpb_shift_right round_up mpb_get_bit sticky or_limbs increment mpb_renorm
    renorm_len mp_shr mp_shr_loop mp_add_ui
tie_down = refl

tie_up : mpb_shr_round (7 ∷ []) (pos 1) rndn ≡ 4 ∷ []
unfolding mpb_shr_round mpb_shift_right round_up mpb_get_bit sticky or_limbs increment mpb_renorm
    renorm_len mp_shr mp_shr_loop mp_add_ui
tie_up = refl

udiv1norm_exact_example :
    udiv1norm 7 9 0x80000001 (udiv1norm_init 0x80000001)
    ≡ division ((7 * 2 ^ 32 + 9) / 0x80000001) ((7 * 2 ^ 32 + 9) % 0x80000001)
udiv1norm_exact_example =
    udiv1norm_exact 0x80000001 7 9 (omega arith) (omega arith) (omega arith) (omega arith)

mp_div1norm_exact_example :
    Divides sample 10 3 (mp_div1norm sample (10 * 2 ^ 28) 3 (udiv1norm_init (10 * 2 ^ 28)) 28)
mp_div1norm_exact_example =
    mp_div1norm_exact sample 10 3 28 (omega arith, omega arith) (omega arith) sample_limbs
      (omega arith)

pow_ui_exact_example : pow_ui 7 20 ≡ 7 ^ 20 % 2 ^ 64
pow_ui_exact_example = pow_ui_exact 7 20 (omega arith) (omega arith)

pow_ui_inv_exact_example :
    ((pow_ui_inv 5 9).power ≡ 5 ^ 9 * 2 ^ (pow_ui_inv 5 9).shift)
    × (2 ^ 31 ≤ (pow_ui_inv 5 9).power)
    × ((pow_ui_inv 5 9).power < 2 ^ 32)
    × ((pow_ui_inv 5 9).inverse ≡ udiv1norm_init (pow_ui_inv 5 9).power)
    × ((pow_ui_inv 5 9).shift < 32)
pow_ui_inv_exact_example =
    pow_ui_inv_exact 5 9 (omega arith) (omega arith) (omega arith) (omega arith)

mpb_shr_round_exact_example :
    Rounds rndn (value sample) (2 ^ 35) (value (mpb_shr_round sample (pos 35) rndn))
    × (value (mpb_shr_round sample (negsuc 34) rndn) ≡ value sample * 2 ^ 35)
    × (value (mpb_shr_round sample (pos 0) rndn) ≡ value sample)
mpb_shr_round_exact_example = mpb_shr_round_exact sample 34 rndn sample_limbs (omega arith)

sample-IsRenormed : IsRenormed sample
sample-IsRenormed = record {
  limbs_ok = sample_limbs;
  nonempty = omega arith;
  top = inr (λ e. ground arith);
}
