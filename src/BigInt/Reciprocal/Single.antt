-- ===== src/BigInt/Reciprocal/Single.antt =====
-- quickjs.c: `mp_div1norm`, with the reciprocal and without.
use go_quickjs.Base.{
  ℕ, ◌+◌, ◌*◌, ◌<◌, ◌≡◌, refl, List, [], ◌∷◌, length, All, inl, inr, leb, Bool-cases,
}
use native.Mathlib.Nat.{mod-eq_of_lt}
use go_quickjs.Base.Bits.{or_high_low}
use go_quickjs.Dtoa.Limbs.{Limbs}
use go_quickjs.BigInt.Arrays.{mp_div1}
use go_quickjs.BigInt.Arrays.Value.{IsLimb, value, limb_power}
use go_quickjs.BigInt.Arrays.Divide.{mp_div1_exact64, long_division_step}
use go_quickjs.BigInt.Reciprocal.{udiv1norm_init, div1norm_loop, mp_div1norm, threshold}
use go_quickjs.BigInt.Reciprocal.Quotient.{IsNormal, udiv1norm_exact64}

-- The loop computes what `mp_div1` computes.
div1norm_loop-mp_div1 :
    (xs : List ℕ) (b r : ℕ)
    → IsNormal b
    → All IsLimb xs
    → r < b
    → div1norm_loop xs b r (udiv1norm_init b) ≡ mp_div1 xs b r
unfolding div1norm_loop mp_div1
div1norm_loop-mp_div1 [] b r n h hr = refl
div1norm_loop-mp_div1 (x ∷ xs) b r (lo, hi) (p, h) hr =
    let (e, small, ok, len) = mp_div1_exact64 xs b r h hr in
    let o = (mp_div1 xs b r).out in
    rw (
      div1norm_loop-mp_div1 xs b r (lo, hi) h hr,
      or_high_low 64 o x p,
      udiv1norm_exact64 b o x lo hi small p,
      mod-eq_of_lt (long_division_step b o x small p).2,
    )

-- What a division of `r * 2 ^ (64 * n) + value xs` by `b` must return.
pub record Divides (xs : List ℕ) (b r : ℕ) (result : Limbs) : Type 0 where
  pub exact : value result.tab * b + result.out ≡ r * limb_power (length xs) + value xs
  pub small : result.out < b
  pub limbs_ok : All IsLimb result.tab
  pub same_length : length result.tab ≡ length xs

-- By a limb of which the highest bit is set, `mp_div1norm` is the exact division, also where it goes
-- by the reciprocal.
pub mp_div1norm_exact64 :
    (xs : List ℕ) (b r : ℕ)
    → IsNormal b
    → All IsLimb xs
    → r < b
    → Divides xs b r (mp_div1norm xs b r)
unfolding mp_div1norm
mp_div1norm_exact64 xs b r n h hr =
    let (e, small, ok, len) = mp_div1_exact64 xs b r h hr in
    let d : Divides xs b r (mp_div1 xs b r) = record {
      exact = e;
      small = small;
      limbs_ok = ok;
      same_length = len;
    } in
    elim (Bool-cases (leb threshold (length xs))) [
      | inl t ↦ rw (t, div1norm_loop-mp_div1 xs b r n h hr) d
      | inr t ↦ rw t d
    ]
