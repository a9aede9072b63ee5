-- ===== src/BigInt/Divide.antt =====
-- quickjs.c, `mp_divnorm`: the division of arrays by the school method, with a first quotient for
-- each limb that is corrected afterwards. The highest bit of the divisor is set.
pub mod One
pub mod Long
use go_quickjs.Base.{
  ℕ, zero, suc, ◌+◌, ◌-◌, ◌*◌, ◌/◌, ◌%◌, ◌^◌, List, [], ◌∷◌, ◌++◌, length, get_or, take, drop, leb,
  ltb, ◌==◌, if◌then◌else◌, bit_or, Bool, true, false, ◌&&◌, not,
}
use go_quickjs.Base.Int.{pos, negsuc}
use go_quickjs.BigInt.{cmp_limbs}
use go_quickjs.BigInt.Arrays.{mp_add, mp_sub, mp_sub_mul1}
use go_quickjs.BigInt.Reciprocal.{udiv1norm_init, udiv1norm, mp_div1norm, threshold}

-- The limbs of the quotient that are written, and the remainder that is left in `taba`.
pub record Quotients : Type 0 where
  pub quotient : List ℕ
  pub rest : List ℕ

-- A limb of the quotient, and the limbs that are left of the `nb + 1` that were looked at, the
-- highest apart.
pub record Step : Type 0 where
  pub limb : ℕ
  pub low : List ℕ
  pub top : ℕ

-- The loop that corrects a negative result. It leaves at the latest when `q` is 0, which is no case
-- of the code: there the loop has left before.
unfoldable pub add_back : ℕ → List ℕ → ℕ → List ℕ → Step
unfolding mp_add
add_back zero low top tabb = record { limb = zero; low = low; top = top }
add_back (suc q) low top tabb =
    let s = mp_add low tabb 0 in
    let top1 = if s.out == 0 then top else (top + 1) % 2 ^ 64 in
    elim (not (s.out == 0) && top1 == 0) [
      | true ↦ record { limb = q; low = s.tab; top = top1 }
      | false ↦ add_back q s.tab top1 tabb
    ]

-- The first quotient for the limbs `top` and `next`; `b1_inv` is 0 when the array is short.
unfoldable pub trial : ℕ → ℕ → ℕ → ℕ → ℕ
trial top next b1 b1_inv =
    if leb b1 top
    then 2 ^ 64 - 1
    else if not (b1_inv == 0)
    then (udiv1norm top next b1 b1_inv).quotient
    else bit_or (top * 2 ^ 64) next / b1 % 2 ^ 64

-- The body of the last loop, on the limbs `taba[i .. i + nb - 1]` and `taba[i + nb]`.
unfoldable pub divide_limb : List ℕ → ℕ → List ℕ → ℕ → Step
unfolding add_back trial mp_sub_mul1
divide_limb low v tabb b1_inv =
    let b1 = get_or tabb (length tabb - 1) 0 in
    let q = trial v (get_or low (length tabb - 1) 0) b1 b1_inv in
    let s = mp_sub_mul1 low tabb q 0 in
    let a = (v + 2 ^ 64 - s.out) % 2 ^ 64 in
    if ltb v a then add_back q s.tab a tabb else record { limb = q; low = s.tab; top = a }

-- The last loop, down from the highest limb: the array is `taba[0 .. n - 1]`, and `high` the `nb`
-- limbs above it.
unfoldable pub divide_loop : List ℕ → List ℕ → List ℕ → ℕ → Quotients
unfolding divide_limb
divide_loop [] high tabb b1_inv = record { quotient = []; rest = high }
divide_loop (x ∷ taba) high tabb b1_inv =
    let above = divide_loop taba high tabb b1_inv in
    let s =
      divide_limb (x ∷ take (length tabb - 1) above.rest) (get_or above.rest (length tabb - 1) 0)
        tabb b1_inv in
    record { quotient = s.limb ∷ above.quotient; rest = s.low }

-- The first iteration: the quotient is only 0 or 1.
unfoldable pub first_limb : List ℕ → List ℕ → ℕ
unfolding cmp_limbs
first_limb high tabb = elim (cmp_limbs high tabb) [ pos n ↦ 1 | negsuc n ↦ 0 ]

-- `taba` has at least as many limbs as `tabb`.
unfoldable pub mp_divnorm : List ℕ → List ℕ → Quotients
unfolding mp_div1norm divide_loop first_limb mp_sub
mp_divnorm taba tabb =
    let nb = length tabb in
    let n = length taba - nb in
    let b1 = get_or tabb (nb - 1) 0 in
    let b1_inv = if leb threshold n then udiv1norm_init b1 else 0 in
    let high = drop n taba in
    let q = first_limb high tabb in
    let single = mp_div1norm taba b1 0 in
    let long =
      divide_loop (take n taba) (if q == 0 then high else (mp_sub high tabb 0).tab) tabb b1_inv in
    if nb == 1
    then record { quotient = single.tab; rest = single.out ∷ [] }
    else record { quotient = long.quotient ++ (q ∷ []); rest = long.rest }
