-- ===== src/BigInt/Divrem.antt =====
-- quickjs.c, `js_bigint_divrem`: the division of numbers with their signs.
pub mod Scale
pub mod Signed
pub mod Exact
use go_quickjs.Base.{
  ℕ, zero, suc, ◌+◌, ◌-◌, ◌*◌, ◌/◌, ◌^◌, List, [], ◌∷◌, ◌++◌, length, get_or, take, ltb, ◌==◌,
  if◌then◌else◌, bit_xor, Bool, true, false, not,
}
use go_quickjs.Cutils.Words.{clz64}
use go_quickjs.BigInt.{
  js_bigint_sign, js_bigint_new, js_bigint_new_si, js_bigint_normalize, Grants, Result, range_error,
  out_of_memory, ◌>>=◌, is_zero,
}
use go_quickjs.BigInt.Arrays.{mp_neg, mp_shl, mp_shr}
use go_quickjs.BigInt.Divide.{mp_divnorm}

-- The limbs as they are, or `mp_neg` of them.
unfoldable pub negate_if : Bool → List ℕ → List ℕ
unfolding mp_neg
negate_if minus a = if minus then (mp_neg a).tab else a

-- The loops that normalize: without the zeros on top, but for the last limb.
unfoldable pub strip_len : ℕ → List ℕ → ℕ
strip_len zero a = zero
strip_len (suc zero) a = 1
strip_len (suc (suc n)) a =
    let shorter = strip_len (suc n) a in if get_or a (suc n) 0 == 0 then shorter else suc (suc n)

unfoldable pub strip : List ℕ → List ℕ
unfolding strip_len
strip a = take (strip_len (length a) a) a

-- `mp_shl` of the divisor, and of the dividend, which may take one more limb.
unfoldable pub scale_divisor : List ℕ → ℕ → List ℕ
unfolding mp_shl
scale_divisor tabb shift = if shift == 0 then tabb else (mp_shl tabb shift 0).tab

unfoldable pub scale_dividend : List ℕ → ℕ → List ℕ
unfolding mp_shl
scale_dividend r shift =
    let up = mp_shl r shift 0 in
    if shift == 0 then r else if up.out == 0 then up.tab else up.tab ++ (up.out ∷ [])

unfoldable pub unscale_rest : List ℕ → ℕ → List ℕ
unfolding mp_shr
unscale_rest r shift = if shift == 0 then r else (mp_shr r shift 0).tab

-- From the trivial case on, `r` and `tabb` are the operands without their signs.
unfoldable pub divide_positive : Grants → List ℕ → List ℕ → List ℕ → List ℕ → Bool → Result
unfolding scale_divisor scale_dividend unscale_rest negate_if
divide_positive grants a b r tabb is_rem =
    let a_sign = js_bigint_sign a in
    let b_sign = js_bigint_sign b in
    let shift = clz64 (get_or tabb (length tabb - 1) 0) in
    let r1 = scale_dividend r shift in
    let tabb1 = scale_divisor tabb shift in
    let d = mp_divnorm r1 tabb1 in
    let quotient = negate_if (not (bit_xor a_sign b_sign == 0)) (d.quotient ++ (0 ∷ [])) in
    let rest = negate_if (not (a_sign == 0)) (unscale_rest d.rest shift ++ (0 ∷ [])) in
    if ltb (length r) (length tabb)
    then (if is_rem then js_bigint_new grants 2 (length a) a else js_bigint_new_si grants 2 0)
    else js_bigint_new grants 2 (length r1 - length tabb + 2)
        (js_bigint_normalize (if is_rem then rest else quotient))

-- The quotient or, with `is_rem`, the remainder. The requests are for the dividend, the divisor and
-- then the quotient or the result of the trivial case.
unfoldable pub js_bigint_divrem : Grants → List ℕ → List ℕ → Bool → Result
unfolding divide_positive strip negate_if
js_bigint_divrem grants a b is_rem =
    let tabb = strip (negate_if (not (js_bigint_sign b == 0)) b) in
    if is_zero b
    then range_error
    else (js_bigint_new grants 0 (length a + 2) (negate_if (not (js_bigint_sign a == 0)) a) >>= λ r.
        if grants 1 (length b)
        then divide_positive grants a b (strip r) tabb is_rem
        else out_of_memory)
