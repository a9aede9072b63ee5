-- ===== src/BigInt.antt =====
-- quickjs.c, the BigInt section: integers of any size, as arrays of 64-bit limbs in two's complement.
-- A `JSBigInt` is the list of its `len` limbs, lowest first. The reference counts and the calls that
-- free memory are not modelled.
pub mod Arrays
pub mod Sign
pub mod Normal
pub mod Extend
pub mod Sum
pub mod Multiply
pub mod Left
pub mod Right
pub mod Order
pub mod Complement
pub mod Reciprocal
pub mod Divide
pub mod Divrem
pub mod Text
mod Examples
use go_quickjs.Base.{
  ℕ, zero, suc, ◌+◌, ◌-◌, ◌*◌, ◌/◌, ◌%◌, ◌^◌, bit_and, bit_or, bit_xor, List, [], ◌∷◌, ◌++◌, length,
  get_or, take, drop, ltb, ◌==◌, if◌then◌else◌, Bool, true, false, ◌&&◌, ◌||◌, not,
}
use Prim.Native.Nat.{min, max}
use go_quickjs.Base.Int.{ℤ, pos, negsuc}
use go_quickjs.Dtoa.Limbs.{Limbs, limbs}
use go_quickjs.BigInt.Arrays.{Stored, addc, mp_sub, mp_mul_basecase, mp_shl, mp_shr}

-- A number, or NULL with the exception that was thrown.
pub data Result : Type 0 where
  ok : List ℕ → Result
  range_error out_of_memory : Result

-- The answers of the allocator: whether the `k`-th request of a call, for `n` limbs, is granted.
abbrev pub Grants : Type 0
Grants = ℕ → ℕ → Bool

-- The answers from the `n`-th on.
abbrev pub later : ℕ → Grants → Grants
later n grants k = grants (k + n)

infixl 5 ◌>>=◌
abbrev pub ◌>>=◌ : Result → (List ℕ → Result) → Result
ok r >>= f = f r
range_error >>= f = range_error
out_of_memory >>= f = out_of_memory

-- JS_BIGINT_MAX_SIZE.
abbrev pub max_size : ℕ
max_size = 16384

-- `js_bigint_new` as the `k`-th request, and the limbs that are then written to the new number.
unfoldable pub js_bigint_new : Grants → ℕ → ℕ → List ℕ → Result
js_bigint_new grants k len tab =
    if ltb max_size len then range_error else if grants k len then ok tab else out_of_memory

-- `a` is a limb that holds the signed number.
unfoldable pub js_bigint_new_si : Grants → ℕ → ℕ → Result
unfolding js_bigint_new
js_bigint_new_si grants k a = js_bigint_new grants k 1 (a ∷ [])

unfoldable pub js_bigint_new_ui64 : Grants → ℕ → ℕ → Result
unfolding js_bigint_new js_bigint_new_si
js_bigint_new_ui64 grants k a =
    if ltb a (2 ^ 63) then js_bigint_new_si grants k a else js_bigint_new grants k 2 (a ∷ 0 ∷ [])

-- `a` holds the signed number of 128 bits.
unfoldable pub js_bigint_new_di : Grants → ℕ → ℕ → Result
unfolding js_bigint_new
js_bigint_new_di grants k a =
    if ltb a (2 ^ 63) || ltb (2 ^ 128 - 2 ^ 63 - 1) a
    then js_bigint_new grants k 1 (a % 2 ^ 64 ∷ [])
    else js_bigint_new grants k 2 (a % 2 ^ 64 ∷ a / 2 ^ 64 % 2 ^ 64 ∷ [])

unfoldable pub js_bigint_sign : List ℕ → ℕ
js_bigint_sign a = get_or a (length a - 1) 0 / 2 ^ 63

-- `-js_bigint_sign(a)`, as a limb.
abbrev pub sign_mask : ℕ → ℕ
sign_mask s = (2 ^ 64 - s) % 2 ^ 64

-- The new length: the loop of `js_bigint_normalize1`.
unfoldable pub normal_len : ℕ → List ℕ → ℕ
normal_len zero a = zero
normal_len (suc zero) a = 1
normal_len (suc (suc n)) a =
    let v = get_or a (suc n) 0 in
    let shorter = normal_len (suc n) a in
    if (not (v == 0) && not (v == 2 ^ 64 - 1)) || not (bit_and v 1 == get_or a n 0 / 2 ^ 63)
    then suc (suc n)
    else shorter

unfoldable pub js_bigint_normalize1 : List ℕ → ℕ → List ℕ
unfolding normal_len
js_bigint_normalize1 a l = take (normal_len l a) a

unfoldable pub js_bigint_normalize : List ℕ → List ℕ
unfolding js_bigint_normalize1
js_bigint_normalize a = js_bigint_normalize1 a (length a)

-- Saturated to the short range, as the limb that holds it.
unfoldable pub js_bigint_get_si_sat : List ℕ → ℕ
unfolding js_bigint_sign
js_bigint_get_si_sat a =
    if length a == 1 then get_or a 0 0 else if js_bigint_sign a == 0 then 2 ^ 63 - 1 else 2 ^ 63

-- The request for the longer array is the `k`-th.
unfoldable pub js_bigint_extend : Grants → ℕ → List ℕ → ℕ → Result
unfolding js_bigint_normalize js_bigint_sign
js_bigint_extend grants k r op1 =
    if (not (op1 == 0) && not (op1 == 2 ^ 64 - 1)) || not (bit_and op1 1 == js_bigint_sign r)
    then if grants k (length r + 1) then ok (r ++ (op1 ∷ [])) else out_of_memory
    else ok (js_bigint_normalize r)

-- The three loops of `js_bigint_add`, in order of the limbs: both operands, then the longer one with
-- the sign of the other.
unfoldable pub add_loop : ℕ → ℕ → ℕ → List ℕ → List ℕ → ℕ → Limbs
unfolding addc
add_loop flip a_sign b_sign [] [] k = limbs [] k
add_loop flip a_sign b_sign (x ∷ a) (y ∷ b) k =
    let s = addc x (bit_xor y flip) k in
    let rest = add_loop flip a_sign b_sign a b s.carry in limbs (s.limb ∷ rest.tab) rest.out
add_loop flip a_sign b_sign (x ∷ a) [] k =
    let s = addc x b_sign k in
    let rest = add_loop flip a_sign b_sign a [] s.carry in limbs (s.limb ∷ rest.tab) rest.out
add_loop flip a_sign b_sign [] (y ∷ b) k =
    let s = addc a_sign (bit_xor y flip) k in
    let rest = add_loop flip a_sign b_sign [] b s.carry in limbs (s.limb ∷ rest.tab) rest.out

-- `b_neg` is 0 for the sum and 1 for the difference.
unfoldable pub js_bigint_add : Grants → List ℕ → List ℕ → ℕ → Result
js_bigint_add grants a b b_neg =
    let flip = sign_mask b_neg in
    let a_sign = sign_mask (js_bigint_sign a) in
    let b_sign = bit_xor (sign_mask (js_bigint_sign b)) flip in
    let sum = add_loop flip a_sign b_sign a b b_neg in
    js_bigint_new grants 0 (max (length a) (length b)) sum.tab >>= λ r.
    js_bigint_extend grants 1 r ((a_sign + b_sign + sum.out) % 2 ^ 64)

unfoldable pub js_bigint_neg : Grants → List ℕ → Result
js_bigint_neg grants a = js_bigint_add grants (0 ∷ []) a 1

-- `mp_sub(r + n, r + n, b, b_len, 0)`, when `negative`.
unfoldable pub sub_high : Bool → List ℕ → ℕ → List ℕ → List ℕ
unfolding mp_sub
sub_high negative r n b = if negative then take n r ++ (mp_sub (drop n r) b 0).tab else r

unfoldable pub js_bigint_mul : Grants → List ℕ → List ℕ → Result
js_bigint_mul grants a b =
    let r0 = mp_mul_basecase a b in
    let r1 = sub_high (js_bigint_sign a == 1) r0 (length a) b in
    let r2 = sub_high (js_bigint_sign b == 1) r1 (length b) a in
    js_bigint_new grants 0 (length a + length b) (js_bigint_normalize r2)

pub data LogicOp : Type 0 where
  op_or op_and op_xor : LogicOp

abbrev pub logic : LogicOp → ℕ → ℕ → ℕ
logic op_or x y = bit_or x y
logic op_and x y = bit_and x y
logic op_xor x y = bit_xor x y

-- The loops of `js_bigint_logic`: both operands, then the longer one with the sign of the other.
unfoldable pub logic_loop : LogicOp → ℕ → List ℕ → List ℕ → List ℕ
logic_loop op b_sign [] b = []
logic_loop op b_sign (x ∷ a) [] = logic op x b_sign ∷ logic_loop op b_sign a []
logic_loop op b_sign (x ∷ a) (y ∷ b) = logic op x y ∷ logic_loop op b_sign a b

unfoldable pub logic_ordered : Grants → List ℕ → List ℕ → LogicOp → Result
logic_ordered grants a b op =
    js_bigint_new grants 0 (length a)
      (js_bigint_normalize (logic_loop op (sign_mask (js_bigint_sign b)) a b))

unfoldable pub js_bigint_logic : Grants → List ℕ → List ℕ → LogicOp → Result
unfolding logic_ordered
js_bigint_logic grants a b op =
    if ltb (length a) (length b) then logic_ordered grants b a op else logic_ordered grants a b op

abbrev pub complement : List ℕ → List ℕ
complement [] = []
complement (x ∷ a) = (2 ^ 64 - 1 - x) ∷ complement a

unfoldable pub js_bigint_not : Grants → List ℕ → Result
js_bigint_not grants a = js_bigint_new grants 0 (length a) (complement a)

abbrev pub zeros : ℕ → List ℕ
zeros zero = []
zeros (suc n) = 0 ∷ zeros n

abbrev pub is_zero : List ℕ → Bool
is_zero a = length a == 1 && get_or a 0 0 == 0

unfoldable pub js_bigint_shl : Grants → List ℕ → ℕ → Result
js_bigint_shl grants a shift1 =
    let d = shift1 / 64 in
    let shift = shift1 % 64 in
    let up = mp_shl a shift 0 in
    let l =
      if js_bigint_sign a == 0 then up.out else bit_or up.out ((2 ^ 64 - 1) * 2 ^ shift % 2 ^ 64) in
    if is_zero a
    then js_bigint_new_si grants 0 0
    else if shift == 0
    then js_bigint_new grants 0 (length a + d) (zeros d ++ a)
    else (js_bigint_new grants 0 (length a + d) (zeros d ++ up.tab) >>= λ r.
        js_bigint_extend grants 1 r l)

unfoldable pub js_bigint_shr : Grants → List ℕ → ℕ → Result
js_bigint_shr grants a shift1 =
    let d = shift1 / 64 in
    let shift = shift1 % 64 in
    let mask = sign_mask (js_bigint_sign a) in
    let high = drop d a in
    if ltb d (length a)
    then (if shift == 0
        then js_bigint_new grants 0 (length high) high
        else js_bigint_new grants 0 (length high)
            (js_bigint_normalize (mp_shr high shift mask).tab))
    else js_bigint_new_si grants 0 mask

-- The loop of `js_bigint_cmp` from the highest limb down, on arrays of one length.
unfoldable pub cmp_limbs : List ℕ → List ℕ → ℤ
cmp_limbs [] b = pos 0
cmp_limbs (x ∷ a) [] = pos 0
cmp_limbs (x ∷ a) (y ∷ b) =
    let here = if x == y then pos 0 else if ltb x y then negsuc 0 else pos 1 in
    elim (cmp_limbs a b) [ pos zero ↦ here | pos (suc n) ↦ pos (suc n) | negsuc n ↦ negsuc n ]

-- -1 when `negative`, and 1 otherwise.
abbrev pub signed_one : Bool → ℤ
signed_one negative = if negative then negsuc 0 else pos 1

unfoldable pub js_bigint_cmp : List ℕ → List ℕ → ℤ
unfolding js_bigint_sign cmp_limbs
js_bigint_cmp a b =
    let a_sign = js_bigint_sign a in
    if not (a_sign == js_bigint_sign b)
    then signed_one (a_sign == 1)
    else if ltb (length a) (length b)
    then signed_one (a_sign == 0)
    else if ltb (length b) (length a)
    then signed_one (a_sign == 1)
    else cmp_limbs a b
