-- ===== src/BigInt/Arrays.antt =====
-- quickjs.c, the `mp_` functions of the BigInt section: arrays of 64-bit limbs, lowest limb first
-- (JS_LIMB_BITS is 64). A function returns the array that it writes with its C result.
pub mod Value
pub mod Linear
pub mod Product
pub mod Shift
pub mod Divide
use go_quickjs.Base.{
  ℕ, zero, suc, ◌+◌, ◌-◌, ◌*◌, ◌/◌, ◌%◌, ◌^◌, bit_and, bit_or, List, [], ◌∷◌, ◌++◌, ltb,
  if◌then◌else◌,
}
use go_quickjs.Dtoa.Limbs.{Limbs, limbs}

-- A limb that is stored, and the carry that goes on.
pub record Stored : Type 0 where
  pub limb : ℕ
  pub carry : ℕ

-- `a < b` as a limb.
abbrev pub less : ℕ → ℕ → ℕ
less a b = if ltb a b then 1 else 0

-- The macro ADDC.
unfoldable pub addc : ℕ → ℕ → ℕ → Stored
addc op1 op2 k =
    let a = (op1 + op2) % 2 ^ 64 in
    let r = (a + k) % 2 ^ 64 in record { limb = r; carry = bit_or (less r k) (less a op1) }

unfoldable pub mp_add : List ℕ → List ℕ → ℕ → Limbs
unfolding addc
mp_add [] b k = limbs [] k
mp_add (x ∷ a) [] k = limbs [] k
mp_add (x ∷ a) (y ∷ b) k =
    let s = addc x y k in let rest = mp_add a b s.carry in limbs (s.limb ∷ rest.tab) rest.out

-- One round of the loop of `mp_sub`.
unfoldable pub subc : ℕ → ℕ → ℕ → Stored
subc op1 op2 k =
    let a = (op1 + 2 ^ 64 - op2) % 2 ^ 64 in
    let r = (a + 2 ^ 64 - k) % 2 ^ 64 in record { limb = r; carry = bit_or (less a r) (less op1 a) }

unfoldable pub mp_sub : List ℕ → List ℕ → ℕ → Limbs
unfolding subc
mp_sub [] b k = limbs [] k
mp_sub (x ∷ a) [] k = limbs [] k
mp_sub (x ∷ a) (y ∷ b) k =
    let s = subc x y k in let rest = mp_sub a b s.carry in limbs (s.limb ∷ rest.tab) rest.out

-- The loop of `mp_neg`, with the carry so far.
unfoldable pub neg_loop : List ℕ → ℕ → Limbs
neg_loop [] k = limbs [] k
neg_loop (x ∷ a) k =
    let v = (2 ^ 64 - 1 - x + k) % 2 ^ 64 in
    let rest = neg_loop a (less v k) in limbs (v ∷ rest.tab) rest.out

unfoldable pub mp_neg : List ℕ → Limbs
unfolding neg_loop
mp_neg a = neg_loop a 1

-- `t` is a `js_dlimb_t`, of 128 bits.
unfoldable pub mp_mul1 : List ℕ → ℕ → ℕ → Limbs
mp_mul1 [] b l = limbs [] l
mp_mul1 (x ∷ a) b l =
    let t = (x * b + l) % 2 ^ 128 in
    let rest = mp_mul1 a b (t / 2 ^ 64) in limbs (t % 2 ^ 64 ∷ rest.tab) rest.out

-- The loop goes down from the highest limb; `r` is the remainder so far.
unfoldable pub mp_div1 : List ℕ → ℕ → ℕ → Limbs
mp_div1 [] b r = limbs [] r
mp_div1 (x ∷ a) b r =
    let high = mp_div1 a b r in
    let a1 = bit_or (high.out * 2 ^ 64) x in limbs (a1 / b % 2 ^ 64 ∷ high.tab) (a1 % b)

-- `tabr` has as many limbs as `taba`; `l` is the carry so far, 0 at first.
unfoldable pub mp_add_mul1 : List ℕ → List ℕ → ℕ → ℕ → Limbs
mp_add_mul1 [] a b l = limbs [] l
mp_add_mul1 (r ∷ tabr) [] b l = limbs [] l
mp_add_mul1 (r ∷ tabr) (x ∷ a) b l =
    let t = (x * b + l + r) % 2 ^ 128 in
    let rest = mp_add_mul1 tabr a b (t / 2 ^ 64) in limbs (t % 2 ^ 64 ∷ rest.tab) rest.out

-- `l` is what is to be subtracted from the limb above, 0 at first.
unfoldable pub mp_sub_mul1 : List ℕ → List ℕ → ℕ → ℕ → Limbs
mp_sub_mul1 [] a b l = limbs [] l
mp_sub_mul1 (r ∷ tabr) [] b l = limbs [] l
mp_sub_mul1 (r ∷ tabr) (x ∷ a) b l =
    let t = (r + 2 * 2 ^ 128 - x * b - l) % 2 ^ 128 in
    let rest = mp_sub_mul1 tabr a b ((2 ^ 64 - t / 2 ^ 64) % 2 ^ 64) in
    limbs (t % 2 ^ 64 ∷ rest.tab) rest.out

-- The rounds of `mp_mul_basecase` from `i` on: the first list is `result[i - 1 .. i - 1 + op1_size]`,
-- of which the first limb is final.
unfoldable pub mul_rows : List ℕ → List ℕ → List ℕ → List ℕ
unfolding mp_add_mul1
mul_rows window op1 [] = window
mul_rows [] op1 (y ∷ op2) = []
mul_rows (x ∷ window) op1 (y ∷ op2) =
    let r = mp_add_mul1 window op1 y 0 in x ∷ mul_rows (r.tab ++ (r.out ∷ [])) op1 op2

-- `op2` has at least one limb.
unfoldable pub mp_mul_basecase : List ℕ → List ℕ → List ℕ
unfolding mp_mul1 mul_rows
mp_mul_basecase op1 [] = []
mp_mul_basecase op1 (y ∷ op2) = let r = mp_mul1 op1 y 0 in mul_rows (r.tab ++ (r.out ∷ [])) op1 op2

-- The shift is between 1 and 63.
unfoldable pub mp_shl : List ℕ → ℕ → ℕ → Limbs
mp_shl [] shift l = limbs [] l
mp_shl (x ∷ a) shift l =
    let rest = mp_shl a shift (x / 2 ^ (64 - shift)) in
    limbs (bit_or (x * 2 ^ shift % 2 ^ 64) l ∷ rest.tab) rest.out

-- The loop of `mp_shr`; the result is the last limb that was read.
unfoldable pub mp_shr_loop : List ℕ → ℕ → ℕ → Limbs
mp_shr_loop [] shift l = limbs [] l
mp_shr_loop (x ∷ a) shift l =
    let high = mp_shr_loop a shift l in
    limbs (bit_or (x / 2 ^ shift) (high.out * 2 ^ (64 - shift) % 2 ^ 64) ∷ high.tab) x

unfoldable pub mp_shr : List ℕ → ℕ → ℕ → Limbs
unfolding mp_shr_loop
mp_shr a shift high =
    let r = mp_shr_loop a shift high in limbs r.tab (bit_and r.out (2 ^ shift - 1))
