-- ===== src/Dtoa/Power/Exact.antt =====
-- dtoa.c: the powers that `pow_ui` and `pow_ui_inv` compute.
use go_quickjs.Base.{
  ℕ, zero, suc, ◌+◌, ◌-◌, ◌*◌, ◌/◌, ◌%◌, ◌^◌, ◌≤◌, ◌<◌, ◌≡◌, refl, sym, ap, ◌∙◌, arith, bit_and,
  true, ◌==◌, Bool-cases, inl, inr, ==→eq, leb, ◌||◌, ◌&&◌, get_or,
}
use native.Mathlib.Nat.{
  mul-le-mul_right, mul-lt-mul_of_pos_right, pow-suc, pow-zero, one-le-pow, le-div_iff_mul-le,
  div-lt_iff_lt-mul, div-div-eq-div-mul,
}
use go_quickjs.Base.Bits.{and_mask}
use go_quickjs.Base.Powers.{pow-add, pow-one}
use go_quickjs.Base.Tables.{holds_below, holds_below_at}
use go_quickjs.Cutils.Words.{clz32, leading_zeros, leading_zeros_bounds}
use go_quickjs.Dtoa.Power.{pow_by_table, pow_loop, pow_ui, pow_ui_inv, pow5_table, pow5_inv_table}
use go_quickjs.Dtoa.Reciprocal.{udiv1norm_init}
use go_quickjs.Dtoa.Power.Modular.{mod_mul, mod_square}

square_power : (a e : ℕ) → a ^ (e + e) ≡ a ^ e * a ^ e
square_power a e = pow-add a e e

halve : (b i : ℕ) → b / 2 ^ suc i ≡ b / 2 ^ i / 2
halve b i = rw (pow-suc 2 i) (sym (div-div-eq-div-mul b (2 ^ i) 2))

-- Before the round for bit `i` the value is the power by the bits of `b` above it.
pow_loop_exact :
    (i a b e r : ℕ) → r ≡ a ^ e % 2 ^ 64 → e ≡ b / 2 ^ i → pow_loop i a b r ≡ a ^ b % 2 ^ 64
unfolding pow_loop
pow_loop_exact zero a b e r h he = let same : e ≡ b = omega arith in rw (h, same)
pow_loop_exact (suc i) a b e r h he =
    let square : r * r % 2 ^ 64 ≡ a ^ (e + e) % 2 ^ 64 =
      rw (h, square_power a e) (mod_square (a ^ e)) in
    let up = halve b i in
    let bit = and_mask 1 (b / 2 ^ i) in
    elim (Bool-cases (bit_and (b / 2 ^ i) 1 == 1)) [
      | inl t ↦ rw t (
          pow_loop_exact i a b (suc (e + e)) (r * r % 2 ^ 64 * a % 2 ^ 64)
            (rw (square, mod_mul (a ^ (e + e)) a, pow-suc a (e + e)))
            (omega (arith, up, bit, ==→eq _ _ t)))
      | inr f ↦
          rw f (pow_loop_exact i a b (e + e) (r * r % 2 ^ 64) square (ground (arith, up, bit)))
    ]

by_table_5 : holds_below (λ b. pow_by_table 5 b == 5 ^ b % 2 ^ 64 || b == 0) 18 ≡ true
unfolding holds_below pow_by_table
by_table_5 = refl

by_table_10 : holds_below (λ b. pow_by_table 10 b == 10 ^ b % 2 ^ 64 || b == 0) 18 ≡ true
unfolding holds_below pow_by_table
by_table_10 = refl

pow_by_table_exact :
    (a b : ℕ) → (a == 5 || a == 10) ≡ true → 1 ≤ b → b ≤ 17 → pow_by_table a b ≡ a ^ b % 2 ^ 64
pow_by_table_exact a b h lo hi = elim (Bool-cases (a == 5)) [
  | inl e ↦ rw (==→eq a 5 e) (ground (arith, holds_below_at _ 18 b by_table_5))
  | inr f ↦
      let e : a ≡ 10 = ground arith in rw e (ground (arith, holds_below_at _ 18 b by_table_10))
]

top_bit : (b k : ℕ) → 2 ^ k ≤ b → b < 2 ^ suc k → 1 ≡ b / 2 ^ k
top_bit b k lo hi =
    let pos = one-le-pow k 2 (omega arith) in
    let up : b / 2 ^ k < 2 = (div-lt_iff_lt-mul pos).1 (omega (arith, hi, pow-suc 2 k)) in
    let down : 1 ≤ b / 2 ^ k = (le-div_iff_mul-le pos).1 (omega arith) in omega arith

pow_by_loop :
    (a b : ℕ) → a < 2 ^ 32 → 1 ≤ b → b < 2 ^ 32 → pow_loop (32 - clz32 b - 1) a b a ≡ a ^ b % 2 ^ 64
unfolding clz32
pow_by_loop a b ha lo hb =
    let (k, s, below, above) = leading_zeros_bounds 32 b lo hb in
    let rounds : 32 - leading_zeros 32 b - 1 ≡ k = omega (arith, s) in
    rw rounds (pow_loop_exact k a b 1 a (omega (arith, pow-one a)) (top_bit b k below above))

-- `pow_ui` returns `a ^ b` modulo `2 ^ 64`, on every path: the two shortcuts, the tables and the loop.
pub pow_ui_exact : (a b : ℕ) → a < 2 ^ 32 → b < 2 ^ 32 → pow_ui a b ≡ a ^ b % 2 ^ 64
unfolding pow_ui
pow_ui_exact a b ha hb = elim (Bool-cases (b == 0)) [
  | inl e ↦ rw (e, ==→eq b 0 e, pow-zero a)
  | inr p ↦ elim (Bool-cases (b == 1)) [
    | inl e ↦ rw (p, e) (one b (==→eq b 1 e))
    | inr q ↦ elim (Bool-cases ((a == 5 || a == 10) && leb b 17)) [
      | inl t ↦ rw (p, q, t) (pow_by_table_exact a b (ground arith) (ground arith) (ground arith))
      | inr f ↦ rw (p, q, f) (pow_by_loop a b ha (ground arith) hb)
    ]
  ]
]
  where
    one : (c : ℕ) → c ≡ 1 → a ≡ a ^ c % 2 ^ 64
    one c e = rw e (omega (arith, pow-one a))

-- The entries of the tables are the powers of 5, and the reciprocals that `udiv1norm_init` computes.
inverse_table :
    holds_below
      (λ b.
        b == 0
        || (get_or pow5_table (b - 1) 0 == 5 ^ b)
          && (get_or pow5_inv_table (b - 1) 0
              == udiv1norm_init (5 ^ b * 2 ^ clz32 (5 ^ b) % 2 ^ 32)))
      14
    ≡ true
unfolding holds_below udiv1norm_init clz32
inverse_table = refl

table_entry :
    (b : ℕ)
    → 1 ≤ b
    → b ≤ 13
    → (get_or pow5_table (b - 1) 0 ≡ 5 ^ b)
      × (get_or pow5_inv_table (b - 1) 0 ≡ udiv1norm_init (5 ^ b * 2 ^ clz32 (5 ^ b) % 2 ^ 32))
table_entry b lo hi =
    let h = holds_below_at _ 14 b inverse_table (omega arith) in (ground arith, ground arith)

-- Shifting by the leading zeros brings the highest bit to the top.
normalised :
    (r : ℕ)
    → 1 ≤ r
    → r < 2 ^ 32
    → (r * 2 ^ clz32 r % 2 ^ 32 ≡ r * 2 ^ clz32 r)
      × (2 ^ 31 ≤ r * 2 ^ clz32 r)
      × (r * 2 ^ clz32 r < 2 ^ 32)
      × (clz32 r < 32)
unfolding clz32
normalised r lo hi =
    let (k, s, below, above) = leading_zeros_bounds 32 r lo hi in
    let z = leading_zeros 32 r in
    let pos : 0 < 2 ^ z = one-le-pow z 2 (omega arith) in
    let low : 2 ^ k * 2 ^ z ≡ 2 ^ 31 =
      sym (pow-add 2 k z) ∙ (let e : k + z ≡ 31 = omega (arith, s) in ap (λ (t : ℕ). 2 ^ t) e) in
    let high : 2 ^ suc k * 2 ^ z ≡ 2 ^ 32 =
      omega (arith, low, ap (λ (t : ℕ). t * 2 ^ z) (pow-suc 2 k)) in
    let le = mul-le-mul_right (2 ^ z) below in
    let lt = mul-lt-mul_of_pos_right above pos in
    (omega (arith, high, lt), omega (arith, low, le), omega (arith, high, lt), omega (arith, s))

-- When the power is at least 1 and fits 32 bits, `pow_ui_inv` returns it shifted up to its highest
-- bit, with the shift and the reciprocal that `mp_div1norm` wants.
pub pow_ui_inv_exact :
    (a b : ℕ)
    → a < 2 ^ 32
    → b < 2 ^ 32
    → 1 ≤ a ^ b
    → a ^ b < 2 ^ 32
    → ((pow_ui_inv a b).power ≡ a ^ b * 2 ^ (pow_ui_inv a b).shift)
      × (2 ^ 31 ≤ (pow_ui_inv a b).power)
      × ((pow_ui_inv a b).power < 2 ^ 32)
      × ((pow_ui_inv a b).inverse ≡ udiv1norm_init (pow_ui_inv a b).power)
      × ((pow_ui_inv a b).shift < 32)
unfolding pow_ui_inv
pow_ui_inv_exact a b ha hb lo hi =
    let (same, low, high, sh) = normalised (a ^ b) lo hi in
    elim (Bool-cases (a == 5 && leb 1 b && leb b 13)) [
      | inl t ↦
          let five : a ≡ 5 = ground arith in
          let (r, inv) = table_entry b (ground arith) (ground arith) in
          let r' : get_or pow5_table (b - 1) 0 ≡ a ^ b = rw five r in
          let inv' : get_or pow5_inv_table (b - 1) 0 ≡ udiv1norm_init (a ^ b * 2 ^ clz32 (a ^ b)) =
            rw (← same, five) inv in
          rw (t, r', same) (refl, low, high, inv', sh)
      | inr f ↦
          let r : pow_ui a b % 2 ^ 32 ≡ a ^ b = rw (pow_ui_exact a b ha hb) (omega arith) in
          rw (f, r, same) (refl, low, high, refl, sh)
    ]
