-- ===== src/BigInt/Sign.antt =====
-- quickjs.c: the number that a `JSBigInt` stands for, and its sign.
use go_quickjs.Base.{
  false, ℕ, zero, suc, ◌+◌, ◌-◌, ◌*◌, ◌/◌, ◌^◌, ◌≤◌, ◌<◌, ◌≡◌, ◌⊎◌, inl, inr, refl, sym, ap, arith,
  List, [], ◌∷◌, ◌++◌, length, get_or, All,
}
use native.Mathlib.Nat.{mul-le-mul_left}
use native.Mathlib.Decide.{dec_lt}
use go_quickjs.Base.Int.{ℤ, pos_part, neg_part, sub_ℕ, sub_ℕ_parts, eq_of_parts}
use go_quickjs.BigInt.{js_bigint_sign, Grants, max_size, Result, ok, range_error, out_of_memory}
use go_quickjs.BigInt.Arrays.Value.{IsLimb, value, limb_power, value-lt}

-- Two's complement: the highest bit stands for its negated power.
abbrev pub to_int : List ℕ → ℤ
to_int a = sub_ℕ (value a) (js_bigint_sign a * limb_power (length a))

-- The array stands for `p - n`.
abbrev pub Means : List ℕ → ℕ → ℕ → Type 0
Means a p n = value a + n ≡ p + js_bigint_sign a * limb_power (length a)

pub to_int-Means : (a : List ℕ) → Means a (pos_part (to_int a)) (neg_part (to_int a))
to_int-Means a = omega (arith, sub_ℕ_parts (value a) (js_bigint_sign a * limb_power (length a)))

pub Means-to_int : (a : List ℕ) (v : ℤ) → Means a (pos_part v) (neg_part v) → to_int a ≡ v
Means-to_int a v m =
    eq_of_parts (to_int a) v
      (omega (arith, m, sub_ℕ_parts (value a) (js_bigint_sign a * limb_power (length a))))

-- The highest limb is not what the sign of the limb below it gives already.
abbrev pub Needed : List ℕ → Type 0
Needed a =
    ¬ ((get_or a (length a - 1) 0 ≡ 0) × (get_or a (length a - 2) 0 < 2 ^ 63))
    × ¬ ((get_or a (length a - 1) 0 ≡ 2 ^ 64 - 1) × (2 ^ 63 ≤ get_or a (length a - 2) 0))

-- A `JSBigInt` of the least length.
pub record IsBigInt (a : List ℕ) : Type 0 where
  pub limbs_ok : All IsLimb a
  pub nonempty : 1 ≤ length a
  pub least : (length a ≡ 1) ⊎ Needed a

-- A number of the least length that stands for `v`; or the RangeError, for a number of more than
-- `max_size` limbs; or no memory, when a request is not granted.
abbrev pub Yields : Grants → ℕ → ℤ → Result → Type 0
Yields grants len v (ok r) = IsBigInt r × (to_int r ≡ v)
Yields grants len v range_error = max_size < len
Yields grants len v out_of_memory = (k : ℕ) × (n : ℕ) × (grants k n ≡ false)

pub single_or_more : (m : ℕ) → 1 ≤ m → (m ≡ 1) ⊎ (2 ≤ m)
single_or_more zero h = absurd (omega arith)
single_or_more (suc zero) h = inl refl
single_or_more (suc (suc m)) h = inr (omega arith)

-- Below a highest limb.
pub highest_part :
    (a : List ℕ)
    → 1 ≤ length a
    → All IsLimb a
    → (low : ℕ) × (value a ≡ low + limb_power (length a - 1) * get_or a (length a - 1) 0)
      × (low < limb_power (length a - 1))
      × IsLimb (get_or a (length a - 1) 0)
      × (limb_power (length a) ≡ 2 ^ 64 * limb_power (length a - 1))
highest_part [] h hl = absurd (omega arith)
highest_part (x ∷ []) h (p, hl) = (0, omega arith, omega arith, p, omega arith)
highest_part (x ∷ y ∷ a) h (p, hl) =
    let (low, e, lt, q, w) = highest_part (y ∷ a) (omega arith) hl in
    let n : length (x ∷ y ∷ a) - 1 ≡ suc (length (y ∷ a) - 1) = omega arith in
    rw n (x + 2 ^ 64 * low, omega (arith, e), omega (arith, lt, p), q, omega (arith, w))

-- The same, when the length is known as `n`.
pub highest_part_at :
    (a : List ℕ) (n : ℕ)
    → length a ≡ n
    → 1 ≤ n
    → All IsLimb a
    → (low : ℕ) × (value a ≡ low + limb_power (n - 1) * get_or a (n - 1) 0)
      × (low < limb_power (n - 1))
      × IsLimb (get_or a (n - 1) 0)
highest_part_at a n e h hl =
    let (low, v, lt, limb_ok, p) = highest_part a (omega (arith, e, h)) hl in
    rw (sym e) (low, v, lt, limb_ok)

pub sign-lt : (a : List ℕ) → 1 ≤ length a → All IsLimb a → js_bigint_sign a < 2
unfolding js_bigint_sign
sign-lt a h hl = let (low, e, lt, q, w) = highest_part a h hl in omega (arith, q)

-- The sign is the highest bit.
pub sign_bounds :
    (a : List ℕ)
    → 1 ≤ length a
    → All IsLimb a
    → ((js_bigint_sign a ≡ 0) × (2 * value a < limb_power (length a)))
      ⊎ ((js_bigint_sign a ≡ 1)
          × (limb_power (length a) ≤ 2 * value a)
          × (value a < limb_power (length a)))
unfolding js_bigint_sign
sign_bounds a h hl =
    let (low, e, lt, q, w) = highest_part a h hl in
    let t = get_or a (length a - 1) 0 in
    let p = limb_power (length a - 1) in
    elim (dec_lt t (2 ^ 63)) [
      | yes small ↦ inl (omega (arith, small), omega (arith, e, lt, w, mul-le-mul_left p small))
      | no big ↦
          let high : 2 ^ 63 ≤ t = omega arith in
          inr (omega (arith, high, q), omega (arith, e, w, mul-le-mul_left p high), value-lt a hl)
    ]

-- A number that has the sign of its highest bit, from its bounds.
pub sign_of_bounds :
    (a : List ℕ) (s : ℕ)
    → 1 ≤ length a
    → All IsLimb a
    → (((s ≡ 0) × (2 * value a < limb_power (length a)))
        ⊎ ((s ≡ 1) × (limb_power (length a) ≤ 2 * value a)))
    → js_bigint_sign a ≡ s
sign_of_bounds a s h hl b = elim b [
  | inl (z, lt) ↦ elim (sign_bounds a h hl) [
    | inl (y, k) ↦ omega arith
    | inr (y, k, l) ↦ absurd (omega arith)
  ]
  | inr (z, le) ↦ elim (sign_bounds a h hl) [
    | inl (y, k) ↦ absurd (omega arith)
    | inr (y, k, l) ↦ omega arith
  ]
]

pub sign-append : (a : List ℕ) (x : ℕ) → js_bigint_sign (a ++ (x ∷ [])) ≡ x / 2 ^ 63
unfolding js_bigint_sign
sign-append a x = ap (λ (t : ℕ). t / 2 ^ 63) (last a x)
  where
    last : (a : List ℕ) (x : ℕ) → get_or (a ++ (x ∷ [])) (length (a ++ (x ∷ [])) - 1) 0 ≡ x
    last [] x = refl
    last (y ∷ []) x = refl
    last (y ∷ z ∷ a) x =
        let n : length (y ∷ z ∷ (a ++ (x ∷ []))) - 1 ≡ suc (length (z ∷ (a ++ (x ∷ []))) - 1) =
          omega arith in
        rw n (last (z ∷ a) x)
