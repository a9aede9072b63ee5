-- ===== src/Dtoa/Compare/Exact.antt =====
-- dtoa.c: the order and the words that `mpb_cmp`, `mpb_set_u64` and `mpb_get_u64` work with.
use go_quickjs.Base.{
  ℕ, zero, suc, ◌-◌, ◌*◌, ◌/◌, ◌%◌, ◌^◌, ◌≤◌, ◌<◌, ◌≡◌, ◌≢◌, ◌⊎◌, inl, inr, refl, ◌∙◌, arith, List,
  [], ◌∷◌, length, get_or, All, ltb, ◌==◌, Bool-cases, ==→eq, ==→ne, ltb→lt, ltb→le,
}
use go_quickjs.Base.Int.{ℤ, pos, negsuc}
use go_quickjs.Base.Bits.{or_low_high}
use go_quickjs.Dtoa.Limbs.Value.{IsLimb, value, limb_power, value-lt}
use go_quickjs.Dtoa.Compare.{cmp_limbs, mpb_cmp, mpb_set_u64, mpb_get_u64}

-- No zero limb on top of another.
pub record IsRenormed (r : List ℕ) : Type 0 where
  pub limbs_ok : All IsLimb r
  pub nonempty : 1 ≤ length r
  pub top : (length r ≡ 1) ⊎ (get_or r (length r - 1) 0 ≢ 0)

-- The result of a comparison is the order of the numbers.
abbrev pub Orders : ℕ → ℕ → ℤ → Type 0
Orders v w o = ((o ≡ negsuc 0) × (v < w)) ⊎ ((o ≡ pos 0) × (v ≡ w)) ⊎ ((o ≡ pos 1) × (w < v))

cmp_limbs-Orders :
    (a b : List ℕ)
    → All IsLimb a
    → All IsLimb b
    → length a ≡ length b
    → Orders (value a) (value b) (cmp_limbs a b)
unfolding cmp_limbs
cmp_limbs-Orders [] [] ha hb e = inr (inl (refl, refl))
cmp_limbs-Orders [] (y ∷ b) ha hb e = absurd (omega arith)
cmp_limbs-Orders (x ∷ a) [] ha hb e = absurd (omega arith)
cmp_limbs-Orders (x ∷ a) (y ∷ b) (px, ha) (py, hb) e =
    elim (cmp_limbs-Orders a b ha hb (omega arith)) [
      | inl (o, lt) ↦ rw o (inl (refl, omega arith))
      | inr (inl (o, same)) ↦ rw o (elim (Bool-cases (x == y)) [
        | inl t ↦ rw t (inr (inl (refl, omega (arith, ==→eq x y t, same))))
        | inr f ↦ elim (Bool-cases (ltb x y)) [
          | inl lt ↦ rw (f, lt) (inl (refl, omega (arith, ltb→lt x y lt, same)))
          | inr ge ↦ rw (f, ge) (inr (inr (refl, omega (arith, ltb→le x y ge, ==→ne x y f, same))))
        ]
      ])
      | inr (inr (o, gt)) ↦ rw o (inr (inr (refl, omega arith)))
    ]

top-limb_power : (n : ℕ) (r : List ℕ) → get_or r n 0 ≢ 0 → limb_power n ≤ value r
top-limb_power n [] h = absurd (h refl)
top-limb_power zero (x ∷ r) h = omega (arith, h)
top-limb_power (suc n) (x ∷ r) h = omega (arith, top-limb_power n r h)

limb_power-le : (m n : ℕ) → m ≤ n → limb_power m ≤ limb_power n
limb_power-le zero zero h = omega arith
limb_power-le zero (suc n) h = omega (arith, limb_power-le zero n (omega arith))
limb_power-le (suc m) zero h = absurd (omega arith)
limb_power-le (suc m) (suc n) h = omega (arith, limb_power-le m n (omega arith))

shorter-lt : (a b : List ℕ) → IsRenormed a → IsRenormed b → length a < length b → value a < value b
shorter-lt a b ha hb lt = elim hb.top [
  | inl one ↦ absurd (omega (arith, ha.nonempty))
  | inr high ↦ omega (
    arith,
    value-lt a ha.limbs_ok,
    limb_power-le (length a) (length b - 1) (omega arith),
    top-limb_power (length b - 1) b high,
  )
]

-- On numbers without a zero limb on top, `mpb_cmp` returns -1, 0 or 1 as the first is less than,
-- equal to or greater than the second.
pub mpb_cmp_exact :
    (a b : List ℕ) → IsRenormed a → IsRenormed b → Orders (value a) (value b) (mpb_cmp a b)
unfolding mpb_cmp
mpb_cmp_exact a b ha hb = elim (Bool-cases (ltb (length a) (length b))) [
  | inl t ↦ rw t (inl (refl, shorter-lt a b ha hb (ltb→lt _ _ t)))
  | inr f ↦ elim (Bool-cases (ltb (length b) (length a))) [
    | inl t ↦ rw (f, t) (inr (inr (refl, shorter-lt b a hb ha (ltb→lt _ _ t))))
    | inr g ↦
        rw (f, g)
          (cmp_limbs-Orders a b ha.limbs_ok hb.limbs_ok (omega (arith, ltb→le _ _ f, ltb→le _ _ g)))
  ]
]

-- `mpb_set_u64` stores every 64-bit word without a zero limb on top, and `mpb_get_u64` reads it
-- back.
pub mpb_get_u64-mpb_set_u64 :
    (m : ℕ)
    → m < 2 ^ 64
    → (mpb_get_u64 (mpb_set_u64 m) ≡ m) × (value (mpb_set_u64 m) ≡ m) × IsRenormed (mpb_set_u64 m)
unfolding mpb_set_u64 mpb_get_u64
mpb_get_u64-mpb_set_u64 m h = elim (Bool-cases (m / 2 ^ 32 % 2 ^ 32 == 0)) [
  | inl z ↦
      let small = ==→eq _ _ z in
      rw z (
        omega (arith, small),
        omega (arith, small),
        record { limbs_ok = (omega arith, tt); nonempty = omega arith; top = inl refl },
      )
  | inr f ↦
      let high = m / 2 ^ 32 % 2 ^ 32 in
      let fits : high * 2 ^ 32 % 2 ^ 64 ≡ high * 2 ^ 32 = omega arith in
      rw f (
        rw fits (or_low_high 32 high (m % 2 ^ 32) (omega arith) ∙ omega arith),
        omega arith,
        record {
          limbs_ok = (omega arith, (omega arith, tt));
          nonempty = omega arith;
          top = inr (==→ne _ _ f);
        },
      )
]
