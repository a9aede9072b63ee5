-- ===== src/BigInt/Order.antt =====
-- quickjs.c: `js_bigint_cmp`.
use go_quickjs.Base.{
  ℕ, suc, ◌+◌, ◌-◌, ◌*◌, ◌^◌, ◌≤◌, ◌<◌, ◌≡◌, ◌⊎◌, inl, inr, refl, sym, ap, ◌∙◌, arith, List, [],
  ◌∷◌, length, All, get_or, Bool, true, false, Bool-cases, ==→eq, ==→ne, ◌==◌, ltb, ltb→lt, ltb→le,
}
use native.Mathlib.Nat.{mul-le-mul_left}
use native.Mathlib.Decide.{ℕ_discrete, dec_le, dec_lt}
use go_quickjs.Base.Int.{ℤ, pos, negsuc, ◌<ℤ◌, eq_of_parts}
use go_quickjs.BigInt.{js_bigint_sign, cmp_limbs, signed_one, js_bigint_cmp}
use go_quickjs.BigInt.Sign.{to_int, to_int-Means, Needed, IsBigInt, sign-lt}
use go_quickjs.BigInt.Multiply.{sign-Magnitude, limb_power-add}
use go_quickjs.BigInt.Left.{limb_power-positive}
use go_quickjs.BigInt.Arrays.Value.{IsLimb, value, limb_power}

-- The two limbs on top.
top_two :
    (a : List ℕ)
    → 2 ≤ length a
    → All IsLimb a
    → (low : ℕ) × (value a
        ≡ low
          + limb_power (length a - 2) * get_or a (length a - 2) 0
          + limb_power (length a - 1) * get_or a (length a - 1) 0)
      × (low < limb_power (length a - 2))
      × IsLimb (get_or a (length a - 2) 0)
      × IsLimb (get_or a (length a - 1) 0)
      × (limb_power (length a - 1) ≡ 2 ^ 64 * limb_power (length a - 2))
      × (limb_power (length a) ≡ 2 ^ 64 * limb_power (length a - 1))
top_two [] h hl = absurd (omega arith)
top_two (x ∷ []) h hl = absurd (omega arith)
top_two (x ∷ y ∷ []) h (p, q) = (0, omega arith, omega arith, p, q.0, omega arith, omega arith)
top_two (x ∷ y ∷ z ∷ a) h (p, hl) =
    let t = y ∷ z ∷ a in
    let (low, e, lt, k, l, v, w) = top_two (y ∷ z ∷ a) (omega arith) hl in
    let one : length (x ∷ t) - 1 ≡ suc (length t - 1) = omega arith in
    let two : length (x ∷ t) - 2 ≡ suc (length t - 2) = omega arith in
    rw (one, two)
      (
        x + 2 ^ 64 * low,
        omega (arith, e),
        omega (arith, lt, p),
        k,
        l,
        omega (arith, v),
        omega (arith, w),
      )

-- A number of the least length does not fit one limb less.
pub far_from_zero :
    (a : List ℕ)
    → 2 ≤ length a
    → IsBigInt a
    → ((js_bigint_sign a ≡ 0) → limb_power (length a - 1) ≤ 2 * value a)
      × ((js_bigint_sign a ≡ 1)
          → 2 * value a + limb_power (length a - 1) < 2 * limb_power (length a))
unfolding js_bigint_sign
far_from_zero a h b =
    let (low, e, lt, k, l, v, w) = top_two a h b.limbs_ok in
    let x = get_or a (length a - 1) 0 in
    let y = get_or a (length a - 2) 0 in
    let p = limb_power (length a - 2) in
    let (no_zero, no_ones) : Needed a = elim b.least [
      | inl one ↦ absurd (omega arith)
      | inr needs ↦ needs
    ] in
    (
      (λ z. elim (ℕ_discrete x 0) [
        | yes top ↦
            let big : 2 ^ 63 ≤ y = elim (dec_le (2 ^ 63) y) [
              | yes q ↦ q
              | no q ↦ absurd (no_zero (top, omega arith))
            ] in
            omega (arith, e, v, mul-le-mul_left p big)
        | no top ↦
            let some_limb : 1 ≤ x = omega (arith, top) in
            omega (arith, e, v, mul-le-mul_left (limb_power (length a - 1)) some_limb)
      ]),
      (λ z. elim (ℕ_discrete x (2 ^ 64 - 1)) [
        | yes top ↦
            let small : y + 1 ≤ 2 ^ 63 = elim (dec_lt y (2 ^ 63)) [
              | yes q ↦ omega (arith, q)
              | no q ↦ absurd (no_ones (top, omega arith))
            ] in
            omega (
              arith,
              e,
              v,
              w,
              lt,
              mul-le-mul_left p small,
              ap (λ (t : ℕ). limb_power (length a - 1) * t) top,
            )
        | no top ↦
            let less : x + 1 ≤ 2 ^ 64 - 1 = omega (arith, top, l) in
            let full : y + 1 ≤ 2 ^ 64 = omega (arith, k) in
            omega (
              arith,
              e,
              v,
              w,
              lt,
              mul-le-mul_left p full,
              mul-le-mul_left (limb_power (length a - 1)) less,
            )
      ]),
    )

-- -1, 0 or 1, in the order of `u` and `v`.
abbrev pub Compares : ℤ → ℕ → ℕ → Type 0
Compares r u v = ((r ≡ negsuc 0) × (u < v)) ⊎ (((r ≡ pos 0) × (u ≡ v)) ⊎ ((r ≡ pos 1) × (v < u)))

pub cmp_limbs-Compares :
    (a b : List ℕ)
    → length a ≡ length b
    → All IsLimb a
    → All IsLimb b
    → Compares (cmp_limbs a b) (value a) (value b)
unfolding cmp_limbs
cmp_limbs-Compares [] [] e ha hb = inr (inl (refl, refl))
cmp_limbs-Compares [] (y ∷ b) e ha hb = absurd (omega arith)
cmp_limbs-Compares (x ∷ a) [] e ha hb = absurd (omega arith)
cmp_limbs-Compares (x ∷ a) (y ∷ b) e (hx, ha) (hy, hb) =
    elim (cmp_limbs-Compares a b (omega arith) ha hb) [
      | inl (r, lt) ↦ rw r (inl (refl, omega (arith, lt)))
      | inr t ↦ elim t [
        | inr (r, lt) ↦ rw r (inr (inr (refl, omega (arith, lt))))
        | inl (r, same) ↦ rw r (elim (Bool-cases (x == y)) [
          | inl q ↦ rw q (inr (inl (refl, let eq = ==→eq _ _ q in omega (arith, same, eq))))
          | inr q ↦ rw q (elim (Bool-cases (ltb x y)) [
            | inl s ↦ rw s (inl (refl, let lt = ltb→lt _ _ s in omega (arith, same, lt)))
            | inr s ↦
                let le = ltb→le _ _ s in
                let ne = ==→ne _ _ q in rw s (inr (inr (refl, omega (arith, same, le, ne))))
          ])
        ])
      ]
    ]

-- -1, 0 or 1, in the order of the numbers.
abbrev pub Ordered : ℤ → ℤ → ℤ → Type 0
Ordered r u v = ((r ≡ negsuc 0) × (u <ℤ v)) ⊎ (((r ≡ pos 0) × (u ≡ v)) ⊎ ((r ≡ pos 1) × (v <ℤ u)))

-- A longer number is farther from zero.
longer_above :
    (a b : List ℕ)
    → IsBigInt a
    → IsBigInt b
    → length a < length b
    → ((js_bigint_sign a ≡ 0) → (js_bigint_sign b ≡ 0) → to_int a <ℤ to_int b)
      × ((js_bigint_sign a ≡ 1) → (js_bigint_sign b ≡ 1) → to_int b <ℤ to_int a)
longer_above a b ha hb lt =
    let (positive, negative) = far_from_zero b (omega (arith, ha.nonempty)) hb in
    let gap : limb_power (length b - 1)
        ≡ limb_power (length a) * limb_power (length b - 1 - length a) =
      let e : length b - 1 ≡ length a + (length b - 1 - length a) = omega arith in
      ap limb_power e ∙ limb_power-add (length a) (length b - 1 - length a) in
    let room : limb_power (length a) ≤ limb_power (length b - 1) = omega (
      arith,
      gap,
      mul-le-mul_left (limb_power (length a)) (limb_power-positive (length b - 1 - length a)),
    ) in
    let ma = sign-Magnitude a ha.nonempty ha.limbs_ok in
    let mb = sign-Magnitude b hb.nonempty hb.limbs_ok in
    (
      (λ sa sb. elim ma [
        | inr (o, xa, ya, la, la') ↦ absurd (omega (arith, o, sa))
        | inl (z, xa, ya, la) ↦ elim mb [
          | inr (o, xb, yb, lb, lb') ↦ absurd (omega (arith, o, sb))
          | inl (z', xb, yb, lb) ↦ omega (arith, xa, ya, la, xb, yb, lb, room, positive sb)
        ]
      ]),
      (λ sa sb. elim ma [
        | inl (z, xa, ya, la) ↦ absurd (omega (arith, z, sa))
        | inr (o, xa, ya, la, la') ↦ elim mb [
          | inl (z', xb, yb, lb) ↦ absurd (omega (arith, z', sb))
          | inr (o', xb, yb, lb, lb') ↦ omega (arith, xa, ya, la, xb, yb, lb, room, negative sb)
        ]
      ]),
    )

-- Of one sign and one length, the numbers are in the order of the limbs.
same_length-Ordered :
    (a b : List ℕ)
    → IsBigInt a
    → IsBigInt b
    → length a ≡ length b
    → js_bigint_sign a ≡ js_bigint_sign b
    → Ordered (cmp_limbs a b) (to_int a) (to_int b)
same_length-Ordered a b ha hb len same =
    let power = ap limb_power len in
    let shift : js_bigint_sign a * limb_power (length a)
        ≡ js_bigint_sign b * limb_power (length b) =
      ap (λ (s : ℕ). s * limb_power (length a)) same ∙ ap (λ (p : ℕ). js_bigint_sign b * p) power in
    let ma = to_int-Means a in
    let mb = to_int-Means b in
    elim (cmp_limbs-Compares a b len ha.limbs_ok hb.limbs_ok) [
      | inl (r, lt) ↦ inl (r, omega (arith, ma, mb, shift, lt))
      | inr t ↦ elim t [
        | inl (r, eq) ↦
            inr (inl (r, eq_of_parts (to_int a) (to_int b) (omega (arith, ma, mb, shift, eq))))
        | inr (r, lt) ↦ inr (inr (r, omega (arith, ma, mb, shift, lt)))
      ]
    ]

signed_one-Ordered :
    (negative : Bool) (u v : ℤ)
    → ((negative ≡ true) → u <ℤ v)
    → ((negative ≡ false) → v <ℤ u)
    → Ordered (signed_one negative) u v
signed_one-Ordered true u v h k = inl (refl, h refl)
signed_one-Ordered false u v h k = inr (inr (refl, k refl))

-- A negative number is below one that is not.
below_zero :
    (a b : List ℕ)
    → IsBigInt a
    → IsBigInt b
    → js_bigint_sign a ≡ 1
    → js_bigint_sign b ≡ 0
    → to_int a <ℤ to_int b
below_zero a b ha hb sa sb = elim (sign-Magnitude a ha.nonempty ha.limbs_ok) [
  | inl (z, xa, ya, la) ↦ absurd (omega (arith, z, sa))
  | inr (o, xa, ya, la, la') ↦ elim (sign-Magnitude b hb.nonempty hb.limbs_ok) [
    | inl (z, xb, yb, lb) ↦ omega (arith, xa, la', yb)
    | inr (o', xb, yb, lb, lb') ↦ absurd (omega (arith, o', sb))
  ]
]

-- `js_bigint_cmp` is -1, 0 or 1 as the numbers that its operands stand for compare, for operands of
-- the least length.
pub js_bigint_cmp_exact :
    (a b : List ℕ) → IsBigInt a → IsBigInt b → Ordered (js_bigint_cmp a b) (to_int a) (to_int b)
unfolding js_bigint_cmp
js_bigint_cmp_exact a b ha hb =
    let sa = js_bigint_sign a in
    let sb = js_bigint_sign b in
    let two_a : sa < 2 = sign-lt a ha.nonempty ha.limbs_ok in
    let two_b : sb < 2 = sign-lt b hb.nonempty hb.limbs_ok in
    elim (Bool-cases (sa == sb)) [
      | inr e ↦
          let ne = ==→ne _ _ e in
          rw e (
            signed_one-Ordered (sa == 1) _ _
              (λ p. let o = ==→eq _ _ p in below_zero a b ha hb o (omega (arith, o, ne, two_b)))
              (λ p.
                let n = ==→ne _ _ p in
                let z : sa ≡ 0 = omega (arith, n, two_a) in
                below_zero b a hb ha (omega (arith, z, ne, two_b)) z))
      | inl e ↦
          let same : sa ≡ sb = ==→eq _ _ e in
          rw e (elim (Bool-cases (ltb (length a) (length b))) [
            | inl t ↦
                let (positive, negative) = longer_above a b ha hb (ltb→lt _ _ t) in
                rw t (
                  signed_one-Ordered (sa == 0) _ _
                    (λ p. let z = ==→eq _ _ p in positive z (sym same ∙ z))
                    (λ p.
                      let n = ==→ne _ _ p in
                      let o : sa ≡ 1 = omega (arith, n, two_a) in negative o (sym same ∙ o)))
            | inr t ↦ rw t (elim (Bool-cases (ltb (length b) (length a))) [
              | inl u ↦
                  let (positive, negative) = longer_above b a hb ha (ltb→lt _ _ u) in
                  rw u (
                    signed_one-Ordered (sa == 1) _ _
                      (λ p. let o = ==→eq _ _ p in negative (sym same ∙ o) o)
                      (λ p.
                        let n = ==→ne _ _ p in
                        let z : sa ≡ 0 = omega (arith, n, two_a) in positive (sym same ∙ z) z))
              | inr u ↦
                  let le = ltb→le _ _ t in
                  let ge = ltb→le _ _ u in
                  rw u (same_length-Ordered a b ha hb (omega (arith, le, ge)) same)
            ])
          ])
    ]
