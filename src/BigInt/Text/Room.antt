-- ===== src/BigInt/Text/Room.antt =====
-- quickjs.c, `js_bigint_from_string`: the limbs that are counted for decimal digits are enough.
use go_quickjs.Base.{
  ℕ, zero, suc, ◌+◌, ◌-◌, ◌*◌, ◌/◌, ◌%◌, ◌^◌, ◌≤◌, ◌<◌, ◌≡◌, inl, inr, refl, ap, ◌∙◌, arith, List,
  [], ◌∷◌, ◌++◌, length, All, get_or, leb, leb→le, Bool-cases, ◌==◌, ==→ne, some, length-append,
}
use native.Mathlib.Nat.{mul-le-mul, mul-le-mul_right, mul-le-mul_left, pow-suc, one-le-pow}
use native.Mathlib.Decide.{dec_lt}
use go_quickjs.Base.Powers.{pow-add}
use go_quickjs.Base.Tables.{holds_below, holds_below_at}
use go_quickjs.BigInt.Sign.{Means, IsBigInt, highest_part, single_or_more}
use go_quickjs.BigInt.Multiply.{sign-Magnitude}
use go_quickjs.BigInt.Left.{limb_power_lem}
use go_quickjs.BigInt.Divrem.Exact.{limb_power-le}
use go_quickjs.BigInt.Order.{far_from_zero}
use go_quickjs.BigInt.Arrays.Value.{limb_power, value-lt}
use go_quickjs.BigInt.Text.{sign_limb, within}
use go_quickjs.BigInt.Text.Read.{IsDecimal, decimal, Reads, NoExcess}

-- `n` decimal digits need no more bits than the code counts for them.
bits_enough : (n : ℕ) → 10 ^ n ≤ 2 ^ ((n * 27 + 7) / 8)
unfolding holds_below
bits_enough n =
    let q = n / 8 in
    let r = n % 8 in
    let parts : n ≡ 8 * q + r = omega arith in
    let bits : (n * 27 + 7) / 8 ≡ 27 * q + (r * 27 + 7) / 8 = omega arith in
    let a : 10 ^ n ≡ 10 ^ (8 * q) * 10 ^ r = ap (λ (x : ℕ). 10 ^ x) parts ∙ pow-add 10 (8 * q) r in
    let b : 2 ^ ((n * 27 + 7) / 8) ≡ 2 ^ (27 * q) * 2 ^ ((r * 27 + 7) / 8) =
      ap (λ (x : ℕ). 2 ^ x) bits ∙ pow-add 2 (27 * q) ((r * 27 + 7) / 8) in
    rw (a, b) (mul-le-mul (eights q) (few r (omega arith)))
  where
    eights : (q : ℕ) → 10 ^ (8 * q) ≤ 2 ^ (27 * q)
    eights zero = omega arith
    eights (suc q) =
        let e : 8 * suc q ≡ 8 * q + 8 = omega arith in
        let f : 27 * suc q ≡ 27 * q + 27 = omega arith in
        rw (e, f, pow-add 10 (8 * q) 8, pow-add 2 (27 * q) 27) (mul-le-mul (eights q) (omega arith))

    few : (r : ℕ) → r < 8 → 10 ^ r ≤ 2 ^ ((r * 27 + 7) / 8)
    few r h =
        leb→le _ _ (holds_below_at (λ (r : ℕ). leb (10 ^ r) (2 ^ ((r * 27 + 7) / 8))) 8 r refl h)

pub decimal-lt : (p : List ℕ) (v : ℕ) → All IsDecimal p → decimal p v < (v + 1) * 10 ^ length p
decimal-lt [] v h = omega arith
decimal-lt (c ∷ p) v (hc, h) =
    let next = v * 10 + (c - 48) in
    let le : next + 1 ≤ (v + 1) * 10 = omega (arith, hc.1) in
    omega (
      arith,
      decimal-lt p next h,
      ap (λ (x : ℕ). (v + 1) * x) (pow-suc 10 (length p)),
      mul-le-mul_right (10 ^ length p) le,
    )

-- The limbs that are asked for have room for the number and its sign.
room_enough : (n : ℕ) → 2 * 10 ^ n ≤ limb_power ((n * 27 + 7) / 8 / 64 + 1)
room_enough n =
    let used = (n * 27 + 7) / 8 in
    let limbs = used / 64 + 1 in
    let e : 64 * limbs ≡ (1 + used) + (63 - used % 64) = omega arith in
    let p = ap (λ (x : ℕ). 2 ^ x) e ∙ pow-add 2 (1 + used) (63 - used % 64) in
    omega (
      arith,
      limb_power_lem limbs,
      p,
      pow-add 2 1 used,
      bits_enough n,
      mul-le-mul_left (2 ^ (1 + used)) (one-le-pow (63 - used % 64) 2 (omega arith)),
    )

-- The number of limbs that is asked for is enough for the number, with its sign.
pub length-le :
    (r : List ℕ) (v n : ℕ)
    → IsBigInt r
    → Means r v 0
    → v < 10 ^ n
    → length r ≤ (n * 27 + 7) / 8 / 64 + 1
length-le r v n h m lt =
    let limbs = (n * 27 + 7) / 8 / 64 + 1 in
    let room = room_enough n in
    elim (sign-Magnitude r h.nonempty h.limbs_ok) [
      | inr (o, x, y, le, k) ↦
          let p = ap (λ (t : ℕ). t * limb_power (length r)) o in
          absurd (omega (arith, m, p, value-lt r h.limbs_ok))
      | inl (z, x, y, small) ↦ elim (single_or_more (length r) h.nonempty) [
        | inl one ↦ omega (arith, one)
        | inr more ↦
            let p = ap (λ (t : ℕ). t * limb_power (length r)) z in
            let far = (far_from_zero r more h).0 z in
            elim (dec_lt limbs (length r)) [
              | no le ↦ omega arith
              | yes gt ↦ absurd (
                  omega (
                    arith,
                    m,
                    p,
                    lt,
                    room,
                    far,
                    limb_power-le limbs (length r - 1) (omega (arith, gt)),
                  ))
            ]
      ]
    ]

-- The array of the loop, with the limb for the sign, is not longer than what is asked for.
pub sign_limb-le :
    (r : List ℕ) (v n : ℕ)
    → Reads v r
    → NoExcess r
    → v < 10 ^ n
    → length (sign_limb r) ≤ (n * 27 + 7) / 8 / 64 + 1
unfolding sign_limb
sign_limb-le r v n h ex lt =
    let limbs = (n * 27 + 7) / 8 / 64 + 1 in
    let room = room_enough n in
    let (low, e, small, limb_ok, w) = highest_part r h.nonempty h.limbs_ok in
    let top = get_or r (length r - 1) 0 in
    let p = limb_power (length r - 1) in
    elim (Bool-cases (top / 2 ^ 63 == 0)) [
      | inl z ↦ rw z (elim ex [
        | inl one ↦ omega (arith, one)
        | inr most ↦ elim (dec_lt limbs (length r)) [
          | no le ↦ omega arith
          | yes gt ↦ absurd (
              omega (
                arith,
                h.same,
                lt,
                room,
                most,
                limb_power-le limbs (length r - 1) (omega (arith, gt)),
              ))
        ]
      ])
      | inr o ↦
          let big : 2 ^ 63 ≤ top = let q = ==→ne _ _ o in omega (arith, q) in
          let l : length (r ++ (0 ∷ [])) ≡ suc (length r) =
            omega (arith, length-append r (0 ∷ [])) in
          rw (o, l)
            (elim (dec_lt limbs (suc (length r))) [
              | no le ↦ omega arith
              | yes gt ↦ absurd (
                  omega (
                    arith,
                    h.same,
                    lt,
                    room,
                    e,
                    w,
                    mul-le-mul_left p big,
                    limb_power-le limbs (length r) (omega (arith, gt)),
                  ))
            ])
    ]

-- Nothing is written past the end.
pub within_lem : (n : ℕ) (r : List ℕ) → length r ≤ n → within n r ≡ some r
unfolding within
within_lem n r le = ground arith
