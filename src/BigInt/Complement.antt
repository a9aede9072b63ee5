-- ===== src/BigInt/Complement.antt =====
-- quickjs.c: `js_bigint_not`.
use go_quickjs.Base.{
  ℕ, zero, suc, ◌+◌, ◌-◌, ◌*◌, ◌^◌, ◌<◌, ◌≡◌, inl, inr, refl, ap, arith, List, [], ◌∷◌, length, All,
  get_or,
}
use go_quickjs.Base.Int.{pos, pos_part, neg_part, ◌-ℤ◌, -ℤ_parts}
use go_quickjs.BigInt.{js_bigint_sign, complement, js_bigint_not, Grants}
use go_quickjs.BigInt.Sign.{single_or_more, to_int, to_int-Means, Means, IsBigInt, Yields}
use go_quickjs.BigInt.Extend.{Makes-Yields, js_bigint_new_plain}
use go_quickjs.BigInt.Normal.{get_or-IsLimb}
use go_quickjs.BigInt.Arrays.Value.{IsLimb, value, limb_power}

complement_lem :
    (a : List ℕ)
    → All IsLimb a
    → (value (complement a) + value a + 1 ≡ limb_power (length a))
      × All IsLimb (complement a)
      × (length (complement a) ≡ length a)
complement_lem [] h = (refl, tt, refl)
complement_lem (x ∷ a) (p, h) =
    let (v, ok, l) = complement_lem a h in
    (omega (arith, v, p), (omega arith, ok), omega (arith, l))

get_or-complement :
    (i : ℕ) (a : List ℕ) → i < length a → get_or (complement a) i 0 ≡ 2 ^ 64 - 1 - get_or a i 0
get_or-complement i [] h = absurd (omega arith)
get_or-complement zero (x ∷ a) h = refl
get_or-complement (suc i) (x ∷ a) h = get_or-complement i a (omega arith)

-- The sign is flipped and no limb on top becomes redundant.
complement-IsBigInt :
    (a : List ℕ)
    → IsBigInt a
    → IsBigInt (complement a) × (js_bigint_sign (complement a) + js_bigint_sign a ≡ 1)
unfolding js_bigint_sign
complement-IsBigInt a h =
    let (v, ok, l) = complement_lem a h.limbs_ok in
    let top = get_or-complement (length a - 1) a (omega (arith, h.nonempty)) in
    let top_ok = get_or-IsLimb (length a - 1) a h.limbs_ok in
    (
      record {
        limbs_ok = ok;
        nonempty = omega (arith, l, h.nonempty);
        least = elim h.least [
          | inl one ↦ inl (omega (arith, l, one))
          | inr needs ↦ elim (single_or_more (length a) h.nonempty) [
            | inl one ↦ inl (omega (arith, l, one))
            | inr more ↦
                let below = get_or-complement (length a - 2) a (omega (arith, more)) in
                let below_ok = get_or-IsLimb (length a - 2) a h.limbs_ok in
                inr (
                  rw (l, top, below)
                    (
                      (λ q. needs.1 (omega (arith, q.0, top_ok), omega (arith, q.1))),
                      (λ q. needs.0 (omega (arith, q.0, top_ok), omega (arith, q.1, below_ok))),
                    ))
          ]
        ];
      },
      rw (l, top) (omega (arith, top_ok)),
    )

-- `js_bigint_not` stands for `-a - 1` and needs no normalization. A RangeError is only for an operand
-- of more than `max_size` limbs, and no memory only when a request is not granted.
pub js_bigint_not_exact :
    (grants : Grants) (a : List ℕ)
    → IsBigInt a
    → Yields grants (length a) (pos 0 -ℤ to_int a -ℤ pos 1) (js_bigint_not grants a)
unfolding js_bigint_not
js_bigint_not_exact grants a h =
    let (is, flip) = complement-IsBigInt a h in
    let (v, ok, l) = complement_lem a h.limbs_ok in
    let w = pos 0 -ℤ to_int a -ℤ pos 1 in
    let p1 = -ℤ_parts (pos 0) (to_int a) in
    let p2 = -ℤ_parts (pos 0 -ℤ to_int a) (pos 1) in
    let both = ap (λ (s : ℕ). s * limb_power (length a)) flip in
    let power = ap limb_power l in
    let m : Means (complement a) (pos_part w) (neg_part w) =
      rw l (omega (arith, v, p1, p2, both, to_int-Means a)) in
    Makes-Yields grants (length a) w _ (js_bigint_new_plain grants 0 (length a) _ _ _ (is, m))
