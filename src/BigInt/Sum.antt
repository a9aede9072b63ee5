-- ===== src/BigInt/Sum.antt =====
-- quickjs.c: `js_bigint_add` and `js_bigint_neg`.
use go_quickjs.Base.{
  ℕ, zero, suc, ◌+◌, ◌-◌, ◌*◌, ◌/◌, ◌%◌, ◌^◌, ◌≤◌, ◌<◌, ◌≡◌, inl, inr, refl, ap, arith, List, [],
  ◌∷◌, length, All, bit_xor,
}
use Prim.Native.Nat.{max}
use go_quickjs.Base.Words.{xor_zero, xor_ones, xor-lt-pow, parity}
use go_quickjs.Base.Int.{pos, ◌+ℤ◌, ◌-ℤ◌, +ℤ_parts, -ℤ_parts}
use go_quickjs.Dtoa.Limbs.{Limbs}
use go_quickjs.BigInt.{
  js_bigint_sign, add_loop, js_bigint_add, js_bigint_neg, js_bigint_new, js_bigint_extend, Grants,
  sign_mask, ◌>>=◌,
}
use go_quickjs.BigInt.Sign.{to_int, to_int-Means, IsBigInt, Yields, sign-lt}
use go_quickjs.BigInt.Extend.{Makes, Makes-Yields, js_bigint_new_rule, js_bigint_extend_exact}
use go_quickjs.BigInt.Normal.{WithTop}
use go_quickjs.BigInt.Arrays.{addc}
use go_quickjs.BigInt.Arrays.Linear.{addc_exact}
use go_quickjs.BigInt.Arrays.Value.{IsLimb, value, limb_power}

-- The value of the second operand as it is added.
abbrev flipped : ℕ → List ℕ → ℕ
flipped flip [] = 0
flipped flip (y ∷ b) = bit_xor y flip + 2 ^ 64 * flipped flip b

flipped_zero : (b : List ℕ) → All IsLimb b → flipped 0 b ≡ value b
flipped_zero [] h = refl
flipped_zero (y ∷ b) (p, h) = omega (arith, xor_zero 64 y p, flipped_zero b h)

flipped_ones :
    (b : List ℕ) → All IsLimb b → flipped (2 ^ 64 - 1) b + value b + 1 ≡ limb_power (length b)
flipped_ones [] h = refl
flipped_ones (y ∷ b) (p, h) = omega (arith, xor_ones 64 y p, p, flipped_ones b h)

-- The sum of the two operands, with their signs `s` and `t` extended to the same length.
record Sums (s t la lb v : ℕ) (r : Limbs) : Type 0 where
  exact :
      value r.tab + r.out * limb_power (length r.tab) + s * limb_power la + t * limb_power lb
      ≡ v + (s + t) * limb_power (length r.tab)
  limbs_ok : All IsLimb r.tab
  exact_length : length r.tab ≡ max la lb
  small : r.out ≤ 1

add_loop_exact :
    (flip s t : ℕ) (a b : List ℕ) (k : ℕ)
    → flip < 2 ^ 64
    → s ≤ 1
    → t ≤ 1
    → k ≤ 1
    → All IsLimb a
    → All IsLimb b
    → Sums s t
        (length a)
        (length b)
        (value a + flipped flip b + k)
        (add_loop flip (s * (2 ^ 64 - 1)) (t * (2 ^ 64 - 1)) a b k)
unfolding add_loop
add_loop_exact flip s t [] [] k hf hs ht hk ha hb = record {
  exact = omega arith;
  limbs_ok = tt;
  exact_length = omega arith;
  small = hk;
}
add_loop_exact flip s t (x ∷ a) (y ∷ b) k hf hs ht hk (hx, ha) (hy, hb) =
    let c = addc x (bit_xor y flip) k in
    let (e, ok, small) = addc_exact x (bit_xor y flip) k hx (xor-lt-pow 64 y flip hy hf) hk in
    let r = add_loop_exact flip s t a b c.carry hf hs ht small ha hb in
    record {
      exact = omega (arith, e, r.exact);
      limbs_ok = (ok, r.limbs_ok);
      exact_length = omega (arith, r.exact_length);
      small = r.small;
    }
add_loop_exact flip s t (x ∷ a) [] k hf hs ht hk (hx, ha) hb =
    let c = addc x (t * (2 ^ 64 - 1)) k in
    let (e, ok, small) = addc_exact x (t * (2 ^ 64 - 1)) k hx (omega (arith, ht)) hk in
    let r = add_loop_exact flip s t a [] c.carry hf hs ht small ha hb in
    record {
      exact = omega (arith, e, r.exact);
      limbs_ok = (ok, r.limbs_ok);
      exact_length = omega (arith, r.exact_length);
      small = r.small;
    }
add_loop_exact flip s t [] (y ∷ b) k hf hs ht hk ha (hy, hb) =
    let c = addc (s * (2 ^ 64 - 1)) (bit_xor y flip) k in
    let (e, ok, small) =
      addc_exact (s * (2 ^ 64 - 1)) (bit_xor y flip) k (omega (arith, hs))
        (xor-lt-pow 64 y flip hy hf) hk in
    let r = add_loop_exact flip s t [] b c.carry hf hs ht small ha hb in
    record {
      exact = omega (arith, e, r.exact);
      limbs_ok = (ok, r.limbs_ok);
      exact_length = omega (arith, r.exact_length);
      small = r.small;
    }

-- The limb above both operands, as it goes to `js_bigint_extend`.
sum-WithTop :
    (s t p k : ℕ) (r : Limbs)
    → s ≤ 1
    → t ≤ 1
    → r.out ≤ 1
    → value r.tab + r.out * limb_power (length r.tab) + k ≡ p + (s + t) * limb_power (length r.tab)
    → let op1 = (s * (2 ^ 64 - 1) + t * (2 ^ 64 - 1) + r.out) % 2 ^ 64 in
      IsLimb op1 × WithTop r.tab op1 p k
sum-WithTop s t p k r hs ht ho h =
    let op1 = (s * (2 ^ 64 - 1) + t * (2 ^ 64 - 1) + r.out) % 2 ^ 64 in
    let split : op1 + (s + t) ≡ r.out + op1 / 2 ^ 63 * 2 ^ 64 = omega (arith, hs, ht, ho) in
    (omega arith, omega (arith, h, ap (λ (x : ℕ). x * limb_power (length r.tab)) split))

pub sign_mask_lem : (s : ℕ) → s ≤ 1 → sign_mask s ≡ s * (2 ^ 64 - 1)
sign_mask_lem s h = omega arith

xor_mask : (s : ℕ) → s ≤ 1 → bit_xor (sign_mask s) (2 ^ 64 - 1) ≡ (1 - s) * (2 ^ 64 - 1)
xor_mask s h = elim (parity s) [
  | inl z ↦ let e : s ≡ 0 = omega arith in rw e refl
  | inr o ↦ let e : s ≡ 1 = omega arith in rw e refl
]

both_flips : (t l : ℕ) → t ≤ 1 → (1 - t) * l + t * l ≡ l
both_flips zero l h = omega arith
both_flips (suc zero) l h = omega arith
both_flips (suc (suc t)) l h = absurd (omega arith)

-- From the operands to the result, when they are added as they stand in the loop.
make_sum :
    (grants : Grants) (a b : List ℕ) (flip t carry p k : ℕ)
    → flip < 2 ^ 64
    → t ≤ 1
    → carry ≤ 1
    → 1 ≤ length a
    → All IsLimb a
    → All IsLimb b
    → ((v : ℕ) (m : ℕ)
        → v + js_bigint_sign a * limb_power (length a) + t * limb_power (length b)
          ≡ value a + flipped flip b + carry + (js_bigint_sign a + t) * m
        → v + k ≡ p + (js_bigint_sign a + t) * m)
    → let sum = add_loop flip (sign_mask (js_bigint_sign a)) (t * (2 ^ 64 - 1)) a b carry in
      Makes grants (max (length a) (length b)) p k (
        js_bigint_new grants 0 (max (length a) (length b)) sum.tab >>= λ r.
        js_bigint_extend grants 1 r
          ((sign_mask (js_bigint_sign a) + t * (2 ^ 64 - 1) + sum.out) % 2 ^ 64))
make_sum grants a b flip t carry p k hf ht hc ne ha hb value_of =
    let s = js_bigint_sign a in
    let hs : s ≤ 1 = omega (arith, sign-lt a ne ha) in
    rw (sign_mask_lem s hs) (
      let sum = add_loop flip (s * (2 ^ 64 - 1)) (t * (2 ^ 64 - 1)) a b carry in
      let l = add_loop_exact flip s t a b carry hf hs ht hc ha hb in
      let m = limb_power (length sum.tab) in
      let (ok, top) =
        sum-WithTop s t p k sum hs ht l.small (value_of (value sum.tab + sum.out * m) m l.exact) in
      js_bigint_new_rule grants 0 (max (length a) (length b)) p k sum.tab _ (
        js_bigint_extend_exact grants 1 (max (length a) (length b)) p k sum.tab _
          (omega (arith, l.exact_length)) l.limbs_ok ok top))

-- `js_bigint_add` is the sum, and with `b_neg` the difference: the result stands for it and has the
-- least length. A RangeError is only for an operand of more than `max_size` limbs, and no memory only
-- when a request is not granted.
pub js_bigint_add_exact :
    (grants : Grants) (a b : List ℕ)
    → IsBigInt a
    → IsBigInt b
    → Yields grants (max (length a) (length b)) (to_int a +ℤ to_int b) (js_bigint_add grants a b 0)
      × Yields grants
          (max (length a) (length b))
          (to_int a -ℤ to_int b)
          (js_bigint_add grants a b 1)
unfolding js_bigint_add
js_bigint_add_exact grants a b ha hb =
    let ma = to_int-Means a in
    let mb = to_int-Means b in
    let t = js_bigint_sign b in
    let ht : t ≤ 1 = omega (arith, sign-lt b hb.nonempty hb.limbs_ok) in
    let n = max (length a) (length b) in
    let small : sign_mask t < 2 ^ 64 = omega arith in
    (
      Makes-Yields grants n (to_int a +ℤ to_int b) _ (
          rw (xor_zero 64 (sign_mask t) small, sign_mask_lem t ht)
            (make_sum grants a b 0 t 0 _ _ (omega arith) ht (omega arith) ha.nonempty ha.limbs_ok
              hb.limbs_ok
              (λ v m h.
                omega
                  (arith, h, ma, mb, flipped_zero b hb.limbs_ok, +ℤ_parts (to_int a) (to_int b))))),
      Makes-Yields grants n (to_int a -ℤ to_int b) _ (
          rw (xor_mask t ht) (
            make_sum grants a b (2 ^ 64 - 1) (1 - t) 1 _ _ (omega arith) (omega arith) (omega arith)
              ha.nonempty ha.limbs_ok hb.limbs_ok
              (λ v m h. omega (
                arith,
                h,
                ma,
                mb,
                flipped_ones b hb.limbs_ok,
                both_flips t (limb_power (length b)) ht,
                -ℤ_parts (to_int a) (to_int b),
              )))),
    )

-- `js_bigint_neg` is the negation, with the least length. A RangeError is only for an operand of more
-- than `max_size` limbs, and no memory only when a request is not granted.
pub js_bigint_neg_exact :
    (grants : Grants) (a : List ℕ)
    → IsBigInt a
    → Yields grants (length a) (pos 0 -ℤ to_int a) (js_bigint_neg grants a)
unfolding js_bigint_neg js_bigint_sign
js_bigint_neg_exact grants a ha =
    let zero_ok : IsBigInt (0 ∷ []) = record {
      limbs_ok = (omega arith, tt);
      nonempty = omega arith;
      least = inl refl;
    } in
    let longer : max 1 (length a) ≡ length a = omega (arith, ha.nonempty) in
    rw longer at (js_bigint_add_exact grants (0 ∷ []) a zero_ok ha).1
