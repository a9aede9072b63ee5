-- ===== src/BigInt/Extend.antt =====
-- quickjs.c: `js_bigint_new` and `js_bigint_extend`.
use go_quickjs.Base.{
  ℕ, suc, ◌+◌, ◌-◌, ◌*◌, ◌/◌, ◌^◌, ◌≤◌, ◌<◌, ◌≡◌, inl, inr, refl, arith, List, [], ◌∷◌, ◌++◌,
  length, get_or, All, true, false, ltb, Bool-cases, ltb→lt, length-append,
}
use go_quickjs.Base.Int.{ℤ, pos_part, neg_part}
use go_quickjs.BigInt.{
  js_bigint_sign, js_bigint_new, js_bigint_extend, Grants, max_size, Result, ok, range_error,
  out_of_memory, ◌>>=◌,
}
use go_quickjs.BigInt.Sign.{Means, IsBigInt, Yields, Means-to_int, sign-lt}
use go_quickjs.BigInt.Normal.{
  redundant, redundant-true, same_without, WithTop, WithTop-Means, js_bigint_normalize_exact,
}
use go_quickjs.BigInt.Arrays.Value.{IsLimb, IsLimb-append}

-- The result is right, or why there is none; at most `len` limbs were asked of `js_bigint_new`.
abbrev pub Makes : Grants → ℕ → ℕ → ℕ → Result → Type 0
Makes grants len p k (ok r) = IsBigInt r × Means r p k
Makes grants len p k range_error = max_size < len
Makes grants len p k out_of_memory = (j : ℕ) × (n : ℕ) × (grants j n ≡ false)

pub Makes-Yields :
    (grants : Grants) (len : ℕ) (v : ℤ) (r : Result)
    → Makes grants len (pos_part v) (neg_part v) r
    → Yields grants len v r
Makes-Yields grants len v (ok r) (b, m) = (b, Means-to_int r v m)
Makes-Yields grants len v range_error h = h
Makes-Yields grants len v out_of_memory h = h

pub Makes-longer :
    (grants : Grants) (l m p k : ℕ) (r : Result)
    → l ≤ m
    → Makes grants l p k r
    → Makes grants m p k r
Makes-longer grants l m p k (ok r) h w = w
Makes-longer grants l m p k range_error h w = omega (arith, h, w)
Makes-longer grants l m p k out_of_memory h w = w

-- The limbs are written when the request is granted.
pub js_bigint_new_rule :
    (grants : Grants) (j len p k : ℕ) (tab : List ℕ) (f : List ℕ → Result)
    → Makes grants len p k (f tab)
    → Makes grants len p k (js_bigint_new grants j len tab >>= f)
unfolding js_bigint_new
js_bigint_new_rule grants j len p k tab f h = elim (Bool-cases (ltb max_size len)) [
  | inl t ↦ rw t (ltb→lt _ _ t)
  | inr s ↦ rw s (elim (Bool-cases (grants j len)) [ inl g ↦ rw g h | inr g ↦ rw g (j, len, g) ])
]

pub js_bigint_new_plain :
    (grants : Grants) (j len p k : ℕ) (tab : List ℕ)
    → IsBigInt tab × Means tab p k
    → Makes grants len p k (js_bigint_new grants j len tab)
unfolding js_bigint_new
js_bigint_new_plain grants j len p k tab h = elim (Bool-cases (ltb max_size len)) [
  | inl t ↦ rw t (ltb→lt _ _ t)
  | inr s ↦ rw s (elim (Bool-cases (grants j len)) [ inl g ↦ rw g h | inr g ↦ rw g (j, len, g) ])
]

top_of_append :
    (r : List ℕ) (x : ℕ)
    → 1 ≤ length r
    → (get_or (r ++ (x ∷ [])) (length r) 0 ≡ x)
      × (get_or (r ++ (x ∷ [])) (length r - 1) 0 ≡ get_or r (length r - 1) 0)
top_of_append [] x h = absurd (omega arith)
top_of_append (y ∷ []) x h = (refl, refl)
top_of_append (y ∷ z ∷ r) x h =
    let n : length (y ∷ z ∷ r) - 1 ≡ suc (length (z ∷ r) - 1) = omega arith in
    rw n (top_of_append (z ∷ r) x (omega arith))

extended :
    (r : List ℕ) (op1 : ℕ)
    → 1 ≤ length r
    → All IsLimb r
    → IsLimb op1
    → redundant op1 (js_bigint_sign r * 2 ^ 63) ≡ true
    → IsBigInt (r ++ (op1 ∷ []))
unfolding js_bigint_sign
extended r op1 ne hl ho e =
    let (no_zero, no_ones) =
      redundant-true op1 (js_bigint_sign r * 2 ^ 63) ho (omega (arith, sign-lt r ne hl)) e in
    let (top, below) = top_of_append r op1 ne in
    let len : length (r ++ (op1 ∷ [])) ≡ suc (length r) =
      omega (arith, length-append r (op1 ∷ [])) in
    let one : suc (length r) - 1 ≡ length r = omega arith in
    let two : suc (length r) - 2 ≡ length r - 1 = omega arith in
    record {
      limbs_ok = IsLimb-append r (op1 ∷ []) hl (ho, tt);
      nonempty = omega (arith, len);
      least = inr (
          rw (len, one, two, top, below)
            ((λ h. no_zero (h.0, omega (arith, h.1))), (λ h. no_ones (h.0, omega (arith, h.1)))));
    }

-- `js_bigint_extend` adds the limb unless the sign says the same, and leaves the least length.
pub js_bigint_extend_exact :
    (grants : Grants) (j len p k : ℕ) (r : List ℕ) (op1 : ℕ)
    → 1 ≤ length r
    → All IsLimb r
    → IsLimb op1
    → WithTop r op1 p k
    → Makes grants len p k (js_bigint_extend grants j r op1)
unfolding js_bigint_extend
js_bigint_extend_exact grants j len p k r op1 ne hl ho w =
    let d : js_bigint_sign r * 2 ^ 63 / 2 ^ 63 ≡ js_bigint_sign r = omega arith in
    elim (Bool-cases (redundant op1 (js_bigint_sign r * 2 ^ 63))) [
      | inl t ↦ rw (rw d at t) (elim (Bool-cases (grants j (length r + 1))) [
        | inl g ↦ rw g (extended r op1 ne hl ho t, WithTop-Means r op1 p k w)
        | inr g ↦ rw g (j, length r + 1, g)
      ])
      | inr f ↦
          rw (rw d at f)
            (js_bigint_normalize_exact r p k ne hl (same_without r op1 p k ne hl ho f w))
    ]
