-- ===== src/BigInt/Right.antt =====
-- quickjs.c: `js_bigint_shr`.
use go_quickjs.Base.{
  ℕ, zero, suc, ◌+◌, ◌-◌, ◌*◌, ◌/◌, ◌%◌, ◌^◌, ◌≤◌, ◌<◌, ◌≡◌, inl, inr, refl, sym, ap, ◌∙◌, arith,
  List, [], ◌∷◌, length, get_or, take, drop, Bool-cases, ==→eq, ==→ne, ◌==◌, ltb, ltb→lt, ltb→le,
}
use native.Mathlib.Nat.{
  mul-le-mul_left, mul-le-mul_right, mod-eq_of_lt, one-le-pow, mod-lt, div-add-mod,
}
use native.Mathlib.Decide.{dec_le}
use go_quickjs.Base.Words.{parity}
use go_quickjs.Base.Int.{ℤ, pos_part, neg_part, floor_div, floor_div_unique, quotient_unique}
use go_quickjs.BigInt.{
  js_bigint_sign, js_bigint_new_si, js_bigint_normalize, js_bigint_shr, sign_mask, Grants,
}
use go_quickjs.BigInt.Sign.{
  single_or_more, to_int, to_int-Means, Means, IsBigInt, Yields, sign-lt, sign_bounds,
}
use go_quickjs.BigInt.Extend.{Makes-Yields, Makes-longer, js_bigint_new_plain}
use go_quickjs.BigInt.Normal.{take-IsLimb, js_bigint_normalize_exact}
use go_quickjs.BigInt.Multiply.{limb_power-add, cut_value, HasSign, HasSign-Means}
use go_quickjs.BigInt.Left.{shift_parts, limb_power_lem}
use go_quickjs.BigInt.Arrays.{mp_shr}
use go_quickjs.BigInt.Arrays.Shift.{mp_shr64_exact, limb_cut}
use go_quickjs.BigInt.Arrays.Value.{value, limb_power, value-lt}

get_or-drop : (n i : ℕ) (a : List ℕ) → get_or (drop n a) i 0 ≡ get_or a (n + i) 0
get_or-drop zero i a = let e : 0 + i ≡ i = omega arith in rw e refl
get_or-drop (suc n) i [] = refl
get_or-drop (suc n) i (x ∷ a) =
    let e : suc n + i ≡ suc (n + i) = omega arith in rw e (get_or-drop n i a)

-- Without the `n` lowest limbs.
pub drop_high :
    (n : ℕ) (a : List ℕ)
    → n < length a
    → IsBigInt a
    → IsBigInt (drop n a) × (js_bigint_sign (drop n a) ≡ js_bigint_sign a)
unfolding js_bigint_sign
drop_high n a h b =
    let (v, d, t, ok) = cut_value n a (omega arith) b.limbs_ok in
    let at_top : n + (length a - n - 1) ≡ length a - 1 = omega arith in
    let top : get_or (drop n a) (length (drop n a) - 1) 0 ≡ get_or a (length a - 1) 0 =
      rw d (get_or-drop n (length a - n - 1) a ∙ ap (λ (i : ℕ). get_or a i 0) at_top) in
    (
      record {
        limbs_ok = ok;
        nonempty = omega (arith, d);
        least = elim (single_or_more (length (drop n a)) (omega (arith, d))) [
          | inl one ↦ inl one
          | inr more ↦ elim b.least [
            | inl single ↦ absurd (omega (arith, d, more))
            | inr needs ↦
                let at_below : n + (length a - n - 2) ≡ length a - 2 = omega (arith, d, more) in
                let below : get_or (drop n a) (length (drop n a) - 2) 0
                    ≡ get_or a (length a - 2) 0 =
                  rw d
                    (get_or-drop n (length a - n - 2) a ∙ ap (λ (i : ℕ). get_or a i 0) at_below) in
                inr (rw (top, below) needs)
          ]
        ];
      },
      ap (λ (t : ℕ). t / 2 ^ 63) top,
    )

-- The number and what is dropped below it are a quotient and a remainder.
dropped :
    (n : ℕ) (a : List ℕ)
    → n < length a
    → IsBigInt a
    → (low : ℕ) × (low < limb_power n)
      × (pos_part (to_int a) + js_bigint_sign a * (limb_power n * limb_power (length a - n))
          ≡ neg_part (to_int a) + low + limb_power n * value (drop n a))
dropped n a h b =
    let (v, d, t, ok) = cut_value n a (omega arith) b.limbs_ok in
    let whole : limb_power (length a) ≡ limb_power n * limb_power (length a - n) =
      let e : length a ≡ n + (length a - n) = omega arith in
      ap limb_power e ∙ limb_power-add n (length a - n) in
    let lt = value-lt (take n a) (take-IsLimb n a b.limbs_ok) in
    (
      value (take n a),
      rw t at lt,
      omega (arith, v, to_int-Means a, ap (λ (t : ℕ). js_bigint_sign a * t) whole),
    )

-- The sign stays, since the bits of it come in from above.
shifted_sign :
    (sg v r rem m half : ℕ) (t : ℕ)
    → 1 ≤ t
    → m ≡ 2 * half
    → rem < t
    → r * t + rem ≡ v + sg * (t - 1) * m
    → HasSign sg v m
    → HasSign sg r m
shifted_sign sg v r rem m half t ht hm hr e h = elim h [
  | inl (z, lt) ↦ let e' = rw z at e in inl (z, omega (arith, e', mul-le-mul_left r ht))
  | inr (z, le) ↦
      let e' = rw z at e in
      let up : (t - 1) + 1 ≡ t = omega arith in
      inr (
        z,
        elim (dec_le m (2 * r)) [
          | yes k ↦ k
          | no k ↦
              let step : r + 1 ≤ half = omega arith in
              absurd (
                omega (
                  arith,
                  e',
                  mul-le-mul_right t step,
                  ap (λ (x : ℕ). x * m) up,
                  mul-le-mul_right half ht,
                  ap (λ (x : ℕ). x * t) hm,
                ))
        ],
      )
]

low_ones : (s : ℕ) → s ≤ 64 → (2 ^ 64 - 1) % 2 ^ s ≡ 2 ^ s - 1
low_ones s h =
    let t = 2 ^ s in
    let b = 2 ^ (64 - s) in
    let ge = one-le-pow s 2 (omega arith) in
    let ge' = one-le-pow (64 - s) 2 (omega arith) in
    let up : (b - 1) + 1 ≡ b = omega arith in
    let whole : (2 ^ 64 - 1) ≡ (b - 1) * t + (t - 1) =
      omega (arith, limb_cut s h, ge, ap (λ (x : ℕ). x * t) up) in
    let q =
      quotient_unique ((2 ^ 64 - 1) / t) (b - 1) t ((2 ^ 64 - 1) % t) (t - 1)
        (mod-lt (2 ^ 64 - 1) ge) (omega (arith, ge))
        (omega (arith, whole, div-add-mod (2 ^ 64 - 1) t)) in
    omega (arith, whole, div-add-mod (2 ^ 64 - 1) t, ap (λ (x : ℕ). x * t) q)

mask_bits : (sg s : ℕ) → sg ≤ 1 → s ≤ 64 → sign_mask sg % 2 ^ s ≡ sg * (2 ^ s - 1)
mask_bits sg s h k = elim (parity sg) [
  | inl z ↦
      let e : sg ≡ 0 = omega arith in
      rw e (mod-eq_of_lt (one-le-pow s 2 (omega arith)) ∙ omega arith)
  | inr o ↦ let e : sg ≡ 1 = omega arith in rw e (low_ones s k ∙ omega arith)
]

-- A quotient of the number, from the array that `mp_shr` leaves.
quotient_of :
    (v : ℤ) (sg high low n w m r rem p : ℕ)
    → low < n
    → rem < m
    → 1 ≤ m
    → pos_part v + sg * (n * w) ≡ neg_part v + low + n * high
    → r * m + rem ≡ high + sg * (m - 1) * w
    → p ≡ n * m
    → r + neg_part (floor_div v p) ≡ pos_part (floor_div v p) + sg * w
quotient_of v sg high low n w m r rem p hl hr hm d e hp =
    let up : (m - 1) + 1 ≡ m = omega arith in
    let lt : rem * n + low < p = omega (arith, hp, hl, mul-le-mul_right n hr) in
    omega (
      arith,
      floor_div_unique v p r (sg * w) (rem * n + low) lt (
          omega (
            arith,
            d,
            ap (λ (x : ℕ). sg * w * x) hp,
            ap (λ (x : ℕ). r * x) hp,
            ap (λ (x : ℕ). n * x) e,
            ap (λ (x : ℕ). n * sg * w * x) up,
          )),
    )

single_limb : (x p k : ℕ) → x + k ≡ p + x / 2 ^ 63 * 2 ^ 64 → Means (x ∷ []) p k
unfolding js_bigint_sign
single_limb x p k h = omega (arith, h)

-- Everything is shifted out but the sign.
shifted_out :
    (a : List ℕ) (shift1 : ℕ)
    → IsBigInt a
    → length a ≤ shift1 / 64
    → IsBigInt (sign_mask (js_bigint_sign a) ∷ [])
      × Means
          (sign_mask (js_bigint_sign a) ∷ [])
          (pos_part (floor_div (to_int a) (2 ^ shift1)))
          (neg_part (floor_div (to_int a) (2 ^ shift1)))
shifted_out a shift1 h le =
    let sg = js_bigint_sign a in
    let m = 2 ^ shift1 in
    let d = shift1 / 64 in
    let room : limb_power (length a) ≤ m =
      let e : d ≡ length a + (d - length a) = omega arith in
      let one = one-le-pow (64 * (d - length a)) 2 (omega arith) in
      let more : 1 ≤ limb_power (d - length a) =
        omega (arith, one, limb_power_lem (d - length a)) in
      omega (
        arith,
        shift_parts shift1,
        ap limb_power e ∙ limb_power-add (length a) (d - length a),
        mul-le-mul_left (limb_power (length a)) more,
        mul-le-mul_left (limb_power d) (one-le-pow (shift1 % 64) 2 (omega arith)),
      ) in
    let v = to_int-Means a in
    let one_limb : sign_mask sg < 2 ^ 64 = omega arith in
    let is : IsBigInt (sign_mask sg ∷ []) = record {
      limbs_ok = (one_limb, tt);
      nonempty = omega arith;
      least = inl refl;
    } in
    elim (sign_bounds a h.nonempty h.limbs_ok) [
      | inl (z, lt) ↦
          let v' = ap (λ (x : ℕ). x * limb_power (length a)) z in
          let u =
            floor_div_unique (to_int a) m 0 0 (value a) (omega (arith, lt, room))
              (omega (arith, v, v')) in
          (is, single_limb (sign_mask sg) _ _ (omega (arith, z, u)))
      | inr (o, le', lt) ↦
          let v' = ap (λ (x : ℕ). x * limb_power (length a)) o in
          let u =
            floor_div_unique (to_int a) m 0 1 (value a + (m - limb_power (length a)))
              (omega (arith, lt, room)) (omega (arith, v, v', room)) in
          (is, single_limb (sign_mask sg) _ _ (omega (arith, o, u)))
    ]

halves : (n : ℕ) → 1 ≤ n → limb_power n ≡ 2 * (2 ^ 63 * limb_power (n - 1))
halves zero h = absurd (omega arith)
halves (suc n) h = let e : suc n - 1 ≡ n = omega arith in rw e (omega arith)

-- The limbs that are left, when bits of them are shifted out too.
shifted_rest :
    (a : List ℕ) (shift1 : ℕ)
    → IsBigInt a
    → shift1 / 64 < length a
    → 1 ≤ shift1 % 64
    → let r =
        js_bigint_normalize
          (mp_shr (drop (shift1 / 64) a) (shift1 % 64) (sign_mask (js_bigint_sign a))).tab in
      IsBigInt r
      × Means r
          (pos_part (floor_div (to_int a) (2 ^ shift1)))
          (neg_part (floor_div (to_int a) (2 ^ shift1)))
shifted_rest a shift1 h lt lo =
    let d = shift1 / 64 in
    let s = shift1 % 64 in
    let sg = js_bigint_sign a in
    let hs : sg ≤ 1 = omega (arith, sign-lt a h.nonempty h.limbs_ok) in
    let high = drop d a in
    let (hb, same) = drop_high d a lt h in
    let (low, low_small, parts) = dropped d a lt h in
    let n : length high ≡ length a - d = (cut_value d a (omega arith) h.limbs_ok).1 in
    let (e, rem, ok, len) = mp_shr64_exact high s (sign_mask sg) lo (omega arith) hb.limbs_ok in
    let r = mp_shr high s (sign_mask sg) in
    let w = limb_power (length high) in
    let e' : value r.tab * 2 ^ s + r.out ≡ value high + sg * (2 ^ s - 1) * w =
      rw (mask_bits sg s hs (omega arith)) at e in
    let top : HasSign sg (value high) w = elim (sign_bounds high hb.nonempty hb.limbs_ok) [
      | inl (z, l) ↦ inl (sym same ∙ z, l)
      | inr (o, l, m) ↦ inr (sym same ∙ o, l)
    ] in
    let ge = one-le-pow s 2 (omega arith) in
    let sign =
      shifted_sign sg (value high) (value r.tab) r.out w (2 ^ 63 * limb_power (length high - 1))
        (2 ^ s) ge (halves (length high) hb.nonempty) rem e' top in
    let q =
      quotient_of (to_int a) sg (value high) low (limb_power d) w (2 ^ s) (value r.tab) r.out
        (2 ^ shift1) low_small rem ge (rw (sym n) at parts) e' (shift_parts shift1) in
    let ne : 1 ≤ length r.tab = omega (arith, len, hb.nonempty) in
    js_bigint_normalize_exact r.tab _ _ ne ok
      (HasSign-Means r.tab sg _ _ w ne ok (ap limb_power len) sign q)

shifted_limbs :
    (a : List ℕ) (shift1 : ℕ)
    → IsBigInt a
    → shift1 / 64 < length a
    → shift1 % 64 ≡ 0
    → IsBigInt (drop (shift1 / 64) a)
      × Means
          (drop (shift1 / 64) a)
          (pos_part (floor_div (to_int a) (2 ^ shift1)))
          (neg_part (floor_div (to_int a) (2 ^ shift1)))
shifted_limbs a shift1 h lt z =
    let d = shift1 / 64 in
    let (hb, same) = drop_high d a lt h in
    let (low, low_small, parts) = dropped d a lt h in
    let n : length (drop d a) ≡ length a - d = (cut_value d a (omega arith) h.limbs_ok).1 in
    let m : 2 ^ shift1 ≡ limb_power d = shift_parts shift1 ∙ rw z (omega arith) in
    let u =
      floor_div_unique (to_int a) (2 ^ shift1) (value (drop d a))
        (js_bigint_sign a * limb_power (length a - d)) low (omega (arith, m, low_small))
        (omega (
          arith,
          parts,
          ap (λ (x : ℕ). js_bigint_sign a * limb_power (length a - d) * x) m,
          ap (λ (x : ℕ). value (drop d a) * x) m,
        )) in
    (hb, rw (same, n) (omega (arith, u)))

-- `js_bigint_shr` divides by the power of 2 and rounds down: the result stands for that number and has
-- the least length, unless the request is not granted; it is never too large for an operand that is
-- not.
pub js_bigint_shr_exact :
    (grants : Grants) (a : List ℕ) (shift1 : ℕ)
    → IsBigInt a
    → Yields grants (length a) (floor_div (to_int a) (2 ^ shift1)) (js_bigint_shr grants a shift1)
unfolding js_bigint_shr js_bigint_new_si
js_bigint_shr_exact grants a shift1 h =
    let d = shift1 / 64 in
    let s = shift1 % 64 in
    let sg = js_bigint_sign a in
    let v = floor_div (to_int a) (2 ^ shift1) in
    Makes-Yields grants (length a) v _ (elim (Bool-cases (ltb d (length a))) [
      | inr out ↦ rw out (
          Makes-longer grants 1 (length a) _ _ _ h.nonempty
            (js_bigint_new_plain grants 0 1 _ _ _ (shifted_out a shift1 h (ltb→le _ _ out))))
      | inl t ↦
          let lt = ltb→lt _ _ t in
          let high = drop d a in
          let n : length high ≡ length a - d = (cut_value d a (omega arith) h.limbs_ok).1 in
          rw t (
            Makes-longer grants (length high) (length a) _ _ _ (omega (arith, n))
              (elim (Bool-cases (s == 0)) [
                | inl whole ↦ rw whole (
                    js_bigint_new_plain grants 0 _ _ _ _
                      (shifted_limbs a shift1 h lt (==→eq _ _ whole)))
                | inr rest ↦
                    let lo : 1 ≤ s = let ne = ==→ne _ _ rest in omega (arith, ne) in
                    rw rest (js_bigint_new_plain grants 0 _ _ _ _ (shifted_rest a shift1 h lt lo))
              ]))
    ])
