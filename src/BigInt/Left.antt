-- ===== src/BigInt/Left.antt =====
-- quickjs.c: `js_bigint_shl`.
use go_quickjs.Base.{
  ℕ, zero, suc, ◌+◌, ◌-◌, ◌*◌, ◌/◌, ◌%◌, ◌^◌, ◌≤◌, ◌<◌, ◌≡◌, ◌≢◌, ◌⊎◌, inl, inr, refl, sym, ap, ◌∙◌,
  arith, List, [], ◌∷◌, ◌++◌, length, All, get_or, true, false, Bool-cases, ==→eq, ==→ne, ◌==◌,
  bit_or, if◌then◌else◌,
}
use native.Mathlib.Nat.{mul-le-mul_left, one-le-pow}
use go_quickjs.Base.Powers.{pow-add}
use go_quickjs.Base.Bits.{or_low_high}
use go_quickjs.Base.Words.{parity}
use go_quickjs.Base.Int.{ℤ, pos, pos_part, neg_part, ◌*ℤ◌, *ℤ_parts}
use go_quickjs.BigInt.{
  js_bigint_sign, js_bigint_new_si, js_bigint_new, js_bigint_shl, zeros, is_zero, Grants,
}
use go_quickjs.BigInt.Sign.{to_int, to_int-Means, Means, Needed, IsBigInt, Yields, sign-lt}
use go_quickjs.BigInt.Extend.{
  Makes, Makes-Yields, js_bigint_new_rule, js_bigint_new_plain, js_bigint_extend_exact,
}
use go_quickjs.BigInt.Normal.{WithTop}
use go_quickjs.BigInt.Multiply.{limb_power-add}
use go_quickjs.BigInt.Arrays.{mp_shl}
use go_quickjs.BigInt.Arrays.Shift.{mp_shl64_exact, limb_cut}
use go_quickjs.BigInt.Arrays.Value.{IsLimb, value, limb_power}

pub limb_power_lem : (n : ℕ) → limb_power n ≡ 2 ^ (64 * n)
limb_power_lem zero = refl
limb_power_lem (suc n) =
    let e : 64 * suc n ≡ 64 + 64 * n = omega arith in
    ap (λ (t : ℕ). 2 ^ 64 * t) (limb_power_lem n)
    ∙ sym (pow-add 2 64 (64 * n))
    ∙ sym (ap (λ (t : ℕ). 2 ^ t) e)

pub limb_power-positive : (n : ℕ) → 1 ≤ limb_power n
limb_power-positive n = omega (arith, limb_power_lem n, one-le-pow (64 * n) 2 (omega arith))

-- A shift by whole limbs and by the rest.
pub shift_parts : (s : ℕ) → 2 ^ s ≡ limb_power (s / 64) * 2 ^ (s % 64)
shift_parts s =
    let e : s ≡ 64 * (s / 64) + s % 64 = omega arith in
    ap (λ (t : ℕ). 2 ^ t) e
    ∙ pow-add 2 (64 * (s / 64)) (s % 64)
    ∙ ap (λ (t : ℕ). t * 2 ^ (s % 64)) (sym (limb_power_lem (s / 64)))

zeros_lem :
    (n : ℕ) (a : List ℕ)
    → All IsLimb a
    → (value (zeros n ++ a) ≡ limb_power n * value a)
      × All IsLimb (zeros n ++ a)
      × (length (zeros n ++ a) ≡ length a + n)
zeros_lem zero a h = (omega arith, h, omega arith)
zeros_lem (suc n) a h =
    let (v, ok, l) = zeros_lem n a h in (omega (arith, v), (omega arith, ok), omega (arith, l))

zeros_top :
    (n i : ℕ) (a : List ℕ)
    → i < length a
    → get_or (zeros n ++ a) (length (zeros n ++ a) - 1 - i) 0 ≡ get_or a (length a - 1 - i) 0
zeros_top zero i a h = refl
zeros_top (suc n) i a h =
    let l : length (zeros n ++ a) ≡ length a + n = length_zeros n a in
    let e : length (zeros (suc n) ++ a) - 1 - i ≡ suc (length (zeros n ++ a) - 1 - i) =
      omega (arith, l, h) in
    rw e (zeros_top n i a h)
  where
    length_zeros : (n : ℕ) (a : List ℕ) → length (zeros n ++ a) ≡ length a + n
    length_zeros zero a = omega arith
    length_zeros (suc n) a = omega (arith, length_zeros n a)

zeros_last :
    (n : ℕ) (a : List ℕ)
    → 1 ≤ length a
    → get_or (zeros n ++ a) (length (zeros n ++ a) - 1) 0 ≡ get_or a (length a - 1) 0
zeros_last n a h =
    let minus : (m : ℕ) → m - 0 ≡ m = λ m. omega arith in
    rw (minus (length (zeros n ++ a) - 1), minus (length a - 1)) at (zeros_top n 0 a h)

zero_below : (n : ℕ) (a : List ℕ) → get_or (zeros (suc n) ++ a) n 0 ≡ 0
zero_below zero a = refl
zero_below (suc n) a = zero_below n a

-- A number that is not zero, above `n` limbs of zeros.
zeros-IsBigInt : (n : ℕ) (a : List ℕ) → IsBigInt a → is_zero a ≡ false → IsBigInt (zeros n ++ a)
zeros-IsBigInt n a h nz =
    let (v, ok, l) = zeros_lem n a h.limbs_ok in
    record { limbs_ok = ok; nonempty = omega (arith, l, h.nonempty); least = top n a h nz }
  where
    top :
        (n : ℕ) (a : List ℕ)
        → IsBigInt a
        → is_zero a ≡ false
        → (length (zeros n ++ a) ≡ 1) ⊎ Needed (zeros n ++ a)
    top zero a h nz = h.least
    top (suc n) [] h nz = absurd (omega (arith, h.nonempty))
    top (suc n) (x ∷ []) h nz =
        let len = (zeros_lem (suc n) (x ∷ []) h.limbs_ok).2 in
        let at_top = zeros_last (suc n) (x ∷ []) (omega arith) in
        let two : length (zeros (suc n) ++ (x ∷ [])) - 2 ≡ n = omega (arith, len) in
        let below = zero_below n (x ∷ []) in
        let nonzero : x ≢ 0 = λ e. ground (arith, nz) in
        inr (
          (λ q. nonzero (omega (arith, q.0, at_top))),
          (λ q. let r = rw (two, below) at q.1 in omega (arith, r)),
        )
    top (suc n) (x ∷ y ∷ a) h nz =
        let t = x ∷ y ∷ a in
        let r = zeros (suc n) ++ t in
        let at_top = zeros_last (suc n) t (omega arith) in
        let minus : (m : ℕ) → m - 1 - 1 ≡ m - 2 = λ m. omega arith in
        let at_below =
          rw (minus (length r), minus (length t)) at (zeros_top (suc n) 1 t (omega arith)) in
        elim h.least [
          | inl one ↦ absurd (omega arith)
          | inr needs ↦ inr (rw (at_top, at_below) needs)
        ]

pub low_shift : (s : ℕ) → s < 64 → 2 ^ s ≤ 2 ^ 63
low_shift s h =
    let e : s + (63 - s) ≡ 63 = omega arith in
    let p = sym (pow-add 2 s (63 - s)) ∙ ap (λ (k : ℕ). 2 ^ k) e in
    omega (arith, p, mul-le-mul_left (2 ^ s) (one-le-pow (63 - s) 2 (omega arith)))

-- The bits that `mp_shl` returns, with the sign above them.
or_sign :
    (s u : ℕ) → s < 64 → u < 2 ^ s → bit_or u ((2 ^ 64 - 1) * 2 ^ s % 2 ^ 64) ≡ u + (2 ^ 64 - 2 ^ s)
or_sign s u hs hu =
    let cut = limb_cut s (omega arith) in
    let b = 2 ^ (64 - s) in
    let ge : 1 ≤ b = one-le-pow (64 - s) 2 (omega arith) in
    let less : (b - 1) * 2 ^ s + 2 ^ s ≡ b * 2 ^ s =
      let up : (b - 1) + 1 ≡ b = omega arith in omega (arith, ap (λ (t : ℕ). t * 2 ^ s) up) in
    let whole : (2 ^ 64 - 1) * 2 ^ s % 2 ^ 64 ≡ (b - 1) * 2 ^ s =
      omega (arith, less, cut, low_shift s hs, one-le-pow s 2 (omega arith)) in
    rw whole (or_low_high s (b - 1) u hu ∙ omega (arith, less, cut))

-- The limb above the shifted ones.
shl_top :
    (a : List ℕ) (s d out low p k : ℕ)
    → s < 64
    → js_bigint_sign a ≤ 1
    → out < 2 ^ s
    → low + out * limb_power (length a) ≡ value a * 2 ^ s
    → Means a p k
    → let l = if js_bigint_sign a == 0 then out else bit_or out ((2 ^ 64 - 1) * 2 ^ s % 2 ^ 64) in
      IsLimb l
      × (limb_power d * low
            + l * (limb_power (length a) * limb_power d)
            + k * (limb_power d * 2 ^ s)
          ≡ p * (limb_power d * 2 ^ s)
            + l / 2 ^ 63 * (2 ^ 64 * (limb_power (length a) * limb_power d)))
shl_top a s d out low p k hs hb ho e m =
    let small = low_shift s hs in
    let e' = ap (λ (t : ℕ). limb_power d * t) e in
    let m' = ap (λ (t : ℕ). t * (limb_power d * 2 ^ s)) m in
    elim (parity (js_bigint_sign a)) [
      | inl z ↦
          let z' : js_bigint_sign a ≡ 0 = omega arith in
          let l0 : out / 2 ^ 63 ≡ 0 = omega arith in
          rw (z') (omega arith, rw l0 (omega (arith, e', rw z' at m')))
      | inr o ↦
          let o' : js_bigint_sign a ≡ 1 = omega arith in
          rw (o', or_sign s out hs ho)
            (let l1 : (out + (2 ^ 64 - 2 ^ s)) / 2 ^ 63 ≡ 1 = omega arith in
              let c : (out + (2 ^ 64 - 2 ^ s)) + 2 ^ s ≡ out + 2 ^ 64 = omega arith in
              (
                omega arith,
                rw l1 (
                    omega (
                      arith,
                      e',
                      rw o' at m',
                      ap (λ (t : ℕ). t * (limb_power (length a) * limb_power d)) c,
                    )),
              ))
    ]

pub zero-Makes :
    (grants : Grants) (j len p k : ℕ) → p ≡ k → Makes grants len p k (js_bigint_new_si grants j 0)
unfolding js_bigint_new_si js_bigint_new js_bigint_sign
zero-Makes grants j len p k e =
    let zero_ok : IsBigInt (0 ∷ []) = record {
      limbs_ok = (omega arith, tt);
      nonempty = omega arith;
      least = inl refl;
    } in
    elim (Bool-cases (grants j 1)) [
      | inl g ↦ rw g (zero_ok, omega (arith, e))
      | inr g ↦ rw g (j, 1, g)
    ]

pub is_zero-to_int : (a : List ℕ) → is_zero a ≡ true → to_int a ≡ pos 0
unfolding js_bigint_sign
is_zero-to_int [] e = absurd (ground (arith, e))
is_zero-to_int (x ∷ []) e = let z : x ≡ 0 = ground (arith, e) in rw z refl
is_zero-to_int (x ∷ y ∷ a) e = absurd (ground (arith, e))

shift_whole :
    (a : List ℕ) (d m p k : ℕ)
    → IsBigInt a
    → is_zero a ≡ false
    → m ≡ limb_power d * 2 ^ 0
    → p + neg_part (to_int a) * m ≡ k + pos_part (to_int a) * m
    → IsBigInt (zeros d ++ a) × Means (zeros d ++ a) p k
unfolding js_bigint_sign
shift_whole a d m p k h nz em e =
    let (v, ok, l) = zeros_lem d a h.limbs_ok in
    let top = zeros_last d a h.nonempty in
    let power : limb_power (length (zeros d ++ a)) ≡ limb_power (length a) * limb_power d =
      ap limb_power l ∙ limb_power-add (length a) d in
    let m' = ap (λ (t : ℕ). limb_power d * t) (to_int-Means a) in
    let e' = rw em at e in (zeros-IsBigInt d a h nz, rw (top, power) (omega (arith, v, m', e')))

scaled-WithTop :
    (r : List ℕ) (l p k m w u q n : ℕ)
    → value r ≡ u
    → limb_power (length r) ≡ w
    → u + l * w + n * m ≡ q * m + l / 2 ^ 63 * (2 ^ 64 * w)
    → p + n * m ≡ k + q * m
    → WithTop r l p k
scaled-WithTop r l p k m w u q n v power e parts = rw power (omega (arith, v, e, parts))

-- `js_bigint_shl` multiplies with the power of 2: the result stands for that number and has the least
-- length, unless it would be too large or a request is not granted.
pub js_bigint_shl_exact :
    (grants : Grants) (a : List ℕ) (shift1 : ℕ)
    → IsBigInt a
    → Yields grants
        (length a + shift1 / 64)
        (to_int a *ℤ pos (2 ^ shift1))
        (js_bigint_shl grants a shift1)
unfolding js_bigint_shl
js_bigint_shl_exact grants a shift1 h =
    let d = shift1 / 64 in
    let s = shift1 % 64 in
    let n = length a + d in
    let v = to_int a *ℤ pos (2 ^ shift1) in
    let m = limb_power d * 2 ^ s in
    let parts : pos_part v + neg_part (to_int a) * m ≡ neg_part v + pos_part (to_int a) * m =
      omega (
        arith,
        *ℤ_parts (to_int a) (pos (2 ^ shift1)),
        ap (λ (t : ℕ). neg_part (to_int a) * t) (shift_parts shift1),
        ap (λ (t : ℕ). pos_part (to_int a) * t) (shift_parts shift1),
      ) in
    Makes-Yields grants n v _ (elim (Bool-cases (is_zero a)) [
      | inl z ↦
          let e = is_zero-to_int a z in
          let no_pos = ap (λ (t : ℤ). pos_part t * m) e in
          let no_neg = ap (λ (t : ℤ). neg_part t * m) e in
          rw z
            (zero-Makes grants 0 n (pos_part v) (neg_part v) (omega (arith, parts, no_pos, no_neg)))
      | inr nz ↦ rw nz (elim (Bool-cases (s == 0)) [
        | inl whole ↦
            let m0 : m ≡ limb_power d * 2 ^ 0 =
              ap (λ (t : ℕ). limb_power d * 2 ^ t) (==→eq _ _ whole) in
            rw whole (js_bigint_new_plain grants 0 n _ _ _ (shift_whole a d m _ _ h nz m0 parts))
        | inr rest ↦
            let lo : 1 ≤ s = let ne = ==→ne _ _ rest in omega (arith, ne) in
            let hi : s < 64 = omega arith in
            let (e, out, ok, len) =
              mp_shl64_exact a s 0 lo hi h.limbs_ok (one-le-pow s 2 (omega arith)) in
            let up = mp_shl a s 0 in
            let (v', ok', len') = zeros_lem d up.tab ok in
            let len'' : length (zeros d ++ up.tab) ≡ n = omega (arith, len, len') in
            let power : limb_power (length (zeros d ++ up.tab))
                ≡ limb_power (length a) * limb_power d =
              ap limb_power len'' ∙ limb_power-add (length a) d in
            let (top_ok, top) =
              shl_top a s d up.out (value up.tab) _ _ hi
                (omega (arith, sign-lt a h.nonempty h.limbs_ok)) out (omega (arith, e))
                (to_int-Means a) in
            rw rest (
              js_bigint_new_rule grants 0 n _ _ (zeros d ++ up.tab) _ (
                js_bigint_extend_exact grants 1 n _ _ (zeros d ++ up.tab) _
                  (omega (arith, len'', h.nonempty)) ok' top_ok
                  (scaled-WithTop (zeros d ++ up.tab) _ _ _ _ _ _ _ _ v' power top parts)))
      ])
    ])
