-- ===== src/BigInt/Normal.antt =====
-- quickjs.c: `js_bigint_normalize` and `js_bigint_extend`.
use go_quickjs.Base.{
  ℕ, zero, suc, ◌+◌, ◌-◌, ◌*◌, ◌/◌, ◌^◌, ◌≤◌, ◌<◌, ◌≡◌, ◌⊎◌, inl, inr, refl, ap, ◌∙◌, arith, List,
  [], ◌∷◌, ◌++◌, length, get_or, take, All, Bool, true, false, ◌&&◌, ◌||◌, not, ◌==◌, bit_and,
  Bool-cases, length-take, length-append, get_or-take,
}
use native.Mathlib.Decide.{ℕ_discrete}
use go_quickjs.Base.Bits.{and_mask}
use go_quickjs.BigInt.{js_bigint_sign, normal_len, js_bigint_normalize1, js_bigint_normalize}
use go_quickjs.BigInt.Sign.{Means, Needed, IsBigInt, sign-append, sign-lt}
use go_quickjs.BigInt.Arrays.Value.{IsLimb, value, limb_power, value-append}

take-suc : (n : ℕ) (a : List ℕ) → n < length a → take (suc n) a ≡ take n a ++ (get_or a n 0 ∷ [])
take-suc n [] h = absurd (omega arith)
take-suc zero (x ∷ a) h = refl
take-suc (suc n) (x ∷ a) h = ap (λ (t : List ℕ). x ∷ t) (take-suc n a (omega arith))

pub take-IsLimb : (n : ℕ) (a : List ℕ) → All IsLimb a → All IsLimb (take n a)
take-IsLimb zero a h = tt
take-IsLimb (suc n) [] h = tt
take-IsLimb (suc n) (x ∷ a) (p, h) = (p, take-IsLimb n a h)

pub get_or-IsLimb : (n : ℕ) (a : List ℕ) → All IsLimb a → IsLimb (get_or a n 0)
get_or-IsLimb n [] h = omega arith
get_or-IsLimb zero (x ∷ a) (p, h) = p
get_or-IsLimb (suc n) (x ∷ a) (p, h) = get_or-IsLimb n a h

pub take_all : (a : List ℕ) → take (length a) a ≡ a
take_all [] = refl
take_all (x ∷ a) = ap (λ (t : List ℕ). x ∷ t) (take_all a)

-- The first `n + 1` limbs.
pub prefix :
    (n : ℕ) (a : List ℕ)
    → n < length a
    → (length (take (suc n) a) ≡ suc n)
      × (value (take (suc n) a) ≡ value (take n a) + limb_power n * get_or a n 0)
      × (js_bigint_sign (take (suc n) a) ≡ get_or a n 0 / 2 ^ 63)
prefix n a h =
    let e = take-suc n a h in
    let l : length (take n a) ≡ n = omega (arith, length-take n a) in
    (
      omega (arith, length-take (suc n) a),
      rw e (value-append (take n a) (get_or a n 0 ∷ []) ∙ rw l (omega arith)),
      rw e (sign-append (take n a) (get_or a n 0)),
    )

-- What the loop keeps: the number, and in the end a limb on top that is needed.
record Shortened (n m : ℕ) (a : List ℕ) : Type 0 where
  shorter : m ≤ n
  nonempty : 1 ≤ m
  same : (p k : ℕ) → Means (take n a) p k → Means (take m a) p k
  least : (m ≡ 1) ⊎ Needed (take m a)

-- The test of the loop, on the limb on top and the one below.
abbrev pub redundant : ℕ → ℕ → Bool
redundant v below = (not (v == 0) && not (v == 2 ^ 64 - 1)) || not (bit_and v 1 == below / 2 ^ 63)

pub redundant-false :
    (v below : ℕ)
    → IsLimb v
    → IsLimb below
    → redundant v below ≡ false
    → ((v ≡ 0) × (below < 2 ^ 63)) ⊎ ((v ≡ 2 ^ 64 - 1) × (2 ^ 63 ≤ below))
redundant-false v below hv hb e = elim (ℕ_discrete v 0) [
  | yes z ↦ inl (z, ground (arith, and_mask 1 v))
  | no n ↦ inr (ground (arith, and_mask 1 v))
]

pub redundant-true :
    (v below : ℕ)
    → IsLimb v
    → IsLimb below
    → redundant v below ≡ true
    → ¬ ((v ≡ 0) × (below < 2 ^ 63)) × ¬ ((v ≡ 2 ^ 64 - 1) × (2 ^ 63 ≤ below))
redundant-true v below hv hb e =
    (λ h. ground (arith, and_mask 1 v), λ h. ground (arith, and_mask 1 v))

-- Without a redundant limb on top.
drop_top :
    (p k v below : ℕ) (a b : List ℕ) (n : ℕ)
    → length a ≡ suc n
    → length b ≡ suc (suc n)
    → value b ≡ value a + limb_power (suc n) * v
    → js_bigint_sign a ≡ below / 2 ^ 63
    → js_bigint_sign b ≡ v / 2 ^ 63
    → ((v ≡ 0) × (below < 2 ^ 63)) ⊎ ((v ≡ 2 ^ 64 - 1) × (2 ^ 63 ≤ below))
    → below < 2 ^ 64
    → Means b p k
    → Means a p k
drop_top p k v below a b n la lb vb sa sb o hb m =
    let m' : value b + k ≡ p + v / 2 ^ 63 * limb_power (suc (suc n)) = rw (sb, lb) at m in
    elim o [
      | inl (z, lt) ↦
          let s : js_bigint_sign a ≡ 0 = omega arith in
          let m'' : value b + k ≡ p + 0 * limb_power (suc (suc n)) = rw z at m' in
          let vb' : value b ≡ value a + limb_power (suc n) * 0 = rw z at vb in
          rw s (omega (arith, m'', vb'))
      | inr (z, ge) ↦
          let s : js_bigint_sign a ≡ 1 = omega arith in
          let m'' : value b + k ≡ p + 1 * limb_power (suc (suc n)) = rw z at m' in
          let vb' : value b ≡ value a + limb_power (suc n) * (2 ^ 64 - 1) = rw z at vb in
          rw (s, la) (omega (arith, m'', vb'))
    ]

needed :
    (n : ℕ) (a : List ℕ)
    → suc (suc n) ≤ length a
    → ¬ ((get_or a (suc n) 0 ≡ 0) × (get_or a n 0 < 2 ^ 63))
      × ¬ ((get_or a (suc n) 0 ≡ 2 ^ 64 - 1) × (2 ^ 63 ≤ get_or a n 0))
    → Needed (take (suc (suc n)) a)
needed n a h keep =
    let l : length (take (suc (suc n)) a) ≡ suc (suc n) = (prefix (suc n) a h).0 in
    let one : suc (suc n) - 1 ≡ suc n = omega arith in
    let two : suc (suc n) - 2 ≡ n = omega arith in
    rw
      (
        l,
        one,
        two,
        get_or-take (suc (suc n)) (suc n) a 0 (omega arith),
        get_or-take (suc (suc n)) n a 0 (omega arith),
      )
      keep

normal_len-Shortened :
    (n : ℕ) (a : List ℕ) → 1 ≤ n → n ≤ length a → All IsLimb a → Shortened n (normal_len n a) a
unfolding normal_len
normal_len-Shortened zero a lo hi h = absurd (omega arith)
normal_len-Shortened (suc zero) a lo hi h = record {
  shorter = omega arith;
  nonempty = omega arith;
  same = λ p k m. m;
  least = inl refl;
}
normal_len-Shortened (suc (suc n)) a lo hi h =
    let v = get_or a (suc n) 0 in
    let below = get_or a n 0 in
    let (l2, v2, s2) = prefix (suc n) a (omega arith) in
    let (l1, v1, s1) = prefix n a (omega arith) in
    let hv = get_or-IsLimb (suc n) a h in
    let hb = get_or-IsLimb n a h in
    elim (Bool-cases (redundant v below)) [
      | inr e ↦
          let r = normal_len-Shortened (suc n) a (omega arith) (omega arith) h in
          rw e (record {
            shorter = omega (arith, r.shorter);
            nonempty = r.nonempty;
            same = λ p k m. r.same p k (
                drop_top p k v below (take (suc n) a) (take (suc (suc n)) a) n l1 l2 v2 s1 s2
                  (redundant-false v below hv hb e) hb m);
            least = r.least;
          })
      | inl e ↦ rw e (record {
        shorter = omega arith;
        nonempty = omega arith;
        same = λ p k m. m;
        least = inr (needed n a hi (redundant-true v below hv hb e));
      })
    ]

-- `js_bigint_normalize` keeps the number and leaves the least length for it.
pub js_bigint_normalize_exact :
    (a : List ℕ) (p k : ℕ)
    → 1 ≤ length a
    → All IsLimb a
    → Means a p k
    → IsBigInt (js_bigint_normalize a) × Means (js_bigint_normalize a) p k
unfolding js_bigint_normalize js_bigint_normalize1
js_bigint_normalize_exact a p k h hl m =
    let n = normal_len (length a) a in
    let s = normal_len-Shortened (length a) a h (omega arith) hl in
    let len : length (take n a) ≡ n = omega (arith, length-take n a, s.shorter) in
    (
      record {
        limbs_ok = take-IsLimb n a hl;
        nonempty = omega (arith, len, s.nonempty);
        least = elim s.least [ inl one ↦ inl (omega (arith, len)) | inr top ↦ inr top ];
      },
      s.same p k (rw (take_all a) m),
    )

-- In two's complement with one limb more, `op1`, the array `r` would stand for `p - k`.
abbrev pub WithTop : List ℕ → ℕ → ℕ → ℕ → Type 0
WithTop r op1 p k =
    value r + op1 * limb_power (length r) + k ≡ p + op1 / 2 ^ 63 * (2 ^ 64 * limb_power (length r))

pub WithTop-Means : (r : List ℕ) (op1 p k : ℕ) → WithTop r op1 p k → Means (r ++ (op1 ∷ [])) p k
WithTop-Means r op1 p k w =
    let l : length (r ++ (op1 ∷ [])) ≡ suc (length r) = omega (arith, length-append r (op1 ∷ [])) in
    rw (l, sign-append r op1) (omega (arith, w, value-append r (op1 ∷ [])))

-- The limb on top is given by the sign already.
pub same_without :
    (r : List ℕ) (op1 p k : ℕ)
    → 1 ≤ length r
    → All IsLimb r
    → IsLimb op1
    → redundant op1 (js_bigint_sign r * 2 ^ 63) ≡ false
    → WithTop r op1 p k
    → Means r p k
same_without r op1 p k ne hl ho e w =
    let two = sign-lt r ne hl in
    elim (redundant-false op1 (js_bigint_sign r * 2 ^ 63) ho (omega (arith, two)) e) [
      | inl (z, lt) ↦
          let s : js_bigint_sign r ≡ 0 = omega arith in
          let w' : value r + 0 * limb_power (length r) + k
              ≡ p + 0 * (2 ^ 64 * limb_power (length r)) =
            rw z at w in
          rw s (omega (arith, w'))
      | inr (z, ge) ↦
          let s : js_bigint_sign r ≡ 1 = omega (arith, two) in
          let w' : value r + (2 ^ 64 - 1) * limb_power (length r) + k
              ≡ p + 1 * (2 ^ 64 * limb_power (length r)) =
            rw z at w in
          rw s (omega (arith, w'))
    ]
