-- ===== src/BigInt/Divide/One.antt =====
-- quickjs.c, `mp_divnorm`: one limb of the quotient.
use go_quickjs.Base.{
  ℕ, zero, suc, ◌+◌, ◌-◌, ◌*◌, ◌/◌, ◌%◌, ◌^◌, ◌≤◌, ◌<◌, ◌≡◌, ◌⊎◌, inl, inr, refl, ap, ◌∙◌, arith,
  List, length, All, get_or, true, false, Bool-cases, ==→eq, ==→ne, ◌==◌, ltb, leb, leb→lt,
}
use native.Mathlib.Nat.{
  mul-le-mul_right, mul-le-mul_left, lt_of_mul-lt-mul_right, mod-lt, mod-eq_of_lt,
  div-lt_iff_lt-mul, div-add-mod',
}
use native.Mathlib.Decide.{dec_lt, dec_le}
use go_quickjs.Base.Bits.{or_high_low}
use go_quickjs.Base.Int.{quotient_unique}
use go_quickjs.BigInt.Sign.{highest_part, highest_part_at}
use go_quickjs.BigInt.Arrays.{mp_add, mp_sub_mul1}
use go_quickjs.BigInt.Arrays.Value.{IsLimb, value, limb_power, value-lt}
use go_quickjs.BigInt.Arrays.Linear.{mp_add_exact, mp_sub_mul1_exact}
use go_quickjs.BigInt.Reciprocal.{udiv1norm_init}
use go_quickjs.BigInt.Reciprocal.Quotient.{IsNormal, udiv1norm_exact64}
use go_quickjs.BigInt.Divide.{Step, add_back, trial, divide_limb}

-- The limb and the rest of a division of `w` by `tabb`.
pub record Divided (w : ℕ) (tabb : List ℕ) (s : Step) : Type 0 where
  pub exact : s.limb * value tabb + value s.low ≡ w
  pub small : value s.low < value tabb
  pub limb_ok : IsLimb s.limb
  pub limbs_ok : All IsLimb s.low
  pub same_length : length s.low ≡ length tabb

-- `u` times the divisor are missing, one at least, and the limb is that much too large.
add_back-Divided :
    (q u : ℕ) (low : List ℕ) (top w r : ℕ) (tabb : List ℕ)
    → length low ≡ length tabb
    → All IsLimb low
    → All IsLimb tabb
    → IsLimb top
    → IsLimb q
    → 1 ≤ u
    → u ≤ q
    → value low + top * limb_power (length tabb) + u * value tabb
      ≡ 2 ^ 64 * limb_power (length tabb) + r
    → r < value tabb
    → (q - u) * value tabb + r ≡ w
    → Divided w tabb (add_back q low top tabb)
unfolding add_back
add_back-Divided zero u low top w r tabb el hl hb ht hq h1 hu e hr hw = absurd (omega arith)
add_back-Divided (suc q) zero low top w r tabb el hl hb ht hq h1 hu e hr hw = absurd (omega arith)
add_back-Divided (suc q) (suc zero) low top w r tabb el hl hb ht hq h1 hu e hr hw =
    let s = mp_add low tabb 0 in
    let m = mp_add_exact low tabb 0 el hl hb (omega arith) in
    let p = limb_power (length tabb) in
    let power = ap (λ (k : ℕ). s.out * limb_power k) el in
    let fits : value s.tab < p =
      let f = value-lt s.tab m.limbs_ok in omega (arith, f, ap limb_power (m.same_length ∙ el)) in
    let wraps : top + s.out ≡ 2 ^ 64 =
      quotient_unique (top + s.out) (2 ^ 64) p (value s.tab) r fits
        (omega (arith, hr, value-lt tabb hb)) (omega (arith, e, m.exact, power)) in
    let out : s.out ≡ 1 = omega (arith, wraps, m.small, ht) in
    let top_max : top ≡ 2 ^ 64 - 1 = omega (arith, wraps, out) in
    let left : value s.tab ≡ r = omega (arith, e, m.exact, power, ap (λ (k : ℕ). k * p) wraps) in
    rw (add_back, out, top_max)
      (record {
        exact = omega (arith, hw, left, ap (λ (k : ℕ). k * value tabb) (minus q));
        small = omega (arith, left, hr);
        limb_ok = omega (arith, hq);
        limbs_ok = m.limbs_ok;
        same_length = m.same_length ∙ el;
      })
  where
    minus : (q : ℕ) → suc q - 1 ≡ q
    minus q = omega arith
add_back-Divided (suc q) (suc (suc u)) low top w r tabb el hl hb ht hq h1 hu e hr hw =
    let s = mp_add low tabb 0 in
    let m = mp_add_exact low tabb 0 el hl hb (omega arith) in
    let p = limb_power (length tabb) in
    let power = ap (λ (k : ℕ). s.out * limb_power k) el in
    let below : top + s.out < 2 ^ 64 = elim (dec_lt (top + s.out) (2 ^ 64)) [
      | yes lt ↦ lt
      | no ge ↦
          let ge' : 2 ^ 64 ≤ top + s.out = omega arith in
          absurd (omega (arith, e, m.exact, power, mul-le-mul_right p ge', hr))
    ] in
    let minus : suc q - suc (suc u) ≡ q - suc u = omega arith in
    let next : (t : ℕ) → t ≡ top + s.out → Divided w tabb (add_back q s.tab t tabb) = λ t te.
      add_back-Divided q (suc u) s.tab t w r tabb (m.same_length ∙ el) m.limbs_ok hb
        (omega (arith, te, below)) (omega (arith, hq)) (omega arith) (omega (arith, hu))
        (omega (arith, e, m.exact, power, ap (λ (k : ℕ). k * p) te)) hr
        (omega (arith, hw, ap (λ (k : ℕ). k * value tabb) minus)) in
    elim (Bool-cases (s.out == 0)) [
      | inl z ↦ rw (add_back, z) (next _ (let z' = ==→eq _ _ z in rw z (omega (arith, z'))))
      | inr o ↦
          let one : s.out ≡ 1 = let ne = ==→ne _ _ o in omega (arith, ne, m.small) in
          let up : (top + 1) % 2 ^ 64 ≡ top + s.out = omega (arith, below, one) in
          let nonzero : ((top + s.out) == 0) ≡ false = ground (arith, one) in
          rw (add_back, o, up, nonzero) (next _ (rw (o, up) refl))
    ]

-- The first quotient is large enough.
trial-le :
    (top next b1 quotient d w low p b1_inv : ℕ)
    → IsLimb top
    → IsLimb next
    → IsNormal b1
    → (b1_inv ≡ 0) ⊎ (b1_inv ≡ udiv1norm_init b1)
    → w ≡ (top * 2 ^ 64 + next) * p + low
    → low < p
    → b1 * p ≤ d
    → quotient * d ≤ w
    → w < 2 ^ 64 * d
    → (quotient ≤ trial top next b1 b1_inv) × IsLimb (trial top next b1 b1_inv)
unfolding trial
trial-le top next b1 quotient d w low p b1_inv ht hn (lo, hi) inv ew hl hd hq hw =
    let n = top * 2 ^ 64 + next in
    let limb : quotient < 2 ^ 64 = lt_of_mul-lt-mul_right d (omega arith) in
    elim (Bool-cases (leb b1 top)) [
      | inl t ↦ rw t (omega (arith, limb), omega arith)
      | inr t ↦
          let lt : top < b1 = let f = leb→lt _ _ t in omega (arith, f) in
          let fits_limb : n / b1 < 2 ^ 64 =
            (div-lt_iff_lt-mul (omega arith)).1 (omega (arith, lt, mul-le-mul_right (2 ^ 64) lt)) in
          let fits : quotient * b1 < n + 1 =
            lt_of_mul-lt-mul_right p (omega (arith, ew, hl, hq, mul-le-mul_left quotient hd)) in
          let whole = div-add-mod' n b1 in
          let rest : n % b1 < b1 = mod-lt n (omega arith) in
          let le : quotient < n / b1 + 1 =
            lt_of_mul-lt-mul_right b1 (omega (arith, whole, rest, fits)) in
          let both : (quotient ≤ n / b1) × IsLimb (n / b1) = (omega (arith, le), fits_limb) in
          rw t (elim (Bool-cases (b1_inv == 0)) [
            | inl z ↦ rw (z, or_high_low 64 top next hn, mod-eq_of_lt fits_limb) both
            | inr o ↦ elim inv [
              | inl z ↦ absurd (let ne = ==→ne _ _ o in omega (arith, z, ne))
              | inr e ↦ rw (o, e, udiv1norm_exact64 b1 top next lo hi lt hn) both
            ]
          ])
    ]

-- A borrow out of the limb on top.
borrows :
    (v out : ℕ)
    → IsLimb v
    → IsLimb out
    → let a = (v + 2 ^ 64 - out) % 2 ^ 64 in
      ((ltb v a ≡ true) × (a + out ≡ v + 2 ^ 64)) ⊎ ((ltb v a ≡ false) × (a + out ≡ v))
borrows v out hv ho = elim (dec_lt v out) [
  | yes lt ↦ inl (ground arith, omega arith)
  | no ge ↦ inr (ground arith, omega arith)
]

-- The body of the loop divides the limbs it looks at, when the quotient is a limb.
pub divide_limb-Divided :
    (low : List ℕ) (v : ℕ) (tabb : List ℕ) (b1_inv : ℕ)
    → length low ≡ length tabb
    → 1 ≤ length tabb
    → All IsLimb low
    → All IsLimb tabb
    → IsLimb v
    → IsNormal (get_or tabb (length tabb - 1) 0)
    → (b1_inv ≡ 0) ⊎ (b1_inv ≡ udiv1norm_init (get_or tabb (length tabb - 1) 0))
    → value low + v * limb_power (length tabb) < 2 ^ 64 * value tabb
    → Divided (value low + v * limb_power (length tabb)) tabb (divide_limb low v tabb b1_inv)
unfolding divide_limb
divide_limb-Divided low v tabb b1_inv el ne hl hb hv norm inv hw =
    let b = value tabb in
    let p = limb_power (length tabb) in
    let w = value low + v * p in
    let b1 = get_or tabb (length tabb - 1) 0 in
    let next = get_or low (length tabb - 1) 0 in
    let (lb, eb, lb_small, b1_ok, pb) = highest_part tabb ne hb in
    let (ll, elow, ll_small, next_ok) = highest_part_at low (length tabb) el ne hl in
    let half = limb_power (length tabb - 1) in
    let w_parts : w ≡ (v * 2 ^ 64 + next) * half + ll =
      omega (arith, elow, ap (λ (k : ℕ). v * k) pb) in
    let some_b : 1 ≤ b = omega arith in
    let r = w % b in
    let whole = div-add-mod' w b in
    let r_small : r < b = mod-lt w some_b in
    let (le, q_ok) =
      trial-le v next b1 (w / b) b w ll half b1_inv hv next_ok norm inv w_parts ll_small
        (omega (arith, eb)) (omega (arith, whole)) hw in
    let q = trial v next b1 b1_inv in
    let s = mp_sub_mul1 low tabb q 0 in
    let m = mp_sub_mul1_exact low tabb q 0 el hl hb q_ok (omega arith) in
    let fits : value s.tab < p =
      let f = value-lt s.tab m.limbs_ok in omega (arith, f, ap limb_power m.same_length) in
    let b_fits : b < p = value-lt tabb hb in
    let a = (v + 2 ^ 64 - s.out) % 2 ^ 64 in
    let quotient : (w / b) + (q - w / b) ≡ q = omega (arith, le) in
    elim (borrows v s.out hv (omega (arith, m.small))) [
      | inl (t, e) ↦
          let total : value s.tab + a * p + (q - w / b) * b ≡ 2 ^ 64 * p + r =
            omega
              (arith, m.exact, whole, ap (λ (k : ℕ). k * p) e, ap (λ (k : ℕ). k * b) quotient) in
          let some_missing : 1 ≤ q - w / b = elim (dec_le 1 (q - w / b)) [
            | yes k ↦ k
            | no k ↦
                let none_missing : q - w / b ≡ 0 = omega arith in
                let a_small : a + 1 ≤ 2 ^ 64 = omega arith in
                absurd (
                  omega (
                    arith,
                    total,
                    fits,
                    ap (λ (k : ℕ). k * b) none_missing,
                    mul-le-mul_right p a_small,
                  ))
          ] in
          let back : q - (q - w / b) ≡ w / b = omega (arith, le) in
          rw t (
            add_back-Divided q (q - w / b) s.tab a w r tabb m.same_length m.limbs_ok hb
              (omega arith) q_ok some_missing (omega arith) total r_small
              (omega (arith, whole, ap (λ (k : ℕ). k * b) back)))
      | inr (f, e) ↦
          let total : value s.tab + a * p + q * b ≡ w =
            omega (arith, m.exact, ap (λ (k : ℕ). k * p) e) in
          let ge : q < w / b + 1 =
            lt_of_mul-lt-mul_right b (omega (arith, whole, total, r_small)) in
          let same : q ≡ w / b = omega (arith, ge, le) in
          let product = ap (λ (k : ℕ). k * b) same in
          let no_top : a ≡ 0 =
            quotient_unique a 0 p (value s.tab) r fits (omega (arith, r_small, b_fits))
              (omega (arith, total, product, whole)) in
          let left : value s.tab ≡ r =
            omega (arith, total, product, whole, ap (λ (k : ℕ). k * p) no_top) in
          rw f (record {
            exact = omega (arith, left, product, whole);
            small = omega (arith, left, r_small);
            limb_ok = q_ok;
            limbs_ok = m.limbs_ok;
            same_length = m.same_length;
          })
    ]
