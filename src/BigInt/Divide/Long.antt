-- ===== src/BigInt/Divide/Long.antt =====
-- quickjs.c, `mp_divnorm`: all limbs of the quotient.
use go_quickjs.Base.{
  ℕ, zero, suc, ◌+◌, ◌-◌, ◌*◌, ◌^◌, ◌≤◌, ◌<◌, ◌≡◌, ◌⊎◌, inl, inr, refl, ap, ◌∙◌, arith, List, [],
  ◌∷◌, ◌++◌, length, All, get_or, take, drop, Bool-cases, false, ◌==◌, leb, if◌then◌else◌,
  length-append,
}
use native.Mathlib.Nat.{mul-le-mul_left}
use go_quickjs.BigInt.Sign.{highest_part}
use go_quickjs.BigInt.Normal.{take-IsLimb}
use go_quickjs.BigInt.Multiply.{cut_value}
use go_quickjs.BigInt.Order.{cmp_limbs-Compares}
use go_quickjs.BigInt.Arrays.{mp_sub}
use go_quickjs.BigInt.Arrays.Value.{
  IsLimb, value, limb_power, value-lt, value-append, IsLimb-append,
}
use go_quickjs.BigInt.Arrays.Linear.{mp_sub_exact}
use go_quickjs.BigInt.Reciprocal.{udiv1norm_init, mp_div1norm, threshold}
use go_quickjs.BigInt.Reciprocal.Quotient.{IsNormal}
use go_quickjs.BigInt.Reciprocal.Single.{mp_div1norm_exact64}
use go_quickjs.BigInt.Divide.{Quotients, divide_limb, divide_loop, first_limb, mp_divnorm}
use go_quickjs.BigInt.Divide.One.{Divided, divide_limb-Divided}

-- The quotient, of `n` limbs, and the rest of a division of `w` by `tabb`.
pub record Quotient (w n : ℕ) (tabb : List ℕ) (r : Quotients) : Type 0 where
  pub exact : value r.quotient * value tabb + value r.rest ≡ w
  pub small : value r.rest < value tabb
  pub quotient_ok : All IsLimb r.quotient
  pub rest_ok : All IsLimb r.rest
  pub quotient_length : length r.quotient ≡ n
  pub rest_length : length r.rest ≡ length tabb

-- The highest limb apart.
split_top :
    (r : List ℕ) (n : ℕ)
    → length r ≡ n
    → 1 ≤ n
    → All IsLimb r
    → (value r ≡ value (take (n - 1) r) + limb_power (n - 1) * get_or r (n - 1) 0)
      × (length (take (n - 1) r) ≡ n - 1)
      × All IsLimb (take (n - 1) r)
      × IsLimb (get_or r (n - 1) 0)
split_top [] n e h hr = absurd (omega arith)
split_top (x ∷ []) (suc zero) e h (hx, hr) = (omega arith, refl, tt, hx)
split_top (x ∷ []) (suc (suc n)) e h hr = absurd (omega arith)
split_top (x ∷ []) zero e h hr = absurd (omega arith)
split_top (x ∷ y ∷ r) zero e h hr = absurd (omega arith)
split_top (x ∷ y ∷ r) (suc n) e h (hx, hr) =
    let (v, l, ok, top) = split_top (y ∷ r) n (omega (arith, e)) (omega (arith, e)) hr in
    let minus : suc n - 1 ≡ suc (n - 1) = omega (arith, e) in
    rw minus (omega (arith, v), omega (arith, l), (hx, ok), top)

divide_loop-Quotient :
    (taba high tabb : List ℕ) (b1_inv : ℕ)
    → length high ≡ length tabb
    → 1 ≤ length tabb
    → All IsLimb taba
    → All IsLimb high
    → All IsLimb tabb
    → value high < value tabb
    → IsNormal (get_or tabb (length tabb - 1) 0)
    → (b1_inv ≡ 0) ⊎ (b1_inv ≡ udiv1norm_init (get_or tabb (length tabb - 1) 0))
    → Quotient
        (value taba + limb_power (length taba) * value high)
        (length taba)
        tabb
        (divide_loop taba high tabb b1_inv)
unfolding divide_loop
divide_loop-Quotient [] high tabb b1_inv el ne ha hh hb lt norm inv = record {
  exact = omega arith;
  small = lt;
  quotient_ok = tt;
  rest_ok = hh;
  quotient_length = refl;
  rest_length = el;
}
divide_loop-Quotient (x ∷ taba) high tabb b1_inv el ne (hx, ha) hh hb lt norm inv =
    let above = divide_loop taba high tabb b1_inv in
    let h = divide_loop-Quotient taba high tabb b1_inv el ne ha hh hb lt norm inv in
    let nb = length tabb in
    let (v, l, ok, top_ok) = split_top above.rest nb h.rest_length ne h.rest_ok in
    let low = x ∷ take (nb - 1) above.rest in
    let top = get_or above.rest (nb - 1) 0 in
    let power : limb_power nb ≡ 2 ^ 64 * limb_power (nb - 1) =
      let e : nb ≡ suc (nb - 1) = omega arith in ap limb_power e in
    let seen : value low + top * limb_power nb ≡ x + 2 ^ 64 * value above.rest =
      omega (arith, v, ap (λ (k : ℕ). top * k) power) in
    let s = divide_limb low top tabb b1_inv in
    let d : Divided (value low + top * limb_power nb) tabb s =
      divide_limb-Divided low top tabb b1_inv (omega (arith, l, ne)) ne (hx, ok) hb top_ok norm inv
        (omega (arith, seen, h.small, hx)) in
    record {
      exact = omega (arith, d.exact, seen, h.exact);
      small = d.small;
      quotient_ok = (d.limb_ok, h.quotient_ok);
      rest_ok = d.limbs_ok;
      quotient_length = omega (arith, h.quotient_length);
      rest_length = d.same_length;
    }

-- What is left of the highest limbs after the first iteration.
record First (high tabb : List ℕ) (q : ℕ) (rest : List ℕ) : Type 0 where
  exact : q * value tabb + value rest ≡ value high
  small : value rest < value tabb
  limbs_ok : All IsLimb rest
  same_length : length rest ≡ length tabb
  limb_small : q ≤ 1

first_limb-First :
    (high tabb : List ℕ)
    → length high ≡ length tabb
    → All IsLimb high
    → All IsLimb tabb
    → limb_power (length tabb) ≤ 2 * value tabb
    → First high tabb
        (first_limb high tabb)
        (if first_limb high tabb == 0 then high else (mp_sub high tabb 0).tab)
unfolding first_limb
first_limb-First high tabb el hh hb norm =
    let s = mp_sub high tabb 0 in
    let m = mp_sub_exact high tabb 0 el hh hb (omega arith) in
    let fits : value high < limb_power (length tabb) =
      let f = value-lt high hh in omega (arith, f, ap limb_power el) in
    let fits' : value s.tab < limb_power (length tabb) =
      let f = value-lt s.tab m.limbs_ok in omega (arith, f, ap limb_power (m.same_length ∙ el)) in
    let one : value tabb ≤ value high → First high tabb 1 s.tab = λ le.
      let p = ap (λ (k : ℕ). s.out * limb_power k) el in
      let no_borrow : s.out ≡ 0 =
        no_borrow_out s.out (limb_power (length tabb)) m.small
          (omega (arith, m.exact, p, le, fits')) in
      let e' = ap (λ (k : ℕ). k * limb_power (length high)) no_borrow in
      record {
        exact = omega (arith, m.exact, e');
        small = omega (arith, m.exact, e', norm, fits);
        limbs_ok = m.limbs_ok;
        same_length = m.same_length ∙ el;
        limb_small = omega arith;
      } in
    elim (cmp_limbs-Compares high tabb el hh hb) [
      | inl (r, lt) ↦
          rw (first_limb, r)
            (record {
              exact = omega arith;
              small = lt;
              limbs_ok = hh;
              same_length = el;
              limb_small = omega arith;
            })
      | inr t ↦ elim t [
        | inl (r, eq) ↦ rw (first_limb, r) (one (omega (arith, eq)))
        | inr (r, lt) ↦ rw (first_limb, r) (one (omega (arith, lt)))
      ]
    ]
  where
    no_borrow_out : (out p : ℕ) → out ≤ 1 → out * p < p → out ≡ 0
    no_borrow_out zero p h k = refl
    no_borrow_out (suc zero) p h k = absurd (omega arith)
    no_borrow_out (suc (suc n)) p h k = absurd (omega arith)

single-Quotient :
    (taba : List ℕ) (b : ℕ)
    → 1 ≤ length taba
    → All IsLimb taba
    → IsNormal b
    → Quotient
        (value taba)
        (length taba - 1 + 1)
        (b ∷ [])
        (record { quotient = (mp_div1norm taba b 0).tab; rest = (mp_div1norm taba b 0).out ∷ [] })
single-Quotient taba b ne ha norm =
    let d = mp_div1norm_exact64 taba b 0 norm ha (omega (arith, norm)) in
    record {
      exact = omega (arith, d.exact);
      small = omega (arith, d.small);
      quotient_ok = d.limbs_ok;
      rest_ok = (omega (arith, d.small, norm), tt);
      quotient_length = omega (arith, d.same_length, ne);
      rest_length = refl;
    }

long-Quotient :
    (taba tabb : List ℕ) (b1_inv : ℕ)
    → 1 ≤ length tabb
    → length tabb ≤ length taba
    → All IsLimb taba
    → All IsLimb tabb
    → IsNormal (get_or tabb (length tabb - 1) 0)
    → (b1_inv ≡ 0) ⊎ (b1_inv ≡ udiv1norm_init (get_or tabb (length tabb - 1) 0))
    → let n = length taba - length tabb in
      let high = drop n taba in
      let q = first_limb high tabb in
      let long =
        divide_loop (take n taba) (if q == 0 then high else (mp_sub high tabb 0).tab) tabb b1_inv in
      Quotient
        (value taba)
        (n + 1)
        tabb
        (record { quotient = long.quotient ++ (q ∷ []); rest = long.rest })
long-Quotient taba tabb b1_inv ne le ha hb norm inv =
    let n = length taba - length tabb in
    let high = drop n taba in
    let (v, d, t, ok) = cut_value n taba (omega arith) ha in
    let (lb, eb, lb_small, b1_ok, pb) = highest_part tabb ne hb in
    let half : limb_power (length tabb) ≤ 2 * value tabb =
      omega (arith, eb, pb, mul-le-mul_left (limb_power (length tabb - 1)) norm.0) in
    let f = first_limb-First high tabb (omega (arith, d)) ok hb half in
    let q = first_limb high tabb in
    let rest0 = if q == 0 then high else (mp_sub high tabb 0).tab in
    let h =
      divide_loop-Quotient (take n taba) rest0 tabb b1_inv f.same_length ne (take-IsLimb n taba ha)
        f.limbs_ok hb f.small norm inv in
    let long = divide_loop (take n taba) rest0 tabb b1_inv in
    let p = limb_power n in
    let appended : value (long.quotient ++ (q ∷ [])) ≡ value long.quotient + p * q = omega (
      arith,
      value-append long.quotient (q ∷ []),
      ap (λ (k : ℕ). limb_power k * q) (h.quotient_length ∙ t),
    ) in
    record {
      exact = omega (
        arith,
        v,
        h.exact,
        ap (λ (k : ℕ). k * value tabb) appended,
        ap (λ (k : ℕ). p * k) f.exact,
        ap (λ (k : ℕ). limb_power k * value rest0) t,
      );
      small = h.small;
      quotient_ok =
          IsLimb-append long.quotient (q ∷ []) h.quotient_ok (omega (arith, f.limb_small), tt);
      rest_ok = h.rest_ok;
      quotient_length = omega (arith, h.quotient_length, t, length-append long.quotient (q ∷ []));
      rest_length = h.rest_length;
    }

-- `mp_divnorm` is the exact division, for a divisor of which the highest bit is set: the limbs that it
-- writes are the quotient, and what it leaves is the remainder, which is below the divisor.
pub mp_divnorm_exact :
    (taba tabb : List ℕ)
    → 1 ≤ length tabb
    → length tabb ≤ length taba
    → All IsLimb taba
    → All IsLimb tabb
    → 2 ^ 63 ≤ get_or tabb (length tabb - 1) 0
    → Quotient (value taba) (length taba - length tabb + 1) tabb (mp_divnorm taba tabb)
unfolding mp_divnorm
mp_divnorm_exact taba [] ne le ha hb norm = absurd (omega arith)
mp_divnorm_exact taba (b ∷ []) ne le ha (hb, z) norm = single-Quotient taba b le ha (norm, hb)
mp_divnorm_exact taba (b ∷ c ∷ tabb) ne le ha hb norm =
    let t = b ∷ c ∷ tabb in
    let more : (length t == 1) ≡ false = ground arith in
    let (lb, eb, lb_small, b1_ok, pb) = highest_part t ne hb in
    let b1 = get_or t (length t - 1) 0 in
    let n = length taba - length t in
    rw more (elim (Bool-cases (leb threshold n)) [
      | inl e ↦ rw e (long-Quotient taba t (udiv1norm_init b1) ne le ha hb (norm, b1_ok) (inr refl))
      | inr e ↦ rw e (long-Quotient taba t 0 ne le ha hb (norm, b1_ok) (inl refl))
    ])
