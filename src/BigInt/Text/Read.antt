-- ===== src/BigInt/Text/Read.antt =====
-- quickjs.c: the decimal digits of `js_bigint_from_string`, group by group.
use go_quickjs.Base.{
  ℕ, zero, suc, ◌+◌, ◌-◌, ◌*◌, ◌%◌, ◌^◌, ◌≤◌, ◌<◌, ◌≡◌, ◌⊎◌, ◌++◌, inl, inr, refl, sym, ap, ◌∙◌,
  arith, List, [], ◌∷◌, length, All, get_or, leb, leb→le, length-append, true, false, ◌&&◌,
  Bool-cases, ◌==◌, ==→eq, ==→ne,
}
use native.Mathlib.Nat.{pow-suc, mod-eq_of_lt, mul-le-mul_left, one-le-pow}
use go_quickjs.Base.Tables.{holds_below, holds_below_at}
use go_quickjs.BigInt.Arrays.{mp_mul1}
use go_quickjs.BigInt.Arrays.Value.{IsLimb, value, limb_power, value-append, IsLimb-append}
use go_quickjs.BigInt.Arrays.Linear.{mp_mul1_exact64}
use go_quickjs.BigInt.Text.{to_digit, js_pow_dec, Group, read_group, push_group, decimal_loop}

-- The characters from 0 to 9.
abbrev pub IsDecimal : ℕ → Type 0
IsDecimal c = (48 ≤ c) × (c ≤ 57)

-- The number that the digits stand for, after `v`.
abbrev pub decimal : List ℕ → ℕ → ℕ
decimal [] v = v
decimal (c ∷ p) v = decimal p (v * 10 + (c - 48))

-- What a group keeps.
record Taken (before : ℕ) (p : List ℕ) (i v : ℕ) (g : Group) : Type 0 where
  same : (r : ℕ) → decimal p (r * 10 ^ i + v) ≡ decimal g.rest (r * 10 ^ g.count + g.digits)
  small : g.digits < 10 ^ g.count
  count_le : g.count ≤ before
  count_ge : i ≤ g.count
  rest_ok : All IsDecimal g.rest
  rest_length : length g.rest + g.count ≡ length p + i

digit_value : (c : ℕ) → IsDecimal c → (to_digit c ≡ c - 48) × (leb 10 (to_digit c) ≡ false)
unfolding to_digit
digit_value c (lo, hi) = ground arith

pow_fits : (i : ℕ) → i ≤ 19 → 10 ^ i ≤ 10 ^ 19
unfolding holds_below
pow_fits i h =
    leb→le _ _ (holds_below_at (λ (n : ℕ). leb (10 ^ n) (10 ^ 19)) 20 i refl (omega arith))

table_value : (i : ℕ) → i ≤ 19 → get_or js_pow_dec i 0 ≡ 10 ^ i
unfolding holds_below
table_value i h =
    ==→eq _ _ (holds_below_at (λ (n : ℕ). get_or js_pow_dec n 0 == 10 ^ n) 20 i refl (omega arith))

read_group-Taken :
    (n : ℕ) (p : List ℕ) (i v : ℕ)
    → All IsDecimal p
    → v < 10 ^ i
    → n + i ≤ 19
    → Taken 19 p i v (read_group n p i v)
unfolding read_group
read_group-Taken zero p i v h lt le = record {
  same = λ r. refl;
  small = lt;
  count_le = omega arith;
  count_ge = omega arith;
  rest_ok = h;
  rest_length = refl;
}
read_group-Taken (suc n) [] i v h lt le = record {
  same = λ r. refl;
  small = lt;
  count_le = omega arith;
  count_ge = omega arith;
  rest_ok = tt;
  rest_length = refl;
}
read_group-Taken (suc n) (c ∷ p) i v (hc, h) lt le =
    let (d, small) = digit_value c hc in
    let power = pow-suc 10 i in
    let next = v * 10 + (c - 48) in
    let fits : next < 10 ^ suc i = omega (arith, power, lt, hc.1) in
    let word : next % 2 ^ 64 ≡ next =
      mod-eq_of_lt (omega (arith, fits, pow_fits (suc i) (omega arith))) in
    let t = read_group-Taken n p (suc i) next h fits (omega arith) in
    rw (small, d, word)
      (record {
        same = λ r.
            let e : (r * 10 ^ i + v) * 10 + (c - 48) ≡ r * 10 ^ suc i + next =
              omega (arith, ap (λ (x : ℕ). r * x) power) in
            ap (λ (x : ℕ). decimal p x) e ∙ t.same r;
        small = t.small;
        count_le = t.count_le;
        count_ge = omega (arith, t.count_ge);
        rest_ok = t.rest_ok;
        rest_length = omega (arith, t.rest_length);
      })

-- An array of limbs that is not empty and stands for `v`.
pub record Reads (v : ℕ) (r : List ℕ) : Type 0 where
  pub same : value r ≡ v
  pub limbs_ok : All IsLimb r
  pub nonempty : 1 ≤ length r

single_zero : (r : List ℕ) → (length r == 1 && get_or r 0 0 == 0) ≡ true → value r ≡ 0
single_zero [] e = refl
single_zero (x ∷ []) e = ground (arith, e)
single_zero (x ∷ y ∷ r) e = absurd (ground (arith, e))

push_group-Reads :
    (r : List ℕ) (g : Group)
    → 1 ≤ length r
    → All IsLimb r
    → g.count ≤ 19
    → g.digits < 10 ^ g.count
    → Reads (value r * 10 ^ g.count + g.digits) (push_group r g)
unfolding push_group
push_group-Reads r g ne h le lt =
    let fits = pow_fits g.count le in
    let limb : IsLimb g.digits = omega (arith, fits, lt) in
    let b = get_or js_pow_dec g.count 0 in
    let eb = table_value g.count le in
    let w = mp_mul1_exact64 r b g.digits h (omega (arith, eb, fits)) limb in
    let up = mp_mul1 r b g.digits in
    let exact : value up.tab + up.out * limb_power (length r) ≡ value r * 10 ^ g.count + g.digits =
      omega (arith, w.exact, ap (λ (x : ℕ). value r * x) eb) in
    elim (Bool-cases (length r == 1 && get_or r 0 0 == 0)) [
      | inl z ↦
          let none_yet = ap (λ (x : ℕ). x * 10 ^ g.count) (single_zero r z) in
          rw z (record {
            same = omega (arith, none_yet);
            limbs_ok = (limb, tt);
            nonempty = omega arith;
          })
      | inr o ↦ rw o (elim (Bool-cases (up.out == 0)) [
        | inl z ↦
            let no_out = ap (λ (x : ℕ). x * limb_power (length r)) (==→eq _ _ z) in
            rw z (record {
              same = omega (arith, exact, no_out);
              limbs_ok = w.limbs_ok;
              nonempty = omega (arith, w.same_length, ne);
            })
        | inr some_out ↦
            let top = ap (λ (n : ℕ). limb_power n * up.out) w.same_length in
            rw some_out (record {
              same = omega (arith, exact, top, value-append up.tab (up.out ∷ []));
              limbs_ok = IsLimb-append up.tab (up.out ∷ []) w.limbs_ok (omega (arith, w.small), tt);
              nonempty = omega (arith, w.same_length, ne, length-append up.tab (up.out ∷ []));
            })
      ])
    ]

no_digits_left : (p : List ℕ) → All IsDecimal p → (read_group 19 p 0 0).count ≡ 0 → p ≡ []
unfolding read_group
no_digits_left [] h e = refl
no_digits_left (c ∷ p) (hc, h) e =
    let (d, small) = digit_value c hc in
    let word : (0 * 10 + (c - 48)) % 2 ^ 64 ≡ c - 48 = omega (arith, hc.1) in
    let t = read_group-Taken 18 p 1 (c - 48) h (omega (arith, hc.1)) (omega arith) in
    absurd (let e' = rw (small, d, word) at e in omega (arith, e', t.count_ge))

-- The outer loop of `js_bigint_from_string` ends: with as much fuel as there are digits it has read
-- all of them, and the array stands for the number that they add to the one before.
pub decimal_loop-Reads :
    (fuel : ℕ) (p r : List ℕ)
    → length p ≤ fuel
    → All IsDecimal p
    → All IsLimb r
    → 1 ≤ length r
    → Reads (decimal p (value r)) (decimal_loop fuel p r)
unfolding decimal_loop
decimal_loop-Reads zero [] r le hp hr ne = record { same = refl; limbs_ok = hr; nonempty = ne }
decimal_loop-Reads zero (c ∷ p) r le hp hr ne = absurd (omega arith)
decimal_loop-Reads (suc fuel) p r le hp hr ne =
    let g = read_group 19 p 0 0 in
    let t = read_group-Taken 19 p 0 0 hp (omega arith) (omega arith) in
    let q = push_group-Reads r g ne hr t.count_le t.small in
    elim (Bool-cases (g.count == 0)) [
      | inl z ↦
          let e = no_digits_left p hp (==→eq _ _ z) in
          rw z (record { same = rw e refl; limbs_ok = hr; nonempty = ne })
      | inr o ↦
          let some_taken = ==→ne _ _ o in
          let h =
            decimal_loop-Reads fuel g.rest (push_group r g)
              (omega (arith, t.rest_length, le, some_taken)) t.rest_ok q.limbs_ok q.nonempty in
          let start : value r * 10 ^ 0 + 0 ≡ value r = omega arith in
          rw o (record {
            same =
                h.same
                ∙ ap (λ (x : ℕ). decimal g.rest x) q.same
                ∙ sym (t.same (value r))
                ∙ ap (λ (x : ℕ). decimal p x) start;
            limbs_ok = h.limbs_ok;
            nonempty = h.nonempty;
          })
    ]

-- No limb of the array is superfluous.
abbrev pub NoExcess : List ℕ → Type 0
NoExcess r = (length r ≡ 1) ⊎ (limb_power (length r - 1) ≤ value r)

push_group-NoExcess :
    (r : List ℕ) (g : Group)
    → 1 ≤ length r
    → All IsLimb r
    → g.count ≤ 19
    → g.digits < 10 ^ g.count
    → NoExcess r
    → NoExcess (push_group r g)
unfolding push_group
push_group-NoExcess r g ne h le lt ex =
    let fits = pow_fits g.count le in
    let b = get_or js_pow_dec g.count 0 in
    let eb = table_value g.count le in
    let w = mp_mul1_exact64 r b g.digits h (omega (arith, eb, fits)) (omega (arith, fits, lt)) in
    let up = mp_mul1 r b g.digits in
    elim (Bool-cases (length r == 1 && get_or r 0 0 == 0)) [
      | inl z ↦ rw z (inl refl)
      | inr o ↦ rw o (elim (Bool-cases (up.out == 0)) [
        | inl z ↦
            let no_out = ap (λ (x : ℕ). x * limb_power (length r)) (==→eq _ _ z) in
            let grown = mul-le-mul_left (value r) (one-le-pow g.count 10 (omega arith)) in
            let exact = ap (λ (x : ℕ). value r * x) eb in
            rw (z, w.same_length)
              (elim ex [
                | inl one ↦ inl one
                | inr most ↦ inr (omega (arith, most, w.exact, no_out, grown, exact))
              ])
        | inr some_out ↦
            let l : length (up.tab ++ (up.out ∷ [])) ≡ suc (length r) =
              omega (arith, w.same_length, length-append up.tab (up.out ∷ [])) in
            let one : suc (length r) - 1 ≡ length r = omega arith in
            let top = ap (λ (n : ℕ). limb_power n * up.out) w.same_length in
            let pos : 1 ≤ up.out = let n = ==→ne _ _ some_out in omega (arith, n) in
            rw (some_out, l, one)
              (inr (
                omega (
                  arith,
                  value-append up.tab (up.out ∷ []),
                  top,
                  mul-le-mul_left (limb_power (length r)) pos,
                )))
      ])
    ]

-- The array grows only by a limb that is not 0.
pub decimal_loop-NoExcess :
    (fuel : ℕ) (p r : List ℕ)
    → All IsDecimal p
    → All IsLimb r
    → 1 ≤ length r
    → NoExcess r
    → NoExcess (decimal_loop fuel p r)
unfolding decimal_loop
decimal_loop-NoExcess zero p r hp hr ne ex = ex
decimal_loop-NoExcess (suc fuel) p r hp hr ne ex =
    let g = read_group 19 p 0 0 in
    let t = read_group-Taken 19 p 0 0 hp (omega arith) (omega arith) in
    let q = push_group-Reads r g ne hr t.count_le t.small in
    elim (Bool-cases (g.count == 0)) [
      | inl z ↦ rw z ex
      | inr o ↦ rw o (
          decimal_loop-NoExcess fuel g.rest (push_group r g) t.rest_ok q.limbs_ok q.nonempty
            (push_group-NoExcess r g ne hr t.count_le t.small ex))
    ]
