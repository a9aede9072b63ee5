-- ===== src/BigInt/Divrem/Scale.antt =====
-- quickjs.c, `js_bigint_divrem`: the operands as they go to `mp_divnorm`.
use go_quickjs.Base.{
  ℕ, zero, suc, ◌+◌, ◌-◌, ◌*◌, ◌%◌, ◌^◌, ◌≤◌, ◌<◌, ◌≡◌, ◌≢◌, ◌⊎◌, inl, inr, refl, sym, ap, ◌∙◌,
  arith, List, [], ◌∷◌, length, All, get_or, take, Bool-cases, ==→eq, ==→ne, ◌==◌, length-append,
  length-take, get_or-take,
}
use native.Mathlib.Nat.{
  mul-le-mul_left, mul-le-mul_right, one-le-pow, lt_of_mul-lt-mul_right, mod-eq_of_lt,
}
use go_quickjs.Base.Powers.{pow-add}
use go_quickjs.Base.Int.{quotient_unique}
use go_quickjs.Cutils.Words.{leading_zeros, clz64, leading_zeros_bounds}
use go_quickjs.BigInt.Sign.{highest_part, highest_part_at}
use go_quickjs.BigInt.Left.{low_shift}
use go_quickjs.BigInt.Normal.{take-IsLimb, prefix, take_all}
use go_quickjs.BigInt.Arrays.{mp_shl, mp_shr}
use go_quickjs.BigInt.Arrays.Value.{
  IsLimb, value, limb_power, value-lt, value-append, IsLimb-append,
}
use go_quickjs.BigInt.Arrays.Shift.{mp_shl64_exact, mp_shr64_exact}
use go_quickjs.BigInt.Divrem.{strip_len, strip, scale_divisor, scale_dividend, unscale_rest}

-- Without zeros on top.
pub record Stripped (v : ℕ) (len : ℕ) (a : List ℕ) : Type 0 where
  pub same : value a ≡ v
  pub limbs_ok : All IsLimb a
  pub nonempty : 1 ≤ length a
  pub shorter : length a ≤ len
  pub least : (length a ≡ 1) ⊎ (get_or a (length a - 1) 0 ≢ 0)

strip_len-Stripped :
    (n : ℕ) (a : List ℕ)
    → 1 ≤ n
    → n ≤ length a
    → All IsLimb a
    → Stripped (value (take n a)) n (take (strip_len n a) a)
unfolding strip_len
strip_len-Stripped zero a lo hi h = absurd (omega arith)
strip_len-Stripped (suc zero) a lo hi h =
    let l = length-take 1 a in
    record {
      same = refl;
      limbs_ok = take-IsLimb 1 a h;
      nonempty = omega (arith, l);
      shorter = omega (arith, l);
      least = inl (omega (arith, l));
    }
strip_len-Stripped (suc (suc n)) a lo hi h =
    let s = strip_len-Stripped (suc n) a (omega arith) (omega arith) h in
    let (l2, v2, s2) = prefix (suc n) a (omega arith) in
    elim (Bool-cases (get_or a (suc n) 0 == 0)) [
      | inl z ↦
          let z' = ==→eq _ _ z in
          rw (strip_len, z)
            (record {
              same = omega (arith, s.same, v2, ap (λ (t : ℕ). limb_power (suc n) * t) z');
              limbs_ok = s.limbs_ok;
              nonempty = s.nonempty;
              shorter = omega (arith, s.shorter);
              least = s.least;
            })
      | inr o ↦
          let top : get_or (take (suc (suc n)) a) (length (take (suc (suc n)) a) - 1) 0
              ≡ get_or a (suc n) 0 =
            let e : suc (suc n) - 1 ≡ suc n = omega arith in
            rw (l2, e) (get_or-take (suc (suc n)) (suc n) a 0 (omega arith)) in
          rw (strip_len, o)
            (record {
              same = refl;
              limbs_ok = take-IsLimb (suc (suc n)) a h;
              nonempty = omega (arith, l2);
              shorter = omega (arith, l2);
              least = inr (λ e. ==→ne _ _ o (sym top ∙ e));
            })
    ]

pub strip-Stripped :
    (a : List ℕ) → 1 ≤ length a → All IsLimb a → Stripped (value a) (length a) (strip a)
unfolding strip
strip-Stripped a ne h = rw (take_all a) at (strip_len-Stripped (length a) a ne (omega arith) h)

-- The shift that brings the highest bit of a limb to the top.
clz64_lem :
    (x : ℕ)
    → 1 ≤ x
    → IsLimb x
    → (clz64 x < 64) × (2 ^ 63 ≤ x * 2 ^ clz64 x) × ((x + 1) * 2 ^ clz64 x ≤ 2 ^ 64)
unfolding clz64
clz64_lem x lo hi =
    let (k, e, ge, lt) = leading_zeros_bounds 64 x lo hi in
    let s = leading_zeros 64 x in
    let whole : 2 ^ s * 2 ^ k ≡ 2 ^ 63 =
      let f : s + k ≡ 63 = omega (arith, e) in sym (pow-add 2 s k) ∙ ap (λ (t : ℕ). 2 ^ t) f in
    let whole' : 2 ^ s * 2 ^ suc k ≡ 2 ^ 64 =
      let f : s + suc k ≡ 64 = omega (arith, e) in
      sym (pow-add 2 s (suc k)) ∙ ap (λ (t : ℕ). 2 ^ t) f in
    (
      omega (arith, e),
      omega (arith, whole, mul-le-mul_left (2 ^ s) ge),
      omega (arith, whole', mul-le-mul_left (2 ^ s) lt),
    )

pub scale_dividend_lem :
    (r : List ℕ) (s : ℕ)
    → s < 64
    → All IsLimb r
    → (value (scale_dividend r s) ≡ value r * 2 ^ s)
      × All IsLimb (scale_dividend r s)
      × (length r ≤ length (scale_dividend r s))
      × (length (scale_dividend r s) ≤ length r + 1)
unfolding scale_dividend
scale_dividend_lem r s hs h = elim (Bool-cases (s == 0)) [
  | inl z ↦
      let e : s ≡ 0 = ==→eq _ _ z in
      let one : 2 ^ s ≡ 1 = ap (λ (t : ℕ). 2 ^ t) e in
      rw z (omega (arith, ap (λ (t : ℕ). value r * t) one), h, omega arith, omega arith)
  | inr o ↦
      let ne = ==→ne _ _ o in
      let (e, out, ok, len) =
        mp_shl64_exact r s 0 (omega (arith, ne)) hs h (one-le-pow s 2 (omega arith)) in
      let up = mp_shl r s 0 in
      let fits = low_shift s hs in
      rw o (elim (Bool-cases (up.out == 0)) [
        | inl z ↦
            let none_out = ap (λ (t : ℕ). t * limb_power (length r)) (==→eq _ _ z) in
            rw z (omega (arith, e, none_out), ok, omega (arith, len), omega (arith, len))
        | inr some_out ↦ rw some_out (
          omega (
            arith,
            e,
            value-append up.tab (up.out ∷ []),
            ap (λ (n : ℕ). limb_power n * up.out) len,
          ),
          IsLimb-append up.tab (up.out ∷ []) ok (omega (arith, out, fits), tt),
          omega (arith, len, length-append up.tab (up.out ∷ [])),
          omega (arith, len, length-append up.tab (up.out ∷ [])),
        )
      ])
]

-- The divisor after the shift: its highest bit is set and nothing is lost.
pub scale_divisor_lem :
    (tabb : List ℕ)
    → 1 ≤ length tabb
    → All IsLimb tabb
    → get_or tabb (length tabb - 1) 0 ≢ 0
    → let s = clz64 (get_or tabb (length tabb - 1) 0) in
      (s < 64)
      × (value (scale_divisor tabb s) ≡ value tabb * 2 ^ s)
      × All IsLimb (scale_divisor tabb s)
      × (length (scale_divisor tabb s) ≡ length tabb)
      × (2 ^ 63 ≤ get_or (scale_divisor tabb s) (length tabb - 1) 0)
unfolding scale_divisor
scale_divisor_lem tabb ne h top_ne =
    let x = get_or tabb (length tabb - 1) 0 in
    let s = clz64 x in
    let (low, ev, lt, x_ok, w) = highest_part tabb ne h in
    let (hs, big, small) = clz64_lem x (omega (arith, top_ne)) x_ok in
    let p = limb_power (length tabb - 1) in
    elim (Bool-cases (s == 0)) [
      | inl z ↦
          let one : 2 ^ s ≡ 1 = ap (λ (t : ℕ). 2 ^ t) (==→eq _ _ z) in
          rw z (
            hs,
            omega (arith, ap (λ (t : ℕ). value tabb * t) one),
            h,
            refl,
            omega (arith, big, ap (λ (t : ℕ). x * t) one),
          )
      | inr o ↦
          let ne' = ==→ne _ _ o in
          let (e, out, ok, len) =
            mp_shl64_exact tabb s 0 (omega (arith, ne')) hs h (one-le-pow s 2 (omega arith)) in
          let up = mp_shl tabb s 0 in
          let v : value up.tab + up.out * limb_power (length tabb) ≡ value tabb * 2 ^ s =
            omega (arith, e) in
          let above : value tabb + 1 ≤ p * (x + 1) = omega (arith, ev, lt) in
          let below : value tabb * 2 ^ s < limb_power (length tabb) = omega (
            arith,
            w,
            mul-le-mul_right (2 ^ s) above,
            mul-le-mul_left p small,
            one-le-pow s 2 (omega arith),
          ) in
          let fits : value up.tab < limb_power (length tabb) =
            let f = value-lt up.tab ok in omega (arith, f, ap limb_power len) in
          let no_out : up.out ≡ 0 =
            quotient_unique up.out 0 (limb_power (length tabb)) (value up.tab) (value tabb * 2 ^ s)
              fits below (omega (arith, v)) in
          let exact : value up.tab ≡ value tabb * 2 ^ s =
            omega (arith, v, ap (λ (t : ℕ). t * limb_power (length tabb)) no_out) in
          let (low', ev', lt', x_ok') = highest_part_at up.tab (length tabb) len ne ok in
          let top = get_or up.tab (length tabb - 1) 0 in
          let wide : 2 ^ 63 * p < (top + 1) * p =
            omega (arith, ev', lt', exact, mul-le-mul_left p big, ap (λ (t : ℕ). t * 2 ^ s) ev) in
          let high : 2 ^ 63 < top + 1 = lt_of_mul-lt-mul_right p wide in
          rw o (hs, exact, ok, len, omega (arith, high))
    ]

-- The rest of the scaled division.
pub unscale_rest_lem :
    (r : List ℕ) (s t : ℕ)
    → s < 64
    → All IsLimb r
    → value r ≡ t * 2 ^ s
    → (value (unscale_rest r s) ≡ t)
      × All IsLimb (unscale_rest r s)
      × (length (unscale_rest r s) ≡ length r)
unfolding unscale_rest
unscale_rest_lem r s t hs h e = elim (Bool-cases (s == 0)) [
  | inl z ↦
      let one : 2 ^ s ≡ 1 = ap (λ (t : ℕ). 2 ^ t) (==→eq _ _ z) in
      rw z (omega (arith, e, ap (λ (k : ℕ). t * k) one), h, refl)
  | inr o ↦
      let ne = ==→ne _ _ o in
      let (e', rem, ok, len) = mp_shr64_exact r s 0 (omega (arith, ne)) hs h in
      let zero_bits : 0 % 2 ^ s ≡ 0 = mod-eq_of_lt (one-le-pow s 2 (omega arith)) in
      let q = mp_shr r s 0 in
      let v : value q.tab * 2 ^ s + q.out ≡ t * 2 ^ s + 0 =
        omega (arith, e, e', ap (λ (k : ℕ). k * limb_power (length r)) zero_bits) in
      rw o (
        quotient_unique (value q.tab) t (2 ^ s) q.out 0 rem (one-le-pow s 2 (omega arith)) v,
        ok,
        len,
      )
]
