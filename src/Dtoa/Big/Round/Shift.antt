-- ===== src/Dtoa/Big/Round/Shift.antt =====
-- dtoa.c: the shifts of `mpb_shr_round` by limbs and bits.
use go_quickjs.Base.{
  ℕ, zero, suc, ◌+◌, ◌*◌, ◌/◌, ◌%◌, ◌^◌, ◌≤◌, ◌<◌, ◌≡◌, refl, sym, ap, ◌∙◌, arith, List, [], ◌∷◌,
  ◌++◌, length, drop, All, ◌==◌, leb, if◌then◌else◌, Bool-cases, inl, inr, leb→le, ==→eq,
  length-append, length-drop,
}
use native.Mathlib.Nat.{pow-le-pow_right, one-le-pow, div-eq_of_lt, div-eq_of_lt-le}
use go_quickjs.Base.Bits.{and_mask}
use go_quickjs.Dtoa.Limbs.{mp_shr, mp_shl, mp_add_ui}
use go_quickjs.Dtoa.Limbs.Value.{IsLimb, value, limb_power, value-append}
use go_quickjs.Dtoa.Limbs.AddMul.{mp_add_ui_exact}
use go_quickjs.Dtoa.Limbs.Shift.{mp_shr_exact, mp_shl_exact}
use go_quickjs.Dtoa.Big.{increment, mpb_renorm, mpb_shift_right, mpb_shift_left, zeros}
use go_quickjs.Dtoa.Big.Length.{mpb_renorm_exact}
use go_quickjs.Dtoa.Big.Bits.{value-shift, value-shift_out, pow-limb_power, drop-All}

-- A number in at least one limb.
pub record IsBig (v : ℕ) (xs : List ℕ) : Type 0 where
  pub same : value xs ≡ v
  pub limbs_ok : All IsLimb xs
  pub nonempty : 1 ≤ length xs

All-append : (xs ys : List ℕ) → All IsLimb xs → All IsLimb ys → All IsLimb (xs ++ ys)
All-append [] ys h k = k
All-append (x ∷ xs) ys (p, h) k = (p, All-append xs ys h k)

increment-IsBig : (v : ℕ) (tab : List ℕ) → IsBig v tab → IsBig (v + 1) (increment tab)
unfolding increment
increment-IsBig v tab b =
    let (e, ok, len, out) = mp_add_ui_exact tab 1 b.limbs_ok (omega arith) in
    let a = mp_add_ui tab 1 in
    elim (Bool-cases (a.out == 0)) [
      | inl z ↦
          let none_out = ==→eq a.out 0 z in
          let done : value a.tab + 0 * limb_power (length tab) ≡ value tab + 1 = rw none_out at e in
          rw z (record {
            same = omega (arith, done, b.same);
            limbs_ok = ok;
            nonempty = omega (arith, len, b.nonempty);
          })
      | inr n ↦ rw n (record {
        same = omega (
          arith,
          value-append a.tab (a.out ∷ []),
          e,
          b.same,
          ap (λ (k : ℕ). limb_power k * a.out) len,
        );
        limbs_ok = All-append a.tab (a.out ∷ []) ok (out, tt);
        nonempty = omega (arith, length-append {0} a.tab (a.out ∷ []));
      })
    ]

split_power : (shift : ℕ) → 2 ^ shift ≡ limb_power (shift / 32) * 2 ^ (shift % 32)
split_power shift =
    (let t : shift ≡ 32 * (shift / 32) + shift % 32 = omega arith in ap (λ (n : ℕ). 2 ^ n) t)
    ∙ pow-limb_power (shift / 32) (shift % 32)

-- A shift of an array by `s` bits, with the zero limb on top taken off.
shift_bits :
    (high : List ℕ) (s : ℕ)
    → 1 ≤ s
    → s < 32
    → IsBig (value high) high
    → IsBig (value high / 2 ^ s) (mpb_renorm (mp_shr high s 0).tab)
shift_bits high s lo hi b =
    let (e, top, ok, len) = mp_shr_exact high s 0 lo hi b.limbs_ok (one-le-pow s 2 (omega arith)) in
    let tab = (mp_shr high s 0).tab in
    let q : value high / 2 ^ s ≡ value tab =
      div-eq_of_lt-le (2 ^ s) (omega (arith, e)) (omega (arith, e, top)) in
    let (same, good, ne, _) = mpb_renorm_exact tab ok (omega (arith, len, b.nonempty)) in
    record { same = same ∙ sym q; limbs_ok = good; nonempty = ne }

-- The limbs that are left, shifted by the bits that are left.
low_part :
    (r : List ℕ) (shift : ℕ)
    → All IsLimb r
    → shift / 32 < length r
    → IsBig (value r / 2 ^ shift) (
        if shift % 32 == 0
        then drop (shift / 32) r
        else mpb_renorm (mp_shr (drop (shift / 32) r) (shift % 32) 0).tab)
low_part r shift ok lt =
    let l = shift / 32 in
    let s = shift % 32 in
    let high = drop l r in
    let q = (value-shift r l s (omega arith) ok).0 in
    let big : IsBig (value high) high = record {
      same = refl;
      limbs_ok = drop-All l r ok;
      nonempty = omega (arith, length-drop l r);
    } in
    rw (split_power shift, q)
      (elim (Bool-cases (s == 0)) [
        | inl z ↦
            let e : 2 ^ s ≡ 1 = rw (==→eq s 0 z) (omega arith) in
            rw z (record {
              same = rw e (omega arith);
              limbs_ok = big.limbs_ok;
              nonempty = big.nonempty;
            })
        | inr n ↦ rw n (shift_bits high s (ground arith) (omega arith) big)
      ])

-- `mpb_shift_right` divides by the power of 2 and adds the rounding.
pub mpb_shift_right_exact :
    (r : List ℕ) (shift add_one : ℕ)
    → All IsLimb r
    → add_one ≤ 1
    → IsBig (value r / 2 ^ shift + add_one) (mpb_shift_right r shift add_one)
unfolding mpb_shift_right
mpb_shift_right_exact r shift add_one ok one = elim (Bool-cases (leb (length r) (shift / 32))) [
  | inl out ↦
      let gone : value r / 2 ^ shift ≡ 0 = div-eq_of_lt (
        rw (split_power shift) (value-shift_out r (shift / 32) (shift % 32) (leb→le _ _ out) ok)) in
      rw (out, gone)
        (record { same = omega arith; limbs_ok = (omega arith, tt); nonempty = omega arith })
  | inr inside ↦
      let b = low_part r shift ok (ground arith) in
      rw (inside, and_mask 5 shift)
        (elim (Bool-cases (add_one == 0)) [
          | inl z ↦
              let none = ==→eq add_one 0 z in
              rw z (record {
                same = omega (arith, b.same, none);
                limbs_ok = b.limbs_ok;
                nonempty = b.nonempty;
              })
          | inr n ↦ let e : add_one ≡ 1 = ground arith in rw e (increment-IsBig _ _ b)
        ])
]

value-zeros : (l : ℕ) (xs : List ℕ) → value (zeros l ++ xs) ≡ limb_power l * value xs
value-zeros zero xs = omega arith
value-zeros (suc l) xs = omega (arith, value-zeros l xs)

zeros-IsBig : (l v : ℕ) (xs : List ℕ) → IsBig v xs → IsBig (limb_power l * v) (zeros l ++ xs)
zeros-IsBig zero v xs b = record {
  same = omega (arith, b.same);
  limbs_ok = b.limbs_ok;
  nonempty = b.nonempty;
}
zeros-IsBig (suc l) v xs b =
    let r = zeros-IsBig l v xs b in
    record {
      same = omega (arith, r.same);
      limbs_ok = (omega arith, r.limbs_ok);
      nonempty = omega arith;
    }

shift_up :
    (r : List ℕ) (s v : ℕ)
    → 1 ≤ s
    → s < 32
    → IsBig v r
    → IsBig (v * 2 ^ s) (mpb_renorm ((mp_shl r s 0).tab ++ ((mp_shl r s 0).out ∷ [])))
shift_up r s v lo hs b =
    let (e, top, ok, len) = mp_shl_exact r s 0 lo hs b.limbs_ok (one-le-pow s 2 (omega arith)) in
    let up = mp_shl r s 0 in
    let small : up.out < 2 ^ 32 =
      omega (arith, top, pow-le-pow_right {n = 2} (omega arith) {i = s} {j = 32} (omega arith)) in
    let all = All-append up.tab (up.out ∷ []) ok (small, tt) in
    let (same, good, ne, _) =
      mpb_renorm_exact (up.tab ++ (up.out ∷ [])) all
        (omega (arith, length-append {0} up.tab (up.out ∷ []))) in
    let joined = value-append up.tab (up.out ∷ []) in
    record {
      same =
          same
          ∙ omega (
            arith,
            joined,
            e,
            ap (λ (k : ℕ). limb_power k * up.out) len,
            ap (λ (k : ℕ). k * 2 ^ s) b.same,
          );
      limbs_ok = good;
      nonempty = ne;
    }

-- `mpb_shift_left` multiplies by the power of 2.
pub mpb_shift_left_exact :
    (r : List ℕ) (shift v : ℕ) → IsBig v r → IsBig (v * 2 ^ shift) (mpb_shift_left r shift)
unfolding mpb_shift_left
mpb_shift_left_exact r shift v b =
    let l = shift / 32 in
    let s = shift % 32 in
    let swap : v * 2 ^ shift ≡ limb_power l * (v * 2 ^ s) =
      omega (arith, ap (λ (k : ℕ). v * k) (split_power shift)) in
    rw (swap, and_mask 5 shift)
      (zeros-IsBig l (v * 2 ^ s) _ (elim (Bool-cases (s == 0)) [
        | inl z ↦
            let e : 2 ^ s ≡ 1 = rw (==→eq s 0 z) (omega arith) in
            rw (z, e)
              (record {
                same = omega (arith, b.same);
                limbs_ok = b.limbs_ok;
                nonempty = b.nonempty;
              })
        | inr n ↦ rw n (shift_up r s v (ground arith) (omega arith) b)
      ]))
