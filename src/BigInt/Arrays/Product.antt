-- ===== src/BigInt/Arrays/Product.antt =====
-- quickjs.c: `mp_mul_basecase`, the product row by row.
use go_quickjs.Base.{
  ℕ, suc, ◌+◌, ◌-◌, ◌*◌, ◌^◌, ◌≤◌, ◌≡◌, ap, arith, List, [], ◌∷◌, ◌++◌, length, All, length-append,
}
use go_quickjs.Dtoa.Limbs.{Limbs}
use go_quickjs.BigInt.Arrays.{mp_mul1, mp_add_mul1, mul_rows, mp_mul_basecase}
use go_quickjs.BigInt.Arrays.Value.{IsLimb, value, limb_power, value-append, IsLimb-append}
use go_quickjs.BigInt.Arrays.Linear.{Writes, mp_mul1_exact64, mp_add_mul1_exact}

-- An array of limbs that stands for `v`.
pub record Array (n v : ℕ) (tab : List ℕ) : Type 0 where
  pub same : value tab ≡ v
  pub limbs_ok : All IsLimb tab
  pub exact_length : length tab ≡ n

-- The carry is stored on top.
pub with_carry :
    (n v : ℕ) (r : Limbs) → Writes n (2 ^ 64 - 1) v r → Array (suc n) v (r.tab ++ (r.out ∷ []))
with_carry n v r w = record {
  same = omega (
    arith,
    w.exact,
    value-append r.tab (r.out ∷ []),
    ap (λ (k : ℕ). limb_power k * r.out) w.same_length,
  );
  limbs_ok = IsLimb-append r.tab (r.out ∷ []) w.limbs_ok (omega (arith, w.small), tt);
  exact_length = omega (arith, w.same_length, length-append r.tab (r.out ∷ []));
}

mul_rows_exact :
    (window op1 op2 : List ℕ)
    → length window ≡ suc (length op1)
    → All IsLimb window
    → All IsLimb op1
    → All IsLimb op2
    → Array
        (length window + length op2)
        (value window + 2 ^ 64 * (value op1 * value op2))
        (mul_rows window op1 op2)
unfolding mul_rows
mul_rows_exact window op1 [] e hw h1 h2 = record {
  same = omega arith;
  limbs_ok = hw;
  exact_length = omega arith;
}
mul_rows_exact [] op1 (y ∷ op2) e hw h1 h2 = absurd (omega arith)
mul_rows_exact (x ∷ window) op1 (y ∷ op2) e (hx, hw) h1 (hy, h2) =
    let r = mp_add_mul1 window op1 y 0 in
    let w =
      with_carry (length op1) (value window + value op1 * y + 0) r
        (mp_add_mul1_exact window op1 y 0 (omega arith) hw h1 hy (omega arith)) in
    let next = r.tab ++ (r.out ∷ []) in
    let m = mul_rows_exact next op1 op2 w.exact_length w.limbs_ok h1 h2 in
    record {
      same = omega (arith, m.same, w.same);
      limbs_ok = (hx, m.limbs_ok);
      exact_length = omega (arith, m.exact_length, w.exact_length);
    }

-- `mp_mul_basecase` is the exact product, in as many limbs as both operands have.
pub mp_mul_basecase_exact :
    (op1 op2 : List ℕ)
    → 1 ≤ length op2
    → All IsLimb op1
    → All IsLimb op2
    → Array (length op1 + length op2) (value op1 * value op2) (mp_mul_basecase op1 op2)
unfolding mp_mul_basecase
mp_mul_basecase_exact op1 [] e h1 h2 = absurd (omega arith)
mp_mul_basecase_exact op1 (y ∷ op2) e h1 (hy, h2) =
    let r = mp_mul1 op1 y 0 in
    let w =
      with_carry (length op1) (value op1 * y + 0) r (mp_mul1_exact64 op1 y 0 h1 hy (omega arith)) in
    let m = mul_rows_exact (r.tab ++ (r.out ∷ [])) op1 op2 w.exact_length w.limbs_ok h1 h2 in
    record {
      same = omega (arith, m.same, w.same);
      limbs_ok = m.limbs_ok;
      exact_length = omega (arith, m.exact_length, w.exact_length);
    }
