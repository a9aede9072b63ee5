-- ===== src/BigInt/Arrays/Linear.antt =====
-- quickjs.c: sums, differences and products with one limb.
use go_quickjs.Base.{
  ℕ, ◌+◌, ◌-◌, ◌*◌, ◌/◌, ◌%◌, ◌^◌, ◌≤◌, ◌<◌, ◌≡◌, arith, List, [], ◌∷◌, length, All,
}
use go_quickjs.Dtoa.Limbs.{Limbs}
use go_quickjs.BigInt.Arrays.{
  less, addc, subc, mp_add, mp_sub, neg_loop, mp_neg, mp_mul1, mp_add_mul1, mp_sub_mul1,
}
use go_quickjs.BigInt.Arrays.Value.{IsLimb, value, limb_power}

-- An array of `n` limbs and what goes on above it, which is at most `top`, stand for `v`.
pub record Writes (n top v : ℕ) (r : Limbs) : Type 0 where
  pub exact : value r.tab + r.out * limb_power n ≡ v
  pub limbs_ok : All IsLimb r.tab
  pub same_length : length r.tab ≡ n
  pub small : r.out ≤ top

pub addc_exact :
    (x y k : ℕ)
    → IsLimb x
    → IsLimb y
    → k ≤ 1
    → ((addc x y k).limb + (addc x y k).carry * 2 ^ 64 ≡ x + y + k)
      × IsLimb (addc x y k).limb
      × ((addc x y k).carry ≤ 1)
unfolding addc
addc_exact x y k hx hy hk = ground arith

pub mp_add_exact :
    (a b : List ℕ) (k : ℕ)
    → length a ≡ length b
    → All IsLimb a
    → All IsLimb b
    → k ≤ 1
    → Writes (length a) 1 (value a + value b + k) (mp_add a b k)
unfolding mp_add
mp_add_exact [] [] k e ha hb hk = ground arith
mp_add_exact [] (y ∷ b) k e ha hb hk = absurd (omega arith)
mp_add_exact (x ∷ a) [] k e ha hb hk = absurd (omega arith)
mp_add_exact (x ∷ a) (y ∷ b) k e (hx, ha) (hy, hb) hk =
    ground (arith, addc_exact x y k, mp_add_exact a b (addc x y k).carry)

subc_exact :
    (x y k : ℕ)
    → IsLimb x
    → IsLimb y
    → k ≤ 1
    → ((subc x y k).limb + y + k ≡ x + (subc x y k).carry * 2 ^ 64)
      × IsLimb (subc x y k).limb
      × ((subc x y k).carry ≤ 1)
unfolding subc
subc_exact x y k hx hy hk = ground arith

-- What is missing for the difference is what the borrow stands for.
pub record Subtracts (a b k : ℕ) (n top : ℕ) (r : Limbs) : Type 0 where
  pub exact : value r.tab + b + k ≡ a + r.out * limb_power n
  pub limbs_ok : All IsLimb r.tab
  pub same_length : length r.tab ≡ n
  pub small : r.out ≤ top

pub mp_sub_exact :
    (a b : List ℕ) (k : ℕ)
    → length a ≡ length b
    → All IsLimb a
    → All IsLimb b
    → k ≤ 1
    → Subtracts (value a) (value b) k (length a) 1 (mp_sub a b k)
unfolding mp_sub
mp_sub_exact [] [] k e ha hb hk = ground arith
mp_sub_exact [] (y ∷ b) k e ha hb hk = absurd (omega arith)
mp_sub_exact (x ∷ a) [] k e ha hb hk = absurd (omega arith)
mp_sub_exact (x ∷ a) (y ∷ b) k e (hx, ha) (hy, hb) hk =
    ground (arith, subc_exact x y k, mp_sub_exact a b (subc x y k).carry)

neg_loop_exact :
    (a : List ℕ) (k : ℕ)
    → All IsLimb a
    → k ≤ 1
    → Writes (length a) 1 (limb_power (length a) - 1 - value a + k) (neg_loop a k)
      × (value a < limb_power (length a))
unfolding neg_loop
neg_loop_exact [] k h hk = ground arith
neg_loop_exact (x ∷ a) k (hx, h) hk =
    ground (arith, neg_loop_exact a (less ((2 ^ 64 - 1 - x + k) % 2 ^ 64) k) h)

-- `mp_neg` writes the number that is missing to the next power of the limb, and the carry is left
-- only for 0.
pub mp_neg_exact :
    (a : List ℕ) → All IsLimb a → Writes (length a) 1 (limb_power (length a) - value a) (mp_neg a)
unfolding mp_neg
mp_neg_exact a h =
    let (w, lt) = neg_loop_exact a 1 h (omega arith) in
    record {
      exact = omega (arith, w.exact);
      limbs_ok = w.limbs_ok;
      same_length = w.same_length;
      small = w.small;
    }

product_fits : (x b l r : ℕ) → IsLimb x → IsLimb b → IsLimb l → IsLimb r → x * b + l + r < 2 ^ 128
product_fits x b l r hx hb hl hr = grind arith

pub mp_mul1_exact64 :
    (a : List ℕ) (b l : ℕ)
    → All IsLimb a
    → IsLimb b
    → IsLimb l
    → Writes (length a) (2 ^ 64 - 1) (value a * b + l) (mp_mul1 a b l)
unfolding mp_mul1
mp_mul1_exact64 [] b l h hb hl = ground arith
mp_mul1_exact64 (x ∷ a) b l (p, h) hb hl =
    ground (
      arith,
      product_fits x b l 0 p hb hl,
      mp_mul1_exact64 a b ((x * b + l) % 2 ^ 128 / 2 ^ 64) h hb,
    )

pub mp_add_mul1_exact :
    (r a : List ℕ) (b l : ℕ)
    → length r ≡ length a
    → All IsLimb r
    → All IsLimb a
    → IsLimb b
    → IsLimb l
    → Writes (length a) (2 ^ 64 - 1) (value r + value a * b + l) (mp_add_mul1 r a b l)
unfolding mp_add_mul1
mp_add_mul1_exact [] [] b l e hr ha hb hl = ground arith
mp_add_mul1_exact [] (x ∷ a) b l e hr ha hb hl = absurd (omega arith)
mp_add_mul1_exact (y ∷ r) [] b l e hr ha hb hl = absurd (omega arith)
mp_add_mul1_exact (y ∷ r) (x ∷ a) b l e (q, hr) (p, ha) hb hl = ground (
  arith,
  product_fits x b l y p hb hl q,
  mp_add_mul1_exact r a b ((x * b + l + y) % 2 ^ 128 / 2 ^ 64) (omega arith) hr ha hb,
)

difference_fits :
    (x b l r : ℕ) → IsLimb x → IsLimb b → IsLimb l → IsLimb r → x * b + l ≤ (2 ^ 64 - 1) * 2 ^ 64
difference_fits x b l r hx hb hl hr = grind arith

sub_mul_limb :
    (p l r : ℕ)
    → p + l ≤ (2 ^ 64 - 1) * 2 ^ 64
    → IsLimb r
    → let t = (r + 2 * 2 ^ 128 - p - l) % 2 ^ 128 in
      (t % 2 ^ 64 + p + l ≡ r + (2 ^ 64 - t / 2 ^ 64) % 2 ^ 64 * 2 ^ 64)
sub_mul_limb p l r h hr = omega arith

pub mp_sub_mul1_exact :
    (r a : List ℕ) (b l : ℕ)
    → length r ≡ length a
    → All IsLimb r
    → All IsLimb a
    → IsLimb b
    → IsLimb l
    → Subtracts (value r) (value a * b) l (length a) (2 ^ 64 - 1) (mp_sub_mul1 r a b l)
unfolding mp_sub_mul1
mp_sub_mul1_exact [] [] b l e hr ha hb hl = ground arith
mp_sub_mul1_exact [] (x ∷ a) b l e hr ha hb hl = absurd (omega arith)
mp_sub_mul1_exact (y ∷ r) [] b l e hr ha hb hl = absurd (omega arith)
mp_sub_mul1_exact (y ∷ r) (x ∷ a) b l e (q, hr) (p, ha) hb hl =
    let t = (y + 2 * 2 ^ 128 - x * b - l) % 2 ^ 128 in
    ground (
      arith,
      sub_mul_limb (x * b) l y (difference_fits x b l y p hb hl q) q,
      mp_sub_mul1_exact r a b ((2 ^ 64 - t / 2 ^ 64) % 2 ^ 64) (omega arith) hr ha hb (omega arith),
    )
