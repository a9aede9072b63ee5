-- ===== src/Dtoa/Decimal/Radix.antt =====
-- dtoa.c, `u64toa_radix`: the number of digits is computed for the powers of 2, and found by the
-- loop for the other radixes.
use go_quickjs.Base.{
  ℕ, suc, ◌+◌, ◌-◌, ◌*◌, ◌/◌, ◌%◌, ◌^◌, ◌≤◌, ◌<◌, ◌≡◌, ◌≢◌, inl, inr, refl, ap, ◌∙◌, arith, List,
  [], ◌∷◌, length, All, ltb, leb, if◌then◌else◌, some, Bool-cases, ◌==◌, ==→eq, ==→ne, false, true,
  ◌||◌, ◌&&◌, not, bit_and,
}
use native.Mathlib.Nat.{
  div-add-mod, mod-lt, le_trans, mul-le-mul_right, pow-suc, pow-zero, pow-le-pow_left,
  pow-le-pow_right, one-le-pow, le-div_iff_mul-le, mod-eq_of_lt,
}
use native.Mathlib.Decide.{ℕ_discrete}
use go_quickjs.Base.Powers.{pow-mul}
use go_quickjs.Base.Tables.{holds_below, holds_below_at}
use go_quickjs.Cutils.Words.{clz32, clz64, leading_zeros, leading_zeros_bounds}
use go_quickjs.Dtoa.Decimal.{u64toa_radix, u64toa_bin_len, radix_len, digit_char}
use go_quickjs.Dtoa.Decimal.Digits.{digit_value, read, IsDigit, Prints}
use go_quickjs.Dtoa.Decimal.Fixed.{Fixed, radix_len-Fixed, u64toa_bin_len-radix_len}
use go_quickjs.Dtoa.Decimal.Whole.{loop-Prints}
use go_quickjs.Dtoa.Decimal.Wide.{u64toa_exact}

-- Digits cannot carry over: what they stand for stays below the next digit in front.
read-lt :
    (radix acc : ℕ) (cs : List ℕ)
    → All (IsDigit radix) cs
    → read radix acc cs < (acc + 1) * radix ^ length cs
read-lt radix acc [] h = rw (pow-zero radix) (omega arith)
read-lt radix acc (c ∷ cs) (d, h) =
    let small : acc * radix + digit_value c + 1 ≤ (acc + 1) * radix = omega (arith, d.1) in
    omega (
      arith,
      read-lt radix (acc * radix + digit_value c) cs h,
      mul-le-mul_right (radix ^ length cs) small,
      ap (λ (t : ℕ). (acc + 1) * t) (pow-suc radix (length cs)),
    )

-- A text of as many digits as the number needs is its canonical text.
Fixed-Prints :
    (radix n len : ℕ) (text : List ℕ)
    → Fixed radix n (suc len) [] text
    → radix ^ len ≤ n
    → n < radix ^ suc len
    → Prints radix n text
Fixed-Prints radix n len [] f lo hi = absurd (omega (arith, f.exact_length))
Fixed-Prints radix n len (c ∷ cs) f lo hi = record {
  reads = whole;
  digits = f.digits tt;
  canonical = inr (c, cs, refl, first);
}
  where
    whole : read radix 0 (c ∷ cs) ≡ n
    whole = f.reads 0 ∙ omega (arith, mod-eq_of_lt hi)

    first : c ≢ b'0'
    first e =
        let z : 0 * radix + digit_value c ≡ 0 = rw e (omega arith) in
        let r : read radix 0 cs ≡ n = rw z at whole in
        let len' : length cs ≡ len = omega (arith, f.exact_length) in
        let b : n < 1 * radix ^ len = rw (r, len') at (read-lt radix 0 cs (f.digits tt).1) in
        omega (arith, b, lo)

-- The radixes that are powers of 2.
power_of_two :
    holds_below
      (λ r.
        ltb r 2
        || (not (bit_and r (r - 1) == 0)
            || ((2 ^ (31 - clz32 r) == r) && leb 1 (31 - clz32 r) && leb (31 - clz32 r) 5)))
      37
    ≡ true
unfolding holds_below clz32
power_of_two = refl

-- `l` digits of `b` bits are what a number of `k + 1` bits needs.
digits_for_bits :
    (n b k l : ℕ)
    → 1 ≤ b
    → 2 ^ k ≤ n
    → n < 2 ^ suc k
    → suc l ≡ (suc k + b - 1) / b
    → ((2 ^ b) ^ l ≤ n) × (n < (2 ^ b) ^ suc l)
digits_for_bits n b k l hb lo hi e =
    let x = suc k + b - 1 in
    let d = div-add-mod x b in
    let m : x % b < b = mod-lt x hb in
    let same = ap (λ (t : ℕ). b * t) e in
    let up : suc k ≤ b * suc l = omega (arith, d, m, same) in
    let down : b * l ≤ k = omega (arith, d, m, same) in
    (
      le_trans (rw (← pow-mul 2 b l) (pow-le-pow_right {n = 2} (omega arith) down)) lo,
      le_trans hi (rw (← pow-mul 2 b (suc l)) (pow-le-pow_right {n = 2} (omega arith) up)),
    )

bin_text : (n b l : ℕ) → 1 ≤ b → b ≤ 5 → Fixed (2 ^ b) n l [] (u64toa_bin_len b n l [])
bin_text n b l lo hi = rw (u64toa_bin_len-radix_len b n l []) (
    radix_len-Fixed (2 ^ b) n l [] (pow-le-pow_right {n = 2} (omega arith) lo)
      (le_trans (pow-le-pow_right {n = 2} (omega arith) hi) (omega arith)))

zero_text : (b : ℕ) → 1 ≤ b → u64toa_bin_len b 0 1 [] ≡ b'0' ∷ []
unfolding radix_len digit_char
zero_text b lo =
    let z : 0 % 2 ^ b ≡ 0 = mod-eq_of_lt (one-le-pow b 2 (omega arith)) in
    u64toa_bin_len-radix_len b 0 1 [] ∙ rw z refl

zero_Prints : (radix : ℕ) → 2 ≤ radix → Prints radix 0 (b'0' ∷ [])
zero_Prints radix h = record {
  reads = omega arith;
  digits = (ground arith, tt);
  canonical = inl refl;
}

nonzero_power :
    (n b k : ℕ)
    → 1 ≤ b
    → b ≤ 5
    → 2 ^ k ≤ n
    → n < 2 ^ suc k
    → k < 64
    → let l = (suc k + b - 1) / b in
      Prints (2 ^ b) n (u64toa_bin_len b n l []) × (length (u64toa_bin_len b n l []) ≤ 64)
nonzero_power n b k lo hi below above h =
    let x = suc k + b - 1 in
    let d = div-add-mod x b in
    let m : x % b < b = mod-lt x lo in
    let some_digit : 1 ≤ x / b = (le-div_iff_mul-le lo).1 (omega arith) in
    let l = x / b - 1 in
    let e : x / b ≡ suc l = omega arith in
    let (low, high) = digits_for_bits n b k l lo below above (omega arith) in
    let f = bin_text n b (suc l) lo hi in
    let short : b * l ≤ k = omega (arith, d, m, ap (λ (t : ℕ). b * t) e) in
    let few : 1 * l ≤ b * l = mul-le-mul_right l lo in
    rw e (Fixed-Prints (2 ^ b) n l _ f low high, omega (arith, f.exact_length, few))

-- The printer for the powers of 2 writes the number, in no more digits than it has bits.
power_radix :
    (n b : ℕ)
    → n < 2 ^ 64
    → 1 ≤ b
    → b ≤ 5
    → let l = if n == 0 then 1 else (64 - clz64 n + b - 1) / b in
      Prints (2 ^ b) n (u64toa_bin_len b n l []) × (length (u64toa_bin_len b n l []) ≤ 64)
unfolding clz64
power_radix n b h lo hi = elim (Bool-cases (n == 0)) [
  | inl z ↦ rw z (
      rw (==→eq n 0 z, zero_text b lo)
        (zero_Prints (2 ^ b) (pow-le-pow_right {n = 2} (omega arith) lo), omega arith))
  | inr f ↦
      let (k, s, below, above) = leading_zeros_bounds 64 n (ground arith) h in
      let bits : 64 - leading_zeros 64 n ≡ suc k = omega (arith, s) in
      rw (f, bits) (nonzero_power n b k lo hi below above (omega (arith, s, h)))
]

-- 41 characters hold every 64-bit number in a radix from 3.
fits :
    (n radix : ℕ)
    → n < 2 ^ 64
    → 2 ≤ radix
    → (bit_and radix (radix - 1) == 0) ≡ false
    → n < radix ^ 41
fits n radix h lo odd = elim (ℕ_discrete radix 2) [
  | yes e ↦ absurd (==→ne (bit_and radix (radix - 1)) 0 odd (rw e refl))
  | no ne ↦
      let p : 3 ^ 41 ≤ radix ^ 41 = pow-le-pow_left {n = 3} {m = radix} (omega arith) 41 in
      omega (arith, p, h)
]

-- `u64toa_radix` writes every 64-bit number in every radix from 2 to 36, in at most 64 characters,
-- and never writes in front of its inner buffer.
pub u64toa_radix_exact :
    (n radix : ℕ)
    → n < 2 ^ 64
    → 2 ≤ radix
    → radix ≤ 36
    → (text : List ℕ) × (u64toa_radix n radix ≡ some text)
      × Prints radix n text
      × (length text ≤ 64)
unfolding u64toa_radix
u64toa_radix_exact n radix h lo hi = elim (Bool-cases (radix == 10)) [
  | inl ten ↦
      let (text, e, p, len) = u64toa_exact n h in
      (text, rw (ten, e), rw (==→eq radix 10 ten) p, omega (arith, len))
  | inr other ↦ elim (Bool-cases (bit_and radix (radix - 1) == 0)) [
    | inl two ↦
        let t = holds_below_at _ 37 radix power_of_two (omega arith) in
        let b = 31 - clz32 radix in
        let same : 2 ^ b ≡ radix = ground arith in
        let (p, len) = power_radix n b h (ground arith) (ground arith) in
        (_, rw (other, two), rw same at p, len)
    | inr odd ↦
        let (text, e, p, len) = loop-Prints radix 40 n lo hi (fits n radix h lo odd) in
        (text, rw (other, odd, e), p, omega (arith, len))
  ]
]
