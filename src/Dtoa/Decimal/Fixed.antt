-- ===== src/Dtoa/Decimal/Fixed.antt =====
-- dtoa.c: the printers that write a given number of digits, with zeros in front.
use go_quickjs.Base.{
  ℕ, zero, suc, ◌+◌, ◌*◌, ◌/◌, ◌%◌, ◌^◌, ◌≤◌, ◌<◌, ◌≡◌, refl, ap, ◌∙◌, arith, List, [], ◌∷◌, length,
  All, ==→eq, ◌==◌, Bool-cases, inl, inr,
}
use native.Mathlib.Nat.{mod-lt, div-add-mod, one-le-pow, pow-zero, pow-suc}
use go_quickjs.Base.Powers.{split_division}
use go_quickjs.Base.Bits.{and_mask}
use go_quickjs.Dtoa.Decimal.{digit_char, radix_len, u32toa_len, u64toa_bin_len, limb_to_a}
use go_quickjs.Dtoa.Decimal.Digits.{read, IsDigit, digit_char-IsDigit, digit_char_value}

-- The low `len` digits of `n`, in front of `acc`.
pub record Fixed (radix n len : ℕ) (acc text : List ℕ) : Type 0 where
  pub reads : (a : ℕ) → read radix a text ≡ read radix (a * radix ^ len + n % radix ^ len) acc
  pub digits : All (IsDigit radix) acc → All (IsDigit radix) text
  pub exact_length : length text ≡ len + length acc

-- A digit more: the text for `n / radix` goes on with the last digit of `n`.
one_more :
    (radix n len : ℕ) (acc text : List ℕ)
    → 2 ≤ radix
    → radix ≤ 36
    → Fixed radix (n / radix) len (digit_char (n % radix) ∷ acc) text
    → Fixed radix n (suc len) acc text
one_more radix n len acc text lo hi f =
    let radix_pos : 0 < radix = omega arith in
    let small : n % radix < radix = mod-lt n radix_pos in
    let m = radix ^ len in
    let p : radix ^ suc len ≡ radix * m = pow-suc radix len ∙ omega arith in
    let whole : n % radix + radix * (n / radix) ≡ n = omega (arith, div-add-mod n radix) in
    let top : n % radix ^ suc len ≡ n % radix + radix * (n / radix % m) = rw p (
      rw whole at
        (split_division (n % radix) radix (n / radix) m small
          (one-le-pow len radix radix_pos)).1) in
    record {
      reads = λ a.
          f.reads a
          ∙ rw (digit_char_value (n % radix) (omega (arith, small))) (
              ap (λ (t : ℕ). read radix t acc)
                (omega (arith, top, ap (λ (t : ℕ). a * t) (pow-suc radix len))));
      digits = λ h. f.digits (digit_char-IsDigit radix (n % radix) small hi, h);
      exact_length = omega (arith, f.exact_length);
    }

none_left : (radix n : ℕ) (acc : List ℕ) → Fixed radix n 0 acc acc
none_left radix n acc = record {
  reads = λ a.
      let e : a ≡ a * radix ^ 0 + n % radix ^ 0 = rw (pow-zero radix) (omega arith) in
      ap (λ (t : ℕ). read radix t acc) e;
  digits = λ h. h;
  exact_length = omega arith;
}

pub radix_len-Fixed :
    (radix n len : ℕ) (acc : List ℕ)
    → 2 ≤ radix
    → radix ≤ 36
    → Fixed radix n len acc (radix_len radix n len acc)
unfolding radix_len
radix_len-Fixed radix n zero acc lo hi = none_left radix n acc
radix_len-Fixed radix n (suc len) acc lo hi =
    one_more radix n len acc _ lo hi
      (radix_len-Fixed radix (n / radix) len (digit_char (n % radix) ∷ acc) lo hi)

-- The decimal and the binary printer write what the general one writes.
pub u32toa_len-radix_len :
    (len n : ℕ) (acc : List ℕ) → u32toa_len len n acc ≡ radix_len 10 n len acc
unfolding u32toa_len radix_len
u32toa_len-radix_len zero n acc = refl
u32toa_len-radix_len (suc len) n acc =
    let e : n % 10 + b'0' ≡ digit_char (n % 10) = unfold digit_char in ground arith in
    rw e (u32toa_len-radix_len len (n / 10) (digit_char (n % 10) ∷ acc))

pub u64toa_bin_len-radix_len :
    (bits n len : ℕ) (acc : List ℕ) → u64toa_bin_len bits n len acc ≡ radix_len (2 ^ bits) n len acc
unfolding u64toa_bin_len radix_len
u64toa_bin_len-radix_len bits n zero acc = refl
u64toa_bin_len-radix_len bits n (suc len) acc =
    rw (and_mask bits n)
      (u64toa_bin_len-radix_len bits (n / 2 ^ bits) len (digit_char (n % 2 ^ bits) ∷ acc))

limb_to_a-Fixed :
    (n radix len : ℕ) → 2 ≤ radix → radix ≤ 36 → Fixed radix n len [] (limb_to_a n radix len)
unfolding limb_to_a
limb_to_a-Fixed n radix len lo hi = elim (Bool-cases (radix == 10)) [
  | inl t ↦
      rw (t, u32toa_len-radix_len len n [])
        (let ten = ==→eq radix 10 t in rw (← ten) (radix_len-Fixed radix n len [] lo hi))
  | inr f ↦ rw f (radix_len-Fixed radix n len [] lo hi)
]

-- `limb_to_a` writes exactly `len` digits, which stand for the low `len` digits of the limb.
pub limb_to_a_exact :
    (n radix len : ℕ)
    → 2 ≤ radix
    → radix ≤ 36
    → (read radix 0 (limb_to_a n radix len) ≡ n % radix ^ len)
      × All (IsDigit radix) (limb_to_a n radix len)
      × (length (limb_to_a n radix len) ≡ len)
limb_to_a_exact n radix len lo hi =
    let f = limb_to_a-Fixed n radix len lo hi in
    (f.reads 0 ∙ omega arith, f.digits tt, omega (arith, f.exact_length))
