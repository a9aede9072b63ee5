-- ===== src/Dtoa/Decimal/Whole.antt =====
-- dtoa.c: the printers that write as many digits as the number has.
use go_quickjs.Base.{
  ℕ, zero, suc, ◌+◌, ◌*◌, ◌/◌, ◌%◌, ◌^◌, ◌≤◌, ◌<◌, ◌≡◌, ◌≢◌, inl, inr, refl, sym, ap, ◌∙◌, arith,
  List, [], ◌∷◌, length, All, some, Bool-cases, ◌==◌, ==→eq, ==→ne,
}
use native.Mathlib.Nat.{
  mod-lt, div-add-mod, div-lt_iff_lt-mul, pow-suc, div-eq_of_lt, zero-mod, zero-div,
}
use go_quickjs.Base.Powers.{pow-one}
use go_quickjs.Dtoa.Decimal.{digit_char, digits_loop, u32toa}
use go_quickjs.Dtoa.Decimal.Digits.{
  read, IsDigit, Prints, digit_char-IsDigit, digit_char-ne-zero, read_digit,
}

-- What the loop hands back: the digits of `n` in front of `acc`.
record Written (radix room n : ℕ) (acc text : List ℕ) : Type 0 where
  reads : read radix 0 text ≡ read radix n acc
  digits : All (IsDigit radix) acc → All (IsDigit radix) text
  first : n ≢ 0 → (c : ℕ) × (cs : List ℕ) × (text ≡ c ∷ cs) × (c ≢ b'0')
  zero_text : n ≡ 0 → text ≡ b'0' ∷ acc
  short : length text ≤ length acc + room

last_digit :
    (radix room n : ℕ) (acc : List ℕ)
    → 2 ≤ radix
    → radix ≤ 36
    → n / radix ≡ 0
    → Written radix (suc room) n acc (digit_char (n % radix) ∷ acc)
last_digit radix room n acc lo hi z = record {
  reads = rw (← z) (read_digit radix n acc lo hi);
  digits = λ h. (digit_char-IsDigit radix (n % radix) (mod-lt n (omega arith)) hi, h);
  first = λ ne.
      let same : n % radix ≡ n =
        omega (arith, z, div-add-mod n radix, ap (λ (t : ℕ). radix * t) z) in
      (digit_char (n % radix), acc, refl, digit_char-ne-zero (n % radix) (λ e. ne (sym same ∙ e)));
  zero_text = λ e. rw (e, zero-mod radix) (unfold digit_char in refl);
  short = omega arith;
}

loop_writes :
    (radix room n : ℕ) (acc : List ℕ)
    → 2 ≤ radix
    → radix ≤ 36
    → n < radix ^ suc room
    → (text : List ℕ) × (digits_loop radix (suc room) n acc ≡ some text)
      × Written radix (suc room) n acc text
unfolding digits_loop
loop_writes radix zero n acc lo hi h =
    let z : n / radix ≡ 0 = div-eq_of_lt (omega (arith, h, pow-one radix)) in
    (_, rw z, last_digit radix zero n acc lo hi z)
loop_writes radix (suc room) n acc lo hi h = elim (Bool-cases (n / radix == 0)) [
  | inl t ↦ (_, rw t, last_digit radix (suc room) n acc lo hi (==→eq _ 0 t))
  | inr f ↦
      let d = digit_char (n % radix) in
      let radix_pos : 0 < radix = omega arith in
      let small : n / radix < radix ^ suc room =
        (div-lt_iff_lt-mul radix_pos).1 (rw (← pow-suc radix (suc room)) h) in
      let (text, e, w) = loop_writes radix room (n / radix) (d ∷ acc) lo hi small in
      (
        text,
        rw f e,
        record {
          reads = w.reads ∙ read_digit radix n acc lo hi;
          digits =
              λ k. w.digits (digit_char-IsDigit radix (n % radix) (mod-lt n (omega arith)) hi, k);
          first = λ ne. w.first (==→ne (n / radix) 0 f);
          zero_text =
              λ z. absurd (==→ne (n / radix) 0 f (ap (λ (t : ℕ). t / radix) z ∙ zero-div radix));
          short = omega (arith, w.short);
        },
      )
]

pub loop-Prints :
    (radix room n : ℕ)
    → 2 ≤ radix
    → radix ≤ 36
    → n < radix ^ suc room
    → (text : List ℕ) × (digits_loop radix (suc room) n [] ≡ some text)
      × Prints radix n text
      × (length text ≤ suc room)
loop-Prints radix room n lo hi h =
    let (text, e, w) = loop_writes radix room n [] lo hi h in
    (
      text,
      e,
      record {
        reads = w.reads;
        digits = w.digits tt;
        canonical = elim (Bool-cases (n == 0)) [
          | inl z ↦ inl (w.zero_text (==→eq n 0 z))
          | inr f ↦ inr (w.first (==→ne n 0 f))
        ];
      },
      omega (arith, w.short),
    )

-- `u32toa` never writes in front of its buffer of 10, and writes its argument in decimal.
pub u32toa_exact :
    (n : ℕ)
    → n < 2 ^ 32
    → (text : List ℕ) × (u32toa n ≡ some text) × Prints 10 n text × (length text ≤ 10)
unfolding u32toa
u32toa_exact n h = loop-Prints 10 9 n (omega arith) (omega arith) (omega arith)
