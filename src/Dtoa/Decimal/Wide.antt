-- ===== src/Dtoa/Decimal/Wide.antt =====
-- dtoa.c: the printers of 64-bit numbers in decimal.
use go_quickjs.Base.{
  ℕ, suc, ◌+◌, ◌-◌, ◌*◌, ◌/◌, ◌%◌, ◌^◌, ◌≤◌, ◌<◌, ◌≡◌, ◌≢◌, inl, inr, refl, sym, ap, ◌∙◌, arith,
  List, [], ◌∷◌, ◌++◌, length, ltb, leb, some, Bool-cases, leb→le, leb→lt, ltb→le, length-append,
}
use mathlib.Core.Option
use mathlib.Core.List.{append_assoc}
use go_quickjs.Base.Int.{pos, negsuc}
use go_quickjs.Dtoa.Decimal.{u32toa_len, u64toa, i64toa, top_digits}
use go_quickjs.Dtoa.Decimal.Digits.{read, Prints, read-append, digits-append}
use go_quickjs.Dtoa.Decimal.Fixed.{Fixed, radix_len-Fixed, u32toa_len-radix_len}
use go_quickjs.Dtoa.Decimal.Whole.{u32toa_exact}

nine_digits : (m : ℕ) → Fixed 10 m 9 [] (u32toa_len 9 m [])
nine_digits m =
    rw (u32toa_len-radix_len 9 m []) (radix_len-Fixed 10 m 9 [] (omega arith) (omega arith))

-- A number that is not 0, followed by nine more digits.
append_nine :
    (q m : ℕ) (s t : List ℕ)
    → q ≢ 0
    → m < 1_000_000_000
    → Prints 10 q s
    → Fixed 10 m 9 [] t
    → Prints 10 (q * 1_000_000_000 + m) (s ++ t)
append_nine q m s t ne small p f = record {
  reads = read-append 10 0 s t ∙ rw p.reads (f.reads q ∙ omega arith);
  digits = digits-append 10 s t p.digits (f.digits tt);
  canonical = elim p.canonical [
    | inl z ↦ let zero_read : read 10 0 s ≡ 0 = rw z in absurd (ne (sym p.reads ∙ zero_read))
    | inr (c, cs, e, first) ↦ inr (c, cs ++ t, ap (λ (l : List ℕ). l ++ t) e, first)
  ];
}

top_digits-Prints :
    (n : ℕ) → 0 < n → n < 100 → Prints 10 n (top_digits n) × (length (top_digits n) ≤ 2)
unfolding top_digits
top_digits-Prints n lo hi = elim (Bool-cases (leb 10 n)) [
  | inl t ↦ rw t (
    record {
      reads = ground arith;
      digits = ground arith;
      canonical = inr (n / 10 + b'0', (n % 10 + b'0') ∷ [], refl, λ e. ground arith);
    },
    omega arith,
  )
  | inr f ↦ rw f (
    record {
      reads = ground arith;
      digits = ground arith;
      canonical = inr (n + b'0', [], refl, λ e. ground arith);
    },
    omega arith,
  )
]

-- `u64toa` writes every 64-bit number in decimal, in at most 20 characters, and never writes in
-- front of its inner buffer.
pub u64toa_exact :
    (n : ℕ)
    → n < 2 ^ 64
    → (text : List ℕ) × (u64toa n ≡ some text) × Prints 10 n text × (length text ≤ 20)
unfolding u64toa
u64toa_exact n h = elim (Bool-cases (ltb n 0x100000000)) [
  | inl t ↦
      let (text, e, p, len) = u32toa_exact n (ground arith) in (text, rw t e, p, omega (arith, len))
  | inr f ↦
      let n1 = n / 1_000_000_000 in
      let large = ltb→le _ _ f in
      let low = nine_digits (n % 1_000_000_000 % 2 ^ 32) in
      elim (Bool-cases (leb 0x100000000 n1)) [
        | inl t ↦
            let n2 = n1 / 1_000_000_000 % 2 ^ 32 in
            let mid = nine_digits (n1 % 1_000_000_000 % 2 ^ 32) in
            let (top, two) = top_digits-Prints n2 (omega (arith, leb→le _ _ t)) (omega arith) in
            let upper =
              append_nine n2 (n1 % 1_000_000_000 % 2 ^ 32) _ _ (omega (arith, leb→le _ _ t))
                (omega arith) top mid in
            let whole : (n2 * 1_000_000_000 + n1 % 1_000_000_000 % 2 ^ 32) * 1_000_000_000
                  + n % 1_000_000_000 % 2 ^ 32
                ≡ n =
              omega arith in
            let all =
              append_nine (n2 * 1_000_000_000 + n1 % 1_000_000_000 % 2 ^ 32)
                (n % 1_000_000_000 % 2 ^ 32) _ _ (omega (arith, leb→le _ _ t)) (omega arith) upper
                low in
            let a = top_digits n2 in
            let b = u32toa_len 9 (n1 % 1_000_000_000 % 2 ^ 32) [] in
            let c = u32toa_len 9 (n % 1_000_000_000 % 2 ^ 32) [] in
            (
              _,
              rw (f, t),
              rw (append_assoc a b c, whole) at all,
              omega (
                arith,
                two,
                low.exact_length,
                mid.exact_length,
                length-append {0} a (b ++ c),
                length-append {0} b c,
              ),
            )
        | inr g ↦
            let (text, e, p, len) = u32toa_exact n1 (leb→lt _ _ g) in
            let whole : n1 * 1_000_000_000 + n % 1_000_000_000 % 2 ^ 32 ≡ n = omega arith in
            let all =
              append_nine n1 (n % 1_000_000_000 % 2 ^ 32) text _ (omega (arith, large))
                (omega arith) p low in
            (
              _,
              rw (f, g, e),
              rw whole at all,
              omega (
                arith,
                len,
                low.exact_length,
                length-append {0} text (u32toa_len 9 (n % 1_000_000_000 % 2 ^ 32) []),
              ),
            )
      ]
]

-- `i64toa` writes every 64-bit signed number: the digits of its magnitude, behind a minus sign if
-- it is negative, also for the least number.
pub i64toa_exact :
    (n : ℕ)
    → n < 2 ^ 63
    → ((text : List ℕ) × (i64toa (pos n) ≡ some text) × Prints 10 n text)
      × ((text : List ℕ) × (i64toa (negsuc n) ≡ some (b'-' ∷ text)) × Prints 10 (suc n) text)
unfolding i64toa
i64toa_exact n h =
    let (text, e, p, len) = u64toa_exact n (omega arith) in
    let same : (2 ^ 64 - (2 ^ 64 - suc n)) % 2 ^ 64 ≡ suc n = omega arith in
    let (neg, e', p', len') = u64toa_exact (suc n) (omega arith) in
    ((text, e, p), (neg, ap (Option.map (λ s. b'-' ∷ s)) (ap u64toa same ∙ e'), p'))
