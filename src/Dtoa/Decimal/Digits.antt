-- ===== src/Dtoa/Decimal/Digits.antt =====
-- Reading digits back: what a text stands for in a radix.
use go_quickjs.Base.{
  ℕ, ◌+◌, ◌-◌, ◌*◌, ◌/◌, ◌%◌, ◌≤◌, ◌<◌, ◌≡◌, ◌≢◌, ◌⊎◌, refl, arith, List, [], ◌∷◌, ◌++◌, All, ltb,
  if◌then◌else◌,
}
use native.Mathlib.Nat.{mod-lt, div-add-mod}
use go_quickjs.Dtoa.Decimal.{digit_char}

-- The value of '0' to '9' and of 'a' to 'z'.
abbrev pub digit_value : ℕ → ℕ
digit_value c = if ltb c 58 then c - 48 else c - 87

-- The number that the digits stand for, after digits that stand for `acc`.
abbrev pub read : ℕ → ℕ → List ℕ → ℕ
read radix acc [] = acc
read radix acc (c ∷ cs) = read radix (acc * radix + digit_value c) cs

abbrev pub IsDigit : ℕ → ℕ → Type 0
IsDigit radix c = (((48 ≤ c) × (c < 58)) ⊎ ((97 ≤ c) × (c < 123))) × (digit_value c < radix)

-- The text is the number in the radix, with no zero in front of another digit.
pub record Prints (radix n : ℕ) (text : List ℕ) : Type 0 where
  pub reads : read radix 0 text ≡ n
  pub digits : All (IsDigit radix) text
  pub canonical : (text ≡ b'0' ∷ []) ⊎ ((c : ℕ) × (cs : List ℕ) × (text ≡ c ∷ cs) × (c ≢ b'0'))

pub read-append :
    (radix acc : ℕ) (s t : List ℕ) → read radix acc (s ++ t) ≡ read radix (read radix acc s) t
read-append radix acc [] t = refl
read-append radix acc (c ∷ s) t = read-append radix (acc * radix + digit_value c) s t

pub digits-append :
    (radix : ℕ) (s t : List ℕ)
    → All (IsDigit radix) s
    → All (IsDigit radix) t
    → All (IsDigit radix) (s ++ t)
digits-append radix [] t h k = k
digits-append radix (c ∷ s) t (p, h) k = (p, digits-append radix s t h k)

pub digit_char_value : (d : ℕ) → d < 36 → digit_value (digit_char d) ≡ d
unfolding digit_char
digit_char_value d h = ground arith

pub digit_char-IsDigit : (radix d : ℕ) → d < radix → radix ≤ 36 → IsDigit radix (digit_char d)
unfolding digit_char
digit_char-IsDigit radix d h r = ground arith

pub digit_char-ne-zero : (d : ℕ) → d ≢ 0 → digit_char d ≢ b'0'
unfolding digit_char
digit_char-ne-zero d h = ground arith

-- A digit that is read after its quotient gives the number.
pub read_digit :
    (radix n : ℕ) (acc : List ℕ)
    → 2 ≤ radix
    → radix ≤ 36
    → read radix (n / radix) (digit_char (n % radix) ∷ acc) ≡ read radix n acc
read_digit radix n acc lo hi =
    let small : n % radix < radix = mod-lt n (omega arith) in
    let value = digit_char_value (n % radix) (omega (arith, small)) in
    rw value
      (let e : n / radix * radix + n % radix ≡ n = omega (arith, div-add-mod n radix) in rw e)
