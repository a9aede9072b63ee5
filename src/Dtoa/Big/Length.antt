-- ===== src/Dtoa/Big/Length.antt =====
-- dtoa.c: `mpb_renorm`, which drops zero limbs from the top.
use go_quickjs.Base.{
  ℕ, zero, suc, ◌-◌, ◌≤◌, ◌≡◌, refl, ap, ◌∙◌, arith, List, [], ◌∷◌, ◌⊎◌, ◌≢◌, inl, inr, length,
  take, get_or, All, ◌==◌, Bool-cases, ==→eq, length-take, get_or-take,
}
use go_quickjs.Dtoa.Limbs.Value.{IsLimb, value}
use go_quickjs.Dtoa.Big.{renorm_len, mpb_renorm}

pub value-take_zero :
    (n : ℕ) (xs : List ℕ)
    → suc n ≤ length xs
    → get_or xs n 0 ≡ 0
    → value (take n xs) ≡ value (take (suc n) xs)
value-take_zero zero [] h e = absurd (omega arith)
value-take_zero zero (x ∷ xs) h e = omega arith
value-take_zero (suc n) [] h e = absurd (omega arith)
value-take_zero (suc n) (x ∷ xs) h e = omega (arith, value-take_zero n xs (omega arith) e)

pub take-All : (n : ℕ) (xs : List ℕ) → All IsLimb xs → All IsLimb (take n xs)
take-All zero xs h = tt
take-All (suc n) [] h = tt
take-All (suc n) (x ∷ xs) (p, h) = (p, take-All n xs h)

pub take_all : (xs : List ℕ) → take (length xs) xs ≡ xs
take_all [] = refl
take_all (x ∷ xs) = ap (◌∷◌ x) (take_all xs)

-- The new length is at most the old, 0 only for 0, and the number stays; the top limb that is
-- left is not 0, unless it is the only one.
record Renormed (n : ℕ) (tab : List ℕ) (m : ℕ) : Type 0 where
  shorter : m ≤ n
  nonempty : 1 ≤ n → 1 ≤ m
  same : value (take m tab) ≡ value (take n tab)
  top : (m ≤ 1) ⊎ (get_or tab (m - 1) 0 ≢ 0)

renorm_len-Renormed : (n : ℕ) (tab : List ℕ) → n ≤ length tab → Renormed n tab (renorm_len n tab)
unfolding renorm_len
renorm_len-Renormed zero tab h = record {
  shorter = omega arith;
  nonempty = λ p. p;
  same = refl;
  top = inl (omega arith);
}
renorm_len-Renormed (suc zero) tab h = record {
  shorter = omega arith;
  nonempty = λ p. p;
  same = refl;
  top = inl (omega arith);
}
renorm_len-Renormed (suc (suc n)) tab h = elim (Bool-cases (get_or tab (suc n) 0 == 0)) [
  | inl e ↦
      let r = renorm_len-Renormed (suc n) tab (omega arith) in
      rw e (record {
        shorter = omega (arith, r.shorter);
        nonempty = λ p. r.nonempty (omega arith);
        same = r.same ∙ value-take_zero (suc n) tab h (==→eq _ _ e);
        top = r.top;
      })
  | inr e ↦ rw e (record {
    shorter = omega arith;
    nonempty = λ p. omega arith;
    same = refl;
    top = inr (ground arith);
  })
]

-- `mpb_renorm` keeps the number and at least one limb, and leaves no zero limb on top of another.
pub mpb_renorm_exact :
    (tab : List ℕ)
    → All IsLimb tab
    → 1 ≤ length tab
    → (value (mpb_renorm tab) ≡ value tab)
      × All IsLimb (mpb_renorm tab)
      × (1 ≤ length (mpb_renorm tab))
      × ((length (mpb_renorm tab) ≡ 1)
          ⊎ (get_or (mpb_renorm tab) (length (mpb_renorm tab) - 1) 0 ≢ 0))
unfolding mpb_renorm
mpb_renorm_exact tab h ne =
    let m = renorm_len (length tab) tab in
    let r = renorm_len-Renormed (length tab) tab (omega arith) in
    let len : length (take m tab) ≡ m = omega (arith, length-take m tab, r.shorter) in
    let some_limb = r.nonempty ne in
    (
      r.same ∙ ap value (take_all tab),
      take-All m tab h,
      rw len some_limb,
      rw (len, get_or-take m (m - 1) tab 0 (omega (arith, some_limb)))
          (elim r.top [ inl le ↦ inl (omega (arith, some_limb)) | inr high ↦ inr high ]),
    )
