-- ===== src/Unicode/Range/Compress.antt =====
-- libunicode.c: `cr_compress`, which joins intervals and drops empty ones.
use go_quickjs.Base.{
  ℕ, suc, ◌%◌, ◌<◌, ◌≡◌, refl, ◌∙◌, arith, List, [], ◌∷◌, length, ◌==◌, if◌then◌else◌, Bool-cases,
  inl, inr, ==→eq, ==→ne,
}
use go_quickjs.Unicode.Range.{compress, merge}
use go_quickjs.Unicode.Range.Points.{inside, Above, IsSorted, IsStrict, Above-weaken}

-- `r` stands for the set that `s` stands for; its points come in pairs, and rise strictly if those
-- of `s` rise and `P` holds.
pub record Compressed (P : Type 0) (s r : List ℕ) : Type 0 where
  pub same_set : (c : ℕ) → inside c r ≡ inside c s
  pub paired : length r % 2 ≡ 0
  pub above : (m : ℕ) → Above m s → Above m r
  pub strict : P → IsSorted s → IsStrict r

-- An interval is dropped if it is empty.
unless_empty :
    (s e : ℕ) (pt next kept : List ℕ)
    → Compressed Unit pt next
    → Compressed (s < e) (s ∷ e ∷ pt) kept
    → Compressed Unit (s ∷ e ∷ pt) (if s == e then next else kept)
unless_empty s e pt next kept n k = elim (Bool-cases (s == e)) [
  | inl t ↦ rw t (record {
    same_set = λ c. n.same_set c ∙ rw (==→eq s e t) (ground arith);
    paired = n.paired;
    above = λ m h. n.above m h.1.1;
    strict = λ p h. n.strict tt h.1.1;
  })
  | inr f ↦ rw f (record {
    same_set = k.same_set;
    paired = k.paired;
    above = k.above;
    strict = λ p h. k.strict (omega (arith, ==→ne s e f, h.0.0)) h;
  })
]

-- The inner loop, when it goes on and when it ends.
merged :
    (s e s1 e1 : ℕ) (pt longer next : List ℕ)
    → Compressed (s < e1) (s ∷ e1 ∷ pt) longer
    → Compressed Unit (s1 ∷ e1 ∷ pt) next
    → Compressed (s < e) (s ∷ e ∷ s1 ∷ e1 ∷ pt) (if e == s1 then longer else s ∷ e ∷ next)
merged s e s1 e1 pt longer next l n = elim (Bool-cases (e == s1)) [
  | inl t ↦ rw t (record {
    same_set = λ c. l.same_set c ∙ rw (==→eq e s1 t) (ground arith);
    paired = l.paired;
    above = λ m h. l.above m (h.0, h.1.1.1);
    strict = λ p h. l.strict (omega (arith, h.1.0.1.0)) (h.0.1.1, h.1.1.1);
  })
  | inr f ↦ rw f (record {
    same_set = λ c. omega (arith, n.same_set c);
    paired = omega (arith, n.paired);
    above = λ m h. (h.0, (h.1.0, n.above m h.1.1));
    strict = λ p h.
        let low = n.above (suc e) (
          omega (arith, ==→ne e s1 f, h.1.0.0),
          Above-weaken (suc e) s1 (e1 ∷ pt) (omega (arith, ==→ne e s1 f, h.1.0.0)) h.1.1.0,
        ) in
        ((p, Above-weaken (suc s) (suc e) next (omega (arith, p)) low), (low, n.strict tt h.1.1));
  })
]

mutual
  unfolding compress

  pub compress-Compressed : (pt : List ℕ) → length pt % 2 ≡ 0 → Compressed Unit pt (compress pt)
  compress-Compressed [] h = record {
    same_set = λ c. refl;
    paired = refl;
    above = λ m h. tt;
    strict = λ p h. tt;
  }
  compress-Compressed (s ∷ []) h = absurd (omega arith)
  compress-Compressed (s ∷ e ∷ pt) h =
      unless_empty s e pt (compress pt) (merge s e pt) (compress-Compressed pt (omega arith))
        (merge-Compressed s e pt (omega arith))

  merge-Compressed :
      (s e : ℕ) (pt : List ℕ) → length pt % 2 ≡ 0 → Compressed (s < e) (s ∷ e ∷ pt) (merge s e pt)
  merge-Compressed s e [] h = record {
    same_set = λ c. refl;
    paired = refl;
    above = λ m h. h;
    strict = λ p h. ((p, tt), (tt, tt));
  }
  merge-Compressed s e (s1 ∷ []) h = absurd (omega arith)
  merge-Compressed s e (s1 ∷ e1 ∷ pt) h =
      merged s e s1 e1 pt _ _ (merge-Compressed s e1 pt (omega arith)) (
        unless_empty s1 e1 pt _ _ (compress-Compressed pt (omega arith))
          (merge-Compressed s1 e1 pt (omega arith)))
