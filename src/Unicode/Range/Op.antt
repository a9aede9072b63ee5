-- ===== src/Unicode/Range/Op.antt =====
-- libunicode.c: the loop of `cr_op`.
pub mod Loop
use go_quickjs.Base.{
  ℕ, zero, suc, ◌+◌, ◌-◌, ◌*◌, ◌/◌, ◌%◌, ◌^◌, ◌≤◌, ◌<◌, ◌≡◌, ◌≢◌, ◌⊎◌, inl, inr, refl, sym, ap, ◌∙◌,
  arith, List, [], ◌∷◌, ◌++◌, length, All, leb, ltb, ◌==◌, if◌then◌else◌, Bool, true, false,
  Bool-cases, ==→eq, Option, none, some, bit_and, bit_or, bit_xor, length-append,
}
use Prim.Native.Nat.{min, max}
use native.Mathlib.Nat.{add-zero, add_assoc}
use native.Mathlib.Decide.{dec_le}
use go_quickjs.Base.Bits.{and_mask}
use go_quickjs.Unicode.Range.{
  CharRange, Changed, changed, with_points, cr_realloc, cr_add_point, CharRangeOp, cr_op_union,
  cr_op_inter, cr_op_xor, Taken, taken, take_point, is_in, cr_op_loop,
}
use mathlib.Core.List.{append_assoc, append-nil}
use go_quickjs.Unicode.Range.Room.{cr_add_point_exact}
use go_quickjs.Unicode.Range.Points.{count, Above, IsSorted, count-eq-zero, Above-weaken}

-- Union, intersection and symmetric difference of 0 and 1.
abbrev pub combine : CharRangeOp → ℕ → ℕ → ℕ
combine cr_op_union x y = max x y
combine cr_op_inter x y = min x y
combine cr_op_xor x y = (x + y) % 2

parity : (n : ℕ) → (n % 2 ≡ 0) ⊎ (n % 2 ≡ 1)
parity n = elim (dec_le (n % 2) 0) [ yes z ↦ inl (omega arith) | no p ↦ inr (omega arith) ]

-- `is_in` on the lowest bits.
abbrev join : CharRangeOp → ℕ → ℕ → ℕ
join cr_op_union x y = bit_or x y
join cr_op_inter x y = bit_and x y
join cr_op_xor x y = bit_xor x y

is_in-join : (op : CharRangeOp) (i j : ℕ) → is_in op i j ≡ join op (i % 2) (j % 2)
unfolding is_in
is_in-join cr_op_union i j = rw (and_mask 1 i, and_mask 1 j) refl
is_in-join cr_op_inter i j = rw (and_mask 1 i, and_mask 1 j) refl
is_in-join cr_op_xor i j = rw (and_mask 1 i, and_mask 1 j) refl

pub is_in-combine : (op : CharRangeOp) (i j : ℕ) → is_in op i j ≡ combine op (i % 2) (j % 2)
is_in-combine op i j = rw (is_in-join op i j) (elim (parity i) [
  | inl x ↦ elim (parity j) [ inl y ↦ rw (x, y) (zero_zero op) | inr y ↦ rw (x, y) (zero_one op) ]
  | inr x ↦ elim (parity j) [ inl y ↦ rw (x, y) (one_zero op) | inr y ↦ rw (x, y) (one_one op) ]
])
  where
    zero_zero : (op : CharRangeOp) → join op 0 0 ≡ combine op 0 0
    zero_zero cr_op_union = refl
    zero_zero cr_op_inter = refl
    zero_zero cr_op_xor = refl

    zero_one : (op : CharRangeOp) → join op 0 1 ≡ combine op 0 1
    zero_one cr_op_union = refl
    zero_one cr_op_inter = refl
    zero_one cr_op_xor = refl

    one_zero : (op : CharRangeOp) → join op 1 0 ≡ combine op 1 0
    one_zero cr_op_union = refl
    one_zero cr_op_inter = refl
    one_zero cr_op_xor = refl

    one_one : (op : CharRangeOp) → join op 1 1 ≡ combine op 1 1
    one_one cr_op_union = refl
    one_one cr_op_inter = refl
    one_one cr_op_xor = refl

pub combine_bit : (op : CharRangeOp) (i j : ℕ) → combine op (i % 2) (j % 2) < 2
combine_bit cr_op_union i j = omega arith
combine_bit cr_op_inter i j = omega arith
combine_bit cr_op_xor i j = omega arith

-- What taking a point leaves: it is the least of both arrays, and is gone from one or from both.
pub record Takes (a b : List ℕ) (t : Taken) : Type 0 where
  pub a_count : (c : ℕ) → count c a ≡ (if leb t.v c then t.a_step else 0) + count c t.a_rest
  pub b_count : (c : ℕ) → count c b ≡ (if leb t.v c then t.b_step else 0) + count c t.b_rest
  pub a_length : length a ≡ t.a_step + length t.a_rest
  pub b_length : length b ≡ t.b_step + length t.b_rest
  pub progress : 1 ≤ t.a_step + t.b_step
  pub a_sorted : IsSorted t.a_rest
  pub b_sorted : IsSorted t.b_rest
  pub a_above : Above t.v t.a_rest
  pub b_above : Above t.v t.b_rest
  pub least : (m : ℕ) → Above m a → Above m b → m ≤ t.v

pub take_point-Takes :
    (a b : List ℕ)
    → IsSorted a
    → IsSorted b
    → ((take_point a b ≡ none) × (a ≡ []) × (b ≡ []))
      ⊎ ((t : Taken) × (take_point a b ≡ some t) × Takes a b t)
unfolding take_point
take_point-Takes [] [] ha hb = inl (refl, refl, refl)
take_point-Takes (x ∷ a) [] (pa, ha) hb = inr (
  taken x 1 0 a [],
  refl,
  record {
    a_count = λ c. refl;
    b_count = λ c. ground arith;
    a_length = omega arith;
    b_length = omega arith;
    progress = omega arith;
    a_sorted = ha;
    b_sorted = tt;
    a_above = pa;
    b_above = tt;
    least = λ m p q. p.0;
  },
)
take_point-Takes [] (y ∷ b) ha (pb, hb) = inr (
  taken y 0 1 [] b,
  refl,
  record {
    a_count = λ c. ground arith;
    b_count = λ c. refl;
    a_length = omega arith;
    b_length = omega arith;
    progress = omega arith;
    a_sorted = tt;
    b_sorted = hb;
    a_above = tt;
    b_above = pb;
    least = λ m p q. q.0;
  },
)
take_point-Takes (x ∷ a) (y ∷ b) (pa, ha) (pb, hb) = elim (Bool-cases (ltb x y)) [
  | inl lt ↦ inr (
    taken x 1 0 a (y ∷ b),
    rw lt refl,
    record {
      a_count = λ c. refl;
      b_count = λ c. ground arith;
      a_length = omega arith;
      b_length = omega arith;
      progress = omega arith;
      a_sorted = ha;
      b_sorted = (pb, hb);
      a_above = pa;
      b_above = (ground arith, Above-weaken x y b (ground arith) pb);
      least = λ m p q. p.0;
    },
  )
  | inr ge ↦ elim (Bool-cases (x == y)) [
    | inl same ↦ inr (
      taken x 1 1 a b,
      rw (ge, same) refl,
      record {
        a_count = λ c. refl;
        b_count = λ c. rw (==→eq x y same) refl;
        a_length = omega arith;
        b_length = omega arith;
        progress = omega arith;
        a_sorted = ha;
        b_sorted = hb;
        a_above = pa;
        b_above = Above-weaken x y b (ground arith) pb;
        least = λ m p q. p.0;
      },
    )
    | inr other ↦ inr (
      taken y 0 1 (x ∷ a) b,
      rw (ge, other) refl,
      record {
        a_count = λ c. ground arith;
        b_count = λ c. refl;
        a_length = omega arith;
        b_length = omega arith;
        progress = omega arith;
        a_sorted = (pa, ha);
        b_sorted = hb;
        a_above = (ground arith, Above-weaken y x a (ground arith) pa);
        b_above = pb;
        least = λ m p q. q.0;
      },
    )
  ]
]

-- What the loop puts behind the `k` points that are there, with `i` and `j` points taken: the set in
-- which a code point is by the operation on the two sets.
pub record Emits (op : CharRangeOp) (i j k : ℕ) (a b new : List ℕ) : Type 0 where
  pub member :
      (c : ℕ) → (k + count c new) % 2 ≡ combine op ((i + count c a) % 2) ((j + count c b) % 2)
  pub ends : (k + length new) % 2 ≡ combine op ((i + length a) % 2) ((j + length b) % 2)
  pub sorted : IsSorted new
  pub above : (m : ℕ) → Above m a → Above m b → Above m new

pub nothing_left :
    (op : CharRangeOp) (i j k : ℕ) → k % 2 ≡ combine op (i % 2) (j % 2) → Emits op i j k [] [] []
nothing_left op i j k h = record {
  member = λ c. rw (add-zero i, add-zero j, add-zero k) h;
  ends = rw (add-zero i, add-zero j, add-zero k) h;
  sorted = tt;
  above = λ m p q. tt;
}

module _ (op : CharRangeOp) (i j k : ℕ) (a b : List ℕ) (t : Taken) (takes : Takes a b t)
    (state : k % 2 ≡ combine op (i % 2) (j % 2)) where
  -- Before the point that is taken, none of the points counts.
  before :
      (c k' : ℕ) (new : List ℕ)
      → c < t.v
      → Above t.v new
      → (k + count c new) % 2 ≡ combine op ((i + count c a) % 2) ((j + count c b) % 2)
  before c k' new lt h =
      let f : leb t.v c ≡ false = ground arith in
      let za : count c a ≡ 0 =
        rw (takes.a_count c, f) (omega (arith, count-eq-zero c t.v t.a_rest lt takes.a_above)) in
      let zb : count c b ≡ 0 =
        rw (takes.b_count c, f) (omega (arith, count-eq-zero c t.v t.b_rest lt takes.b_above)) in
      rw (za, zb, count-eq-zero c t.v new lt h, add-zero i, add-zero j, add-zero k) state

  pub not_emitted :
      (new : List ℕ)
      → Emits op (i + t.a_step) (j + t.b_step) k t.a_rest t.b_rest new
      → Emits op i j k a b new
  not_emitted new e = record {
    member = λ c. elim (Bool-cases (leb t.v c)) [
      | inl le ↦
          rw
            (
              takes.a_count c,
              takes.b_count c,
              le,
              ← add_assoc i t.a_step (count c t.a_rest),
              ← add_assoc j t.b_step (count c t.b_rest),
            )
            (e.member c)
      | inr gt ↦ before c k new (ground arith) (e.above t.v takes.a_above takes.b_above)
    ];
    ends =
        rw
          (
            takes.a_length,
            takes.b_length,
            ← add_assoc i t.a_step (length t.a_rest),
            ← add_assoc j t.b_step (length t.b_rest),
          )
          e.ends;
    sorted = e.sorted;
    above = λ m p q.
        Above-weaken m t.v new (takes.least m p q) (e.above t.v takes.a_above takes.b_above);
  }

  pub emitted :
      (new : List ℕ)
      → Emits op (i + t.a_step) (j + t.b_step) (k + 1) t.a_rest t.b_rest new
      → Emits op i j k a b (t.v ∷ new)
  emitted new e = record {
    member = λ c. elim (Bool-cases (leb t.v c)) [
      | inl le ↦
          rw
            (
              takes.a_count c,
              takes.b_count c,
              le,
              ← add_assoc i t.a_step (count c t.a_rest),
              ← add_assoc j t.b_step (count c t.b_rest),
              ← add_assoc k 1 (count c new),
            )
            (e.member c)
      | inr gt ↦
          before c k (t.v ∷ new) (ground arith)
            (omega arith, e.above t.v takes.a_above takes.b_above)
    ];
    ends =
        rw
          (
            takes.a_length,
            takes.b_length,
            ← add_assoc i t.a_step (length t.a_rest),
            ← add_assoc j t.b_step (length t.b_rest),
          )
          (let s : k + suc (length new) ≡ k + 1 + length new = omega arith in rw s e.ends);
    sorted = (e.above t.v takes.a_above takes.b_above, e.sorted);
    above = λ m p q. (
      takes.least m p q,
      Above-weaken m t.v new (takes.least m p q) (e.above t.v takes.a_above takes.b_above),
    );
  }
