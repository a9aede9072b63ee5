-- ===== src/Unicode/Range.antt =====
-- libunicode.c and libunicode.h, `CharRange`: a set of code points as the list of the points where
-- it begins and ends. A function that changes the range returns it, also when it fails.
pub mod Points
pub mod Compress
pub mod Room
pub mod Op
pub mod Set
use go_quickjs.Base.{
  ℕ, zero, suc, ◌+◌, ◌-◌, ◌*◌, ◌/◌, ◌%◌, ◌^◌, bit_and, bit_or, bit_xor, List, [], ◌∷◌, ◌++◌, length,
  ltb, ◌==◌, if◌then◌else◌, Bool, true, false, Option, none, some, not,
}
use mathlib.Core.Option
use Prim.Native.Nat.{max}

-- What the allocator answers, and the memory that it leaves.
pub record Reply {ℓ} (H : Type ℓ) : Type ℓ where
  pub granted : Bool
  pub memory : H

-- `points` are the `len` points in use; `size` is the room. `mem_opaque` points to the state of the
-- allocator in C, and is that state here. The allocator is the caller's: a parameter.
pub record CharRange {ℓ} (H : Type ℓ) : Type ℓ where
  pub points : List ℕ
  pub size : ℕ
  pub mem_opaque : H
  pub realloc_func : H → ℕ → Reply H

-- The result is -1 when `failed`, and 0 otherwise.
pub record Changed {ℓ} (H : Type ℓ) : Type ℓ where
  pub failed : Bool
  pub cr : CharRange H

abbrev pub changed {ℓ} : {H : Type ℓ} → Bool → CharRange H → Changed H
changed f cr = record { failed = f; cr = cr }

abbrev pub with_points {ℓ} : {H : Type ℓ} → CharRange H → List ℕ → CharRange H
with_points cr pt = record {
  points = pt;
  size = cr.size;
  mem_opaque = cr.mem_opaque;
  realloc_func = cr.realloc_func;
}

unfoldable pub cr_init {ℓ} : {H : Type ℓ} → H → (H → ℕ → Reply H) → CharRange H
cr_init opaque func = record { points = []; size = 0; mem_opaque = opaque; realloc_func = func }

-- The memory after the points are given back.
unfoldable pub cr_free {ℓ} : {H : Type ℓ} → CharRange H → H
cr_free cr = (cr.realloc_func cr.mem_opaque 0).memory

-- The sizes are C `int`s, taken to be small enough for `size * 3`.
unfoldable pub cr_realloc {ℓ} : {H : Type ℓ} → CharRange H → ℕ → Changed H
cr_realloc cr size =
    let new_size = max size (cr.size * 3 / 2) in
    let reply = cr.realloc_func cr.mem_opaque (new_size * 4) in
    if ltb cr.size size
    then changed (not reply.granted) (record {
      points = cr.points;
      size = if reply.granted then new_size else cr.size;
      mem_opaque = reply.memory;
      realloc_func = cr.realloc_func;
    })
    else changed false cr

unfoldable pub cr_copy {ℓ} : {H : Type ℓ} → CharRange H → CharRange H → Changed H
cr_copy cr cr1 =
    let r = cr_realloc cr (length cr1.points) in
    if r.failed then r else changed false (with_points r.cr cr1.points)

-- The room is made only when there is none.
unfoldable pub cr_add_point {ℓ} : {H : Type ℓ} → CharRange H → ℕ → Changed H
cr_add_point cr v =
    let r =
      if ltb (length cr.points) cr.size
      then changed false cr
      else cr_realloc cr (length cr.points + 1) in
    if r.failed then r else changed false (with_points r.cr (r.cr.points ++ (v ∷ [])))

unfoldable pub cr_add_interval {ℓ} : {H : Type ℓ} → CharRange H → ℕ → ℕ → Changed H
cr_add_interval cr c1 c2 =
    let r =
      if ltb cr.size (length cr.points + 2)
      then cr_realloc cr (length cr.points + 2)
      else changed false cr in
    if r.failed then r else changed false (with_points r.cr (r.cr.points ++ (c1 ∷ c2 ∷ [])))

-- The two loops of `cr_compress`, on the points that are still to be read: `merge` is the inner one,
-- with `pt[i]` and `pt[j + 1]` in hand. The points are written in place, never ahead of the reading
-- (`k <= i`), so what is read is what was there. A last point without a partner is dropped.
unfoldable mutual
  pub compress : List ℕ → List ℕ
  compress [] = []
  compress (s ∷ []) = []
  compress (s ∷ e ∷ pt) =
      let next = compress pt in let kept = merge s e pt in if s == e then next else kept

  pub merge : ℕ → ℕ → List ℕ → List ℕ
  merge s e [] = s ∷ e ∷ []
  merge s e (s1 ∷ []) = s ∷ e ∷ []
  merge s e (s1 ∷ e1 ∷ pt) =
      let longer = merge s e1 pt in
      let skipped = compress pt in
      let next = merge s1 e1 pt in
      if e == s1 then longer else s ∷ e ∷ (if s1 == e1 then skipped else next)

unfoldable pub cr_compress {ℓ} : {H : Type ℓ} → CharRange H → CharRange H
cr_compress cr = with_points cr (compress cr.points)

pub data CharRangeOp : Type 0 where
  cr_op_union cr_op_inter cr_op_xor : CharRangeOp

-- The point that a round takes, how far it moves `a_idx` and `b_idx`, and the points left.
pub record Taken : Type 0 where
  pub v : ℕ
  pub a_step : ℕ
  pub b_step : ℕ
  pub a_rest : List ℕ
  pub b_rest : List ℕ

abbrev pub taken : ℕ → ℕ → ℕ → List ℕ → List ℕ → Taken
taken v i j a b = record { v = v; a_step = i; b_step = j; a_rest = a; b_rest = b }

unfoldable pub take_point : List ℕ → List ℕ → Option Taken
take_point [] [] = none
take_point (x ∷ a) [] = some (taken x 1 0 a [])
take_point [] (y ∷ b) = some (taken y 0 1 [] b)
take_point (x ∷ a) (y ∷ b) =
    if ltb x y
    then some (taken x 1 0 a (y ∷ b))
    else if x == y
    then some (taken x 1 1 a b)
    else some (taken y 0 1 (x ∷ a) b)

unfoldable pub is_in : CharRangeOp → ℕ → ℕ → ℕ
is_in cr_op_union i j = bit_or (bit_and i 1) (bit_and j 1)
is_in cr_op_inter i j = bit_and (bit_and i 1) (bit_and j 1)
is_in cr_op_xor i j = bit_xor (bit_and i 1) (bit_and j 1)

-- The `for` loop of `cr_op` with `a_idx` and `b_idx` at `i` and `j` and a point taken, if there is
-- one; `none` is out of fuel.
unfoldable pub cr_op_loop {ℓ} :
    {H : Type ℓ} → ℕ → CharRangeOp → ℕ → ℕ → CharRange H → Option Taken → Option (Changed H)
cr_op_loop fuel op i j cr none = some (changed false cr)
cr_op_loop zero op i j cr (some t) = none
cr_op_loop (suc fuel) op i j cr (some t) =
    let i' = i + t.a_step in
    let j' = j + t.b_step in
    let r =
      if is_in op i' j' == bit_and (length cr.points) 1
      then changed false cr
      else cr_add_point cr t.v in
    let rest = cr_op_loop fuel op i' j' r.cr (take_point t.a_rest t.b_rest) in
    if r.failed then some r else rest

-- Every round takes a point from one of the arrays, so their lengths are fuel enough.
unfoldable pub cr_op {ℓ} :
    {H : Type ℓ} → CharRange H → List ℕ → List ℕ → CharRangeOp → Option (Changed H)
cr_op cr a b op =
    Option.map (λ r. if r.failed then r else changed false (cr_compress r.cr))
      (cr_op_loop (length a + length b) op 0 0 cr (take_point a b))

-- `cr` starts again without points or room; its old points are freed at the end.
unfoldable pub cr_union1 {ℓ} : {H : Type ℓ} → CharRange H → List ℕ → Option (Changed H)
cr_union1 {H} cr b =
    let empty : CharRange H = record {
      points = [];
      size = 0;
      mem_opaque = cr.mem_opaque;
      realloc_func = cr.realloc_func;
    } in
    Option.map
      (λ r. changed r.failed (record {
        points = r.cr.points;
        size = r.cr.size;
        mem_opaque = cr_free r.cr;
        realloc_func = r.cr.realloc_func;
      }))
      (cr_op empty cr.points b cr_op_union)

unfoldable pub cr_union_interval {ℓ} : {H : Type ℓ} → CharRange H → ℕ → ℕ → Option (Changed H)
cr_union_interval cr c1 c2 = cr_union1 cr (c1 ∷ (c2 + 1) % 2 ^ 32 ∷ [])

unfoldable pub cr_invert {ℓ} : {H : Type ℓ} → CharRange H → Changed H
cr_invert cr =
    let r = cr_realloc cr (length cr.points + 2) in
    if r.failed
    then r
    else changed false (cr_compress (with_points r.cr (0 ∷ (r.cr.points ++ ((2 ^ 32 - 1) ∷ [])))))
