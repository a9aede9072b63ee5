-- ===== src/Unicode/Examples.antt =====
-- libunicode.c: concrete runs, and the theorems at concrete inputs.
use go_quickjs.Base.{
  ℕ, ◌+◌, ◌-◌, ◌*◌, ◌/◌, ◌%◌, ◌^◌, ◌<◌, ◌≡◌, ◌⊎◌, refl, arith, List, [], ◌∷◌, length, leb, true,
  false, some,
}
use Prim.Native.Nat.{max}
use go_quickjs.Unicode.Range.{
  Reply, CharRange, Changed, changed, cr_realloc, cr_add_point, cr_op, cr_op_loop, take_point,
  is_in, compress, merge, cr_compress, cr_op_union, cr_op_inter, cr_invert,
}
use go_quickjs.Unicode.Range.Points.{inside, IsStrict}
use go_quickjs.Unicode.Range.Room.{Refuses}
use go_quickjs.Unicode.Range.Op.{combine}
use go_quickjs.Unicode.Range.Set.{StandsFor, cr_op_exact, cr_invert_exact, cr_op_comm}

-- An allocator that counts its calls and refuses requests above 100 bytes.
abbrev allocator : ℕ → ℕ → Reply ℕ
allocator calls bytes = record { granted = leb bytes 100; memory = calls + 1 }

abbrev empty : CharRange ℕ
empty = record { points = []; size = 0; mem_opaque = 0; realloc_func = allocator }

abbrev roomy : CharRange ℕ
roomy = record { points = []; size = 8; mem_opaque = 0; realloc_func = allocator }

-- '0' to '9' with 'a' to 'f', and '5' to 'c'.
abbrev hexadecimal : List ℕ
hexadecimal = b'0' ∷ 58 ∷ b'a' ∷ 103 ∷ []

abbrev middle : List ℕ
middle = b'5' ∷ 100 ∷ []

abbrev digits_range : CharRange ℕ
digits_range = record { points = hexadecimal; size = 4; mem_opaque = 7; realloc_func = allocator }

abbrev filled : List ℕ → ℕ → ℕ → Changed ℕ
filled pt room calls =
    changed false
      (record { points = pt; size = room; mem_opaque = calls; realloc_func = allocator })

joined : cr_op empty hexadecimal middle cr_op_union ≡ some (filled (b'0' ∷ 103 ∷ []) 2 2)
unfolding cr_op cr_op_loop take_point is_in cr_add_point cr_realloc cr_compress compress merge
joined = refl

joined_swapped : cr_op roomy middle hexadecimal cr_op_union ≡ some (filled (b'0' ∷ 103 ∷ []) 8 0)
unfolding cr_op cr_op_loop take_point is_in cr_add_point cr_realloc cr_compress compress merge
joined_swapped = refl

cr_op_exact_example :
    (r : Changed ℕ) × (cr_op empty hexadecimal middle cr_op_inter ≡ some r)
    × (((r.failed ≡ true) × Refuses allocator)
        ⊎ ((r.failed ≡ false)
            × StandsFor
                (λ c. combine cr_op_inter (inside c hexadecimal) (inside c middle))
                r.cr.points))
cr_op_exact_example =
    cr_op_exact empty hexadecimal middle cr_op_inter refl (ground arith) (ground arith) refl refl

cr_invert_exact_example :
    (((cr_invert digits_range).failed ≡ true)
      × ((cr_invert digits_range).cr.points ≡ hexadecimal)
      × (digits_range.size < length hexadecimal + 2)
      × ((allocator 7 (max (length hexadecimal + 2) (4 * 3 / 2) * 4)).granted ≡ false))
    ⊎ (((cr_invert digits_range).failed ≡ false)
        × ((c : ℕ)
            → c < 2 ^ 32 - 1
            → inside c (cr_invert digits_range).cr.points ≡ 1 - inside c hexadecimal)
        × IsStrict (cr_invert digits_range).cr.points
        × (length (cr_invert digits_range).cr.points % 2 ≡ 0))
cr_invert_exact_example = cr_invert_exact digits_range (ground arith) refl (ground arith)

cr_op_comm_example :
    (filled (b'0' ∷ 103 ∷ []) 2 2).cr.points ≡ (filled (b'0' ∷ 103 ∷ []) 8 0).cr.points
cr_op_comm_example =
    cr_op_comm empty roomy hexadecimal middle cr_op_union refl refl (ground arith) (ground arith)
      refl refl (filled (b'0' ∷ 103 ∷ []) 2 2) (filled (b'0' ∷ 103 ∷ []) 8 0) joined joined_swapped
      refl refl
