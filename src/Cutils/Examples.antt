-- ===== src/Cutils/Examples.antt =====
-- cutils.c, cutils.h: concrete runs, and the theorems at concrete inputs.
use go_quickjs.Base.{ℕ, ◌+◌, ◌^◌, ◌≤◌, ◌<◌, ◌≡◌, ◌≢◌, refl, arith, List, [], ◌∷◌, ◌++◌, length}
use go_quickjs.Cutils.Words.{leading_zeros, clz32}
use go_quickjs.Cutils.Utf8.{
  unicode_to_utf8, unicode_from_utf8, from_lead, following, read_following, lead_byte, next_byte,
  code_point, invalid, fault,
}
use go_quickjs.Cutils.Utf8.RoundTrip.{unicode_from_utf8-unicode_to_utf8}
use go_quickjs.Cutils.Utf8.Canonical.{unicode_from_utf8_canonical}
use go_quickjs.Cutils.Utf8.Bounds.{unicode_from_utf8-ne-fault}
use go_quickjs.Base.{true, false, leb}
use go_quickjs.Cutils.Buffer.{DynBuf, Grant, dbuf_realloc, dbuf_put, put_all}
use go_quickjs.Cutils.Buffer.Put.{Fits, put_all_exact}

-- The euro sign and what follows it.
abbrev euro : List ℕ
euro = 0xe2 ∷ 0x82 ∷ 0xac ∷ 0x21 ∷ []

euro_written : unicode_to_utf8 0x20ac ≡ 0xe2 ∷ 0x82 ∷ 0xac ∷ []
unfolding unicode_to_utf8 lead_byte next_byte
euro_written = refl

euro_read : unicode_from_utf8 euro 4 ≡ code_point 0x20ac (0x21 ∷ [])
unfolding unicode_from_utf8 from_lead following read_following
euro_read = refl

-- A form longer than needed, a lone continuation byte and a bound that is too small.
overlong : unicode_from_utf8 (0xc1 ∷ 0xbf ∷ []) 2 ≡ invalid
unfolding unicode_from_utf8 from_lead following read_following
overlong = refl

continuation : unicode_from_utf8 (0x82 ∷ 0xac ∷ []) 2 ≡ invalid
unfolding unicode_from_utf8 from_lead following read_following
continuation = refl

bounded : unicode_from_utf8 euro 2 ≡ invalid
unfolding unicode_from_utf8 from_lead following read_following
bounded = refl

-- A surrogate is read as a code point.
surrogate_read : unicode_from_utf8 (0xed ∷ 0xa0 ∷ 0x80 ∷ []) 3 ≡ code_point 0xd800 []
unfolding unicode_from_utf8 from_lead following read_following
surrogate_read = refl

leading_zeros_of_300 : clz32 300 ≡ 23
unfolding clz32 leading_zeros
leading_zeros_of_300 = refl

unicode_from_utf8-unicode_to_utf8_example :
    unicode_from_utf8 (unicode_to_utf8 0x20ac ++ (0x21 ∷ [])) 4 ≡ code_point 0x20ac (0x21 ∷ [])
unicode_from_utf8-unicode_to_utf8_example =
    unicode_from_utf8-unicode_to_utf8 0x20ac 4 (0x21 ∷ []) (omega arith)
      (rw euro_written (omega arith))

unicode_from_utf8_canonical_example :
    (euro ≡ unicode_to_utf8 0x20ac ++ (0x21 ∷ []))
    × (length (unicode_to_utf8 0x20ac) ≤ 4)
    × (0x20ac < 2 ^ 31)
unicode_from_utf8_canonical_example =
    unicode_from_utf8_canonical euro 4 0x20ac (0x21 ∷ []) (omega arith) euro_read

unicode_from_utf8-ne-fault_example : unicode_from_utf8 euro 4 ≢ fault
unicode_from_utf8-ne-fault_example = unicode_from_utf8-ne-fault euro 4 (omega arith) (omega arith)

-- An allocator that refuses more than 8 bytes, and a buffer with room for 4.
abbrev small_allocator : ℕ → ℕ → Grant ℕ
small_allocator calls size = record { given = leb size 8; memory = calls + 1 }

abbrev buffer : DynBuf ℕ
buffer = record {
  bytes = 1 ∷ 2 ∷ [];
  allocated_size = 4;
  error = false;
  opaque = 0;
  realloc_func = small_allocator;
}

-- The second write is lost, the third is not, and the error stays.
lost_write :
    (put_all buffer ((3 ∷ []) ∷ (4 ∷ 5 ∷ 6 ∷ 7 ∷ 8 ∷ 9 ∷ []) ∷ (10 ∷ []) ∷ [])).bytes
    ≡ 1 ∷ 2 ∷ 3 ∷ 10 ∷ []
unfolding put_all dbuf_put dbuf_realloc
lost_write = refl

lost_write_error :
    (put_all buffer ((3 ∷ []) ∷ (4 ∷ 5 ∷ 6 ∷ 7 ∷ 8 ∷ 9 ∷ []) ∷ (10 ∷ []) ∷ [])).error ≡ true
unfolding put_all dbuf_put dbuf_realloc
lost_write_error = refl

no_error : (put_all buffer ((3 ∷ []) ∷ (4 ∷ 5 ∷ 6 ∷ []) ∷ [])).error ≡ false
unfolding put_all dbuf_put dbuf_realloc
no_error = refl

put_all_exact_example :
    ((put_all buffer ((3 ∷ []) ∷ (4 ∷ 5 ∷ 6 ∷ []) ∷ [])).bytes ≡ 1 ∷ 2 ∷ 3 ∷ 4 ∷ 5 ∷ 6 ∷ [])
    × Fits (put_all buffer ((3 ∷ []) ∷ (4 ∷ 5 ∷ 6 ∷ []) ∷ []))
put_all_exact_example =
    put_all_exact buffer ((3 ∷ []) ∷ (4 ∷ 5 ∷ 6 ∷ []) ∷ []) (omega arith) no_error
