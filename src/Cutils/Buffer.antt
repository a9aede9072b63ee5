-- ===== src/Cutils/Buffer.antt =====
-- cutils.c and cutils.h, `DynBuf`: a buffer of bytes that grows. A function that changes the buffer
-- returns it, also when it fails.
pub mod Put
use go_quickjs.Base.{
  ℕ, zero, suc, ◌+◌, ◌*◌, ◌/◌, List, [], ◌∷◌, ◌++◌, length, take, drop, ltb, if◌then◌else◌, Bool,
  true, false, not,
}

-- What the allocator answers, and the memory that it leaves.
pub record Grant {ℓ} (H : Type ℓ) : Type ℓ where
  pub given : Bool
  pub memory : H

-- `bytes` are the `size` bytes in use. The allocator is the caller's: a parameter, with its state in
-- `opaque`.
pub record DynBuf {ℓ} (H : Type ℓ) : Type ℓ where
  pub bytes : List ℕ
  pub allocated_size : ℕ
  pub error : Bool
  pub opaque : H
  pub realloc_func : H → ℕ → Grant H

-- The result is -1 when `refused`, and 0 otherwise.
pub record Written {ℓ} (H : Type ℓ) : Type ℓ where
  pub refused : Bool
  pub buf : DynBuf H

abbrev pub written {ℓ} : {H : Type ℓ} → Bool → DynBuf H → Written H
written f s = record { refused = f; buf = s }

abbrev pub with_bytes {ℓ} : {H : Type ℓ} → DynBuf H → List ℕ → DynBuf H
with_bytes s b = record {
  bytes = b;
  allocated_size = s.allocated_size;
  error = s.error;
  opaque = s.opaque;
  realloc_func = s.realloc_func;
}

unfoldable pub dbuf_init2 {ℓ} : {H : Type ℓ} → H → (H → ℕ → Grant H) → DynBuf H
dbuf_init2 o func = record {
  bytes = [];
  allocated_size = 0;
  error = false;
  opaque = o;
  realloc_func = func;
}

-- The sizes are taken to be small enough for `allocated_size * 3`.
unfoldable pub dbuf_realloc {ℓ} : {H : Type ℓ} → DynBuf H → ℕ → Written H
dbuf_realloc s new_size =
    let size = s.allocated_size * 3 / 2 in
    let wanted = if ltb new_size size then size else new_size in
    let grant = s.realloc_func s.opaque wanted in
    if ltb s.allocated_size new_size
    then if s.error
      then written true s
      else written (not grant.given) (record {
        bytes = s.bytes;
        allocated_size = if grant.given then wanted else s.allocated_size;
        error = not grant.given;
        opaque = grant.memory;
        realloc_func = s.realloc_func;
      })
    else written false s

-- The room is made only when there is too little.
unfoldable pub dbuf_put {ℓ} : {H : Type ℓ} → DynBuf H → List ℕ → Written H
dbuf_put s chunk =
    let end = length s.bytes + length chunk in
    let r = if ltb s.allocated_size end then dbuf_realloc s end else written false s in
    if r.refused then r else written false (with_bytes r.buf (r.buf.bytes ++ chunk))

-- The bytes that are copied are among those in use.
unfoldable pub dbuf_put_self {ℓ} : {H : Type ℓ} → DynBuf H → ℕ → ℕ → Written H
dbuf_put_self s offset len =
    let end = length s.bytes + len in
    let r = if ltb s.allocated_size end then dbuf_realloc s end else written false s in
    if r.refused
    then r
    else written false (with_bytes r.buf (r.buf.bytes ++ take len (drop offset r.buf.bytes)))

unfoldable pub dbuf_putc {ℓ} : {H : Type ℓ} → DynBuf H → ℕ → Written H
dbuf_putc s c = dbuf_put s (c ∷ [])

unfoldable pub dbuf_set_error {ℓ} : {H : Type ℓ} → DynBuf H → DynBuf H
dbuf_set_error s = record {
  bytes = s.bytes;
  allocated_size = s.allocated_size;
  error = true;
  opaque = s.opaque;
  realloc_func = s.realloc_func;
}

-- Several writes by a caller that looks at `error` only at the end, as `dbuf_error` is used.
unfoldable pub put_all {ℓ} : {H : Type ℓ} → DynBuf H → List (List ℕ) → DynBuf H
put_all s [] = s
put_all s (chunk ∷ more) = put_all (dbuf_put s chunk).buf more
