-- ===== src/Lib.antt =====
-- The QuickJS engine of go-quickjs, its own arithmetic, text and helper code.
--
-- The repository is a Go package: a binding (context.go, value.go, go-func.go, js-func.go,
-- go-proxy-value.go, go-ptr-id.go, go-proxy.c) around the C engine that is compiled from the same
-- directory: quickjs.c is the compiler and the interpreter; it prints and reads numbers by dtoa.c,
-- stores text as UTF-8 by cutils.c, asks libunicode.c for classes of characters, and runs regular
-- expressions by libregexp.c. This library models the parts of the C engine that the others rest on,
-- and the store by which the binding finds Go values.
--
-- Base: the natural numbers, lists, Boolean tests and bit operations that the modules share.
--   Base.Bits has the laws of `&` and `|` on disjoint fields, Base.Tables the check of a table entry
--   by entry, Base.Powers the laws of powers, Base.Int the integers.
-- Cutils: cutils.c and cutils.h.
--   Cutils.Words is clz32 and clz64; Cutils.Utf8 is unicode_to_utf8 and unicode_from_utf8;
--   Cutils.Buffer is `DynBuf` with dbuf_init2, dbuf_realloc, dbuf_put, dbuf_put_self and dbuf_putc, for
--   any allocator, which is a field of the buffer with its own state.
-- Dtoa: dtoa.c.
--   Dtoa.Limbs is the functions mp_add_ui, mp_mul1, mp_div1, mp_shr and mp_shl; Dtoa.Reciprocal is
--   udiv1norm_init, udiv1norm and mp_div1norm; Dtoa.Power is pow_ui and pow_ui_inv with their tables;
--   Dtoa.Big is mpb_renorm, mpb_get_bit and mpb_shr_round; Dtoa.Compare is mpb_cmp, mpb_set_u64,
--   mpb_get_u64 and mpb_floor_log2; Dtoa.Decimal is the printers of integers,
--   u32toa, u64toa, i32toa, i64toa, u64toa_radix, i64toa_radix, and limb_to_a.
-- BigInt: the BigInt section of quickjs.c, with limbs of 64 bits.
--   A `JSBigInt` is the list of its limbs in two's complement; BigInt.Sign says for which integer it
--   stands. BigInt itself has js_bigint_new, js_bigint_normalize, js_bigint_extend, js_bigint_add,
--   js_bigint_neg, js_bigint_mul, js_bigint_logic, js_bigint_not, js_bigint_shl, js_bigint_shr and
--   js_bigint_cmp. BigInt.Arrays is the `mp_` functions, BigInt.Reciprocal udiv1norm and mp_div1norm,
--   BigInt.Divide mp_divnorm, BigInt.Divrem js_bigint_divrem, and BigInt.Text js_bigint_from_string.
--   Each of them calls the functions of BigInt.Arrays as the C code does. The allocator is a
--   parameter, `Grants`: whether the k-th request of a call is granted. A result is the number, the
--   RangeError for more than JS_BIGINT_MAX_SIZE limbs, or no memory. The loop that corrects a limb of
--   a quotient counts it down, so the limb is the fuel; the loop over decimal digits has the number
--   of digits, of which every round but the last takes one.
-- Unicode: libunicode.c and libunicode.h.
--   Unicode.Range is `CharRange` with cr_realloc, cr_copy, cr_add_point, cr_add_interval, cr_compress,
--   cr_op, cr_union1 and cr_invert; Unicode.Range.Points says for which set a list of points stands.
--   The allocator that a range is given is a parameter, a field of the range: any function from its
--   own state and the number of bytes to an answer and a new state. The loop of cr_op has the number
--   of points as fuel, since every round takes one.
-- Gc: the cycle collector of quickjs.c.
--   Gc has gc_decref and gc_scan with their callbacks, on the two lists of objects, the reference counts,
--   small enough for an `int`, and the marks; gc_find_cycles is what JS_RunGCInternal does from gc_decref
--   up to gc_free_cycles. Gc.Objects is mark_children, JS_MarkValue, JS_MarkContext and
--   js_mark_module_def, and Gc.Ways says how the program comes from one object to the next. The
--   callbacks of the classes, `gc_mark`, are a parameter: any function from the class to one from the
--   object to the objects that it visits. The loop of gc_scan goes over a list that grows, and has as
--   fuel one more than the number of all objects, of which a round takes one.
-- Links: list.h, on which the lists of the collector stand: init_list_head, __list_add, list_add,
--   list_add_tail, list_del, list_empty and the loop list_for_each, on a memory of links. Links.Ring says
--   for which list a head stands.
-- Lines: the positions in the source of quickjs.c.
--   Lines.Column is get_line_col and get_line_col_cached, Lines.Leb128 the numbers of variable length,
--   Lines.Table add_pc2line_info, compute_pc2line_info and find_line_num. What is written into the
--   dynamic buffer is the list of its bytes, for a buffer that has no error. A number has five groups of
--   7 bits at most, and the reading loop has the number of bytes as fuel, since a round takes one.
-- Proxy: the Go values that scripts use.
--   Proxy.Store is `ptrStore` of go-ptr-id.go with register, lookup, remove and clear; Proxy.Object is
--   go-proxy.c but its finalizer, with makeGoObject, getTargetIdx, getTargetValue and goFreeId of
--   go-proxy-value.go and the two functions of InitPtrStore. What the engine and malloc answer, and of
--   which type a registered value is, are arguments. The search for an identifier has as fuel the
--   number of all identifiers.
--
-- How C is read. An unsigned word is a natural number, with the wrap-around written out as
-- `% 2 ^ 32` or `% 2 ^ 64` where the C type has that width. An array is a list of the elements that
-- the code may use, and a function that writes an array returns it. A function that writes through a
-- pointer returns a record of what it writes and its result. A read past the end of the text
-- (`fault`) and a write in front of a buffer (`none`) are values of the model, and theorems exclude
-- them. LIMB_BITS is 32, its value in dtoa.c, and JS_LIMB_BITS is 64, as on 64-bit machines. The loops are recursions on the array, on the
-- number of digits or rounds that the code computes, or on the room that is left in the fixed buffer
-- (10 characters in u32toa, 41 in u64toa_radix, for the radixes from 3).
--
-- Not modelled: the interpreter, the compiler and the objects of quickjs.c, and of its collector
-- gc_free_cycles and the freeing of objects; of its BigInt section the powers and the conversions
-- to text and from and to floating point numbers; the bindings of quickjs-libc.c; libregexp.c;
-- the conversions of floating point numbers in dtoa.c; the tables of libunicode-table.h, which
-- are generated, and the code of libunicode.c that reads them; and of the Go side what turns
-- values into those of the engine and back, by reflection and calls of the engine, and of the
-- finalizer free_obj_id_opaque its JS_FreeValueRT, which depends on how the engine frees the object.
pub mod Base
pub mod BigInt
pub mod Cutils
pub mod Dtoa
pub mod Gc
pub mod Lines
pub mod Links
pub mod Proxy
pub mod Unicode
