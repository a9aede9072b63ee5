-- ===== src/Unicode.antt =====
-- libunicode.c and libunicode.h: sets of code points.
pub mod Range
mod Examples
