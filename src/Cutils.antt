-- ===== src/Cutils.antt =====
-- cutils.c and cutils.h: the helpers on words, on UTF-8 and on buffers of bytes that the engine
-- uses throughout.
pub mod Words
pub mod Utf8
pub mod Buffer
mod Examples
