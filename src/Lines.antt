-- ===== src/Lines.antt =====
-- quickjs.c: the table that gives a position in the source for an offset in the bytecode: how the
-- positions are found, how the table is written, and how it is read.
pub mod Column
pub mod Leb128
pub mod Table
pub mod Entry
pub mod Search
pub mod Exact
pub mod Slots
mod Examples
