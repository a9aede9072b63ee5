-- ===== src/Dtoa.antt =====
-- dtoa.c: the conversion of numbers to and from text, from its multiple precision arithmetic up.
pub mod Limbs
pub mod Reciprocal
pub mod Power
pub mod Big
pub mod Compare
pub mod Decimal
mod Examples
