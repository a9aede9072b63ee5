-- ===== src/Proxy.antt =====
-- The Go values that scripts use: the store of their identifiers, and the objects that stand for them.
pub mod Store
pub mod Object
mod Examples
