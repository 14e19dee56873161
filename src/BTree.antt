-- ===== src/BTree.antt =====
-- The ordered collections of Rust's standard library, and its stable sort.
pub mod Set
pub mod Map
pub mod Sort
