-- ===== src/Collections.antt =====
-- The collections of Rust's standard library that the code uses, as association lists and lists.
pub mod HashMap
pub mod HashSet
