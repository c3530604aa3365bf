-- ===== src/Torture.antt =====
-- lib/sippycup_torture/minimize.py: delta debugging of a request that makes a peer fail.
pub mod Bytes
pub mod Minimize
