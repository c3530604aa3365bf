-- ===== src/Matrix.antt =====
-- lib/sippycup/campaign.py and lib/sippycup/covering.py: the constraints of a test matrix, the search
-- for assignments, and the covering arrays built with it.
pub mod Constraint
pub mod Satisfiable
pub mod Cover
pub mod Sequence
