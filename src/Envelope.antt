-- ===== src/Envelope.antt =====
-- lib/sippycup/envelope.py: authorization budgets, ramp plans, and their offline simulation.
pub mod Arithmetic
pub mod Ramp
pub mod Text
pub mod Compile
pub mod Manifest
pub mod Simulate
mod Examples
