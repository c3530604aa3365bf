-- ===== src/Resilience.antt =====
-- lib/sippycup_resilience: strict validation and the offline analyses that decide a verdict.
pub mod Common
pub mod Migration
pub mod SecureMedia
pub mod Lifecycle
pub mod Isolation
pub mod Overload
