-- ===== src/Common.antt =====
-- pkg/common: typed errors, waits and the extension registry.
pub mod Errors
pub mod Extensions
