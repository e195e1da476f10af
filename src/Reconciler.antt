-- ===== src/Reconciler.antt =====
-- pkg/reconciler: resource names, health, the config fold and the orphan cleaner.
pub mod Names
pub mod Affinity
pub mod Fold
pub mod Health
pub mod Cleaner
