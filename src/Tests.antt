-- ===== src/Tests.antt =====
-- The theorems at concrete inputs: each test runs one on code that the input exercises.
mod Waits
mod Layers
mod Formats
mod Folds
mod Sidecars
mod Ledgers
mod Checks
mod Cleanups
