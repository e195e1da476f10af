-- ===== src/Config.antt =====
-- pkg/config: how the layers of a configuration merge, and the file formats.
pub mod Merger
pub mod Text
pub mod Env
pub mod Properties
