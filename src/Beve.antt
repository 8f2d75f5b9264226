-- ===== src/Beve.antt =====
-- src/beve: the binary format.
pub mod Header
pub mod Walk
pub mod Reader
pub mod Skip
pub mod Split
pub mod Splitter
pub mod Writer
pub mod Entry
