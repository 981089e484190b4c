-- ===== src/Extract.antt =====
-- src/extract_from_file.rs: counts that are read from the files of the counters.
pub mod Input
pub mod Header
pub mod Rows
pub mod Vehicle
pub mod Individual
pub mod Volumes
mod Tests
