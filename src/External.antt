-- ===== src/External.antt =====
-- Code that the repository calls and does not hold: the crates chrono (dates and times), oracle
-- and csv, and the floating-point type of the language. Each is a parameter of the model.
pub mod Chrono
pub mod Float
pub mod Oracle
pub mod Connection
pub mod FileSystem
pub mod Instances
pub mod Memory
