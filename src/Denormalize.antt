-- ===== src/Denormalize.antt =====
-- src/denormalize.rs and the values of src/intermediate.rs that it gathers: counts and speeds in the
-- shape of a table with a field for each hour.
pub mod Keys
pub mod Volume
pub mod Speed
pub mod Numbers
mod Tests
