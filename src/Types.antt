-- ===== src/Types.antt =====
-- The data types of src/lib.rs: errors, kinds of counts, directions, vehicle classes.
pub mod Errors
pub mod CountKind
pub mod Direction
pub mod VehicleClass
mod Tests
