-- ===== src/Intermediate.antt =====
-- src/intermediate.rs: the values of the maps in which counts are gathered.
pub mod ClassCount
pub mod SpeedRange
pub mod HourFields
mod Tests
