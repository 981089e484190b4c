-- ===== src/Database.antt =====
-- src/db: the tables of counts, and the values in them.
pub mod Value
pub mod Tables
pub mod Rows
pub mod Session
pub mod Foreign
pub mod Selected
pub mod Memory
pub mod Metadata
mod Tests
pub mod Crud
pub mod HourQuery
pub mod RoundTrip
pub mod Hours
pub mod Pedestrians
