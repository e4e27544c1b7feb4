-- ===== src/Database.antt =====
-- The database behind the services: what they ask of a table, as an interface.
pub mod Table
pub mod Queries
pub mod Listing
pub mod Ties
