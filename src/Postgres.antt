-- ===== src/Postgres.antt =====
-- The PostgreSQL client (postgres/).
pub mod Errors
pub mod Migrations
pub mod Connection
pub mod Observer
pub mod Query
pub mod BasicOps
pub mod Vectors
mod Examples
