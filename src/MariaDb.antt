-- ===== src/MariaDb.antt =====
-- The MariaDB client (mariadb/).
mod Examples
pub mod Errors
pub mod Observer
pub mod Query
pub mod BasicOps
