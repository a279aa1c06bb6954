-- ===== src/Database.antt =====
-- What postgres/ and mariadb/ have in common: the shape of what their observers are shown, and GORM.
pub mod Observer
pub mod Gorm
pub mod Methods
pub mod Endings
pub mod Sample
