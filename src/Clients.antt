-- ===== src/Clients.antt =====
-- The packages under clients.
pub mod Nacos
pub mod Redis
pub mod Storage
pub mod Tls
pub mod Gorm
pub mod Stop
