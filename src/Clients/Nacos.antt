-- ===== src/Clients/Nacos.antt =====
-- clients/nacos: the configuration client of a Nacos server.
pub mod Watch
pub mod Options
pub mod Api
pub mod Requests
