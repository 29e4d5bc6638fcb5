-- ===== src/Clients/Gorm.antt =====
-- The package clients/gorm: the options of the databases, the opening of a connection, the clients
-- with the collector of their statistics, and the logger. gorm and the drivers are parameters.
pub mod Options
pub mod Open
pub mod Client
pub mod Logger
pub mod Laws
pub mod Clickhouse
pub mod Equal
pub mod Close
pub mod Tests
