-- ===== src/Databases.antt =====
-- libs/databases: transactions, the data access object over xorm, and entities.
pub mod Session
pub mod Dao
pub mod Entity
pub mod Connect
pub mod Procedures
mod Tests
mod Examples
