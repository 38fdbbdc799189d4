-- ===== src/Nats.antt =====
-- libs/nats: connections, their streams and subscriptions, and the manager.
pub mod Connection
pub mod Fetching
pub mod Subscriptions
pub mod Starting
pub mod Manager
mod Tests
mod Examples
