-- ===== src/Redis.antt =====
-- libs/redis: a view of a Redis server under a key prefix, its sorted sets, and its notifications.
pub mod Keys
pub mod View
pub mod Notification
pub mod Driver
pub mod Hash
pub mod Sets
pub mod Strings
pub mod Lists
pub mod Zset
pub mod Geo
pub mod Connect
pub mod Requests
mod Tests
mod Examples
