-- ===== src/Utils.antt =====
-- utils: HTTP helpers, and IPv4 addresses as numbers.
pub mod Http
pub mod Address
pub mod Security
mod Tests
