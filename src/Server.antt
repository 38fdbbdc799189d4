-- ===== src/Server.antt =====
-- libs/server: the WebSocket clients and their manager, the HTTP handlers and their middleware.
pub mod Access
pub mod Client
pub mod Handler
pub mod Http
pub mod Middleware
pub mod Manager
mod Tests
mod Examples
