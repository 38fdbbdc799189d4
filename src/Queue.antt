-- ===== src/Queue.antt =====
-- queue: the sender and the receiver of messages over a WebSocket connection.
pub mod Sender
pub mod Receiver
pub mod Delivery
mod Tests
