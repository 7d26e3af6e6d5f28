-- ===== src/Net.antt =====
-- src/observer/net: the buffers between a session and its socket, and the packets for the client.
pub mod RingBuffer
pub mod Wire
pub mod Writer
mod Tests
