-- ===== src/Udp.antt =====
-- network/udp_queue.hpp and network/udp_queue.cpp: messages over UDP in numbered chunks, with
-- acknowledgements and resends.
pub mod Chunk
pub mod Wire
pub mod WireLayout
pub mod Buffers
pub mod Assemble
pub mod Cut
pub mod Reassemble
pub mod Insert
pub mod Progress
pub mod Deliver
pub mod Transit
pub mod Connection
pub mod Sending
pub mod Receiving
pub mod Window
pub mod WindowSend
pub mod Reach
pub mod Turns
pub mod EarlyAck
mod Tests
