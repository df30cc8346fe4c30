-- ===== src/Net.antt =====
-- The network layer of src/net.
mod Tests
pub mod RingBuffer
pub mod Endian
pub mod BufferReader
pub mod Timer
pub mod TaskScheduler
pub mod MemoryManager
pub mod BufferWriter
