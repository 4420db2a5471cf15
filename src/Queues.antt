-- ===== src/Queues.antt =====
-- The lock-free queues between an interrupt and the main loop: lib/Lightnet/Core/Common/ByteRing.hpp
-- and SpscByteQueue.hpp.
pub mod Positions
pub mod ByteRing
pub mod SpscByteQueue
mod Tests
