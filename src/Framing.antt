-- ===== src/Framing.antt =====
-- From bytes on a wire to frames: lib/Lightnet/Core/Relay/PacketFramer, TrunkFrameReceiver,
-- EdgeFrameReceiver and LinkArq.
pub mod PacketFramer
pub mod TrunkFrameReceiver
pub mod EdgeFrameReceiver
pub mod LinkArq
mod Tests
