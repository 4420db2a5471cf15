-- ===== src/Protocol.antt =====
-- The wire protocol: lib/Lightnet/Core/Common/ProtocolTypes.hpp, ProtocolMeta.{hpp,cpp} and
-- lib/Lightnet/Utils/Crc.cpp.
pub mod Crc
pub mod Types
pub mod Color
pub mod Palette
pub mod Meta
pub mod Discovery
pub mod Animation
pub mod Panel
pub mod Validation
mod Tests
