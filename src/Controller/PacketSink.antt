-- ===== src/Controller/PacketSink.antt =====
-- lib/Lightnet/Core/Controller/IPacketSink.hpp: what a component asks the sink to do. The sink is the
-- transport; the calls of its methods are returned in order.
use lightnet_firmware.Common.{ℕ, List, Bool}

pub data Command : Type 0 where
  -- `send(address, packet, size, wantAck)`, with the `size` bytes at `packet`
  send : ℕ → List ℕ → Bool → Command
  pace : ℕ → Command
  pace_for_hop : ℕ → Command
