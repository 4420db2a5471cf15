-- ===== src/Relay/EdgeLink.antt =====
-- lib/Lightnet/Core/Relay/IEdgeLink.hpp: what a component asks the link to send. The link itself is
-- the hardware; a handler returns its calls of `sendOnEdge` in order.
use lightnet_firmware.Common.{ℕ, List}

-- `sendOnEdge(edgeIndex, packet, size)`, with the `size` bytes at `packet`.
pub record Send : Type 0 where
  pub edge : ℕ
  pub frame : List ℕ

abbrev pub send_on_edge : ℕ → List ℕ → Send
send_on_edge e f = record { edge = e; frame = f }
