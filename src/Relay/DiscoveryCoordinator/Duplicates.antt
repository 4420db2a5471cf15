-- ===== src/Relay/DiscoveryCoordinator/Duplicates.antt =====
-- Frames that retries deliver twice.
use lightnet_firmware.Common.{
  ℕ, ◌+◌, ◌≤◌, ◌≡◌, ◌≢◌, ◌&&◌, List, [], ◌∷◌, ltb, ◌==◌, arith, length, if◌then◌else◌,
}
use lightnet_firmware.Protocol.Discovery.{PacketRegisterEdge, PacketDiscoveryDone}
use lightnet_firmware.Relay.DiscoveryCoordinator.{
  DiscoveryCoordinator, handle_register_edge_reply, resume, send_advance, handle_discovery_done,
}
use lightnet_firmware.Relay.DiscoveryCoordinator.Invariant.{Inv, length-le-of_Falls}

-- At a coordinator in its invariant, a registration counts exactly if it carries the next index
-- and that is at most 100: its panel becomes the frontier, the former frontier goes on top of the
-- resume stack, the next index goes up by one, the progress time is now and one frame is sent. Any
-- other registration changes none of these and sends nothing.
pub register_counts :
    (c : DiscoveryCoordinator) (p : PacketRegisterEdge) (now : ℕ)
    → Inv c
    → let counts = (p.panel_index == c.next_panel_index) && ltb c.next_panel_index 101 in
      let (d, sent) = handle_register_edge_reply c p now in
      (d.frontier_panel_index ≡ (if counts then p.panel_index else c.frontier_panel_index))
      × (d.stack ≡ (if counts then c.frontier_panel_index ∷ c.stack else c.stack))
      × (d.next_panel_index ≡ (if counts then c.next_panel_index + 1 else c.next_panel_index))
      × (d.last_progress_ms ≡ (if counts then now else c.last_progress_ms))
      × (length sent ≡ (if counts then 1 else 0))
unfolding handle_register_edge_reply send_advance
register_counts c p now h =
    ground (arith, length-le-of_Falls c.frontier_panel_index c.stack h.falls)

-- When a coordinator in its invariant gets a registration with the next index, at most 100, that
-- panel becomes the frontier and the index goes up by one, and the same registration a second
-- time, at any later time, changes nothing and sends nothing.
pub register_twice :
    (c : DiscoveryCoordinator) (p : PacketRegisterEdge) (now later : ℕ)
    → Inv c
    → p.panel_index ≡ c.next_panel_index
    → c.next_panel_index ≤ 100
    → let d = (handle_register_edge_reply c p now).0 in
      (d.frontier_panel_index ≡ p.panel_index)
      × (d.next_panel_index ≡ c.next_panel_index + 1)
      × (handle_register_edge_reply d p later ≡ (d, []))
unfolding handle_register_edge_reply
register_twice c p now later h e l =
    ground (arith, length-le-of_Falls c.frontier_panel_index c.stack h.falls)

-- When the frontier of a coordinator in its invariant reports its subtree and an ancestor other
-- than the controller is to be resumed, that ancestor becomes the frontier, and the same report a
-- second time, at any later time, changes nothing and sends nothing.
pub done_twice :
    (c : DiscoveryCoordinator) (p : PacketDiscoveryDone) (x : ℕ) (xs : List ℕ) (now later : ℕ)
    → Inv c
    → p.panel_index ≡ c.frontier_panel_index
    → c.stack ≡ x ∷ xs
    → x ≢ 0
    → let d = (handle_discovery_done c p now).0 in
      (d.frontier_panel_index ≡ x) × (d.stack ≡ xs) × (handle_discovery_done d p later ≡ (d, []))
unfolding handle_discovery_done resume
done_twice c p x xs now later h e s nz = ground arith
