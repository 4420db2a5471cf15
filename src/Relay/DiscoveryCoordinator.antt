-- ===== src/Relay/DiscoveryCoordinator.antt =====
-- lib/Lightnet/Core/Relay/DiscoveryCoordinator.{hpp,cpp}: the controller's half of the discovery
-- protocol, with the tree builder that it feeds (the null pointer is `none`).
pub mod Invariant
pub mod Duplicates
pub mod Tree
pub mod Walk
pub mod Tests
use lightnet_firmware.Common.{
  ℕ, ◌%◌, ◌+◌, ◌-◌, Bool, true, false, ◌||◌, List, [], ◌∷◌, Option, none, some, ltb, leb, ◌==◌,
  ◌!=◌, if◌then◌else◌, u16, sub32, length,
}
use mathlib.Core.Option
use lightnet_firmware.Protocol.Types.{
  packet_initialization_pull, packet_register_edge, packet_discovery_advance, packet_discovery_done,
  discovery_rejected_index, lightnet_max_panels,
}
use lightnet_firmware.Protocol.Meta.{meta_of, make_meta}
use lightnet_firmware.Protocol.Discovery.{
  PacketRegisterEdge, PacketDiscoveryDone, initialization_pull_bytes, register_edge_of,
  discovery_advance_bytes, discovery_done_of,
}
use lightnet_firmware.Relay.EdgeLink.{Send, send_on_edge}
use lightnet_firmware.Relay.DiscoveryTreeBuilder
use lightnet_firmware.Relay.DiscoveryTreeBuilder.{DiscoveryTreeBuilder}

abbrev pub trunk_edge : ℕ
trunk_edge = 0

abbrev pub root_timeout_ms : ℕ
root_timeout_ms = 3000

-- The default; controller.config.hpp may set another.
abbrev pub walk_stall_timeout_ms : ℕ
walk_stall_timeout_ms = 2000

abbrev pub root_retry_interval_ms : ℕ
root_retry_interval_ms = 200

abbrev pub advance_retry_interval_ms : ℕ
advance_retry_interval_ms = 200

-- `stack` is the used part of the array, top first; `stackDepth` is its length.
pub record DiscoveryCoordinator : Type 0 where
  pub tree_builder : Option DiscoveryTreeBuilder
  pub next_panel_index : ℕ
  pub frontier_panel_index : ℕ
  pub stack : List ℕ
  pub complete : Bool
  pub walk_stalled : Bool
  pub begin_ms : ℕ
  pub last_root_pull_ms : ℕ
  pub last_progress_ms : ℕ
  pub last_advance_ms : ℕ

unfoldable pub new : Option DiscoveryTreeBuilder → DiscoveryCoordinator
new t = record {
  tree_builder = t;
  next_panel_index = 1;
  frontier_panel_index = 0;
  stack = [];
  complete = false;
  walk_stalled = false;
  begin_ms = 0;
  last_root_pull_ms = 0;
  last_progress_ms = 0;
  last_advance_ms = 0;
}

unfoldable pub send_root_pull : DiscoveryCoordinator → ℕ → DiscoveryCoordinator × List Send
send_root_pull c now = (
  record c { last_root_pull_ms = now },
  send_on_edge trunk_edge (
        initialization_pull_bytes (record {
          meta = make_meta packet_initialization_pull 0;
          panel_index = c.next_panel_index;
          parent_edge_index = trunk_edge;
        }))
      ∷ [],
)

unfoldable pub begin : DiscoveryCoordinator → ℕ → DiscoveryCoordinator × List Send
unfolding send_root_pull
begin c now =
    send_root_pull (record c { begin_ms = now; last_progress_ms = now; walk_stalled = false }) now

unfoldable pub send_advance : DiscoveryCoordinator → ℕ → ℕ → DiscoveryCoordinator × List Send
send_advance c target now = (
  record c { last_advance_ms = now },
  send_on_edge trunk_edge (
        discovery_advance_bytes (record {
          meta = make_meta packet_discovery_advance target;
          assign_index = c.next_panel_index;
        }))
      ∷ [],
)

-- `if (this->treeBuilder)`: what a registration adds to the topology.
unfoldable pub build_tree : DiscoveryCoordinator → PacketRegisterEdge → Option DiscoveryTreeBuilder
unfolding DiscoveryTreeBuilder.add_root DiscoveryTreeBuilder.add_link
build_tree c p =
    Option.map
      (λ t.
        if c.frontier_panel_index == 0
        then DiscoveryTreeBuilder.add_root t p.panel_index
        else DiscoveryTreeBuilder.add_link t c.frontier_panel_index p.parent_edge_index
            p.panel_index p.edge_index)
      c.tree_builder

unfoldable pub handle_register_edge_reply :
    DiscoveryCoordinator → PacketRegisterEdge → ℕ → DiscoveryCoordinator × List Send
unfolding build_tree send_advance
handle_register_edge_reply c p now =
    if p.panel_index == discovery_rejected_index
    then (c, [])
    else if p.panel_index != c.next_panel_index
    then (c, [])
    else if ltb lightnet_max_panels c.next_panel_index || leb lightnet_max_panels (length c.stack)
    then (c, [])
    else send_advance
        (record c {
          last_progress_ms = now;
          tree_builder = build_tree c p;
          stack = c.frontier_panel_index ∷ c.stack;
          frontier_panel_index = p.panel_index;
          next_panel_index = u16 (c.next_panel_index + 1);
        })
        p.panel_index now

-- `handleDiscoveryDone` from the test of `stackDepth` on.
unfoldable pub resume : DiscoveryCoordinator → List ℕ → ℕ → DiscoveryCoordinator × List Send
unfolding send_advance
resume c [] now = (record c { complete = true }, [])
resume c (target ∷ rest) now =
    if target == 0
    then (record c { complete = true; stack = rest }, [])
    else send_advance (record c { stack = rest; frontier_panel_index = target }) target now

unfoldable pub handle_discovery_done :
    DiscoveryCoordinator → PacketDiscoveryDone → ℕ → DiscoveryCoordinator × List Send
unfolding resume
handle_discovery_done c p now =
    if p.panel_index != c.frontier_panel_index
    then (c, [])
    else resume (record c { last_progress_ms = now }) c.stack now

unfoldable pub on_frame_arrived :
    DiscoveryCoordinator → List ℕ → ℕ → DiscoveryCoordinator × List Send
unfolding handle_register_edge_reply handle_discovery_done
on_frame_arrived c frame now =
    let type = (meta_of frame).header.type in
    if type == packet_register_edge
    then handle_register_edge_reply c (register_edge_of frame) now
    else if type == packet_discovery_done
    then handle_discovery_done c (discovery_done_of frame) now
    else (c, [])

unfoldable pub tick : DiscoveryCoordinator → ℕ → DiscoveryCoordinator × List Send
unfolding send_root_pull send_advance
tick c now =
    if c.complete
    then (c, [])
    else if c.frontier_panel_index == 0
    then (if leb root_timeout_ms (sub32 now c.begin_ms)
        then (record c { complete = true }, [])
        else if leb root_retry_interval_ms (sub32 now c.last_root_pull_ms)
        then send_root_pull c now
        else (c, []))
    else if leb walk_stall_timeout_ms (sub32 now c.last_progress_ms)
    then (record c { complete = true; walk_stalled = true }, [])
    else if leb advance_retry_interval_ms (sub32 now c.last_advance_ms)
    then send_advance c c.frontier_panel_index now
    else (c, [])
