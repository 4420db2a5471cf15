-- ===== src/Relay/PanelFrameDispatcher/Tests.antt =====
-- Panels and a coordinator between which the theorems about the handshake apply.
use lightnet_firmware.Common.{replicate, ℕ, ◌≡◌, ◌≢◌, ◌⊎◌, refl, true, [], ◌∷◌, arith}
use lightnet_firmware.Protocol.Discovery.{
  register_edge_bytes, initialization_pull_bytes, discovery_advance_bytes,
}
use lightnet_firmware.Relay.EdgeLink.{send_on_edge}
use lightnet_firmware.Relay.PanelDiscovery
use lightnet_firmware.Relay.PanelDiscovery.{
  PanelDiscovery, unexplored, connected, not_connected, is_connected, child_index, on_parent_offer,
  edge_state,
}
use lightnet_firmware.Relay.PanelDiscoveryDriver
use lightnet_firmware.Relay.PanelDiscoveryDriver.{
  PanelDiscoveryDriver, on_frame_arrived, tick, no_edge,
}
use lightnet_firmware.Relay.PanelFrameDispatcher
use lightnet_firmware.Relay.PanelFrameDispatcher.Handshake.{
  pull, registration, probe_registers_panel,
}
use lightnet_firmware.Relay.PanelFrameDispatcher.Readvance.{
  advance, done_report, lost_answer_reuses_index,
}
use lightnet_firmware.Relay.DiscoveryCoordinator
use lightnet_firmware.Relay.DiscoveryCoordinator.{
  DiscoveryCoordinator, handle_register_edge_reply, handle_discovery_done,
}
use lightnet_firmware.Relay.Tests.{probing_panel, probing_panel-Inv}
use lightnet_firmware.Relay.DiscoveryCoordinator.Tests.{walking, walking-Inv}

abbrev undiscovered : PanelDiscoveryDriver
undiscovered =
    PanelDiscoveryDriver.new (PanelDiscovery.new 3 (replicate 6 connected) (replicate 6 77))

probe_registers_panel_example :
    let reply = register_edge_bytes (registration 4 2 1) in
    let (child, answers, child_acts) =
      PanelFrameDispatcher.on_frame_arrived undiscovered 2
        (initialization_pull_bytes (pull 4 1))
        105 in
    let (parent, relayed, parent_acts) =
      PanelFrameDispatcher.on_frame_arrived probing_panel 1 reply 105 in
    (child.assigned_index ≡ 4)
    × (child.discovery.parent ≡ 2)
    × (answers ≡ send_on_edge 2 reply ∷ [])
    × (child_index parent.discovery 1 ≡ 4)
    × (is_connected parent.discovery 1 ≡ true)
    × (relayed ≡ send_on_edge 0 reply ∷ [])
    × ((DiscoveryCoordinator.on_frame_arrived walking reply 105).0.frontier_panel_index ≡ 4)
unfolding PanelDiscoveryDriver.new PanelDiscovery.new
probe_registers_panel_example =
    probe_registers_panel probing_panel undiscovered walking 2 105 probing_panel-Inv
      (λ e. ground arith) refl refl walking-Inv (omega arith) (omega arith)

lost_answer_reuses_index_example :
    let t =
      (PanelDiscoveryDriver.on_frame_arrived probing_panel 1
        (register_edge_bytes (registration 5 2 1))
        105).0 in
    let (u, sent) =
      PanelDiscoveryDriver.on_frame_arrived t t.discovery.parent
        (discovery_advance_bytes (advance t.assigned_index 5))
        300 in
    (child_index t.discovery 1 ≡ 5)
    × (((f : ℕ) × (f ≢ 1) × (sent ≡ send_on_edge f (initialization_pull_bytes (pull 5 f)) ∷ []))
        ⊎ (sent ≡ send_on_edge t.discovery.parent (done_report t.assigned_index) ∷ []))
lost_answer_reuses_index_example =
    lost_answer_reuses_index probing_panel 5 2 105 300 probing_panel-Inv (λ e. ground arith)
      (omega arith) (λ e. ground arith) (omega arith) (omega arith)
