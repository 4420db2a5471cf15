-- ===== src/Relay/PanelFrameDispatcher/Handshake.antt =====
-- A new panel behind a probed edge: the frames that its registration takes, from the probing panel to the
-- new one, back, and up to the controller.
use lightnet_firmware.Common.{ℕ, ◌≤◌, ◌<◌, ◌≡◌, ◌≢◌, true, false, [], ◌∷◌, arith, get_or-set_self}
use lightnet_firmware.Protocol.Types.{packet_initialization_pull, packet_register_edge}
use lightnet_firmware.Protocol.Meta.{make_meta}
use lightnet_firmware.Protocol.Discovery.{
  initialization_pull_bytes, initialization_pull_of, register_edge_bytes, register_edge_of,
  PacketInitializationPull, PacketRegisterEdge,
}
use lightnet_firmware.Protocol.Validation.{
  make_meta-FitsMeta, initialization_pull_of-bytes, register_edge_of-bytes,
}
use lightnet_firmware.Relay.EdgeLink.{send_on_edge}
use lightnet_firmware.Relay.PanelDiscovery.{
  is_connected, child_index, edge_state, on_parent_offer, on_child_probe_accepted, connected,
  unexplored,
}
use lightnet_firmware.Relay.PanelRouter
use lightnet_firmware.Relay.PanelDiscoveryDriver
use lightnet_firmware.Relay.PanelDiscoveryDriver.{
  PanelDiscoveryDriver, no_edge, handle_initialization_pull, handle_register_edge_reply, defer_log,
}
use lightnet_firmware.Relay.PanelFrameDispatcher.{on_frame_arrived}
use lightnet_firmware.Relay.PanelDiscoveryDriver.Invariant.{Inv}
use lightnet_firmware.Relay.DiscoveryCoordinator
use lightnet_firmware.Relay.DiscoveryCoordinator.Invariant as Bounds
use lightnet_firmware.Relay.DiscoveryCoordinator.{DiscoveryCoordinator}

abbrev pub pull : ℕ → ℕ → PacketInitializationPull
pull index edge = record {
  meta = make_meta packet_initialization_pull 0;
  panel_index = index;
  parent_edge_index = edge;
}

abbrev pub registration : ℕ → ℕ → ℕ → PacketRegisterEdge
registration index child_edge edge = record {
  meta = make_meta packet_register_edge 0;
  panel_index = index;
  edge_index = child_edge;
  parent_edge_index = edge;
}

read-pull :
    (i e : ℕ)
    → i < 65536
    → e < 65536
    → initialization_pull_of (initialization_pull_bytes (pull i e)) ≡ pull i e
read-pull i e h k =
    initialization_pull_of-bytes (pull i e) []
      (make_meta-FitsMeta packet_initialization_pull 0 (omega arith) (omega arith)) h k

pub read-registration :
    (i c e : ℕ)
    → i < 65536
    → c < 65536
    → e < 65536
    → register_edge_of (register_edge_bytes (registration i c e)) ≡ registration i c e
read-registration i c e h k l =
    register_edge_of-bytes (registration i c e) []
      (make_meta-FitsMeta packet_register_edge 0 (omega arith) (omega arith)) h k l

-- A panel that has no parent yet adopts the index that a PULL offers and the edge on which it came, and answers on that edge; it relays nothing.
pub new_panel_registers :
    (k : PanelDiscoveryDriver) (i c e now : ℕ)
    → k.discovery.has_parent ≡ false
    → k.assigned_index ≡ 0
    → i < 65536
    → e < 65536
    → let (t, sent, acts) = on_frame_arrived k c (initialization_pull_bytes (pull i e)) now in
      (t.assigned_index ≡ i)
      × (t.discovery.has_parent ≡ true)
      × (t.discovery.parent ≡ c)
      × (sent ≡ send_on_edge c (register_edge_bytes (registration i c e)) ∷ [])
unfolding on_frame_arrived PanelDiscoveryDriver.on_frame_arrived handle_initialization_pull
    on_parent_offer defer_log make_meta
new_panel_registers k i c e now p z h l = ground (arith, read-pull i e h l)

-- The panel whose probe is answered records the new panel behind the edge, stops probing, and passes
-- the answer on to its own parent unaltered.
pub prober_records_child :
    (s : PanelDiscoveryDriver) (i c now : ℕ)
    → Inv s
    → s.probing_edge_index ≢ no_edge
    → i ≢ 0
    → i < 65536
    → c < 65536
    → let e = s.probing_edge_index in
      let frame = register_edge_bytes (registration i c e) in
      let (t, sent, acts) = on_frame_arrived s e frame now in
      (t.probing_edge_index ≡ no_edge)
      × (is_connected t.discovery e ≡ true)
      × (child_index t.discovery e ≡ i)
      × (sent ≡ send_on_edge s.discovery.parent frame ∷ [])
unfolding on_frame_arrived PanelDiscoveryDriver.on_frame_arrived PanelRouter.on_frame_arrived
    handle_register_edge_reply on_child_probe_accepted is_connected child_index edge_state defer_log
    make_meta
prober_records_child s i c now h n z l m =
    let e = s.probing_edge_index in
    let b = h.probing_edge n in
    ground (
      arith,
      read-registration i c e l m,
      b,
      h.probing_parent n,
      h.table,
      get_or-set_self s.discovery.edges e connected unexplored,
      get_or-set_self s.discovery.child_indexes e i 0,
    )

-- The controller, for which that index is the next, makes the new panel the frontier.
coordinator_advances :
    (d : DiscoveryCoordinator) (c e now : ℕ)
    → Bounds.Inv d
    → d.next_panel_index ≤ 100
    → c < 65536
    → e < 65536
    → let frame = register_edge_bytes (registration d.next_panel_index c e) in
      (DiscoveryCoordinator.on_frame_arrived d frame now).0.frontier_panel_index
      ≡ d.next_panel_index
unfolding DiscoveryCoordinator.on_frame_arrived DiscoveryCoordinator.handle_register_edge_reply
    DiscoveryCoordinator.send_advance make_meta
coordinator_advances d c e now h l m k = ground (
  arith,
  h,
  read-registration d.next_panel_index c e (omega arith) m k,
  Bounds.length-le-of_Falls d.frontier_panel_index d.stack h.falls,
)

-- A PULL that offers the controller's next index over the edge that a panel is probing to a panel that has no parent yet
-- brings three frames: the new panel adopts the index and answers on the edge on which
-- the PULL came; on that answer the probing panel records the index behind its edge and sends the
-- same bytes on to its parent; and on those the controller makes the new panel its frontier.
pub probe_registers_panel :
    (s k : PanelDiscoveryDriver) (d : DiscoveryCoordinator) (c now : ℕ)
    → Inv s
    → s.probing_edge_index ≢ no_edge
    → k.discovery.has_parent ≡ false
    → k.assigned_index ≡ 0
    → Bounds.Inv d
    → d.next_panel_index ≤ 100
    → c < 65536
    → let e = s.probing_edge_index in
      let i = d.next_panel_index in
      let reply = register_edge_bytes (registration i c e) in
      let (child, answers, child_acts) =
        on_frame_arrived k c (initialization_pull_bytes (pull i e)) now in
      let (parent, relayed, parent_acts) = on_frame_arrived s e reply now in
      (child.assigned_index ≡ i)
      × (child.discovery.parent ≡ c)
      × (answers ≡ send_on_edge c reply ∷ [])
      × (child_index parent.discovery e ≡ i)
      × (is_connected parent.discovery e ≡ true)
      × (relayed ≡ send_on_edge s.discovery.parent reply ∷ [])
      × ((DiscoveryCoordinator.on_frame_arrived d reply now).0.frontier_panel_index ≡ i)
probe_registers_panel s k d c now h n p z v l m =
    let b = h.probing_edge n in
    let edge : s.probing_edge_index < 65536 = omega (arith, b, h.table) in
    let (a1, a2, a3, a4) =
      new_panel_registers k d.next_panel_index c s.probing_edge_index now p z (omega arith) edge in
    let (p1, p2, p3, p4) =
      prober_records_child s d.next_panel_index c now h n (omega (arith, v)) (omega arith) m in
    (a1, a3, a4, p3, p2, p4, coordinator_advances d c s.probing_edge_index now v l m edge)
