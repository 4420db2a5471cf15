-- ===== src/Relay/PanelFrameDispatcher/Readvance.antt =====
-- An ADVANCE that is sent again because the answer to the one before was lost on its way to the controller.
use lightnet_firmware.Common.{
  ℕ, ◌<◌, ◌≡◌, ◌≢◌, ◌⊎◌, inl, inr, ap, Option-cases, true, List, [], ◌∷◌, arith, get_or-set_self,
}
use lightnet_firmware.Protocol.Types.{packet_discovery_advance, packet_discovery_done}
use lightnet_firmware.Protocol.Meta.{make_meta}
use lightnet_firmware.Protocol.Discovery.{
  initialization_pull_bytes, register_edge_bytes, PacketDiscoveryAdvance, discovery_advance_bytes,
  discovery_advance_of, discovery_done_bytes,
}
use lightnet_firmware.Protocol.Validation.{make_meta-FitsMeta, discovery_advance_of-bytes}
use lightnet_firmware.Relay.EdgeLink.{send_on_edge}
use lightnet_firmware.Relay.PanelDiscovery.{
  is_unexplored_state, edge_state, on_child_probe_accepted, connected, unexplored, child_index,
}
use lightnet_firmware.Relay.PanelDiscoveryDriver
use lightnet_firmware.Relay.PanelDiscoveryDriver.{
  PanelDiscoveryDriver, no_edge, handle_advance, handle_register_edge_reply, defer_log,
  find_unexplored, try_next_edge, send_probe, send_done,
}
use lightnet_firmware.Relay.PanelDiscoveryDriver.Invariant.{Inv, find_unexplored-some}
use lightnet_firmware.Relay.PanelFrameDispatcher.Handshake.{pull, registration, read-registration}

abbrev pub advance : ℕ → ℕ → PacketDiscoveryAdvance
advance target index = record {
  meta = make_meta packet_discovery_advance target;
  assign_index = index;
}

abbrev pub done_report : ℕ → List ℕ
done_report index =
    discovery_done_bytes (record { meta = make_meta packet_discovery_done 0; panel_index = index })

-- What a panel that probes nothing does with an ADVANCE for it.
answers_advance :
    (s : PanelDiscoveryDriver) (e i now : ℕ)
    → s.probing_edge_index ≡ no_edge
    → s.assigned_index < 65536
    → i < 65536
    → let (t, sent) =
        PanelDiscoveryDriver.on_frame_arrived s e
          (discovery_advance_bytes (advance s.assigned_index i))
          now in
      ((f : ℕ) × (is_unexplored_state (edge_state s.discovery f) ≡ true)
        × (sent ≡ send_on_edge f (initialization_pull_bytes (pull i f)) ∷ []))
      ⊎ (sent ≡ send_on_edge s.discovery.parent (done_report s.assigned_index) ∷ [])
unfolding PanelDiscoveryDriver.on_frame_arrived handle_advance try_next_edge send_probe send_done
    defer_log make_meta
answers_advance s e i now n l m =
    let r : discovery_advance_of (discovery_advance_bytes (advance s.assigned_index i))
        ≡ advance s.assigned_index i =
      discovery_advance_of-bytes (advance s.assigned_index i) []
        (make_meta-FitsMeta packet_discovery_advance s.assigned_index (omega arith) l) m in
    elim (Option-cases (find_unexplored s.discovery 0 s.discovery.edge_count)) [
      | inl x ↦ inr (ground (arith, r, x))
      | inr (f, x) ↦
          (let (k, ne, u) = find_unexplored-some s.discovery 0 s.discovery.edge_count f x in
            inl (f, u, ground (arith, r, x)))
    ]

after_answer :
    (s : PanelDiscoveryDriver) (i c now : ℕ)
    → i ≢ 0
    → i < 65536
    → c < 65536
    → s.probing_edge_index < 65536
    → let e = s.probing_edge_index in
      let t =
        (PanelDiscoveryDriver.on_frame_arrived s e
          (register_edge_bytes (registration i c e))
          now).0 in
      (t.probing_edge_index ≡ no_edge)
      × (t.assigned_index ≡ s.assigned_index)
      × (t.discovery ≡ on_child_probe_accepted s.discovery e i)
unfolding PanelDiscoveryDriver.on_frame_arrived handle_register_edge_reply defer_log make_meta
after_answer s i c now z l m k =
    let r = read-registration i c s.probing_edge_index l m k in
    (ground (arith, r), ground (arith, r), ground (arith, r))

-- Let a panel in the driver's invariant that probes an edge get the answer of a child that has
-- adopted the index `i`, and then an ADVANCE for itself that offers `i` once more. It has recorded
-- the child under `i`, and it either sends a PULL that offers the same `i` over another edge, or
-- reports DONE to its parent.
pub lost_answer_reuses_index :
    (s : PanelDiscoveryDriver) (i c now later : ℕ)
    → Inv s
    → s.probing_edge_index ≢ no_edge
    → s.assigned_index < 65536
    → i ≢ 0
    → i < 65536
    → c < 65536
    → let e = s.probing_edge_index in
      let t =
        (PanelDiscoveryDriver.on_frame_arrived s e
          (register_edge_bytes (registration i c e))
          now).0 in
      let (u, sent) =
        PanelDiscoveryDriver.on_frame_arrived t t.discovery.parent
          (discovery_advance_bytes (advance t.assigned_index i))
          later in
      (child_index t.discovery e ≡ i)
      × (((f : ℕ) × (f ≢ e) × (sent ≡ send_on_edge f (initialization_pull_bytes (pull i f)) ∷ []))
          ⊎ (sent ≡ send_on_edge t.discovery.parent (done_report t.assigned_index) ∷ []))
unfolding child_index on_child_probe_accepted
lost_answer_reuses_index s i c now later h n a z l m =
    let b = h.probing_edge n in
    let e = s.probing_edge_index in
    let t =
      (PanelDiscoveryDriver.on_frame_arrived s e (register_edge_bytes (registration i c e))
        now).0 in
    let (q, w, d) = after_answer s i c now z l m (omega (arith, b, h.table)) in
    let recorded = get_or-set_self s.discovery.child_indexes e i 0 (omega (arith, b, h.table)) in
    let taken : edge_state t.discovery e ≡ connected =
      unfold edge_state in
      rw d (get_or-set_self s.discovery.edges e connected unexplored (omega (arith, b, h.table))) in
    (
      rw d recorded,
      elim (answers_advance t t.discovery.parent i later q (rw w a) l) [
        | inl (f, u, x) ↦
            inl (f, (λ (g : f ≡ e). ground (arith, ap (edge_state t.discovery) g, taken, u)), x)
        | inr x ↦ inr x
      ],
    )
