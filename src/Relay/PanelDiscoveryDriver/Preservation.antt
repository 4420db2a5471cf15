-- ===== src/Relay/PanelDiscoveryDriver/Preservation.antt =====
-- Every call of a driver keeps its invariant.
use lightnet_firmware.Common.{
  ℕ, ◌<◌, ◌≡◌, ◌≢◌, ◌⊎◌, inl, inr, refl, true, List, ◌==◌, ◌!=◌, if◌then◌else◌, arith, ltb, sub32,
  Bool-cases, ◌∙◌,
}
use lightnet_firmware.Protocol.Meta.{meta_of}
use lightnet_firmware.Protocol.Types.{packet_discovery_advance, packet_initialization_pull}
use lightnet_firmware.Protocol.Discovery.{
  PacketInitializationPull, PacketRegisterEdge, PacketDiscoveryAdvance, initialization_pull_of,
  register_edge_of, discovery_advance_of,
}
use lightnet_firmware.Relay.PanelDiscovery.{
  PanelDiscovery, on_parent_offer, on_child_probe_accepted, on_child_probe_failed,
}
use lightnet_firmware.Relay.PanelDiscovery.Invariant.{
  IsValid, offer, accepted, failed, apply, apply-IsValid,
}
use lightnet_firmware.Relay.PanelDiscoveryDriver.{
  PanelDiscoveryDriver, DeferredDiscLog, no_edge, new, defer_log, send_probe, try_next_edge,
  handle_initialization_pull, handle_register_edge_reply, handle_advance, on_frame_arrived, tick,
  expire, abandon, max_probe_attempts, probe_timeout_ms,
}
use lightnet_firmware.Relay.PanelDiscoveryDriver.Adoption.{
  IsIndexed, SamePlace, Adopts, frame-Adopts,
}
use lightnet_firmware.Relay.PanelDiscoveryDriver.Invariant.{
  Inv, length-defer_log, defer_log-Inv, send_probe-Inv, try_next_edge-Inv,
}

-- A new driver over a new edge table.
pub new-Inv : (d : PanelDiscovery) → IsValid d → Inv (new d)
unfolding new
new-Inv d v = record {
  table = v;
  probing_edge = λ n. absurd (n refl);
  probing_parent = λ n. absurd (n refl);
  indexed = λ n. absurd (n refl);
  log_storage = omega arith;
}

-- The table after a probe of edge `e` has been answered or given up.
module _ (s : PanelDiscoveryDriver) (h : Inv s) where
  accepted-Inv :
      (e c : ℕ)
      → e ≡ s.probing_edge_index
      → e ≢ no_edge
      → Inv (record s {
        probing_edge_index = no_edge;
        discovery = on_child_probe_accepted s.discovery e c;
      })
  unfolding apply on_child_probe_accepted
  accepted-Inv e c q n =
      let b = h.probing_edge (λ z. n (q ∙ z)) in
      record {
        table = apply-IsValid s.discovery (accepted e c) h.table (omega arith, λ _. omega arith);
        probing_edge = λ z. absurd (z refl);
        probing_parent = λ z. absurd (z refl);
        indexed = h.indexed;
        log_storage = h.log_storage;
      }

  failed-Inv :
      (e : ℕ)
      → e ≡ s.probing_edge_index
      → e ≢ no_edge
      → Inv (record s {
        probing_edge_index = no_edge;
        discovery = on_child_probe_failed s.discovery e;
      })
  unfolding apply on_child_probe_failed
  failed-Inv e q n =
      let b = h.probing_edge (λ z. n (q ∙ z)) in
      record {
        table = apply-IsValid s.discovery (failed e) h.table (omega arith, λ _. omega arith);
        probing_edge = λ z. absurd (z refl);
        probing_parent = λ z. absurd (z refl);
        indexed = h.indexed;
        log_storage = h.log_storage;
      }

  register-Inv :
      (p : PacketRegisterEdge) (now e : ℕ)
      → e ≡ s.probing_edge_index
      → e ≢ no_edge
      → Inv (handle_register_edge_reply s e p now).0
  unfolding handle_register_edge_reply on_child_probe_failed
  register-Inv p now e q n = elim (Bool-cases (p.panel_index != 0)) [
    | inl k ↦
        rw k (defer_log-Inv DeferredDiscLog.child_accepted e 0 _ (accepted-Inv e p.panel_index q n))
    | inr k ↦ rw k (
        defer_log-Inv DeferredDiscLog.child_rejected e 0 _
          (try_next_edge-Inv _ now (failed-Inv e q n) (h.probing_parent (λ z. n (q ∙ z))) refl))
  ]

  advance-Inv :
      (p : PacketDiscoveryAdvance) (now : ℕ)
      → p.meta.header.target_panel_index ≢ 0
      → Inv (handle_advance s p now).0
  unfolding handle_advance defer_log
  advance-Inv p now t = elim (Bool-cases (p.meta.header.target_panel_index != s.assigned_index)) [
    | inl k ↦ rw k h
    | inr k ↦ rw k (elim (Bool-cases (s.probing_edge_index != no_edge)) [
      | inl b ↦ rw b h
      | inr b ↦ rw b (
          try_next_edge-Inv _ now
            (defer_log-Inv DeferredDiscLog.adv_accept p.assign_index 0
              (record s { pending_assign_index = p.assign_index })
              (record {
                table = h.table;
                probing_edge = h.probing_edge;
                probing_parent = h.probing_parent;
                indexed = h.indexed;
                log_storage = h.log_storage;
              }))
            (h.indexed (ground arith)) (ground arith))
    ])
  ]

  offer_keeps :
      (e : ℕ)
      → let d = (on_parent_offer s.discovery e).0 in
        (d.edge_count ≡ s.discovery.edge_count)
        × (d.has_parent ≡ true)
        × ((s.discovery.has_parent ≡ true) → d.parent ≡ s.discovery.parent)
  unfolding on_parent_offer
  offer_keeps e = (ground arith, ground arith, λ p. ground arith)

  pull-Inv :
      (p : PacketInitializationPull) (e : ℕ)
      → e < s.discovery.edge_count
      → Inv (handle_initialization_pull s e p).0
  unfolding handle_initialization_pull apply
  pull-Inv p e l =
      let (c, q, k) = offer_keeps e in
      defer_log-Inv DeferredDiscLog.pull e _ _ (record {
        table = apply-IsValid s.discovery (offer e) h.table l;
        probing_edge = λ n. (
          omega (arith, c, h.probing_edge n),
          omega (arith, k (h.probing_parent n), h.probing_edge n),
          omega (arith, h.probing_edge n),
        );
        probing_parent = λ n. q;
        indexed = λ n. q;
        log_storage = h.log_storage;
      })

-- Every frame that arrives on one of the panel's edges keeps the driver's invariant.
frame-Inv :
    (s : PanelDiscoveryDriver) (e now : ℕ) (frame : List ℕ)
    → Inv s
    → e < s.discovery.edge_count
    → ((meta_of frame).header.type ≡ packet_discovery_advance
        → (meta_of frame).header.target_panel_index ≢ 0)
    → Inv (on_frame_arrived s e frame now).0
unfolding on_frame_arrived
frame-Inv s e now frame h l t = ground (
  arith,
  pull-Inv s h (initialization_pull_of frame) e l,
  register-Inv s h (register_edge_of frame) now e,
  advance-Inv s h (discovery_advance_of frame) now,
  h.table.counted,
)

pub on_frame_arrived-Inv :
    (s : PanelDiscoveryDriver) (e now : ℕ) (frame : List ℕ)
    → Inv s
    → IsIndexed s
    → e < s.discovery.edge_count
    → ((meta_of frame).header.type ≡ packet_initialization_pull
        → (initialization_pull_of frame).panel_index ≢ 0)
    → ((meta_of frame).header.type ≡ packet_discovery_advance
        → (meta_of frame).header.target_panel_index ≢ 0)
    → let q = (on_frame_arrived s e frame now).0 in
      Inv q
      × IsIndexed q
      × (SamePlace s q
          ⊎ (((meta_of frame).header.type ≡ packet_initialization_pull)
              × Adopts s q e (initialization_pull_of frame).panel_index))
on_frame_arrived-Inv s e now frame h x l n t =
    let (i, a) = frame-Adopts s e now frame x n in (frame-Inv s e now frame h l t, i, a)

module _ (s : PanelDiscoveryDriver) (h : Inv s) (n : s.probing_edge_index ≢ no_edge) where
  retry-Inv : (expire s).probe_attempts < 3 → Inv (expire s)
  unfolding expire
  retry-Inv l = record {
    table = h.table;
    probing_edge = λ m. (omega (arith, h.probing_edge n), omega (arith, h.probing_edge n), l);
    probing_parent = h.probing_parent;
    indexed = h.indexed;
    log_storage =
        length-defer_log DeferredDiscLog.probe_timeout s.probing_edge_index 0 s h.log_storage;
  }

  abandon-Inv : Inv (abandon (expire s) s.probing_edge_index)
  unfolding abandon expire apply
  abandon-Inv =
      let b = h.probing_edge n in
      record {
        table =
            apply-IsValid s.discovery (failed s.probing_edge_index) h.table
              (omega arith, λ _. omega arith);
        probing_edge = λ z. absurd (z refl);
        probing_parent = λ z. absurd (z refl);
        indexed = h.indexed;
        log_storage =
            length-defer_log DeferredDiscLog.probe_timeout s.probing_edge_index 0 s h.log_storage;
      }

  expired-Inv :
      (now : ℕ)
      → Inv
          (if ltb (expire s).probe_attempts max_probe_attempts
            then send_probe (expire s) s.probing_edge_index now
            else try_next_edge (abandon (expire s) s.probing_edge_index) now).0
  unfolding expire abandon
  expired-Inv now =
      let b = h.probing_edge n in
      elim (Bool-cases (ltb (expire s).probe_attempts max_probe_attempts)) [
        | inl m ↦ rw m (
            send_probe-Inv (expire s) s.probing_edge_index now (retry-Inv (ground arith))
              (h.probing_parent n) b.0 b.1 (ground arith))
        | inr m ↦ rw m (try_next_edge-Inv _ now abandon-Inv (h.probing_parent n) refl)
      ]

-- Every tick keeps the driver's invariant.
pub tick-Inv : (s : PanelDiscoveryDriver) (now : ℕ) → Inv s → Inv (tick s now).0
unfolding tick
tick-Inv s now h = elim (Bool-cases (s.probing_edge_index == no_edge)) [
  | inl a ↦ rw a h
  | inr a ↦ rw a (elim (Bool-cases (ltb (sub32 now s.probe_started_ms) probe_timeout_ms)) [
    | inl w ↦ rw w h
    | inr w ↦ rw w (expired-Inv s h (ground arith) now)
  ])
]
