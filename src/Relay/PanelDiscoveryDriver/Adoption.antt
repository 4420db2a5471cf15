-- ===== src/Relay/PanelDiscoveryDriver/Adoption.antt =====
-- The index and the parent of a panel: which frame gives them, and that no later one changes them.
use lightnet_firmware.Common.{
  ℕ, ◌≡◌, ◌≢◌, ◌⊎◌, inl, inr, refl, true, false, List, ◌!=◌, arith, Bool-cases, Option-cases,
}
use lightnet_firmware.Protocol.Meta.{meta_of}
use lightnet_firmware.Protocol.Types.{packet_initialization_pull}
use lightnet_firmware.Protocol.Discovery.{
  PacketInitializationPull, PacketRegisterEdge, PacketDiscoveryAdvance, initialization_pull_of,
  register_edge_of, discovery_advance_of,
}
use lightnet_firmware.Relay.PanelDiscovery.{
  PanelDiscovery, on_parent_offer, on_child_probe_accepted, on_child_probe_failed,
}
use lightnet_firmware.Relay.PanelDiscoveryDriver.{
  PanelDiscoveryDriver, DeferredDiscLog, no_edge, defer_log, find_unexplored, send_probe, send_done,
  try_next_edge, handle_initialization_pull, handle_register_edge_reply, handle_advance,
  on_frame_arrived, new, tick, expire, abandon,
}

-- The panel has an index, which is not 0, exactly if it has a parent.
abbrev pub IsIndexed : PanelDiscoveryDriver → Type 0
IsIndexed s = s.discovery.has_parent ≡ (s.assigned_index != 0)

-- The two have the same index, and both or neither have a parent, which is then the same edge.
abbrev pub SamePlace : PanelDiscoveryDriver → PanelDiscoveryDriver → Type 0
SamePlace s q =
    (q.assigned_index ≡ s.assigned_index)
    × (q.discovery.has_parent ≡ s.discovery.has_parent)
    × (q.discovery.parent ≡ s.discovery.parent)

-- Between the two the panel has been given the index `i` by a parent on edge `e`.
abbrev pub Adopts : PanelDiscoveryDriver → PanelDiscoveryDriver → ℕ → ℕ → Type 0
Adopts s q e i =
    (s.assigned_index ≡ 0)
    × (q.assigned_index ≡ i)
    × (q.discovery.has_parent ≡ true)
    × (q.discovery.parent ≡ e)

try_next_edge-SamePlace : (s : PanelDiscoveryDriver) (now : ℕ) → SamePlace s (try_next_edge s now).0
unfolding try_next_edge send_probe send_done defer_log
try_next_edge-SamePlace s now =
    elim (Option-cases (find_unexplored s.discovery 0 s.discovery.edge_count)) [
      | inl e ↦ rw (e, try_next_edge) (refl, refl, refl)
      | inr (i, e) ↦ rw (e, try_next_edge) (refl, refl, refl)
    ]

register-SamePlace :
    (s : PanelDiscoveryDriver) (e : ℕ) (p : PacketRegisterEdge) (now : ℕ)
    → SamePlace s (handle_register_edge_reply s e p now).0
unfolding handle_register_edge_reply on_child_probe_accepted on_child_probe_failed defer_log
register-SamePlace s e p now =
    let t = record s {
      probing_edge_index = no_edge;
      discovery = on_child_probe_failed s.discovery e;
    } in
    ground (arith, try_next_edge-SamePlace t now)

advance-SamePlace :
    (s : PanelDiscoveryDriver) (p : PacketDiscoveryAdvance) (now : ℕ)
    → SamePlace s (handle_advance s p now).0
unfolding handle_advance defer_log
advance-SamePlace s p now =
    let t =
      defer_log DeferredDiscLog.adv_accept p.assign_index 0
        (record s { pending_assign_index = p.assign_index }) in
    ground (arith, try_next_edge-SamePlace t now)

pull-Adopts :
    (s : PanelDiscoveryDriver) (e : ℕ) (p : PacketInitializationPull)
    → IsIndexed s
    → p.panel_index ≢ 0
    → let q = (handle_initialization_pull s e p).0 in SamePlace s q ⊎ Adopts s q e p.panel_index
unfolding handle_initialization_pull on_parent_offer defer_log
pull-Adopts s e p x n = elim (Bool-cases s.discovery.has_parent) [
  | inl has ↦ inl (ground arith)
  | inr hasnt ↦ inr (ground arith)
]

pull-IsIndexed :
    (s : PanelDiscoveryDriver) (e : ℕ) (p : PacketInitializationPull)
    → IsIndexed s
    → p.panel_index ≢ 0
    → IsIndexed (handle_initialization_pull s e p).0
unfolding handle_initialization_pull on_parent_offer defer_log
pull-IsIndexed s e p x n = ground arith

keeps-IsIndexed : (s q : PanelDiscoveryDriver) → SamePlace s q → IsIndexed s → IsIndexed q
keeps-IsIndexed s q (i, h, p) x = ground arith

pub frame-Adopts :
    (s : PanelDiscoveryDriver) (e now : ℕ) (frame : List ℕ)
    → IsIndexed s
    → ((meta_of frame).header.type ≡ packet_initialization_pull
        → (initialization_pull_of frame).panel_index ≢ 0)
    → let q = (on_frame_arrived s e frame now).0 in
      IsIndexed q
      × (SamePlace s q
          ⊎ (((meta_of frame).header.type ≡ packet_initialization_pull)
              × Adopts s q e (initialization_pull_of frame).panel_index))
unfolding on_frame_arrived
frame-Adopts s e now frame x n =
    let p = initialization_pull_of frame in
    let r = register_edge_of frame in
    let a = discovery_advance_of frame in
    ground (
      arith,
      pull-Adopts s e p x,
      pull-IsIndexed s e p x,
      register-SamePlace s e r now,
      keeps-IsIndexed s (handle_register_edge_reply s e r now).0 (register-SamePlace s e r now) x,
      advance-SamePlace s a now,
      keeps-IsIndexed s (handle_advance s a now).0 (advance-SamePlace s a now) x,
    )

-- A new driver, whose panel has no parent yet, has no index either.
new-IsIndexed : (d : PanelDiscovery) → d.has_parent ≡ false → IsIndexed (new d)
unfolding new
new-IsIndexed d e = ground arith

-- A tick changes neither the index nor the parent.
tick-IsIndexed : (s : PanelDiscoveryDriver) (now : ℕ) → IsIndexed s → IsIndexed (tick s now).0
unfolding tick send_probe expire abandon on_child_probe_failed defer_log
tick-IsIndexed s now x =
    let t = abandon (expire s) s.probing_edge_index in ground (arith, try_next_edge-SamePlace t now)
