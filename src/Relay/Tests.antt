-- ===== src/Relay/Tests.antt =====
-- Concrete panels on which the theorems about routing and probing apply.
use lightnet_firmware.Common.{
  ℕ, zero, suc, ◌+◌, ◌<◌, ◌≡◌, ◌≢◌, ◌⊎◌, refl, inr, true, false, replicate, List, [], ◌∷◌, ◌++◌,
  arith, length, All,
}
use lightnet_firmware.Protocol.Types.{packet_initialization_pull, packet_noop}
use lightnet_firmware.Protocol.Meta.{make_meta, meta_bytes}
use lightnet_firmware.Protocol.Discovery.{initialization_pull_bytes}
use lightnet_firmware.Relay.EdgeLink.{Send, send_on_edge}
use lightnet_firmware.Relay.PanelDiscovery
use lightnet_firmware.Relay.PanelDiscovery.{
  PanelDiscovery, unexplored, connected, not_connected, is_connected, child_index, on_parent_offer,
  edge_state,
}
use lightnet_firmware.Relay.PanelRouter
use lightnet_firmware.Relay.PanelRouter.Routing.{
  target_of, is_branch, IsBranch, IsRelay, route_branch, on_frame_arrived-IsRelay,
}
use lightnet_firmware.Relay.PanelDiscoveryDriver.{
  PanelDiscoveryDriver, on_frame_arrived, tick, no_edge,
}
use lightnet_firmware.Relay.PanelDiscoveryDriver.Invariant.{Inv}
use lightnet_firmware.Relay.PanelDiscoveryDriver.Liveness.{
  remaining, run_ticks, done_frame, silence_ends, AllExpired, count_open,
}

-- Parent on edge 0, children with the indices 5 and 9 on edges 1 and 2, edge 3 free.
abbrev hub : PanelDiscovery
hub = record {
  edge_count = 4;
  has_parent = true;
  parent = 0;
  edges = connected ∷ connected ∷ connected ∷ not_connected ∷ unexplored ∷ unexplored ∷ [];
  child_indexes = 0 ∷ 5 ∷ 9 ∷ 0 ∷ 0 ∷ 0 ∷ [];
}

-- A START-like packet for the panel `target`.
abbrev packet_for : ℕ → List ℕ
packet_for target = meta_bytes (make_meta packet_noop target)

hub_indexed : (u : ℕ) → u < 4 → is_branch hub 0 u ≡ true → child_index hub u ≢ 0
unfolding is_connected child_index edge_state
hub_indexed zero l b = ground arith
hub_indexed (suc zero) l b = ground arith
hub_indexed (suc (suc zero)) l b = ground arith
hub_indexed (suc (suc (suc zero))) l b = ground arith
hub_indexed (suc (suc (suc (suc u)))) l b = absurd (omega arith)

hub_others :
    (u : ℕ)
    → IsBranch hub 0 u
    → u ≢ 1
    → (child_index hub u < child_index hub 1) ⊎ (target_of (packet_for 7) < child_index hub u)
unfolding is_connected child_index edge_state make_meta
hub_others zero (l, n, b) ne = absurd (n refl)
hub_others (suc zero) (l, n, b) ne = absurd (ne refl)
hub_others (suc (suc zero)) (l, n, b) ne = inr (omega arith)
hub_others (suc (suc (suc zero))) (l, n, b) ne = ground arith
hub_others (suc (suc (suc (suc u)))) (l, n, b) ne = absurd (omega arith)

route_branch_example :
    PanelRouter.on_frame_arrived hub 0 (packet_for 7) ≡ send_on_edge 1 (packet_for 7) ∷ []
unfolding is_connected child_index edge_state make_meta
route_branch_example =
    route_branch hub (packet_for 7) 1 refl (omega arith) (λ e. ground arith) hub_indexed
      (omega arith, λ e. ground arith, refl) (omega arith) hub_others

hub_above :
    (u : ℕ) → u < 4 → is_branch hub 0 u ≡ true → target_of (packet_for 3) < child_index hub u
unfolding is_connected child_index edge_state make_meta
hub_above zero l b = ground arith
hub_above (suc zero) l b = omega arith
hub_above (suc (suc zero)) l b = omega arith
hub_above (suc (suc (suc zero))) l b = ground arith
hub_above (suc (suc (suc (suc u)))) l b = absurd (omega arith)

on_frame_arrived-IsRelay_example :
    All (IsRelay hub 2 (packet_for 7)) (PanelRouter.on_frame_arrived hub 2 (packet_for 7))
on_frame_arrived-IsRelay_example = on_frame_arrived-IsRelay hub 2 (packet_for 7) (omega arith)

-- A panel that probes its second edge.
abbrev pub probing_panel : PanelDiscoveryDriver
probing_panel = record {
  discovery = record {
    edge_count = 3;
    has_parent = true;
    parent = 0;
    edges = connected ∷ unexplored ∷ not_connected ∷ unexplored ∷ unexplored ∷ unexplored ∷ [];
    child_indexes = 0 ∷ 0 ∷ 0 ∷ 0 ∷ 0 ∷ 0 ∷ [];
  };
  assigned_index = 4;
  pending_assign_index = 5;
  probing_edge_index = 1;
  probe_attempts = 0;
  probe_started_ms = 100;
  deferred_logs = [];
}

pub probing_panel-Inv : Inv probing_panel
probing_panel-Inv = record {
  table = record {
    counted = omega arith;
    edge_storage = refl;
    child_storage = refl;
    parent_in = λ _. omega arith;
    parent_connected = λ _. refl;
  };
  probing_edge = λ _. (omega arith, λ e. ground arith, omega arith);
  probing_parent = λ _. refl;
  indexed = λ _. refl;
  log_storage = omega arith;
}

-- A panel that has not been found yet.
abbrev fresh_panel : PanelDiscoveryDriver
fresh_panel = record probing_panel {
  discovery = record {
    edge_count = 3;
    has_parent = false;
    parent = 0;
    edges = replicate 6 unexplored;
    child_indexes = replicate 6 0;
  };
  assigned_index = 0;
  pending_assign_index = 0;
  probing_edge_index = no_edge;
}

-- It offers the index 7.
abbrev offer_of_7 : List ℕ
offer_of_7 = initialization_pull_bytes (record {
  meta = make_meta packet_initialization_pull 0;
  panel_index = 7;
  parent_edge_index = 2;
})

three_timeouts : AllExpired probing_panel (120 ∷ 141 ∷ 170 ∷ [])
unfolding tick
three_timeouts = (omega arith, (omega arith, (omega arith, tt)))

silence_ends_example :
    ((run_ticks probing_panel (120 ∷ 141 ∷ 170 ∷ [])).0.probing_edge_index ≡ no_edge)
    × (probes : List Send) × (length probes + 1 ≡ remaining probing_panel)
    × ((run_ticks probing_panel (120 ∷ 141 ∷ 170 ∷ [])).1
        ≡ probes ++ send_on_edge 0 (done_frame 4) ∷ [])
unfolding remaining count_open is_connected child_index edge_state
    PanelDiscovery.on_child_probe_failed
silence_ends_example =
    silence_ends probing_panel (120 ∷ 141 ∷ 170 ∷ []) probing_panel-Inv (λ e. ground arith) refl
      three_timeouts
