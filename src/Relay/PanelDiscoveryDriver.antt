-- ===== src/Relay/PanelDiscoveryDriver.antt =====
-- lib/Lightnet/Core/Relay/PanelDiscoveryDriver.{hpp,cpp}: the panel's half of the discovery protocol.
-- The driver owns its `PanelDiscovery` here; the router reads it from the driver.
pub mod Invariant
pub mod Preservation
pub mod Adoption
pub mod Liveness
use lightnet_firmware.Common.{
  ℕ, zero, suc, ◌+◌, ◌-◌, ◌%◌, Bool, true, false, not, ◌&&◌, ◌||◌, List, [], ◌∷◌, ◌++◌, Option,
  none, some, ◌==◌, ◌!=◌, ltb, leb, if◌then◌else◌, sub32, u8, length, drop,
}
use lightnet_firmware.Protocol.Types.{
  packet_initialization_pull, packet_register_edge, packet_discovery_advance, packet_discovery_done,
  discovery_rejected_index,
}
use lightnet_firmware.Protocol.Meta.{meta_of, make_meta}
use lightnet_firmware.Protocol.Discovery.{
  PacketInitializationPull, PacketRegisterEdge, PacketDiscoveryAdvance, PacketDiscoveryDone,
  initialization_pull_bytes, initialization_pull_of, register_edge_bytes, register_edge_of,
  discovery_advance_of, discovery_done_bytes,
}
use lightnet_firmware.Relay.EdgeLink.{Send, send_on_edge}
use lightnet_firmware.Relay.PanelDiscovery.{
  PanelDiscovery, edge_state, is_unexplored_state, on_parent_offer, on_child_probe_accepted,
  on_child_probe_failed,
}

abbrev pub no_edge : ℕ
no_edge = 255

abbrev pub probe_timeout_ms : ℕ
probe_timeout_ms = 20

abbrev pub max_probe_attempts : ℕ
max_probe_attempts = 3

abbrev pub deferred_log_cap : ℕ
deferred_log_cap = 8

pub data DeferredDiscLog : Type 0 where
  pull adv_accept probe done_send child_accepted child_rejected probe_timeout : DeferredDiscLog

pub record DeferredLogEntry : Type 0 where
  pub code : DeferredDiscLog
  pub a : ℕ
  pub b : ℕ

-- `deferred_logs` is the used part of the array, `deferredLogCount` its length.
pub record PanelDiscoveryDriver : Type 0 where
  pub discovery : PanelDiscovery
  pub assigned_index : ℕ
  pub pending_assign_index : ℕ
  pub probing_edge_index : ℕ
  pub probe_attempts : ℕ
  pub probe_started_ms : ℕ
  pub deferred_logs : List DeferredLogEntry

unfoldable pub new : PanelDiscovery → PanelDiscoveryDriver
new d = record {
  discovery = d;
  assigned_index = 0;
  pending_assign_index = 0;
  probing_edge_index = no_edge;
  probe_attempts = 0;
  probe_started_ms = 0;
  deferred_logs = [];
}

-- A full queue drops its oldest entry.
unfoldable pub defer_log : DeferredDiscLog → ℕ → ℕ → PanelDiscoveryDriver → PanelDiscoveryDriver
defer_log code a b s =
    let kept =
      if leb deferred_log_cap (length s.deferred_logs)
      then drop 1 s.deferred_logs
      else s.deferred_logs in
    record s { deferred_logs = kept ++ record { code = code; a = a; b = b } ∷ [] }

-- Returns the entry that is printed and whether entries are left.
unfoldable pub flush_one_deferred_log :
    PanelDiscoveryDriver → PanelDiscoveryDriver × Option DeferredLogEntry × Bool
flush_one_deferred_log s = elim s.deferred_logs [
  | [] ↦ (s, none, false)
  | entry ∷ rest ↦ (record s { deferred_logs = rest }, some entry, ltb 0 (length rest))
]

abbrev pub is_probing : PanelDiscoveryDriver → Bool
is_probing s = s.probing_edge_index != no_edge

unfoldable pub send_probe : PanelDiscoveryDriver → ℕ → ℕ → PanelDiscoveryDriver × List Send
unfolding defer_log
send_probe s e now =
    let packet = initialization_pull_bytes (record {
      meta = make_meta packet_initialization_pull 0;
      panel_index = s.pending_assign_index;
      parent_edge_index = e;
    }) in
    (
      defer_log probe e 0 (record s { probing_edge_index = e; probe_started_ms = now }),
      send_on_edge e packet ∷ [],
    )

-- The loop of `tryNextEdge` over the edges `e`, `e + 1`, … with `n` of them left: the first edge to
-- probe.
unfoldable pub find_unexplored : PanelDiscovery → ℕ → ℕ → Option ℕ
find_unexplored d e zero = none
find_unexplored d e (suc n) =
    let rest = find_unexplored d (e + 1) n in
    if (e == d.parent) || not (is_unexplored_state (edge_state d e)) then rest else some e

unfoldable pub send_done : PanelDiscoveryDriver → PanelDiscoveryDriver × List Send
unfolding defer_log
send_done s =
    let packet =
      discovery_done_bytes
        (record { meta = make_meta packet_discovery_done 0; panel_index = s.assigned_index }) in
    (
      defer_log done_send s.assigned_index s.discovery.parent s,
      send_on_edge s.discovery.parent packet ∷ [],
    )

unfoldable pub try_next_edge : PanelDiscoveryDriver → ℕ → PanelDiscoveryDriver × List Send
unfolding find_unexplored send_probe send_done
try_next_edge s now = elim (find_unexplored s.discovery 0 s.discovery.edge_count) [
  | some e ↦ send_probe (record s { probe_attempts = 0 }) e now
  | none ↦ send_done s
]

unfoldable pub handle_initialization_pull :
    PanelDiscoveryDriver → ℕ → PacketInitializationPull → PanelDiscoveryDriver × List Send
unfolding on_parent_offer defer_log
handle_initialization_pull s from p =
    let (d, accepted) = on_parent_offer s.discovery from in
    let t = record s {
      discovery = d;
      assigned_index =
          (if accepted && (s.assigned_index == 0) then p.panel_index else s.assigned_index);
    } in
    let index = if accepted then t.assigned_index else discovery_rejected_index in
    let reply = register_edge_bytes (record {
      meta = make_meta packet_register_edge 0;
      panel_index = index;
      edge_index = from;
      parent_edge_index = p.parent_edge_index;
    }) in
    (defer_log pull from index t, send_on_edge from reply ∷ [])

unfoldable pub handle_register_edge_reply :
    PanelDiscoveryDriver → ℕ → PacketRegisterEdge → ℕ → PanelDiscoveryDriver × List Send
unfolding on_child_probe_accepted on_child_probe_failed try_next_edge defer_log
handle_register_edge_reply s from p now =
    let t = record s { probing_edge_index = no_edge } in
    if p.panel_index != discovery_rejected_index
    then (
      defer_log child_accepted from 0
          (record t { discovery = on_child_probe_accepted t.discovery from p.panel_index }),
      [],
    )
    else (let (u, sent) =
          try_next_edge (record t { discovery = on_child_probe_failed t.discovery from }) now in
        (defer_log child_rejected from 0 u, sent))

unfoldable pub handle_advance :
    PanelDiscoveryDriver → PacketDiscoveryAdvance → ℕ → PanelDiscoveryDriver × List Send
unfolding try_next_edge defer_log
handle_advance s p now =
    if p.meta.header.target_panel_index != s.assigned_index
    then (s, [])
    else if is_probing s
    then (s, [])
    else try_next_edge
        (defer_log adv_accept p.assign_index 0 (record s { pending_assign_index = p.assign_index }))
        now

unfoldable pub on_frame_arrived :
    PanelDiscoveryDriver → ℕ → List ℕ → ℕ → PanelDiscoveryDriver × List Send
unfolding handle_initialization_pull handle_register_edge_reply handle_advance
on_frame_arrived s from frame now =
    let type = (meta_of frame).header.type in
    if type == packet_initialization_pull
    then handle_initialization_pull s from (initialization_pull_of frame)
    else if type == packet_register_edge
    then (if from == s.probing_edge_index
        then handle_register_edge_reply s from (register_edge_of frame) now
        else (s, []))
    else if type == packet_discovery_advance
    then handle_advance s (discovery_advance_of frame) now
    else (s, [])

-- The part of `tick` that every expired probe goes through.
unfoldable pub expire : PanelDiscoveryDriver → PanelDiscoveryDriver
unfolding defer_log
expire s = record (defer_log probe_timeout s.probing_edge_index 0 s) {
  probe_attempts = u8 (s.probe_attempts + 1);
}

-- `tick` gives an edge up.
unfoldable pub abandon : PanelDiscoveryDriver → ℕ → PanelDiscoveryDriver
unfolding on_child_probe_failed
abandon s e = record s {
  probing_edge_index = no_edge;
  discovery = on_child_probe_failed s.discovery e;
}

unfoldable pub tick : PanelDiscoveryDriver → ℕ → PanelDiscoveryDriver × List Send
unfolding send_probe expire abandon try_next_edge
tick s now =
    if s.probing_edge_index == no_edge
    then (s, [])
    else if ltb (sub32 now s.probe_started_ms) probe_timeout_ms
    then (s, [])
    else (let t = expire s in
        if ltb t.probe_attempts max_probe_attempts
        then send_probe t s.probing_edge_index now
        else try_next_edge (abandon t s.probing_edge_index) now)
