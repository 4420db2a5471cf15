-- ===== src/Relay/PanelDiscoveryDriver/Invariant.antt =====
-- What holds of a driver between two calls.
use lightnet_firmware.Common.{
  ℕ, zero, suc, ◌+◌, ◌≤◌, ◌<◌, ◌≡◌, ◌≢◌, inl, inr, true, List, [], ◌∷◌, length, length-append,
  arith, some, Option-cases, drop,
}
use lightnet_firmware.Relay.PanelDiscovery.{PanelDiscovery, edge_state, is_unexplored_state}
use lightnet_firmware.Relay.PanelDiscovery.Invariant
use lightnet_firmware.Relay.PanelDiscovery.Invariant.{offer, accepted, failed, apply, apply-IsValid}
use lightnet_firmware.Relay.PanelDiscoveryDriver.{
  PanelDiscoveryDriver, DeferredDiscLog, no_edge, defer_log, find_unexplored, send_probe, send_done,
  try_next_edge,
}

-- The edge table is well formed; a probed edge is one of the panel's and not the parent's, with
-- fewer than PROBE_ATTEMPTS retries behind it; a panel that probes, and one that has an index, has a
-- parent; the log queue is within its array.
pub record Inv (s : PanelDiscoveryDriver) : Type 0 where
  pub table : Invariant.IsValid s.discovery
  pub probing_edge :
      s.probing_edge_index ≢ no_edge
      → (s.probing_edge_index < s.discovery.edge_count)
        × (s.probing_edge_index ≢ s.discovery.parent)
        × (s.probe_attempts < 3)
  pub probing_parent : s.probing_edge_index ≢ no_edge → s.discovery.has_parent ≡ true
  pub indexed : s.assigned_index ≢ 0 → s.discovery.has_parent ≡ true
  pub log_storage : length s.deferred_logs ≤ 8

length-drop_one {ℓ} : {A : Type ℓ} (xs : List A) → length (drop 1 xs) + 1 ≤ length xs + 1
length-drop_one [] = omega arith
length-drop_one (x ∷ []) = omega arith
length-drop_one (x ∷ y ∷ xs) = omega arith

pub find_unexplored-some :
    (d : PanelDiscovery) (e n i : ℕ)
    → find_unexplored d e n ≡ some i
    → (i < e + n) × (i ≢ d.parent) × (is_unexplored_state (edge_state d i) ≡ true)
unfolding find_unexplored
find_unexplored-some d e zero i h = cc
find_unexplored-some d e (suc n) i h = ground (arith, find_unexplored-some d (e + 1) n i)

pub length-defer_log :
    (code : DeferredDiscLog) (a b : ℕ) (s : PanelDiscoveryDriver)
    → length s.deferred_logs ≤ 8
    → length (defer_log code a b s).deferred_logs ≤ 8
unfolding defer_log
length-defer_log code a b s h = ground (
  arith,
  length-append (drop 1 s.deferred_logs) (record { code = code; a = a; b = b } ∷ []),
  length-append s.deferred_logs (record { code = code; a = a; b = b } ∷ []),
  length-drop_one s.deferred_logs,
)

-- A call of `deferLog` changes nothing but the queue.
pub defer_log-Inv :
    (code : DeferredDiscLog) (a b : ℕ) (s : PanelDiscoveryDriver)
    → Inv s
    → Inv (defer_log code a b s)
unfolding defer_log
defer_log-Inv code a b s h =
    let l = length-defer_log code a b s h.log_storage in
    record {
      table = h.table;
      probing_edge = h.probing_edge;
      probing_parent = h.probing_parent;
      indexed = h.indexed;
      log_storage = unfold defer_log in l;
    }

pub send_probe-Inv :
    (s : PanelDiscoveryDriver) (e now : ℕ)
    → Inv s
    → s.discovery.has_parent ≡ true
    → e < s.discovery.edge_count
    → e ≢ s.discovery.parent
    → s.probe_attempts < 3
    → Inv (send_probe s e now).0
unfolding send_probe
send_probe-Inv s e now h p l ne a =
    defer_log-Inv DeferredDiscLog.probe e 0
      (record s { probing_edge_index = e; probe_started_ms = now })
      (record {
        table = h.table;
        probing_edge = λ _. (l, ne, a);
        probing_parent = λ _. p;
        indexed = h.indexed;
        log_storage = h.log_storage;
      })

pub try_next_edge-Inv :
    (s : PanelDiscoveryDriver) (now : ℕ)
    → Inv s
    → s.discovery.has_parent ≡ true
    → s.probing_edge_index ≡ no_edge
    → Inv (try_next_edge s now).0
unfolding try_next_edge send_done
try_next_edge-Inv s now h p q =
    elim (Option-cases (find_unexplored s.discovery 0 s.discovery.edge_count)) [
      | inl e ↦
          rw (e, try_next_edge)
            (defer_log-Inv DeferredDiscLog.done_send s.assigned_index s.discovery.parent s h)
      | inr (i, e) ↦
          (let (l, ne, u) = find_unexplored-some s.discovery 0 s.discovery.edge_count i e in
            rw (e, try_next_edge)
              (send_probe-Inv (record s { probe_attempts = 0 }) i now
                (record {
                  table = h.table;
                  probing_edge = λ n. absurd (n q);
                  probing_parent = h.probing_parent;
                  indexed = h.indexed;
                  log_storage = h.log_storage;
                })
                p (omega arith) ne (omega arith)))
    ]
