-- ===== src/Relay/PanelDiscoveryDriver/Liveness.antt =====
-- A panel whose neighbours stay silent reports DONE after a bounded number of probes.
use mathlib.Core.List.{append-nil, append_assoc}
use lightnet_firmware.Common.{
  ℕ, zero, suc, ◌+◌, ◌-◌, ◌*◌, ◌≤◌, ◌<◌, ◌≡◌, ◌≢◌, inl, inr, refl, Bool, false, ◌&&◌, List, [], ◌∷◌,
  ◌++◌, ◌==◌, ◌!=◌, if◌then◌else◌, arith, none, Option-cases, ltb, sub32, Bool-cases, u8, ap,
  length, length-append, length-set, get_or-set_self, get_or-set_ne,
}
use lightnet_firmware.Protocol.Types.{packet_discovery_done}
use lightnet_firmware.Protocol.Meta.{make_meta}
use lightnet_firmware.Protocol.Discovery.{discovery_done_bytes}
use lightnet_firmware.Relay.EdgeLink.{Send, send_on_edge}
use lightnet_firmware.Relay.PanelDiscovery.{
  PanelDiscovery, on_child_probe_failed, edge_state, is_unexplored_state, unexplored, not_connected,
}
use lightnet_firmware.Relay.PanelDiscoveryDriver.{
  PanelDiscoveryDriver, no_edge, find_unexplored, send_probe, send_done, try_next_edge, tick,
  expire, abandon, max_probe_attempts,
}
use lightnet_firmware.Relay.PanelDiscoveryDriver.Invariant.{Inv, find_unexplored-some}
use lightnet_firmware.Relay.PanelDiscoveryDriver.Preservation.{tick-Inv}

-- An edge that may still be probed.
abbrev pub is_open : PanelDiscovery → ℕ → Bool
is_open d e = (e != d.parent) && is_unexplored_state (edge_state d e)

unfoldable pub count_open : PanelDiscovery → ℕ → ℕ
count_open d zero = 0
count_open d (suc n) = (if is_open d n then 1 else 0) + count_open d n

-- Giving an edge up closes it, and no other.
is_open-failed_self :
    (d : PanelDiscovery) (e : ℕ)
    → e < length d.edges
    → is_open (on_child_probe_failed d e) e ≡ false
unfolding on_child_probe_failed edge_state
is_open-failed_self d e h = ground (arith, get_or-set_self d.edges e not_connected unexplored)

is_open-failed_ne :
    (d : PanelDiscovery) (e i : ℕ) → e ≢ i → is_open (on_child_probe_failed d e) i ≡ is_open d i
unfolding on_child_probe_failed edge_state
is_open-failed_ne d e i h = rw (get_or-set_ne d.edges e i not_connected unexplored h)

count_open-failed :
    (d : PanelDiscovery) (e n : ℕ)
    → e < length d.edges
    → count_open (on_child_probe_failed d e) n + (if ltb e n && is_open d e then 1 else 0)
      ≡ count_open d n
unfolding count_open
count_open-failed d e zero h = ground arith
count_open-failed d e (suc n) h = elim (Bool-cases (e == n)) [
  | inl q ↦
      (let r : n ≡ e = ground arith in
        ground (
          arith,
          count_open-failed d e n h,
          ap (is_open (on_child_probe_failed d e)) r,
          ap (is_open d) r,
          is_open-failed_self d e h,
        ))
  | inr q ↦ ground (arith, count_open-failed d e n h, is_open-failed_ne d e n (ground arith))
]

find_unexplored-none :
    (d : PanelDiscovery) (e n i : ℕ)
    → find_unexplored d e n ≡ none
    → e ≤ i
    → i < e + n
    → is_open d i ≡ false
unfolding find_unexplored
find_unexplored-none d e zero i h a b = absurd (omega arith)
find_unexplored-none d e (suc n) i h a b = elim (Bool-cases (i == e)) [
  | inl q ↦ (let r : i ≡ e = ground arith in ground (arith, ap (is_open d) r))
  | inr q ↦ ground (arith, find_unexplored-none d (e + 1) n i)
]

count_open-zero :
    (d : PanelDiscovery) (n : ℕ) → ((i : ℕ) → i < n → is_open d i ≡ false) → count_open d n ≡ 0
unfolding count_open
count_open-zero d zero h = refl
count_open-zero d (suc n) h =
    rw (h n (omega arith)) (omega (arith, count_open-zero d n (λ i l. h i (omega arith))))

-- How many expired ticks are left until the panel has nothing more to probe.
unfoldable pub remaining : PanelDiscoveryDriver → ℕ
remaining s =
    3 * count_open (on_child_probe_failed s.discovery s.probing_edge_index) s.discovery.edge_count
    + (3 - s.probe_attempts)

-- The frame that reports a panel's subtree as resolved.
abbrev pub done_frame : ℕ → List ℕ
done_frame index =
    discovery_done_bytes (record { meta = make_meta packet_discovery_done 0; panel_index = index })

-- A tick behind the timeout of a probe uses up one of the ticks that remain, or is the last one,
-- and reports DONE to the parent.
record Progress (s : PanelDiscoveryDriver) (t : PanelDiscoveryDriver × List Send) : Type 0 where
  goes_on :
      1 < remaining s
      → (t.0.probing_edge_index ≢ no_edge) × (remaining t.0 + 1 ≡ remaining s) × (length t.1 ≡ 1)
  ends :
      remaining s ≡ 1
      → (t.0.probing_edge_index ≡ no_edge)
        × (t.1 ≡ send_on_edge s.discovery.parent (done_frame s.assigned_index) ∷ [])
  keeps : (t.0.discovery.parent ≡ s.discovery.parent) × (t.0.assigned_index ≡ s.assigned_index)

module _ (s : PanelDiscoveryDriver) (h : Inv s) (n : s.probing_edge_index ≢ no_edge) where
  retry-Progress :
      (now : ℕ)
      → s.probe_attempts + 1 < 3
      → Progress s (send_probe (expire s) s.probing_edge_index now)
  unfolding send_probe expire remaining
  retry-Progress now l = record {
    goes_on = λ m. (n, ground arith, refl);
    ends = λ m. absurd (omega arith);
    keeps = (refl, refl);
  }

  next-Progress :
      (now : ℕ)
      → s.probe_attempts ≡ 2
      → Progress s (try_next_edge (abandon (expire s) s.probing_edge_index) now)
  unfolding try_next_edge send_probe send_done expire abandon remaining
  next-Progress now l =
      let b = h.probing_edge n in
      let d = on_child_probe_failed s.discovery s.probing_edge_index in
      elim (Option-cases (find_unexplored d 0 d.edge_count)) [
        | inl e ↦
            (let z =
                count_open-zero d d.edge_count
                  (λ i k. find_unexplored-none d 0 d.edge_count i e (omega arith) (omega arith)) in
              rw (e, try_next_edge)
                (record {
                  goes_on = λ m. absurd (omega (arith, z));
                  ends = λ m. (refl, refl);
                  keeps = (refl, refl);
                }))
        | inr (i, e) ↦
            (let (k, ne, u) = find_unexplored-some d 0 d.edge_count i e in
              let stored : i < length d.edges =
                unfold on_child_probe_failed in
                omega (
                  arith,
                  h.table,
                  length-set s.discovery.edges s.probing_edge_index not_connected,
                ) in
              let closed = count_open-failed d i d.edge_count stored in
              rw (e, try_next_edge)
                (record {
                  goes_on = λ m. (omega (arith, h.table.counted), ground (arith, closed), refl);
                  ends = λ m. absurd (ground (arith, closed));
                  keeps = (refl, refl);
                }))
      ]

  attempts-expire : (expire s).probe_attempts ≡ u8 (s.probe_attempts + 1)
  unfolding expire
  attempts-expire = refl

  expired-Progress : (now : ℕ) → 20 ≤ sub32 now s.probe_started_ms → Progress s (tick s now)
  unfolding tick
  expired-Progress now l = elim (Bool-cases (ltb (expire s).probe_attempts max_probe_attempts)) [
    | inl m ↦ ground (arith, attempts-expire, h.probing_edge n, retry-Progress now)
    | inr m ↦ ground (arith, attempts-expire, h.probing_edge n, next-Progress now)
  ]

-- The ticks of a panel at the given times, with what they send.
unfoldable pub run_ticks : PanelDiscoveryDriver → List ℕ → PanelDiscoveryDriver × List Send
run_ticks s [] = (s, [])
run_ticks s (t ∷ ts) =
    let (s', sent) = tick s t in let (u, later) = run_ticks s' ts in (u, sent ++ later)

-- Each tick comes behind the timeout of the probe that is then outstanding.
abbrev pub AllExpired : PanelDiscoveryDriver → List ℕ → Type 0
AllExpired s [] = Unit
AllExpired s (t ∷ ts) = (20 ≤ sub32 t s.probe_started_ms) × AllExpired (tick s t).0 ts

run_ticks-done :
    (k : ℕ) (s : PanelDiscoveryDriver) (ts : List ℕ)
    → Inv s
    → s.probing_edge_index ≢ no_edge
    → remaining s ≡ suc k
    → length ts ≡ suc k
    → AllExpired s ts
    → ((run_ticks s ts).0.probing_edge_index ≡ no_edge)
      × (probes : List Send) × (length probes ≡ k)
      × ((run_ticks s ts).1
          ≡ probes ++ send_on_edge s.discovery.parent (done_frame s.assigned_index) ∷ [])
unfolding run_ticks
run_ticks-done k s [] h n r l x = absurd (omega arith)
run_ticks-done zero s (t ∷ []) h n r l x =
    let p = expired-Progress s h n t x.0 in
    ((p.ends r).0, [], refl, ground (arith, p.ends r, append-nil (tick s t).1))
run_ticks-done zero s (t ∷ u ∷ ts) h n r l x = absurd (omega arith)
run_ticks-done (suc k) s (t ∷ ts) h n r l x =
    let p = expired-Progress s h n t x.0 in
    let q = p.goes_on (omega arith) in
    let (e, probes, m, c) =
      run_ticks-done k (tick s t).0 ts (tick-Inv s t h) q.0 (omega arith) (omega arith) x.1 in
    (
      e,
      (tick s t).1 ++ probes,
      omega (arith, length-append (tick s t).1 probes),
      rw (c, p.keeps.0, p.keeps.1, append_assoc),
    )

-- Let a panel in the driver's invariant probe an edge, and let as many ticks follow as timeouts
-- remain, each behind the timeout of the probe then outstanding: three for every other edge that
-- it may still probe, and those left of three for the present one. Then it probes no more, has
-- sent one frame for each tick, and the last one is DONE, with its own index, to its parent.
pub silence_ends :
    (s : PanelDiscoveryDriver) (ts : List ℕ)
    → Inv s
    → s.probing_edge_index ≢ no_edge
    → length ts ≡ remaining s
    → AllExpired s ts
    → ((run_ticks s ts).0.probing_edge_index ≡ no_edge)
      × (probes : List Send) × (length probes + 1 ≡ remaining s)
      × ((run_ticks s ts).1
          ≡ probes ++ send_on_edge s.discovery.parent (done_frame s.assigned_index) ∷ [])
silence_ends s ts h n l x =
    let r : 0 < remaining s = unfold remaining in omega (arith, h.probing_edge n) in
    let (e, probes, m, c) =
      run_ticks-done (remaining s - 1) s ts h n (omega arith) (omega arith) x in
    (e, probes, omega arith, c)
