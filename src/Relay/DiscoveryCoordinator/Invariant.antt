-- ===== src/Relay/DiscoveryCoordinator/Invariant.antt =====
-- What holds of a coordinator between two calls.
use lightnet_firmware.Common.{ℕ, zero, suc, ◌≤◌, ◌<◌, List, [], ◌∷◌, Option, arith, length}
use lightnet_firmware.Protocol.Discovery.{
  PacketRegisterEdge, PacketDiscoveryDone, register_edge_of, discovery_done_of,
}
use lightnet_firmware.Relay.DiscoveryTreeBuilder.{DiscoveryTreeBuilder}
use lightnet_firmware.Relay.DiscoveryCoordinator.{
  DiscoveryCoordinator, new, handle_register_edge_reply, resume, handle_discovery_done,
  on_frame_arrived, tick,
}

-- A list that falls strictly, from a head below `n`.
abbrev pub Falls : ℕ → List ℕ → Type 0
Falls n [] = Unit
Falls n (x ∷ xs) = (x < n) × Falls x xs

-- The resume stack holds the ancestors of the frontier, each with a smaller index than the panel
-- above it, down to the controller's 0; indices are handed out from 1 to at most 100.
pub record Inv (c : DiscoveryCoordinator) : Type 0 where
  pub next_pos : 0 < c.next_panel_index
  pub next_le : c.next_panel_index ≤ 101
  pub frontier_lt : c.frontier_panel_index < c.next_panel_index
  pub falls : Falls c.frontier_panel_index c.stack

-- A falling list of numbers below `n` is at most `n` long.
pub length-le-of_Falls : (n : ℕ) (xs : List ℕ) → Falls n xs → length xs ≤ n
length-le-of_Falls n [] f = omega arith
length-le-of_Falls n (x ∷ xs) f = omega (arith, length-le-of_Falls x xs f.1)

pub new-Inv : (t : Option DiscoveryTreeBuilder) → Inv (new t)
unfolding new
new-Inv t = ground arith

register-Inv :
    (c : DiscoveryCoordinator) (p : PacketRegisterEdge) (now : ℕ)
    → Inv c
    → Inv (handle_register_edge_reply c p now).0
unfolding handle_register_edge_reply
register-Inv c p now h = ground arith

resume-Inv :
    (c : DiscoveryCoordinator) (xs : List ℕ) (now : ℕ)
    → 0 < c.next_panel_index
    → c.next_panel_index ≤ 101
    → c.frontier_panel_index < c.next_panel_index
    → Falls c.frontier_panel_index c.stack
    → Falls c.frontier_panel_index xs
    → Inv (resume c xs now).0
unfolding resume
resume-Inv c [] now a b l g f = ground arith
resume-Inv c (zero ∷ []) now a b l g f = ground arith
resume-Inv c (zero ∷ y ∷ xs) now a b l g f = absurd (omega arith)
resume-Inv c (suc x ∷ xs) now a b l g f = ground arith

done-Inv :
    (c : DiscoveryCoordinator) (p : PacketDiscoveryDone) (now : ℕ)
    → Inv c
    → Inv (handle_discovery_done c p now).0
unfolding handle_discovery_done
done-Inv c p now h = ground (
  arith,
  resume-Inv (record c { last_progress_ms = now }) c.stack now h.next_pos h.next_le h.frontier_lt
      h.falls h.falls,
)

-- Every frame keeps the invariant, whatever it holds.
pub on_frame_arrived-Inv :
    (c : DiscoveryCoordinator) (frame : List ℕ) (now : ℕ)
    → Inv c
    → Inv (on_frame_arrived c frame now).0
unfolding on_frame_arrived
on_frame_arrived-Inv c frame now h = ground (
  arith,
  register-Inv c (register_edge_of frame) now h,
  done-Inv c (discovery_done_of frame) now h,
)

-- So does every tick.
pub tick-Inv : (c : DiscoveryCoordinator) (now : ℕ) → Inv c → Inv (tick c now).0
unfolding tick
tick-Inv c now h = ground arith

-- The resume stack never outgrows its array of LIGHTNET_MAX_PANELS entries: the guard on its depth
-- is implied by the one on the index.
pub stack_bounded :
    (c : DiscoveryCoordinator) → Inv c → c.next_panel_index ≤ 100 → length c.stack < 100
stack_bounded c h l = omega (arith, length-le-of_Falls c.frontier_panel_index c.stack h.falls)

-- What happens to a coordinator: a frame on the trunk, or a tick.
pub data Event : Type 0 where
  arrives : List ℕ → ℕ → Event
  ticks : ℕ → Event

unfoldable pub run : DiscoveryCoordinator → List Event → DiscoveryCoordinator
run c [] = c
run c (arrives frame now ∷ es) = run (on_frame_arrived c frame now).0 es
run c (ticks now ∷ es) = run (tick c now).0 es

run-Inv : (c : DiscoveryCoordinator) (es : List Event) → Inv c → Inv (run c es)
unfolding run
run-Inv c [] h = h
run-Inv c (arrives frame now ∷ es) h =
    run-Inv (on_frame_arrived c frame now).0 es (on_frame_arrived-Inv c frame now h)
run-Inv c (ticks now ∷ es) h = run-Inv (tick c now).0 es (tick-Inv c now h)

-- Whatever frames and ticks a new coordinator sees, the resume stack stays within its array of
-- LIGHTNET_MAX_PANELS entries and falls strictly from below the frontier's index, and the next
-- index stays between 1 and 101 and above the frontier's.
pub run_stays_bounded :
    (t : Option DiscoveryTreeBuilder) (es : List Event)
    → let c = run (new t) es in
      (length c.stack ≤ 100)
      × Falls c.frontier_panel_index c.stack
      × (0 < c.next_panel_index)
      × (c.next_panel_index ≤ 101)
      × (c.frontier_panel_index < c.next_panel_index)
run_stays_bounded t es =
    let h = run-Inv (new t) es (new-Inv t) in
    (
      omega (
        arith,
        h,
        length-le-of_Falls (run (new t) es).frontier_panel_index (run (new t) es).stack h.falls,
      ),
      h.falls,
      h.next_pos,
      h.next_le,
      h.frontier_lt,
    )
