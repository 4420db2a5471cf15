-- ===== src/Framing/EdgeFrameReceiver/Claims.antt =====
-- The claim of an `EdgeFrameReceiver`: one edge at a time, from a frame's boundary on, and bounded in time.
use lightnet_firmware.Common.{ℕ, ◌≤◌, ◌<◌, ◌≡◌, ◌≢◌, ◌⊎◌, true, false, arith, sub32, List, length}
use lightnet_firmware.Framing.PacketFramer
use lightnet_firmware.Framing.PacketFramer.{PacketFramer, push_byte, has_partial_frame}
use lightnet_firmware.Framing.PacketFramer.Invariant.{
  IsValid, IsComplete, push_byte-IsValid, push_byte-IsComplete,
}
use lightnet_firmware.Framing.PacketFramer.Boundary.{new-IsValid, reset-IsValid}
use lightnet_firmware.Framing.EdgeFrameReceiver.{
  EdgeFrameReceiver, new, on_edge_wake, preempt_claim, on_byte, tick, no_edge,
}

-- What arrives at the receiver.
pub data Event : Type 0 where
  wake : ℕ → ℕ → Event
  preempt : ℕ → ℕ → Event
  byte : ℕ → ℕ → Event
  ticks : ℕ → Event

unfoldable pub step : EdgeFrameReceiver → Event → EdgeFrameReceiver
step r (wake e t) = (on_edge_wake r e t).0
step r (preempt e t) = (preempt_claim r e t).0
step r (byte v t) = (on_byte r v t).0
step r (ticks t) = tick r t

-- With no claim there is no frame in progress.
pub record Inv (r : EdgeFrameReceiver) : Type 0 where
  pub framed : IsValid r.framer
  pub clean : r.active_edge ≡ no_edge → has_partial_frame r.framer ≡ false

-- The same edge holds the claim before and after, or no frame is partway after.
abbrev pub AtBoundary : EdgeFrameReceiver → EdgeFrameReceiver → Type 0
AtBoundary r s = (s.active_edge ≡ r.active_edge) ⊎ (has_partial_frame s.framer ≡ false)

complete-not-partial : (f : PacketFramer) → IsComplete f → has_partial_frame f ≡ false
unfolding has_partial_frame
complete-not-partial f c = ground arith

reset-not-partial : (f : PacketFramer) → has_partial_frame (PacketFramer.reset f) ≡ false
unfolding has_partial_frame PacketFramer.reset
reset-not-partial f = ground arith

pub new-Inv : (memory : List ℕ) → length memory ≡ 80 → Inv (new memory)
unfolding new has_partial_frame
new-Inv memory h = record { framed = new-IsValid memory true h; clean = ground arith }

preempt-Inv : (r : EdgeFrameReceiver) (e t : ℕ) → Inv r → Inv (preempt_claim r e t).0
unfolding preempt_claim
preempt-Inv r e t h = ground (arith, reset-IsValid r.framer, reset-not-partial r.framer)

on_byte-Inv : (r : EdgeFrameReceiver) (v t : ℕ) → Inv r → Inv (on_byte r v t).0
unfolding on_byte
on_byte-Inv r v t h = ground (
  arith,
  push_byte-IsValid r.framer v,
  push_byte-IsComplete r.framer v,
  complete-not-partial (push_byte r.framer v).0,
)

tick-Inv : (r : EdgeFrameReceiver) (t : ℕ) → Inv r → Inv (tick r t)
unfolding tick
tick-Inv r t h = ground (arith, reset-IsValid r.framer, reset-not-partial r.framer)

wake-boundary : (r : EdgeFrameReceiver) (e t : ℕ) → Inv r → AtBoundary r (on_edge_wake r e t).0
unfolding on_edge_wake
wake-boundary r e t h = ground arith

preempt-boundary : (r : EdgeFrameReceiver) (e t : ℕ) → Inv r → AtBoundary r (preempt_claim r e t).0
unfolding preempt_claim
preempt-boundary r e t h = ground (arith, reset-not-partial r.framer)

on_byte-boundary : (r : EdgeFrameReceiver) (v t : ℕ) → Inv r → AtBoundary r (on_byte r v t).0
unfolding on_byte
on_byte-boundary r v t h =
    ground (arith, push_byte-IsComplete r.framer v, complete-not-partial (push_byte r.framer v).0)

tick-boundary : (r : EdgeFrameReceiver) (t : ℕ) → Inv r → AtBoundary r (tick r t)
unfolding tick
tick-boundary r t h = ground (arith, reset-not-partial r.framer)

-- Every wake, preemption, byte and tick keeps the receiver's invariant: the framer is well formed,
-- and without a claim no frame is partway. And whenever one of them changes which edge holds the
-- claim, also from one edge straight to another, no frame is partway after it, so that a claim
-- starts at a frame's boundary.
pub step-Inv :
    (r : EdgeFrameReceiver) (e : Event) → Inv r → Inv (step r e) × AtBoundary r (step r e)
unfolding step on_edge_wake
step-Inv r (wake e t) h = (ground arith, wake-boundary r e t h)
step-Inv r (preempt e t) h = (preempt-Inv r e t h, preempt-boundary r e t h)
step-Inv r (byte v t) h = (on_byte-Inv r v t h, on_byte-boundary r v t h)
step-Inv r (ticks t) h = (tick-Inv r t h, tick-boundary r t h)

-- If a receiver in its invariant reports a frame, an edge held the claim, the frame is attributed
-- to that edge, the claim is given up, and the framer holds a whole frame that passes its check.
pub on_byte_reports :
    (r : EdgeFrameReceiver) (v t : ℕ)
    → Inv r
    → (on_byte r v t).1 ≡ true
    → let s = (on_byte r v t).0 in
      (r.active_edge ≢ no_edge)
      × (s.completed_edge ≡ r.active_edge)
      × (s.active_edge ≡ no_edge)
      × IsComplete s.framer
unfolding on_byte
on_byte_reports r v t h d = ground (arith, push_byte-IsComplete r.framer v)

-- While an edge holds the claim, a wake on any edge, its own included, changes nothing.
pub wake_ignored :
    (r : EdgeFrameReceiver) (e t : ℕ) → r.active_edge ≢ no_edge → on_edge_wake r e t ≡ (r, false)
unfolding on_edge_wake
wake_ignored r e t h = ground arith

-- A tick 20 ms or more after the last activity, or 100 ms or more after the claim was made, leaves
-- a receiver in its invariant without a claim and without a frame partway.
pub tick_releases :
    (r : EdgeFrameReceiver) (t : ℕ)
    → (20 ≤ sub32 t r.last_activity_ms) ⊎ (100 ≤ sub32 t r.claim_start_ms)
    → Inv r
    → ((tick r t).active_edge ≡ no_edge) × (has_partial_frame (tick r t).framer ≡ false)
unfolding tick
tick_releases r t late h = ground (arith, reset-not-partial r.framer)

-- Any other tick leaves the claim and its frame alone.
pub tick_keeps :
    (r : EdgeFrameReceiver) (t : ℕ)
    → sub32 t r.last_activity_ms < 20
    → sub32 t r.claim_start_ms < 100
    → tick r t ≡ r
unfolding tick
tick_keeps r t a b = ground arith
