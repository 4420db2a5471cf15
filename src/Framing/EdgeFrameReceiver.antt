-- ===== src/Framing/EdgeFrameReceiver.antt =====
-- lib/Lightnet/Core/Relay/EdgeFrameReceiver.{hpp,cpp}: which edge of a panel a frame arrived on.
pub mod Claims
use lightnet_firmware.Common.{
  ℕ, ◌+◌, ◌-◌, ◌%◌, Bool, true, false, List, leb, ◌==◌, ◌!=◌, if◌then◌else◌, sub32,
}
use lightnet_firmware.Framing.PacketFramer
use lightnet_firmware.Framing.PacketFramer.{PacketFramer}

abbrev pub no_edge : ℕ
no_edge = 255

abbrev pub frame_timeout_ms : ℕ
frame_timeout_ms = 20

abbrev pub max_claim_ms : ℕ
max_claim_ms = 100

pub record EdgeFrameReceiver : Type 0 where
  pub framer : PacketFramer
  pub active_edge : ℕ
  pub completed_edge : ℕ
  pub last_activity_ms : ℕ
  pub claim_start_ms : ℕ

unfoldable pub new : List ℕ → EdgeFrameReceiver
unfolding PacketFramer.new
new memory = record {
  framer = PacketFramer.new memory true;
  active_edge = no_edge;
  completed_edge = no_edge;
  last_activity_ms = 0;
  claim_start_ms = 0;
}

unfoldable pub release : EdgeFrameReceiver → EdgeFrameReceiver
release r = record r { active_edge = no_edge }

unfoldable pub on_edge_wake : EdgeFrameReceiver → ℕ → ℕ → EdgeFrameReceiver × Bool
on_edge_wake r edge now =
    if r.active_edge != no_edge
    then (r, false)
    else (record r { active_edge = edge; last_activity_ms = now; claim_start_ms = now }, true)

unfoldable pub preempt_claim : EdgeFrameReceiver → ℕ → ℕ → EdgeFrameReceiver × Bool
unfolding PacketFramer.reset
preempt_claim r edge now = if r.active_edge == edge then (r, false) else (
  record {
    framer = (if r.active_edge != no_edge then PacketFramer.reset r.framer else r.framer);
    active_edge = edge;
    completed_edge = r.completed_edge;
    last_activity_ms = now;
    claim_start_ms = now;
  },
  true,
)

unfoldable pub on_byte : EdgeFrameReceiver → ℕ → ℕ → EdgeFrameReceiver × Bool
unfolding release
on_byte r value now =
    if r.active_edge == no_edge
    then (r, false)
    else (let (f, done) = PacketFramer.push_byte r.framer value in
        let s = record r { framer = f; last_activity_ms = now } in
        if done then (release (record s { completed_edge = r.active_edge }), true) else (s, false))

unfoldable pub tick : EdgeFrameReceiver → ℕ → EdgeFrameReceiver
unfolding release PacketFramer.reset
tick r now =
    if r.active_edge == no_edge
    then r
    else if leb frame_timeout_ms (sub32 now r.last_activity_ms)
    then release (record r { framer = PacketFramer.reset r.framer })
    else if leb max_claim_ms (sub32 now r.claim_start_ms)
    then release (record r { framer = PacketFramer.reset r.framer })
    else r

abbrev pub frame : EdgeFrameReceiver → List ℕ
frame r = PacketFramer.frame r.framer

unfoldable pub from_edge : EdgeFrameReceiver → ℕ
from_edge r = r.completed_edge

unfoldable pub claimed_edge : EdgeFrameReceiver → ℕ
claimed_edge r = r.active_edge
