-- ===== src/Framing/TrunkFrameReceiver.antt =====
-- lib/Lightnet/Core/Relay/TrunkFrameReceiver.{hpp,cpp}: the controller's un-muxed receive path, a
-- framer with an idle-gap reset.
pub mod Recovery
use lightnet_firmware.Common.{
  ℕ, ◌+◌, ◌-◌, ◌%◌, Bool, true, false, ◌&&◌, List, leb, if◌then◌else◌, sub32,
}
use lightnet_firmware.Framing.PacketFramer
use lightnet_firmware.Framing.PacketFramer.{PacketFramer}

abbrev pub idle_gap_reset_ms : ℕ
idle_gap_reset_ms = 10

pub record TrunkFrameReceiver : Type 0 where
  pub framer : PacketFramer
  pub last_byte_ms : ℕ

unfoldable pub new : List ℕ → Bool → TrunkFrameReceiver
new memory validate = record { framer = PacketFramer.new memory validate; last_byte_ms = 0 }

-- The framer that the byte goes to: a frame that has stalled is discarded first.
unfoldable pub refreshed : TrunkFrameReceiver → ℕ → PacketFramer
refreshed r now =
    if PacketFramer.has_partial_frame r.framer && leb idle_gap_reset_ms (sub32 now r.last_byte_ms)
    then PacketFramer.reset r.framer
    else r.framer

unfoldable pub on_byte : TrunkFrameReceiver → ℕ → ℕ → TrunkFrameReceiver × Bool
unfolding refreshed
on_byte r value now =
    let (f, done) = PacketFramer.push_byte (refreshed r now) value in
    (record { framer = f; last_byte_ms = now }, done)

abbrev pub frame : TrunkFrameReceiver → List ℕ
frame r = PacketFramer.frame r.framer

unfoldable pub reset : TrunkFrameReceiver → TrunkFrameReceiver
reset r = record r { framer = PacketFramer.reset r.framer }
