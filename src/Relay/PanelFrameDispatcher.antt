-- ===== src/Relay/PanelFrameDispatcher.antt =====
-- lib/Lightnet/Core/Relay/PanelFrameDispatcher.{hpp,cpp}: what a panel does with one arrived frame.
pub mod Handshake
pub mod Readvance
mod Tests
use lightnet_firmware.Common.{
  ℕ, Bool, false, not, ◌&&◌, ◌||◌, List, [], ◌++◌, ◌==◌, ◌!=◌, if◌then◌else◌,
}
use lightnet_firmware.Protocol.Types.{packet_initialization_pull}
use lightnet_firmware.Protocol.Meta.{meta_of}
use lightnet_firmware.Relay.EdgeLink.{Send}
use lightnet_firmware.Relay.PanelRouter
use lightnet_firmware.Relay.PanelDiscoveryDriver
use lightnet_firmware.Relay.PanelDiscoveryDriver.{PanelDiscoveryDriver}

-- The new state, what is sent in order, and whether the panel acts on the frame itself.
unfoldable pub on_frame_arrived :
    PanelDiscoveryDriver → ℕ → List ℕ → ℕ → PanelDiscoveryDriver × List Send × Bool
on_frame_arrived s from frame now =
    let target = (meta_of frame).header.target_panel_index in
    let addressed_to_self = (s.assigned_index != 0) && (target == s.assigned_index) in
    let relayed =
      if ((meta_of frame).header.type != packet_initialization_pull) && not addressed_to_self
      then PanelRouter.on_frame_arrived s.discovery from frame
      else [] in
    let (t, sent) = PanelDiscoveryDriver.on_frame_arrived s from frame now in
    (
      t,
      relayed ++ sent,
      (if t.assigned_index == 0 then false else (target == 0) || (target == t.assigned_index)),
    )
