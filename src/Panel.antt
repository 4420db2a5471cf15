-- ===== src/Panel.antt =====
-- What a panel shows: lib/Lightnet/Core/Panel and lib/Lightnet/Panel/LightnetPanel.cpp.
pub mod ColorCompose
pub mod PlayerState
pub mod Effects
pub mod AnimationPlayer
pub mod RgbController
pub mod Packets
pub mod LightnetPanel
pub mod RelayBootloader
mod Tests
