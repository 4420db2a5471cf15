-- ===== src/Controller.antt =====
-- The controller's side of the scene engine: lib/Lightnet/Core/Controller/AnimationScheduler.
pub mod PacketSink
pub mod AnimationScheduler
mod Tests
pub mod PanelGraph
pub mod TopologyIndex
pub mod PanelSelector
