-- ===== src/Relay.antt =====
-- The relay network of panels: lib/Lightnet/Core/Relay/PanelDiscovery, PanelRouter,
-- PanelDiscoveryDriver, PanelFrameDispatcher, DiscoveryCoordinator and DiscoveryTreeBuilder.
pub mod EdgeLink
pub mod PanelDiscovery
pub mod PanelRouter
pub mod PanelDiscoveryDriver
pub mod PanelFrameDispatcher
pub mod DiscoveryTreeBuilder
pub mod DiscoveryCoordinator
pub mod Tests
