-- ===== src/Relay/DiscoveryTreeBuilder.antt =====
-- lib/Lightnet/Core/Relay/DiscoveryTreeBuilder.{hpp,cpp}: the discovered topology as a list of links.
use lightnet_firmware.Common.{ℕ, List, [], ◌∷◌, ◌++◌, leb, if◌then◌else◌, u8, length}
use lightnet_firmware.Protocol.Types.{lightnet_max_panels}

-- `TopoLink` of lib/Lightnet/Core/Controller/PanelGraph.hpp.
pub record TopoLink : Type 0 where
  pub panel_a : ℕ
  pub edge_a : ℕ
  pub panel_b : ℕ
  pub edge_b : ℕ

abbrev pub max_panels : ℕ
max_panels = lightnet_max_panels

-- The lists are the used parts of the arrays, with `panelCount_` and `linkCount_` their lengths.
pub record DiscoveryTreeBuilder : Type 0 where
  pub edge_count_per_panel : ℕ
  pub indices : List ℕ
  pub edge_counts : List ℕ
  pub links : List TopoLink

unfoldable pub new : ℕ → DiscoveryTreeBuilder
new n = record { edge_count_per_panel = n; indices = []; edge_counts = []; links = [] }

unfoldable pub reset : DiscoveryTreeBuilder → DiscoveryTreeBuilder
reset t = record t { indices = []; edge_counts = []; links = [] }

unfoldable pub record_panel : DiscoveryTreeBuilder → ℕ → DiscoveryTreeBuilder
record_panel t panel = if leb max_panels (length t.indices) then t else record t {
  indices = t.indices ++ u8 panel ∷ [];
  edge_counts = t.edge_counts ++ t.edge_count_per_panel ∷ [];
}

unfoldable pub add_root : DiscoveryTreeBuilder → ℕ → DiscoveryTreeBuilder
unfolding record_panel
add_root t panel = record_panel t panel

unfoldable pub add_link : DiscoveryTreeBuilder → ℕ → ℕ → ℕ → ℕ → DiscoveryTreeBuilder
unfolding record_panel
add_link t parent parent_edge child child_edge =
    let s = record_panel t child in
    if leb max_panels (length s.links) then s else record s {
      links =
          s.links
          ++ record {
            panel_a = u8 parent;
            edge_a = u8 parent_edge;
            panel_b = u8 child;
            edge_b = u8 child_edge;
          }
            ∷ [];
    }
