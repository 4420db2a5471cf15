-- ===== src/Relay/PanelDiscovery.antt =====
-- lib/Lightnet/Core/Relay/PanelDiscovery.{hpp,cpp}: what a panel knows of its own edges.
pub mod Invariant
use lightnet_firmware.Common.{
  ℕ, zero, suc, Bool, true, false, not, List, ◌==◌, if◌then◌else◌, get_or, set, min,
}

pub data EdgeLinkState : Type 0 where
  unexplored connected not_connected : EdgeLinkState

abbrev pub max_edges : ℕ
max_edges = 6

-- `edges` and `child_indexes` are the arrays of MAX_EDGES entries.
pub record PanelDiscovery : Type 0 where
  pub edge_count : ℕ
  pub has_parent : Bool
  pub parent : ℕ
  pub edges : List EdgeLinkState
  pub child_indexes : List ℕ

-- `for (edge = 0; edge < n; edge++) xs[edge] = v`.
unfoldable pub fill {ℓ} : {A : Type ℓ} → ℕ → A → List A → List A
fill zero v xs = xs
fill (suc n) v xs = set (fill n v xs) n v

-- The constructor; the array entries from `edge_count` on are what the memory held.
unfoldable pub new : ℕ → List EdgeLinkState → List ℕ → PanelDiscovery
unfolding fill
new edge_count edges children = record {
  edge_count = edge_count;
  has_parent = false;
  parent = 0;
  edges = fill (min edge_count max_edges) unexplored edges;
  child_indexes = fill (min edge_count max_edges) 0 children;
}

unfoldable pub edge_state : PanelDiscovery → ℕ → EdgeLinkState
edge_state d e = get_or d.edges e unexplored

abbrev pub is_connected_state : EdgeLinkState → Bool
is_connected_state connected = true
is_connected_state _ = false

abbrev pub is_unexplored_state : EdgeLinkState → Bool
is_unexplored_state unexplored = true
is_unexplored_state _ = false

unfoldable pub is_connected : PanelDiscovery → ℕ → Bool
unfolding edge_state
is_connected d e = is_connected_state (edge_state d e)

unfoldable pub child_index : PanelDiscovery → ℕ → ℕ
child_index d e = get_or d.child_indexes e 0

unfoldable pub on_parent_offer : PanelDiscovery → ℕ → PanelDiscovery × Bool
on_parent_offer d from =
    if not d.has_parent
    then (record d { has_parent = true; parent = from; edges = set d.edges from connected }, true)
    else if from == d.parent
    then (d, true)
    else (record d { edges = set d.edges from not_connected }, false)

unfoldable pub on_child_probe_accepted : PanelDiscovery → ℕ → ℕ → PanelDiscovery
on_child_probe_accepted d e child = record d {
  edges = set d.edges e connected;
  child_indexes = set d.child_indexes e child;
}

unfoldable pub on_child_probe_failed : PanelDiscovery → ℕ → PanelDiscovery
on_child_probe_failed d e = record d {
  edges = set d.edges e not_connected;
  child_indexes = set d.child_indexes e 0;
}
