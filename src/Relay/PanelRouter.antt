-- ===== src/Relay/PanelRouter.antt =====
-- lib/Lightnet/Core/Relay/PanelRouter.{hpp,cpp}: the forwarding decision of a panel.
pub mod Routing
use lightnet_firmware.Common.{
  ℕ, zero, suc, ◌+◌, ◌-◌, Bool, true, false, not, ◌&&◌, ◌||◌, List, [], ◌∷◌, ◌==◌, ◌!=◌, ltb, leb,
  if◌then◌else◌,
}
use lightnet_firmware.Protocol.Meta.{meta_of}
use lightnet_firmware.Relay.EdgeLink.{Send, send_on_edge}
use lightnet_firmware.Relay.PanelDiscovery.{PanelDiscovery, is_connected, child_index}

abbrev pub no_edge : ℕ
no_edge = 255

-- The local variables of the search for the branch of an addressed frame.
pub record Best : Type 0 where
  pub edge : ℕ
  pub child : ℕ
  pub all_indexed : Bool

-- One round of the search loop, for the edge `e`.
unfoldable pub scan_edge : PanelDiscovery → ℕ → ℕ → ℕ → Best → Best
scan_edge d from target e b =
    if (e == from) || not (is_connected d e)
    then b
    else if child_index d e == 0
    then record b { all_indexed = false }
    else if leb (child_index d e) target && ltb b.child (child_index d e)
    then record b { edge = e; child = child_index d e }
    else b

-- `for (edge = 0; edge < n; edge++)`: after the first `n` edges.
unfoldable pub scan_edges : PanelDiscovery → ℕ → ℕ → ℕ → Best
unfolding scan_edge
scan_edges d from target zero = record { edge = no_edge; child = 0; all_indexed = true }
scan_edges d from target (suc n) = scan_edge d from target n (scan_edges d from target n)

-- The flood over the edges `e`, `e + 1`, …, with `n` of them left.
unfoldable pub flood : PanelDiscovery → ℕ → List ℕ → ℕ → ℕ → List Send
flood d from packet e zero = []
flood d from packet e (suc n) =
    let rest = flood d from packet (e + 1) n in
    if (e != from) && is_connected d e then send_on_edge e packet ∷ rest else rest

unfoldable pub route_downstream : PanelDiscovery → ℕ → List ℕ → List Send
unfolding scan_edges flood
route_downstream d from packet =
    let target = (meta_of packet).header.target_panel_index in
    let best = scan_edges d from target d.edge_count in
    let flooded = flood d from packet 0 d.edge_count in
    if target != 0
    then (if best.all_indexed
        then (if best.edge != no_edge then send_on_edge best.edge packet ∷ [] else [])
        else flooded)
    else flooded

unfoldable pub on_frame_arrived : PanelDiscovery → ℕ → List ℕ → List Send
unfolding route_downstream
on_frame_arrived d from packet =
    if not d.has_parent
    then []
    else if from == d.parent
    then route_downstream d from packet
    else if is_connected d d.parent
    then send_on_edge d.parent packet ∷ []
    else []
