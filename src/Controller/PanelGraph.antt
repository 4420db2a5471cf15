-- ===== src/Controller/PanelGraph.antt =====
-- lib/Lightnet/Core/Controller/PanelGraph.hpp: the adjacency of the discovered tree. Arrays are lists of their
-- declared lengths; what they held before is in the graph that is built over.
use lightnet_firmware.Common.{
  ℕ, zero, suc, ◌+◌, ◌-◌, Bool, true, false, ◌||◌, List, [], ◌∷◌, ◌++◌, Option, none, some, ltb,
  ◌==◌, if◌then◌else◌, u8, u16, length, get_or, set, replicate, drop,
}
use lightnet_firmware.Relay.DiscoveryTreeBuilder.{TopoLink}
use lightnet_firmware.Protocol.Types.{lightnet_max_panels}

pub record PanelGraph : Type 0 where
  pub n : ℕ
  pub idx : List ℕ
  pub slot_by_index : List ℕ
  pub deg : List ℕ
  pub adj_start : List ℕ
  pub adj_slot : List ℕ
  pub adj_my_edge : List ℕ
  pub adj_peer_edge : List ℕ

-- `memset(array, value, count)` on an array of bytes.
abbrev pub memset : List ℕ → ℕ → ℕ → List ℕ
memset array value count = replicate count value ++ drop count array

-- `array[i]++` on an array of bytes.
abbrev pub increment : List ℕ → ℕ → List ℕ
increment array i = set array i (u8 (get_or array i 0 + 1))

-- The loop of `build`, from slot `s` on.
unfoldable pub fill_slots : ℕ → List ℕ → PanelGraph → PanelGraph
fill_slots s [] g = g
fill_slots s (p ∷ ps) g =
    fill_slots (s + 1) ps
      (record g { idx = set g.idx s p; slot_by_index = set g.slot_by_index p s })

-- The slots `a` and `b` of a link, if both panels are known.
unfoldable pub link_slots : PanelGraph → TopoLink → Option (ℕ × ℕ)
link_slots g l =
    let a = get_or g.slot_by_index l.panel_a 255 in
    let b = get_or g.slot_by_index l.panel_b 255 in
    if (a == 255) || (b == 255) then none else some (a, b)

-- The first loop of `buildAdjacency`, on the degrees.
unfoldable pub count_degrees : PanelGraph → List TopoLink → List ℕ → List ℕ
unfolding link_slots
count_degrees g [] deg = deg
count_degrees g (l ∷ ls) deg =
    count_degrees g ls
      (elim (link_slots g l) [ none ↦ deg | some (a, b) ↦ increment (increment deg a) b ])

-- The second loop, with `k` slots left from `s` on: the start of each slot's neighbours.
unfoldable pub fill_starts : ℕ → ℕ → ℕ → List ℕ → List ℕ → List ℕ
fill_starts zero s acc deg starts = starts
fill_starts (suc k) s acc deg starts =
    fill_starts k (s + 1) (u16 (acc + get_or deg s 0)) deg (set starts s (u8 acc))

-- `adj…[cursor[s]] = …; cursor[s]++`.
unfoldable pub put_neighbor : ℕ → ℕ → ℕ → ℕ → PanelGraph × List ℕ → PanelGraph × List ℕ
put_neighbor s other mine peer (g, cursor) =
    let at = get_or cursor s 0 in
    (
      record g {
        adj_slot = set g.adj_slot at other;
        adj_my_edge = set g.adj_my_edge at mine;
        adj_peer_edge = set g.adj_peer_edge at peer;
      },
      increment cursor s,
    )

-- The last loop.
unfoldable pub fill_neighbors : List TopoLink → PanelGraph × List ℕ → PanelGraph × List ℕ
unfolding link_slots put_neighbor
fill_neighbors [] st = st
fill_neighbors (l ∷ ls) st = fill_neighbors ls (elim (link_slots st.0 l) [
  | none ↦ st
  | some (a, b) ↦ put_neighbor b a l.edge_b l.edge_a (put_neighbor a b l.edge_a l.edge_b st)
])

unfoldable pub build_adjacency : PanelGraph → List TopoLink → PanelGraph
unfolding count_degrees fill_starts fill_neighbors
build_adjacency g links =
    let deg = count_degrees g links (memset g.deg 0 g.n) in
    let starts = fill_starts g.n 0 0 deg g.adj_start in
    (fill_neighbors links (record g { deg = deg; adj_start = starts }, starts)).0

-- The graph, and whether the input was usable.
unfoldable pub build : PanelGraph → List ℕ → List TopoLink → PanelGraph × Bool
unfolding fill_slots build_adjacency
build g panel_indices links =
    let count = length panel_indices in
    let cleared = record g { n = count; slot_by_index = memset g.slot_by_index 255 256 } in
    if (count == 0) || ltb lightnet_max_panels count
    then (record g { n = 0 }, false)
    else (build_adjacency (fill_slots 0 panel_indices cleared) links, true)

abbrev pub panel_at : PanelGraph → ℕ → ℕ
panel_at g slot = get_or g.idx slot 0

unfoldable pub slot_of : PanelGraph → ℕ → Option ℕ
slot_of g panel_index =
    let s = get_or g.slot_by_index panel_index 255 in if s == 255 then none else some s

abbrev pub degree : PanelGraph → ℕ → ℕ
degree g slot = get_or g.deg slot 0

abbrev pub neighbor_slot : PanelGraph → ℕ → ℕ → ℕ
neighbor_slot g slot i = get_or g.adj_slot (get_or g.adj_start slot 0 + i) 0

abbrev pub neighbor_my_edge : PanelGraph → ℕ → ℕ → ℕ
neighbor_my_edge g slot i = get_or g.adj_my_edge (get_or g.adj_start slot 0 + i) 0

abbrev pub neighbor_peer_edge : PanelGraph → ℕ → ℕ → ℕ
neighbor_peer_edge g slot i = get_or g.adj_peer_edge (get_or g.adj_start slot 0 + i) 0

-- The loop of `lowestSlot`, with `k` slots left from `s` on.
unfoldable pub lowest_from : ℕ → ℕ → ℕ → PanelGraph → ℕ
lowest_from zero s best g = best
lowest_from (suc k) s best g =
    lowest_from k (s + 1) (if ltb (panel_at g s) (panel_at g best) then s else best) g

unfoldable pub lowest_slot : PanelGraph → ℕ
unfolding lowest_from
lowest_slot g = lowest_from (g.n - 1) 1 0 g
