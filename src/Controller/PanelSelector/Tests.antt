-- ===== src/Controller/PanelSelector/Tests.antt =====
-- Three panels in a row, their search from the middle one and a selector on them.
use lightnet_firmware.Common.{
  true, ℕ, zero, suc, ◌+◌, ◌⊎◌, inl, inr, ◌<◌, ◌≡◌, refl, arith, List, [], ◌∷◌, some, get_or, All,
}
use mathlib.Core.Option
use lightnet_firmware.Controller.PanelGraph.{PanelGraph, slot_of}
use lightnet_firmware.Controller.TopologyIndex.{
  TopologyIndex, test, neighbors, neighbors_from, bfs_start, bfs_loop, visit, visit_all,
}
use lightnet_firmware.Controller.TopologyIndex.Reach.{AreVisited, bfs-closed}
use lightnet_firmware.Controller.PanelSelector.{resolve_selector}
use lightnet_firmware.Controller.PanelSelector.Meaning.{Selector, code, selects, IsUsable}
use lightnet_firmware.Controller.PanelSelector.Resolve.{resolve_selector-code}

-- The graph and the index of the panels 5, 6 and 7, from the middle one.
abbrev row : PanelGraph
row = record {
  n = 3;
  idx = 5 ∷ 6 ∷ 7 ∷ [];
  slot_by_index = 255 ∷ 255 ∷ 255 ∷ 255 ∷ 255 ∷ 0 ∷ 1 ∷ 2 ∷ [];
  deg = 1 ∷ 2 ∷ 1 ∷ [];
  adj_start = 0 ∷ 1 ∷ 3 ∷ [];
  adj_slot = 1 ∷ 0 ∷ 2 ∷ 1 ∷ [];
  adj_my_edge = 0 ∷ 1 ∷ 2 ∷ 0 ∷ [];
  adj_peer_edge = 1 ∷ 0 ∷ 0 ∷ 2 ∷ [];
}

abbrev index : TopologyIndex
index = record {
  graph = row;
  n = 3;
  root_slot = 1;
  max_depth_val = 1;
  depth = 1 ∷ 0 ∷ 1 ∷ [];
  parent = 1 ∷ 255 ∷ 1 ∷ [];
  child_count = 0 ∷ 2 ∷ 0 ∷ [];
  canon_pos = 1 ∷ 0 ∷ 2 ∷ [];
}

get_or-bound : (xs : List ℕ) (i d : ℕ) (n : ℕ) → d < n → All (λ x. x < n) xs → get_or xs i d < n
get_or-bound [] i d n l a = l
get_or-bound (x ∷ xs) zero d n l a = a.0
get_or-bound (x ∷ xs) (suc i) d n l a = get_or-bound xs i d n l a.1

get_or-bound_or :
    (xs : List ℕ) (i n : ℕ)
    → All (λ x. (x < n) ⊎ (x ≡ 255)) xs
    → (get_or xs i 255 < n) ⊎ (get_or xs i 255 ≡ 255)
get_or-bound_or [] i n a = inr refl
get_or-bound_or (x ∷ xs) zero n a = a.0
get_or-bound_or (x ∷ xs) (suc i) n a = get_or-bound_or xs i n a.1

neighbors_from-bound : (u k i : ℕ) → All (λ c. c.0 < 3) (neighbors_from row u k i)
unfolding neighbors_from
neighbors_from-bound u zero i = tt
neighbors_from-bound u (suc k) i = (
  get_or-bound row.adj_slot (get_or row.adj_start u 0 + i) 0 3 (omega arith)
      (omega arith, (omega arith, (omega arith, (omega arith, tt)))),
  neighbors_from-bound u k (i + 1),
)

slot_of-bound : (p s : ℕ) → slot_of row p ≡ some s → s < 3
unfolding slot_of
slot_of-bound p s e =
    let known = get_or-bound_or row.slot_by_index p 3 (
      inr refl,
      (
        inr refl,
        (
          inr refl,
          (inr refl, (inr refl, (inl (omega arith), (inl (omega arith), (inl (omega arith), tt))))),
        ),
      ),
    ) in
    ground (arith, known)

index-IsUsable : IsUsable index
unfolding neighbors
index-IsUsable = record {
  count_le = omega arith;
  count_pos = omega arith;
  root_lt = omega arith;
  slot_lt = slot_of-bound;
  neighbor_lt = λ u. neighbors_from-bound u (get_or row.deg u 0) 0;
  position_lt = λ x.
      get_or-bound index.canon_pos x 0 256 (omega arith)
        (omega arith, (omega arith, (omega arith, tt)));
}

-- The leaves and the first panel, but not the neighbours of panel 7.
abbrev chosen : Selector
chosen =
    Selector.both (Selector.either Selector.leaves (Selector.first 1))
      (Selector.except (Selector.beside 7))

resolve_selector-code_example :
    Option.map (λ s. test s 2) (resolve_selector (record { ops = code chosen }) index)
    ≡ some (selects index chosen 2)
resolve_selector-code_example =
    resolve_selector-code index chosen 2 index-IsUsable ((tt, tt), tt) (omega arith) (omega arith)

bfs-closed_example :
    ((bfs_loop 3 (bfs_start index)).pending ≡ [])
    × (get_or (bfs_loop 3 (bfs_start index)).visited 1 true ≡ true)
    × AreVisited (bfs_loop 3 (bfs_start index)) (neighbors row 2)
unfolding bfs_start bfs_loop visit visit_all neighbors neighbors_from
bfs-closed_example = bfs-closed index 2 (omega arith) refl
