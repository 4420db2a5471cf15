-- ===== src/Controller/TopologyIndex.antt =====
-- lib/Lightnet/Core/Controller/TopologyIndex.hpp: a rooted view of the panel graph. PanelSet is an array of bits,
-- of which `bits` lists those of its bytes from the lowest on. A queue or stack is the list of what it
-- holds; the loops over one take fuel.
pub mod Rounds
pub mod Reach
use lightnet_firmware.Common.{
  ℕ, zero, suc, ◌+◌, ◌*◌, Bool, true, false, ◌&&◌, ◌||◌, List, [], ◌∷◌, ◌++◌, none, some, ltb, ◌==◌,
  if◌then◌else◌, u8, get_or, set, replicate,
}
use lightnet_firmware.Controller.PanelGraph.{
  PanelGraph, slot_of, lowest_slot, degree, neighbor_slot, neighbor_my_edge, memset, increment,
}

pub record PanelSet : Type 0 where
  pub bits : List Bool

abbrev pub words : ℕ
words = 13

unfoldable pub clear_all : PanelSet
clear_all = record { bits = replicate (8 * words) false }

unfoldable pub set_bit : PanelSet → ℕ → PanelSet
set_bit s i = record { bits = set s.bits i true }

unfoldable pub unset_bit : PanelSet → ℕ → PanelSet
unset_bit s i = record { bits = set s.bits i false }

abbrev pub test : PanelSet → ℕ → Bool
test s i = get_or s.bits i false

-- Bit by bit.
unfoldable pub zip_bits : (Bool → Bool → Bool) → List Bool → List Bool → List Bool
zip_bits f [] ys = []
zip_bits f (x ∷ xs) [] = x ∷ xs
zip_bits f (x ∷ xs) (y ∷ ys) = f x y ∷ zip_bits f xs ys

unfoldable pub or_with : PanelSet → PanelSet → PanelSet
unfolding zip_bits
or_with s o = record { bits = zip_bits ◌||◌ s.bits o.bits }

unfoldable pub and_with : PanelSet → PanelSet → PanelSet
unfolding zip_bits
and_with s o = record { bits = zip_bits ◌&&◌ s.bits o.bits }

-- The loop of `invert`, with `k` slots left from `i` on.
unfoldable pub invert_from : ℕ → ℕ → PanelSet → PanelSet
unfolding set_bit unset_bit
invert_from zero i s = s
invert_from (suc k) i s = invert_from k (i + 1) (if test s i then unset_bit s i else set_bit s i)

unfoldable pub invert : PanelSet → ℕ → PanelSet
unfolding invert_from
invert s count = invert_from count 0 s

unfoldable pub popcount_from : ℕ → ℕ → PanelSet → ℕ → ℕ
popcount_from zero i s n = n
popcount_from (suc k) i s n = popcount_from k (i + 1) s (if test s i then u8 (n + 1) else n)

unfoldable pub popcount : PanelSet → ℕ → ℕ
unfolding popcount_from
popcount s count = popcount_from count 0 s 0

-- The graph is borrowed: it is the one that `build` was given.
pub record TopologyIndex : Type 0 where
  pub graph : PanelGraph
  pub n : ℕ
  pub root_slot : ℕ
  pub max_depth_val : ℕ
  pub depth : List ℕ
  pub parent : List ℕ
  pub child_count : List ℕ
  pub canon_pos : List ℕ

abbrev pub no_parent : ℕ
no_parent = 255

-- The neighbours of `u` from the i-th on, `k` of them, with the connector of `u` towards each.
unfoldable pub neighbors_from : PanelGraph → ℕ → ℕ → ℕ → List (ℕ × ℕ)
neighbors_from g u zero i = []
neighbors_from g u (suc k) i =
    (neighbor_slot g u i, neighbor_my_edge g u i) ∷ neighbors_from g u k (i + 1)

unfoldable pub neighbors : PanelGraph → ℕ → List (ℕ × ℕ)
unfolding neighbors_from
neighbors g u = neighbors_from g u (degree g u) 0

unfoldable pub pick_root : PanelGraph → ℕ → ℕ
unfolding slot_of lowest_slot
pick_root g panel = elim (slot_of g panel) [ none ↦ lowest_slot g | some s ↦ s ]

-- The state of `bfsFromRoot`: `pending` is queue[qh .. qt).
pub record Search : Type 0 where
  pub index : TopologyIndex
  pub visited : List Bool
  pub pending : List ℕ

-- The body of the inner loop.
unfoldable pub visit : ℕ → ℕ → Search → Search
visit u v s =
    let t = s.index in
    let d = u8 (get_or t.depth u 0 + 1) in
    if get_or s.visited v true then s else record {
      index = record t {
        parent = set t.parent v u;
        depth = set t.depth v d;
        max_depth_val = (if ltb t.max_depth_val d then d else t.max_depth_val);
        child_count = increment t.child_count u;
      };
      visited = set s.visited v true;
      pending = s.pending ++ v ∷ [];
    }

unfoldable pub visit_all : ℕ → List (ℕ × ℕ) → Search → Search
unfolding visit
visit_all u [] s = s
visit_all u ((v, e) ∷ vs) s = visit_all u vs (visit u v s)

unfoldable pub bfs_loop : ℕ → Search → Search
bfs_loop zero s = s
bfs_loop (suc fuel) s = elim s.pending [
  | [] ↦ s
  | u ∷ rest ↦ bfs_loop fuel (visit_all u (neighbors s.index.graph u) (record s { pending = rest }))
]

-- `visited` is initialised for the slots in use alone.
unfoldable pub bfs_start : TopologyIndex → Search
bfs_start t = record {
  index = record t {
    depth = set (memset t.depth 0 t.n) t.root_slot 0;
    parent = set (memset t.parent no_parent t.n) t.root_slot no_parent;
    child_count = memset t.child_count 0 t.n;
    max_depth_val = 0;
  };
  visited = set (replicate t.n false) t.root_slot true;
  pending = t.root_slot ∷ [];
}

unfoldable pub bfs_from_root : TopologyIndex → TopologyIndex
unfolding bfs_start bfs_loop
bfs_from_root t = (bfs_loop t.n (bfs_start t)).index

-- The children of `u` with its connectors, at most eight.
unfoldable pub gather_children : TopologyIndex → ℕ → ℕ → List (ℕ × ℕ) → List (ℕ × ℕ)
gather_children t u room [] = []
gather_children t u zero (v ∷ vs) = []
gather_children t u (suc room) ((v, e) ∷ vs) =
    if get_or t.parent v no_parent == u
    then (v, e) ∷ gather_children t u room vs
    else gather_children t u (suc room) vs

-- The inner loop of the sort, on the sorted part listed from its end.
unfoldable pub insert_child : ℕ × ℕ → List (ℕ × ℕ) → List (ℕ × ℕ)
insert_child c [] = c ∷ []
insert_child c (d ∷ ds) = if ltb c.1 d.1 then d ∷ insert_child c ds else c ∷ d ∷ ds

unfoldable pub sort_children : List (ℕ × ℕ) → List (ℕ × ℕ) → List (ℕ × ℕ)
unfolding insert_child
sort_children sorted [] = sorted
sort_children sorted (c ∷ cs) = sort_children (insert_child c sorted) cs

-- The last loop: the child of the least connector ends up on top.
unfoldable pub push_children : List (ℕ × ℕ) → List ℕ → List ℕ
push_children [] stack = stack
push_children (c ∷ cs) stack = push_children cs (c.0 ∷ stack)

-- `stack` from its top, and `order` the next position.
unfoldable pub canonical_loop : ℕ → ℕ → List ℕ → TopologyIndex → TopologyIndex
canonical_loop zero order stack t = t
canonical_loop (suc fuel) order stack t = elim stack [
  | [] ↦ t
  | u ∷ rest ↦
      canonical_loop fuel (u8 (order + 1))
        (push_children (sort_children [] (gather_children t u 8 (neighbors t.graph u))) rest)
        (record t { canon_pos = set t.canon_pos u order })
]

unfoldable pub compute_canonical_order : TopologyIndex → TopologyIndex
unfolding canonical_loop
compute_canonical_order t = canonical_loop t.n 0 (t.root_slot ∷ []) t

unfoldable pub build : TopologyIndex → PanelGraph → ℕ → TopologyIndex × Bool
unfolding pick_root bfs_from_root compute_canonical_order
build t g root_panel =
    let s = record t { graph = g; n = g.n } in
    if g.n == 0 then (s, false) else (
      compute_canonical_order (bfs_from_root (record s { root_slot = pick_root g root_panel })),
      true,
    )

abbrev pub is_leaf : TopologyIndex → ℕ → Bool
is_leaf t slot = get_or t.child_count slot 0 == 0

abbrev pub is_branch : TopologyIndex → ℕ → Bool
is_branch t slot = ltb 1 (get_or t.child_count slot 0)

-- `if (parent[v] == u) stack[sp++] = v;` for each neighbour.
unfoldable pub push_subtree : TopologyIndex → ℕ → List (ℕ × ℕ) → List ℕ → List ℕ
push_subtree t u [] stack = stack
push_subtree t u ((v, e) ∷ vs) stack =
    push_subtree t u vs (if get_or t.parent v no_parent == u then v ∷ stack else stack)

unfoldable pub subtree_loop : TopologyIndex → ℕ → List ℕ → PanelSet → PanelSet
unfolding push_subtree set_bit
subtree_loop t zero stack out = out
subtree_loop t (suc fuel) stack out = elim stack [
  | [] ↦ out
  | u ∷ rest ↦ subtree_loop t fuel (push_subtree t u (neighbors t.graph u) rest) (set_bit out u)
]

unfoldable pub fill_subtree : TopologyIndex → ℕ → PanelSet → PanelSet
unfolding subtree_loop
fill_subtree t slot out = subtree_loop t t.n (slot ∷ []) out

-- `distancesFrom`: the body of its inner loop, on the distances and what is left of the queue.
unfoldable pub reach_all : ℕ → List (ℕ × ℕ) → List ℕ × List ℕ → List ℕ × List ℕ
reach_all u [] st = st
reach_all u ((v, e) ∷ vs) (dist, pending) = reach_all u vs (
    if get_or dist v 0 == 255
    then (set dist v (u8 (get_or dist u 0 + 1)), pending ++ v ∷ [])
    else (dist, pending))

unfoldable pub distance_loop : TopologyIndex → ℕ → List ℕ × List ℕ → List ℕ
unfolding reach_all
distance_loop t zero st = st.0
distance_loop t (suc fuel) st = elim (st.1) [
  | [] ↦ st.0
  | u ∷ rest ↦ distance_loop t fuel (reach_all u (neighbors t.graph u) (st.0, rest))
]

-- The loop that queues the sources, with `k` slots left from `s` on.
unfoldable pub queue_sources : PanelSet → ℕ → ℕ → List ℕ × List ℕ → List ℕ × List ℕ
queue_sources sources zero s st = st
queue_sources sources (suc k) s (dist, pending) =
    queue_sources sources k (s + 1)
      (if test sources s then (set dist s 0, pending ++ s ∷ []) else (dist, pending))

unfoldable pub distances_from : TopologyIndex → PanelSet → List ℕ → List ℕ
unfolding queue_sources distance_loop
distances_from t sources dist =
    distance_loop t t.n (queue_sources sources t.n 0 (memset dist 255 t.n, []))
