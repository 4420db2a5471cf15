-- ===== src/Relay/PanelRouter/Routing.antt =====
-- Where the router sends a frame.
use lightnet_firmware.Common.{
  ℕ, zero, suc, ◌+◌, ◌≤◌, ◌<◌, ◌≡◌, ◌≢◌, ◌⊎◌, inl, inr, refl, Bool, true, false, ◌&&◌, List, [],
  ◌∷◌, ◌==◌, ◌!=◌, if◌then◌else◌, arith, All, dec_lt, leb, ltb, Bool-cases, ap,
}
use lightnet_firmware.Protocol.Meta.{meta_of}
use lightnet_firmware.Relay.EdgeLink.{Send, send_on_edge}
use lightnet_firmware.Relay.PanelDiscovery.{PanelDiscovery, is_connected, child_index}
use lightnet_firmware.Relay.PanelRouter.{
  Best, no_edge, scan_edge, scan_edges, flood, route_downstream, on_frame_arrived,
}

abbrev pub target_of : List ℕ → ℕ
target_of packet = (meta_of packet).header.target_panel_index

-- An edge that a downstream frame may leave by.
abbrev pub IsBranch : PanelDiscovery → ℕ → ℕ → Type 0
IsBranch d from e = (e < d.edge_count) × (e ≢ from) × (is_connected d e ≡ true)

abbrev pub is_branch : PanelDiscovery → ℕ → ℕ → Bool
is_branch d from e = (e != from) && is_connected d e

-- What the search has found among the edges below `n`.
record Found (d : PanelDiscovery) (from target n : ℕ) (b : Best) : Type 0 where
  none_found : b.edge ≡ no_edge → b.child ≡ 0
  some_found :
      b.edge ≢ no_edge
      → (b.edge < n)
        × (b.edge ≢ from)
        × (is_connected d b.edge ≡ true)
        × (child_index d b.edge ≡ b.child)
        × (0 < b.child)
        × (b.child ≤ target)

scan_edge-Found :
    (d : PanelDiscovery) (from target n : ℕ) (b : Best)
    → n < 255
    → Found d from target n b
    → Found d from target (suc n) (scan_edge d from target n b)
unfolding scan_edge
scan_edge-Found d from target n b s h = ground arith

scan_edges-Found :
    (d : PanelDiscovery) (from target n : ℕ)
    → n ≤ 255
    → Found d from target n (scan_edges d from target n)
unfolding scan_edges
scan_edges-Found d from target zero s = ground arith
scan_edges-Found d from target (suc n) s =
    scan_edge-Found d from target n (scan_edges d from target n) (omega arith)
      (scan_edges-Found d from target n (omega arith))

-- No branch that the search has passed lies closer below the target.
scan_edge-max :
    (d : PanelDiscovery) (from target n : ℕ) (b : Best)
    → (b.child ≤ (scan_edge d from target n b).child)
      × (is_branch d from n ≡ true
          → child_index d n ≤ target
          → child_index d n ≤ (scan_edge d from target n b).child)
unfolding scan_edge
scan_edge-max d from target n b = (ground arith, λ h k. ground arith)

scan_edges-max :
    (d : PanelDiscovery) (from target n e : ℕ)
    → e < n
    → is_branch d from e ≡ true
    → child_index d e ≤ target
    → child_index d e ≤ (scan_edges d from target n).child
unfolding scan_edges
scan_edges-max d from target zero e l h k = absurd (omega arith)
scan_edges-max d from target (suc n) e l h k = elim (dec_lt e n) [
  | yes p ↦ omega (
    arith,
    scan_edges-max d from target n e p h k,
    (scan_edge-max d from target n (scan_edges d from target n)).0,
  )
  | no p ↦
      (let q : e ≡ n = omega arith in
        rw q
          ((scan_edge-max d from target n (scan_edges d from target n)).1 (rw q at h) (rw q at k)))
]

-- Every branch seen has an index, exactly if the search says so.
scan_edges-indexed :
    (d : PanelDiscovery) (from target n : ℕ)
    → ((e : ℕ) → e < n → is_branch d from e ≡ true → child_index d e ≢ 0)
    → (scan_edges d from target n).all_indexed ≡ true
unfolding scan_edges scan_edge
scan_edges-indexed d from target zero h = refl
scan_edges-indexed d from target (suc n) h =
    ground (arith, scan_edges-indexed d from target n (λ e l. h e (omega arith)), h n)

scan_edges-unindexed :
    (d : PanelDiscovery) (from target n e : ℕ)
    → e < n
    → is_branch d from e ≡ true
    → child_index d e ≡ 0
    → (scan_edges d from target n).all_indexed ≡ false
unfolding scan_edges scan_edge
scan_edges-unindexed d from target zero e l h z = absurd (omega arith)
scan_edges-unindexed d from target (suc n) e l h z = elim (dec_lt e n) [
  | yes p ↦ ground (arith, scan_edges-unindexed d from target n e p h z)
  | no p ↦ (let q : e ≡ n = omega arith in ground (arith, rw q at h, rw q at z))
]

pub count_sends : ℕ → List Send → ℕ
count_sends e [] = 0
count_sends e (s ∷ ss) = let rest = count_sends e ss in if s.edge == e then suc rest else rest

count-flood :
    (d : PanelDiscovery) (from : ℕ) (packet : List ℕ) (i n e : ℕ)
    → count_sends e (flood d from packet i n)
      ≡ (if leb i e && ltb e (i + n) && is_branch d from e then 1 else 0)
unfolding flood count_sends
count-flood d from packet i zero e = ground arith
count-flood d from packet i (suc n) e = elim (Bool-cases (i == e)) [
  | inl q ↦
      (let r : i ≡ e = ground arith in
        ground (arith, count-flood d from packet (i + 1) n e, ap (λ (x : ℕ). is_branch d from x) r))
  | inr q ↦ ground (arith, count-flood d from packet (i + 1) n e)
]

-- What any frame is sent as: itself, over a connected edge that it did not arrive on.
abbrev pub IsRelay : PanelDiscovery → ℕ → List ℕ → Send → Type 0
IsRelay d from packet s = (s.edge ≢ from) × (is_connected d s.edge ≡ true) × (s.frame ≡ packet)

flood-IsRelay :
    (d : PanelDiscovery) (from : ℕ) (packet : List ℕ) (i n : ℕ)
    → All (IsRelay d from packet) (flood d from packet i n)
unfolding flood
flood-IsRelay d from packet i zero = tt
flood-IsRelay d from packet i (suc n) = elim (Bool-cases (is_branch d from i)) [
  | inl e ↦ rw e ((ground arith, ground arith, refl), flood-IsRelay d from packet (i + 1) n)
  | inr e ↦ rw e (flood-IsRelay d from packet (i + 1) n)
]

route_downstream-IsRelay :
    (d : PanelDiscovery) (from : ℕ) (packet : List ℕ)
    → d.edge_count ≤ 255
    → All (IsRelay d from packet) (route_downstream d from packet)
unfolding route_downstream
route_downstream-IsRelay d from packet c = ground (
  arith,
  scan_edges-Found d from (target_of packet) d.edge_count c,
  flood-IsRelay d from packet 0 d.edge_count,
)

-- A panel of at most 255 edges sends what arrives only unaltered, over connected edges, and never
-- back over the edge that it came from.
pub on_frame_arrived-IsRelay :
    (d : PanelDiscovery) (from : ℕ) (packet : List ℕ)
    → d.edge_count ≤ 255
    → All (IsRelay d from packet) (on_frame_arrived d from packet)
unfolding on_frame_arrived
on_frame_arrived-IsRelay d from packet c = ground (arith, route_downstream-IsRelay d from packet c)

-- A frame from any edge but the parent's goes to the parent, and nowhere else.
pub route_upstream :
    (d : PanelDiscovery) (from : ℕ) (packet : List ℕ)
    → d.has_parent ≡ true
    → is_connected d d.parent ≡ true
    → from ≢ d.parent
    → on_frame_arrived d from packet ≡ send_on_edge d.parent packet ∷ []
unfolding on_frame_arrived
route_upstream d from packet h c ne = ground arith

-- On a panel that has a parent, a frame from the parent for target 0, or for any target while some
-- connected edge but the parent's has no recorded index, is sent exactly once over every such
-- edge, and over no other.
pub route_flood :
    (d : PanelDiscovery) (packet : List ℕ) (e : ℕ)
    → d.has_parent ≡ true
    → (target_of packet ≡ 0) ⊎ ((u : ℕ) × IsBranch d d.parent u × (child_index d u ≡ 0))
    → count_sends e (on_frame_arrived d d.parent packet)
      ≡ (if ltb e d.edge_count && is_branch d d.parent e then 1 else 0)
unfolding on_frame_arrived route_downstream
route_flood d packet e h (inl z) = ground (arith, count-flood d d.parent packet 0 d.edge_count e)
route_flood d packet e h (inr (u, b, z)) = ground (
  arith,
  count-flood d d.parent packet 0 d.edge_count e,
  scan_edges-unindexed d d.parent (target_of packet) d.edge_count u b.0 (ground arith) z,
)

-- On a panel of at most 255 edges that has a parent, and whose connected edges but the parent's
-- all have a recorded index, a frame from the parent for a target other than 0 is sent once, over
-- the connected edge whose index is the greatest not above the target, if there is one and no
-- other edge has its index.
pub route_branch :
    (d : PanelDiscovery) (packet : List ℕ) (e : ℕ)
    → d.has_parent ≡ true
    → d.edge_count ≤ 255
    → target_of packet ≢ 0
    → ((u : ℕ) → u < d.edge_count → is_branch d d.parent u ≡ true → child_index d u ≢ 0)
    → IsBranch d d.parent e
    → child_index d e ≤ target_of packet
    → ((u : ℕ)
        → IsBranch d d.parent u
        → u ≢ e
        → (child_index d u < child_index d e) ⊎ (target_of packet < child_index d u))
    → on_frame_arrived d d.parent packet ≡ send_on_edge e packet ∷ []
unfolding on_frame_arrived route_downstream
route_branch d packet e h c t indexed b le others =
    let target = target_of packet in
    let best = scan_edges d d.parent target d.edge_count in
    let found = scan_edges-Found d d.parent target d.edge_count c in
    let close = scan_edges-max d d.parent target d.edge_count e b.0 (ground arith) le in
    ground (
      arith,
      scan_edges-indexed d d.parent target d.edge_count indexed,
      indexed e b.0,
      close,
      found,
      others best.edge,
    )

-- On a panel of at most 255 edges that has a parent, a frame from the parent for a target other
-- than 0 is dropped if all connected edges but the parent's have indices above the target.
pub route_drop :
    (d : PanelDiscovery) (packet : List ℕ)
    → d.has_parent ≡ true
    → d.edge_count ≤ 255
    → target_of packet ≢ 0
    → ((u : ℕ)
        → u < d.edge_count
        → is_branch d d.parent u ≡ true
        → target_of packet < child_index d u)
    → on_frame_arrived d d.parent packet ≡ []
unfolding on_frame_arrived route_downstream
route_drop d packet h c t above =
    let target = target_of packet in
    let best = scan_edges d d.parent target d.edge_count in
    ground (
      arith,
      scan_edges-indexed d d.parent target d.edge_count (λ u l b. omega (arith, above u l b)),
      scan_edges-Found d d.parent target d.edge_count c,
      above best.edge,
    )
