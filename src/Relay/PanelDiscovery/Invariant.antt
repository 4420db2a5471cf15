-- ===== src/Relay/PanelDiscovery/Invariant.antt =====
-- A panel's edge table over any sequence of offers and probe results.
use lightnet_firmware.Common.{
  ℕ, zero, suc, ◌≤◌, ◌<◌, ◌≡◌, ◌≢◌, refl, true, List, [], ◌∷◌, ◌==◌, if◌then◌else◌, get_or, set,
  length, length-set, get_or-set_self, get_or-set_ne, arith, min, dec_lt, ◌∙◌, ap, inl, inr,
  Bool-cases,
}
use lightnet_firmware.Relay.PanelDiscovery.{
  PanelDiscovery, EdgeLinkState, unexplored, connected, not_connected, new, fill, edge_state,
  on_parent_offer, on_child_probe_accepted, on_child_probe_failed,
}

-- The arrays cover the panel's edges, and the parent edge is a connected edge with no child behind it.
pub record IsValid (d : PanelDiscovery) : Type 0 where
  pub counted : d.edge_count ≤ 6
  pub edge_storage : length d.edges ≡ 6
  pub child_storage : length d.child_indexes ≡ 6
  pub parent_in : d.has_parent ≡ true → d.parent < d.edge_count
  pub parent_connected : d.has_parent ≡ true → get_or d.edges d.parent unexplored ≡ connected

length-fill {ℓ} : {A : Type ℓ} (n : ℕ) (v : A) (xs : List A) → length (fill n v xs) ≡ length xs
unfolding fill
length-fill zero v xs = refl
length-fill (suc n) v xs = omega (arith, length-set (fill n v xs) n v, length-fill n v xs)

pub get_or-fill {ℓ} :
    {A : Type ℓ} (n i : ℕ) (v d : A) (xs : List A)
    → i < n
    → n ≤ length xs
    → get_or (fill n v xs) i d ≡ v
unfolding fill
get_or-fill zero i v d xs h l = absurd (omega arith)
get_or-fill (suc n) i v d xs h l = elim (dec_lt i n) [
  | yes p ↦
      get_or-set_ne (fill n v xs) n i v d (omega arith) ∙ get_or-fill n i v d xs p (omega arith)
  | no p ↦
      (let e : i ≡ n = omega arith in
        rw e (get_or-set_self (fill n v xs) n v d (omega (arith, length-fill n v xs))))
]

-- A new panel has no parent, and all its edges are unexplored.
pub new-IsValid :
    (n : ℕ) (edges : List EdgeLinkState) (children : List ℕ)
    → n ≤ 6
    → length edges ≡ 6
    → length children ≡ 6
    → IsValid (new n edges children)
unfolding new
new-IsValid n edges children h e c =
    ground (arith, length-fill (min n 6) unexplored edges, length-fill (min n 6) 0 children)

pub data Op : Type 0 where
  offer : ℕ → Op
  accepted : ℕ → ℕ → Op
  failed : ℕ → Op

unfoldable pub apply : PanelDiscovery → Op → PanelDiscovery
apply d (offer e) = (on_parent_offer d e).0
apply d (accepted e c) = on_child_probe_accepted d e c
apply d (failed e) = on_child_probe_failed d e

unfoldable pub run : PanelDiscovery → List Op → PanelDiscovery
unfolding apply
run d [] = d
run d (o ∷ os) = run (apply d o) os

-- A call names an edge of the panel, and a probe result never the parent edge.
abbrev pub Fits : PanelDiscovery → Op → Type 0
Fits d (offer e) = e < d.edge_count
Fits d (accepted e c) = (e < d.edge_count) × (d.has_parent ≡ true → e ≢ d.parent)
Fits d (failed e) = (e < d.edge_count) × (d.has_parent ≡ true → e ≢ d.parent)

pub apply-IsValid : (d : PanelDiscovery) (o : Op) → IsValid d → Fits d o → IsValid (apply d o)
unfolding apply on_parent_offer on_child_probe_accepted on_child_probe_failed
apply-IsValid d (offer e) v f = ground (
  arith,
  length-set d.edges e connected,
  length-set d.edges e not_connected,
  get_or-set_self d.edges e connected unexplored,
  get_or-set_ne d.edges e d.parent not_connected unexplored,
)
apply-IsValid d (accepted e c) v f = ground (
  arith,
  length-set d.edges e connected,
  length-set d.child_indexes e c,
  get_or-set_ne d.edges e d.parent connected unexplored,
)
apply-IsValid d (failed e) v f = ground (
  arith,
  length-set d.edges e not_connected,
  length-set d.child_indexes e 0,
  get_or-set_ne d.edges e d.parent not_connected unexplored,
)

apply_parent :
    (d : PanelDiscovery) (o : Op)
    → d.has_parent ≡ true
    → ((apply d o).has_parent ≡ true) × ((apply d o).parent ≡ d.parent)
unfolding apply on_parent_offer on_child_probe_accepted on_child_probe_failed
apply_parent d (offer e) h = ground arith
apply_parent d (accepted e c) h = ground arith
apply_parent d (failed e) h = ground arith

-- A panel that has a parent keeps the same parent edge through any later offers and probe results.
pub run_parent :
    (d : PanelDiscovery) (os : List Op)
    → d.has_parent ≡ true
    → ((run d os).has_parent ≡ true) × ((run d os).parent ≡ d.parent)
unfolding run
run_parent d [] h = (h, refl)
run_parent d (o ∷ os) h = ground (arith, apply_parent d o h, run_parent (apply d o) os)

-- On a well-formed table, an offer over one of the panel's edges is accepted exactly if it is the
-- first or repeats the parent edge. It leaves its edge connected if accepted and not connected if
-- not, and every other edge and all recorded children as they were.
pub on_parent_offer_lem :
    (d : PanelDiscovery) (e i : ℕ)
    → IsValid d
    → e < d.edge_count
    → let (c, adopted) = on_parent_offer d e in
      (adopted ≡ (if d.has_parent then e == d.parent else true))
      × (edge_state c i
          ≡ (if i == e then (if adopted then connected else not_connected) else edge_state d i))
      × (c.child_indexes ≡ d.child_indexes)
unfolding on_parent_offer edge_state
on_parent_offer_lem d e i v h = elim (Bool-cases (i == e)) [
  | inl q ↦
      (let r : i ≡ e = ground arith in
        ground (
          arith,
          ap (λ (j : ℕ). get_or (set d.edges e connected) j unexplored) r,
          ap (λ (j : ℕ). get_or (set d.edges e not_connected) j unexplored) r,
          ap (λ (j : ℕ). get_or d.edges j unexplored) r,
          get_or-set_self d.edges e connected unexplored,
          get_or-set_self d.edges e not_connected unexplored,
        ))
  | inr q ↦ ground (
    arith,
    get_or-set_ne d.edges e i connected unexplored,
    get_or-set_ne d.edges e i not_connected unexplored,
  )
]
