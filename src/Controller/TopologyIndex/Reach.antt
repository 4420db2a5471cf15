-- ===== src/Controller/TopologyIndex/Reach.antt =====
-- bfsFromRoot: what it visits.
use mathlib.Core.Path.{subst}
use lightnet_firmware.Common.{
  ℕ, zero, suc, ◌<◌, ◌≡◌, refl, ap, sym, ◌∙◌, ◌⊎◌, inl, inr, Bool, true, false, Bool-cases, List,
  [], ◌∷◌, ◌++◌, arith, ◌==◌, ◌||◌, get_or, set, replicate, get_or-replicate, All,
}
use lightnet_firmware.Controller.PanelGraph.{PanelGraph}
use lightnet_firmware.Controller.TopologyIndex.Rounds.{bfs_start-ends}
use lightnet_firmware.Controller.TopologyIndex.{
  TopologyIndex, Search, visit, visit_all, bfs_loop, bfs_start, neighbors,
}

abbrev has : ℕ → List ℕ → Bool
has x [] = false
has x (y ∷ ys) = (x == y) || has x ys

has-append : (x v : ℕ) (ys : List ℕ) → has x (ys ++ v ∷ []) ≡ (has x ys || (x == v))
has-append x v [] = ground arith
has-append x v (y ∷ ys) = ground (arith, has-append x v ys)

-- What a search visits and queues stays visited and queued, and what it visits newly is queued.
record Grows (s t : Search) : Type 0 where
  keeps : (x : ℕ) → get_or s.visited x true ≡ true → get_or t.visited x true ≡ true
  news :
      (x : ℕ)
      → get_or t.visited x false ≡ true
      → (get_or s.visited x false ≡ true) ⊎ (has x t.pending ≡ true)
  queued : (x : ℕ) → has x s.pending ≡ true → has x t.pending ≡ true
  graph : t.index.graph ≡ s.index.graph

Grows-refl : (s : Search) → Grows s s
Grows-refl s = record { keeps = λ x e. e; news = λ x e. inl e; queued = λ x e. e; graph = refl }

Grows-trans : (s t u : Search) → Grows s t → Grows t u → Grows s u
Grows-trans s t u a b = record {
  keeps = λ x e. b.keeps x (a.keeps x e);
  news = λ x e. elim (b.news x e) [
    | inl old ↦ elim (a.news x old) [ inl older ↦ inl older | inr q ↦ inr (b.queued x q) ]
    | inr q ↦ inr q
  ];
  queued = λ x e. b.queued x (a.queued x e);
  graph = b.graph ∙ a.graph;
}

set-keeps :
    (vs : List Bool) (v x : ℕ) → get_or vs x true ≡ true → get_or (set vs v true) x true ≡ true
set-keeps [] v x e = e
set-keeps (b ∷ vs) zero zero e = refl
set-keeps (b ∷ vs) zero (suc x) e = e
set-keeps (b ∷ vs) (suc v) zero e = e
set-keeps (b ∷ vs) (suc v) (suc x) e = set-keeps vs v x e

set-marks : (vs : List Bool) (v : ℕ) → get_or (set vs v true) v true ≡ true
set-marks [] v = refl
set-marks (b ∷ vs) zero = refl
set-marks (b ∷ vs) (suc v) = set-marks vs v

set-news :
    (vs : List Bool) (v x : ℕ)
    → get_or (set vs v true) x false ≡ true
    → (get_or vs x false ≡ true) ⊎ (x ≡ v)
set-news [] v x e = inl e
set-news (b ∷ vs) zero zero e = inr refl
set-news (b ∷ vs) zero (suc x) e = inl e
set-news (b ∷ vs) (suc v) zero e = inl e
set-news (b ∷ vs) (suc v) (suc x) e = elim (set-news vs v x e) [
  | inl old ↦ inl old
  | inr same ↦ inr (ap suc same)
]

visit-Grows : (u v : ℕ) (s : Search) → Grows s (visit u v s)
unfolding visit
visit-Grows u v s = elim (Bool-cases (get_or s.visited v true)) [
  | inl seen ↦ rw (seen, visit) (Grows-refl s)
  | inr fresh ↦
      rw (fresh, visit)
        (record {
          keeps = λ x e. set-keeps s.visited v x e;
          news = λ x e. elim (set-news s.visited v x e) [
            | inl old ↦ inl old
            | inr same ↦ inr (ground (arith, same, has-append x v s.pending))
          ];
          queued = λ x e. ground (arith, has-append x v s.pending);
          graph = refl;
        })
]

visit_all-Grows : (u : ℕ) (vs : List (ℕ × ℕ)) (s : Search) → Grows s (visit_all u vs s)
unfolding visit_all
visit_all-Grows u [] s = Grows-refl s
visit_all-Grows u ((v, e) ∷ vs) s =
    Grows-trans s (visit u v s) (visit_all u vs (visit u v s)) (visit-Grows u v s)
      (visit_all-Grows u vs (visit u v s))

-- All the neighbours listed are visited.
abbrev pub AreVisited : Search → List (ℕ × ℕ) → Type 0
AreVisited s vs = All (λ c. get_or s.visited c.0 true ≡ true) vs

AreVisited-Grows :
    (s t : Search) (vs : List (ℕ × ℕ)) → Grows s t → AreVisited s vs → AreVisited t vs
AreVisited-Grows s t [] g a = tt
AreVisited-Grows s t ((v, e) ∷ vs) g a = (g.keeps v a.0, AreVisited-Grows s t vs g a.1)

visit-marks : (u v : ℕ) (s : Search) → get_or (visit u v s).visited v true ≡ true
unfolding visit
visit-marks u v s = elim (Bool-cases (get_or s.visited v true)) [
  | inl seen ↦ rw (seen, visit) seen
  | inr fresh ↦ rw (fresh, visit) (set-marks s.visited v)
]

visit_all-AreVisited : (u : ℕ) (vs : List (ℕ × ℕ)) (s : Search) → AreVisited (visit_all u vs s) vs
unfolding visit_all
visit_all-AreVisited u [] s = tt
visit_all-AreVisited u ((v, e) ∷ vs) s = (
  (visit_all-Grows u vs (visit u v s)).keeps v (visit-marks u v s),
  visit_all-AreVisited u vs (visit u v s),
)

-- A visited slot is in the queue or has all its neighbours visited.
record IsOpen (g : PanelGraph) (s : Search) : Type 0 where
  graph : s.index.graph ≡ g
  open_or_done :
      (x : ℕ)
      → get_or s.visited x false ≡ true
      → (has x s.pending ≡ true) ⊎ AreVisited s (neighbors g x)

round-IsOpen :
    (g : PanelGraph) (s : Search) (u : ℕ) (rest : List ℕ)
    → s.pending ≡ u ∷ rest
    → IsOpen g s
    → IsOpen g (visit_all u (neighbors s.index.graph u) (record s { pending = rest }))
round-IsOpen g s u rest e h =
    let ns = neighbors s.index.graph u in
    let s1 = record s { pending = rest } in
    let grows = visit_all-Grows u ns s1 in
    let marked : AreVisited (visit_all u ns s1) (neighbors g u) =
      subst (λ h. AreVisited (visit_all u ns s1) (neighbors h u)) h.graph
        (visit_all-AreVisited u ns s1) in
    let waiting : (x : ℕ)
        → has x s.pending ≡ true
        → (has x (visit_all u ns s1).pending ≡ true)
          ⊎ AreVisited (visit_all u ns s1) (neighbors g x) =
      λ x w.
        let here : has x (u ∷ rest) ≡ true = ap (has x) (sym e) ∙ w in
        elim (Bool-cases (x == u)) [
          | inl at ↦
              let same : x ≡ u = ground (arith, at) in
              inr (subst (λ y. AreVisited (visit_all u ns s1) (neighbors g y)) (sym same) marked)
          | inr other ↦ inl (grows.queued x (ground (arith, here, other)))
        ] in
    record {
      graph = grows.graph ∙ h.graph;
      open_or_done = λ x v. elim (grows.news x v) [
        | inr queued ↦ inl queued
        | inl old ↦ elim (h.open_or_done x old) [
          | inr done ↦ inr (AreVisited-Grows s1 (visit_all u ns s1) (neighbors g x) grows done)
          | inl waits ↦ waiting x waits
        ]
      ];
    }

bfs_loop-IsOpen :
    (g : PanelGraph) (fuel : ℕ) (s : Search) (queue : List ℕ)
    → s.pending ≡ queue
    → IsOpen g s
    → IsOpen g (bfs_loop fuel s)
unfolding bfs_loop
bfs_loop-IsOpen g zero s queue e h = h
bfs_loop-IsOpen g (suc fuel) s [] e h = rw (e, bfs_loop) h
bfs_loop-IsOpen g (suc fuel) s (u ∷ rest) e h =
    let next = visit_all u (neighbors s.index.graph u) (record s { pending = rest }) in
    rw (e, bfs_loop) (bfs_loop-IsOpen g fuel next next.pending refl (round-IsOpen g s u rest e h))

bfs_loop-keeps :
    (fuel : ℕ) (s : Search) (queue : List ℕ) (x : ℕ)
    → s.pending ≡ queue
    → get_or s.visited x true ≡ true
    → get_or (bfs_loop fuel s).visited x true ≡ true
unfolding bfs_loop
bfs_loop-keeps zero s queue x e h = h
bfs_loop-keeps (suc fuel) s [] x e h = rw (e, bfs_loop) h
bfs_loop-keeps (suc fuel) s (u ∷ rest) x e h =
    let s1 = record s { pending = rest } in
    let next = visit_all u (neighbors s.index.graph u) s1 in
    rw (e, bfs_loop)
      (bfs_loop-keeps fuel next next.pending x refl
        ((visit_all-Grows u (neighbors s.index.graph u) s1).keeps x h))

start-IsOpen : (t : TopologyIndex) → IsOpen t.graph (bfs_start t)
unfolding bfs_start
start-IsOpen t = record {
  graph = refl;
  open_or_done = λ x v. elim (set-news (replicate t.n false) t.root_slot x v) [
    | inl old ↦ absurd (ground (arith, get_or-replicate t.n x false))
    | inr same ↦ inl (ground (arith, same))
  ];
}

-- From a root in use, the search ends with its queue empty, after at most as many rounds as there
-- are panels; it has visited the root; and every neighbour of a slot that it has visited is visited
-- too, so that no panel that links lead to is left out.
pub bfs-closed :
    (t : TopologyIndex) (x : ℕ)
    → t.root_slot < t.n
    → get_or (bfs_loop t.n (bfs_start t)).visited x false ≡ true
    → ((bfs_loop t.n (bfs_start t)).pending ≡ [])
      × (get_or (bfs_loop t.n (bfs_start t)).visited t.root_slot true ≡ true)
      × AreVisited (bfs_loop t.n (bfs_start t)) (neighbors t.graph x)
unfolding bfs_start
bfs-closed t x l v =
    let ends = bfs_start-ends t l in
    let o = bfs_loop-IsOpen t.graph t.n (bfs_start t) (bfs_start t).pending refl (start-IsOpen t) in
    (
      ends,
      bfs_loop-keeps t.n (bfs_start t) (bfs_start t).pending t.root_slot refl
          (set-marks (replicate t.n false) t.root_slot),
      elim (o.open_or_done x v) [
        | inl queued ↦ absurd (ground (arith, sym queued ∙ ap (has x) ends))
        | inr done ↦ done
      ],
    )
