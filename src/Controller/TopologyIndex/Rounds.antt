-- ===== src/Controller/TopologyIndex/Rounds.antt =====
-- How many rounds the search of bfsFromRoot takes.
use lightnet_firmware.Common.{
  ℕ, zero, suc, ◌+◌, ◌≤◌, ◌<◌, ◌≡◌, refl, ap, ◌∙◌, inl, inr, Bool, true, false, Bool-cases, List,
  [], ◌∷◌, arith, length, length-append, get_or, set, replicate,
}
use lightnet_firmware.Controller.TopologyIndex.{
  TopologyIndex, Search, visit, visit_all, bfs_loop, bfs_start, neighbors,
}

-- The slots that are yet to be visited.
abbrev unvisited : List Bool → ℕ
unvisited [] = 0
unvisited (true ∷ vs) = unvisited vs
unvisited (false ∷ vs) = suc (unvisited vs)

unvisited-set :
    (vs : List Bool) (v : ℕ)
    → get_or vs v true ≡ false
    → unvisited (set vs v true) + 1 ≡ unvisited vs
unvisited-set [] v e = ground arith
unvisited-set (true ∷ vs) zero e = ground arith
unvisited-set (false ∷ vs) zero e = omega arith
unvisited-set (true ∷ vs) (suc v) e = unvisited-set vs v e
unvisited-set (false ∷ vs) (suc v) e = omega (arith, unvisited-set vs v e)

unvisited-replicate : (n : ℕ) → unvisited (replicate n false) ≡ n
unvisited-replicate zero = refl
unvisited-replicate (suc n) = ap suc (unvisited-replicate n)

-- The rounds that the search may still take.
abbrev rounds : Search → ℕ
rounds s = unvisited s.visited + length s.pending

rounds-visit : (u v : ℕ) (s : Search) → rounds (visit u v s) ≡ rounds s
unfolding visit
rounds-visit u v s = elim (Bool-cases (get_or s.visited v true)) [
  | inl seen ↦ rw (seen, visit) refl
  | inr fresh ↦
      rw (fresh, visit)
        (omega (arith, unvisited-set s.visited v fresh, length-append s.pending (v ∷ [])))
]

rounds-visit_all : (u : ℕ) (vs : List (ℕ × ℕ)) (s : Search) → rounds (visit_all u vs s) ≡ rounds s
unfolding visit_all
rounds-visit_all u [] s = refl
rounds-visit_all u ((v, e) ∷ vs) s = rounds-visit_all u vs (visit u v s) ∙ rounds-visit u v s

-- With that many rounds, the queue runs empty.
bfs_loop-empties :
    (fuel : ℕ) (s : Search) (queue : List ℕ)
    → s.pending ≡ queue
    → rounds s ≤ fuel
    → (bfs_loop fuel s).pending ≡ []
unfolding bfs_loop
bfs_loop-empties zero s [] e h = e
bfs_loop-empties zero s (u ∷ rest) e h = let l = ap length e in absurd (omega (arith, l, h))
bfs_loop-empties (suc fuel) s [] e h = rw (e, bfs_loop) e
bfs_loop-empties (suc fuel) s (u ∷ rest) e h =
    let l = ap length e in
    let next = visit_all u (neighbors s.index.graph u) (record s { pending = rest }) in
    let same = rounds-visit_all u (neighbors s.index.graph u) (record s { pending = rest }) in
    rw (e, bfs_loop) (bfs_loop-empties fuel next next.pending refl (omega (arith, same, l, h)))

fresh : (n x : ℕ) → x < n → get_or (replicate n false) x true ≡ false
fresh zero x l = absurd (omega arith)
fresh (suc n) zero l = refl
fresh (suc n) (suc x) l = fresh n x (omega arith)

rounds-start : (t : TopologyIndex) → t.root_slot < t.n → rounds (bfs_start t) ≡ t.n
unfolding bfs_start
rounds-start t l =
    unvisited-set (replicate t.n false) t.root_slot (fresh t.n t.root_slot l)
    ∙ unvisited-replicate t.n

-- The search from a slot in use ends: as many rounds as there are panels leave its queue empty.
pub bfs_start-ends :
    (t : TopologyIndex) → t.root_slot < t.n → (bfs_loop t.n (bfs_start t)).pending ≡ []
bfs_start-ends t l =
    bfs_loop-empties t.n (bfs_start t) (bfs_start t).pending refl
      (let r = rounds-start t l in omega (arith, r))
