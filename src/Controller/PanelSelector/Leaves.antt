-- ===== src/Controller/PanelSelector/Leaves.antt =====
-- selEvalLeaf on each leaf of a selector.
use lightnet_firmware.Common.{
  ℕ, zero, suc, ◌-◌, ◌*◌, ◌≤◌, ◌<◌, ◌≡◌, refl, ap, ◌∙◌, Bool, true, false, inl, inr, Bool-cases,
  ◌&&◌, ◌||◌, List, [], ◌∷◌, ◌++◌, Option, none, some, arith, ltb, leb, ◌==◌, if◌then◌else◌, length,
  length-append, All, u8, u16,
}
use native.Mathlib.Nat.{mul-le-mul}
use lightnet_firmware.Controller.PanelGraph.{slot_of}
use lightnet_firmware.Controller.TopologyIndex.{
  TopologyIndex, PanelSet, clear_all, set_bit, test, is_leaf, is_branch, neighbors, fill_subtree,
  subtree_loop, push_subtree,
}
use lightnet_firmware.Controller.PanelSelector.{
  canonical_pos, select, sel_eval_leaf, eval_depth, eval_subtree, eval_neighbors, eval_fraction,
  eval_first, eval_last, eval_indices, set_neighbors, set_indices,
}
use lightnet_firmware.Controller.PanelSelector.Sets.{
  IsSized, set_bit-IsSized, test-set_bit, clear_all-IsSized, test-clear_all, set_where-IsSized,
  test-set_where,
}
use lightnet_firmware.Controller.PanelSelector.Meaning.{
  selects, IsUsable, among, listed, within, adjacent, is_slot,
}
use lightnet_firmware.Controller.PanelSelector.Meaning.Selector.{
  all, root, leaves, branches, even, odd, depth, fraction, subtree, beside, first, last, indices,
}

-- A set that holds exactly what a test says, of the slots in use.
pub record Holds (t : TopologyIndex) (f : ℕ → Bool) (s : PanelSet) : Type 0 where
  pub sized : IsSized s
  pub agrees : (x : ℕ) → x < t.n → test s x ≡ f x

module _ (t : TopologyIndex) (h : IsUsable t) where
  select-Holds : (f : ℕ → Bool) → Holds t f (select t f clear_all)
  select-Holds f = record {
    sized = set_where-IsSized t.n 0 f clear_all clear_all-IsSized;
    agrees = λ x l. ground (
      arith,
      test-clear_all x,
      test-set_where t.n 0 f clear_all x clear_all-IsSized (omega (arith, h.count_le)),
    );
  }

  set_bit-Holds : (i : ℕ) → i < t.n → Holds t (λ x. x == i) (set_bit clear_all i)
  set_bit-Holds i l = record {
    sized = set_bit-IsSized clear_all i clear_all-IsSized;
    agrees = λ x b. ground (
      arith,
      test-clear_all x,
      test-set_bit clear_all i x clear_all-IsSized (omega (arith, h.count_le)),
    );
  }

  set_neighbors-IsSized :
      (vs : List (ℕ × ℕ)) (s : PanelSet) → IsSized s → IsSized (set_neighbors vs s)
  unfolding set_neighbors
  set_neighbors-IsSized [] s k = k
  set_neighbors-IsSized ((v, e) ∷ vs) s k =
      set_neighbors-IsSized vs (set_bit s v) (set_bit-IsSized s v k)

  test-set_neighbors :
      (vs : List (ℕ × ℕ)) (s : PanelSet) (x : ℕ)
      → IsSized s
      → All (λ c. c.0 < t.n) vs
      → test (set_neighbors vs s) x ≡ (test s x || among x vs)
  unfolding set_neighbors
  test-set_neighbors [] s x k a = ground arith
  test-set_neighbors ((v, e) ∷ vs) s x k a = ground (
    arith,
    test-set_bit s v x k (omega (arith, h.count_le, a.0)),
    test-set_neighbors vs (set_bit s v) x (set_bit-IsSized s v k) a.1,
  )

  -- What one listed index adds.
  mark-lem :
      (o : Option ℕ) (s : PanelSet)
      → IsSized s
      → ((k : ℕ) → o ≡ some k → k < t.n)
      → IsSized (elim o [ none ↦ s | some k ↦ set_bit s k ])
        × ((x : ℕ)
            → test (elim o [ none ↦ s | some k ↦ set_bit s k ]) x ≡ (is_slot x o || test s x))
  mark-lem none s k l = (k, λ x. refl)
  mark-lem (some i) s k l =
      (set_bit-IsSized s i k, λ x. test-set_bit s i x k (omega (arith, l i refl, h.count_le)))

  set_indices-lem :
      (ps rest : List ℕ) (s : PanelSet)
      → IsSized s
      → IsSized (set_indices t (length ps) (ps ++ rest) s).1
        × ((set_indices t (length ps) (ps ++ rest) s).0 ≡ rest)
        × ((x : ℕ)
            → test (set_indices t (length ps) (ps ++ rest) s).1 x ≡ (test s x || listed t x ps))
  unfolding set_indices
  set_indices-lem [] rest s k = (k, refl, λ x. ground arith)
  set_indices-lem (p ∷ ps) rest s k =
      let m = mark-lem (slot_of t.graph p) s k (h.slot_lt p) in
      let s' : PanelSet = elim (slot_of t.graph p) [ none ↦ s | some i ↦ set_bit s i ] in
      let r = set_indices-lem ps rest s' m.0 in
      (r.0, r.1, λ x. r.2 x ∙ ap (λ b. b || listed t x ps) (m.1 x) ∙ ground arith)

  subtree_loop-IsSized :
      (fuel : ℕ) (stack : List ℕ) (s : PanelSet) → IsSized s → IsSized (subtree_loop t fuel stack s)
  unfolding subtree_loop
  subtree_loop-IsSized zero stack s k = k
  subtree_loop-IsSized (suc fuel) [] s k = k
  subtree_loop-IsSized (suc fuel) (u ∷ rest) s k =
      subtree_loop-IsSized fuel (push_subtree t u (neighbors t.graph u) rest) (set_bit s u)
        (set_bit-IsSized s u k)

  fill_subtree-IsSized : (i : ℕ) → IsSized (fill_subtree t i clear_all)
  unfolding fill_subtree
  fill_subtree-IsSized i = subtree_loop-IsSized t.n (i ∷ []) clear_all clear_all-IsSized

-- A leaf has run: it gave the slots that pass `f`, and the program goes on with `rest`.
pub record Ran (t : TopologyIndex) (f : ℕ → Bool) (rest : List ℕ) (r : Option (List ℕ × PanelSet))
    : Type 0 where
  pub result : PanelSet
  pub runs : r ≡ some (rest, result)
  pub holds : Holds t f result

-- The leaf `op` with the operands `args` gives the slots that pass `f`, in every program.
abbrev pub Evaluates : TopologyIndex → ℕ → List ℕ → (ℕ → Bool) → Type 0
Evaluates t op args f = (rest : List ℕ) → Ran t f rest (sel_eval_leaf op t (args ++ rest) clear_all)

module _ (t : TopologyIndex) (h : IsUsable t) where
  select-Ran :
      (f g : ℕ → Bool) (rest : List ℕ)
      → ((x : ℕ) → x < t.n → f x ≡ g x)
      → Ran t g rest (some (rest, select t f clear_all))
  select-Ran f g rest e = record {
    result = select t f clear_all;
    runs = refl;
    holds = record {
      sized = (select-Holds t h f).sized;
      agrees = λ x l. (select-Holds t h f).agrees x l ∙ e x l;
    };
  }

  nothing-Ran : (rest : List ℕ) → Ran t (λ x. false) rest (some (rest, clear_all))
  nothing-Ran rest = record {
    result = clear_all;
    runs = refl;
    holds = record { sized = clear_all-IsSized; agrees = λ x l. test-clear_all x };
  }

  pub all_lem : Evaluates t 1 [] (selects t all)
  unfolding sel_eval_leaf
  all_lem rest = select-Ran (λ x. true) (selects t all) rest (λ x l. refl)

  pub root_lem : Evaluates t 2 [] (selects t root)
  unfolding sel_eval_leaf
  root_lem rest = record {
    result = set_bit clear_all t.root_slot;
    runs = refl;
    holds = set_bit-Holds t h t.root_slot h.root_lt;
  }

  pub leaves_lem : Evaluates t 3 [] (selects t leaves)
  unfolding sel_eval_leaf
  leaves_lem rest = select-Ran (λ x. is_leaf t x) (selects t leaves) rest (λ x l. refl)

  pub branches_lem : Evaluates t 4 [] (selects t branches)
  unfolding sel_eval_leaf
  branches_lem rest = select-Ran (λ x. is_branch t x) (selects t branches) rest (λ x l. refl)

  pub even_lem : Evaluates t 5 [] (selects t even)
  unfolding sel_eval_leaf
  even_lem rest = select-Ran (selects t even) (selects t even) rest (λ x l. refl)

  pub odd_lem : Evaluates t 6 [] (selects t odd)
  unfolding sel_eval_leaf
  odd_lem rest = select-Ran (selects t odd) (selects t odd) rest (λ x l. refl)

  pub depth_lem : (a b : ℕ) → Evaluates t 7 (a ∷ b ∷ []) (selects t (depth a b))
  unfolding sel_eval_leaf eval_depth
  depth_lem a b rest = select-Ran (selects t (depth a b)) (selects t (depth a b)) rest (λ x l. refl)

  within-Ran :
      (o : Option ℕ) (rest : List ℕ)
      → Ran t
          (λ x. within t x o)
          rest
          (some (rest, elim o [ none ↦ clear_all | some slot ↦ fill_subtree t slot clear_all ]))
  within-Ran none rest = nothing-Ran rest
  within-Ran (some slot) rest = record {
    result = fill_subtree t slot clear_all;
    runs = refl;
    holds = record { sized = fill_subtree-IsSized t h slot; agrees = λ x l. refl };
  }

  adjacent-Ran :
      (o : Option ℕ) (rest : List ℕ)
      → Ran t
          (λ x. adjacent t x o)
          rest
          (some (
            rest,
            elim o [
              | none ↦ clear_all
              | some slot ↦ set_neighbors (neighbors t.graph slot) clear_all
            ],
          ))
  adjacent-Ran none rest = nothing-Ran rest
  adjacent-Ran (some slot) rest =
      let vs = neighbors t.graph slot in
      record {
        result = set_neighbors vs clear_all;
        runs = refl;
        holds = record {
          sized = set_neighbors-IsSized t h vs clear_all clear_all-IsSized;
          agrees = λ x l.
              test-set_neighbors t h vs clear_all x clear_all-IsSized (h.neighbor_lt slot)
              ∙ ap (λ b. b || among x vs) (test-clear_all x);
        };
      }

  pub subtree_lem : (p : ℕ) → Evaluates t 8 (p ∷ []) (selects t (subtree p))
  unfolding sel_eval_leaf eval_subtree
  subtree_lem p rest = within-Ran (slot_of t.graph p) rest

  pub beside_lem : (p : ℕ) → Evaluates t 9 (p ∷ []) (selects t (beside p))
  unfolding sel_eval_leaf eval_neighbors
  beside_lem p rest = adjacent-Ran (slot_of t.graph p) rest

  pub first_lem : (k : ℕ) → Evaluates t 11 (k ∷ []) (selects t (first k))
  unfolding sel_eval_leaf eval_first
  first_lem k rest = select-Ran (selects t (first k)) (selects t (first k)) rest (λ x l. refl)

  pub last_lem : (k : ℕ) → Evaluates t 12 (k ∷ []) (selects t (last k))
  unfolding sel_eval_leaf eval_last
  last_lem k rest =
      select-Ran (λ x. leb (if leb t.n k then 0 else u8 (t.n - k)) (canonical_pos t x))
        (selects t (last k)) rest (λ x l. ground (arith, h.count_le))

  pub indices_lem : (ps : List ℕ) → Evaluates t 13 (length ps ∷ ps) (selects t (indices ps))
  unfolding sel_eval_leaf eval_indices
  indices_lem ps rest =
      let r = set_indices-lem t h ps rest clear_all clear_all-IsSized in
      let fits : ltb (length (ps ++ rest)) (length ps) ≡ false =
        ground (arith, length-append ps rest) in
      rw (fits) (record {
        result = (set_indices t (length ps) (ps ++ rest) clear_all).1;
        runs = ap (λ o. some (o, (set_indices t (length ps) (ps ++ rest) clear_all).1)) r.1;
        holds = record {
          sized = r.0;
          agrees = λ x l. r.2 x ∙ ap (λ b. b || listed t x ps) (test-clear_all x);
        };
      })

  u16_lem : (a b : ℕ) → a ≤ 255 → b ≤ 255 → u16 (a * b) ≡ a * b
  u16_lem a b la lb = let m = mul-le-mul la lb in omega (arith, m)

  pub fraction_lem :
      (a b : ℕ) → a < 256 → b < 256 → Evaluates t 10 (a ∷ b ∷ []) (selects t (fraction a b))
  unfolding sel_eval_leaf eval_fraction
  fraction_lem a b la lb rest = elim (Bool-cases (leb t.n 1)) [
    | inl single ↦ elim (Bool-cases (a == 0)) [
      | inl zero_from ↦
          rw (single, zero_from)
            (record {
              result = set_bit clear_all 0;
              runs = refl;
              holds = record {
                sized = set_bit-IsSized clear_all 0 clear_all-IsSized;
                agrees = λ x l.
                    (set_bit-Holds t h 0 (omega (arith, h.count_pos))).agrees x l
                    ∙ rw (single, zero_from) refl;
              };
            })
      | inr later ↦
          rw (single, later)
            (record {
              result = clear_all;
              runs = refl;
              holds = record {
                sized = clear_all-IsSized;
                agrees = λ x l. test-clear_all x ∙ rw (single, later) refl;
              };
            })
    ]
    | inr several ↦ rw (several) (
        select-Ran
          (λ x.
            leb (u16 (a * (t.n - 1))) (u16 (canonical_pos t x * 255))
            && leb (u16 (canonical_pos t x * 255)) (u16 (b * (t.n - 1))))
          (selects t (fraction a b)) rest
          (λ x l.
            rw
              (
                several,
                u16_lem a (t.n - 1) (omega arith) (omega (arith, h.count_le)),
                u16_lem b (t.n - 1) (omega arith) (omega (arith, h.count_le)),
                u16_lem (canonical_pos t x) 255 (omega (arith, h.position_lt x)) (omega arith),
              )
              refl))
  ]
