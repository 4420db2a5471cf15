-- ===== src/Controller/PanelSelector/Resolve.antt =====
-- resolveSelector on the program of a selector: the panels that the selector selects.
use mathlib.Core.Option
use mathlib.Core.List.{append-nil}
use lightnet_firmware.Common.{
  ℕ, suc, ◌+◌, ◌-◌, ◌≤◌, ◌<◌, ◌≡◌, refl, ap, sym, ◌∙◌, Bool, false, List, [], ◌∷◌, ◌++◌, Option,
  some, arith, leb, ◌==◌, length, length-append,
}
use lightnet_firmware.Controller.TopologyIndex.{
  TopologyIndex, PanelSet, clear_all, test, and_with, or_with, invert,
}
use lightnet_firmware.Controller.PanelSelector.{
  sel_eval_leaf, combine, complement, resolve_step, resolve_loop, finish, resolve_selector,
}
use lightnet_firmware.Controller.PanelSelector.Sets.{
  and_with-IsSized, or_with-IsSized, invert-IsSized, test-and_with, test-or_with, test-invert,
}
use lightnet_firmware.Controller.PanelSelector.Meaning.{
  Selector, code, need, HasBytes, selects, IsUsable,
}
use lightnet_firmware.Controller.PanelSelector.Meaning.Selector.{
  all, root, leaves, branches, even, odd, depth, fraction, subtree, beside, first, last, indices,
  both, either, except,
}
use lightnet_firmware.Controller.PanelSelector.Leaves.{
  Holds, Ran, Evaluates, all_lem, root_lem, leaves_lem, branches_lem, even_lem, odd_lem, depth_lem,
  subtree_lem, beside_lem, first_lem, last_lem, indices_lem, fraction_lem,
}

-- The rounds that a program takes, and the fuel that leaves `n` for what follows it.
abbrev nodes : Selector → ℕ
nodes (both e f) = nodes e + (nodes f + 1)
nodes (either e f) = nodes e + (nodes f + 1)
nodes (except e) = nodes e + 1
nodes _ = 1

abbrev fuel_for : Selector → ℕ → ℕ
fuel_for (both e f) n = fuel_for e (fuel_for f (suc n))
fuel_for (either e f) n = fuel_for e (fuel_for f (suc n))
fuel_for (except e) n = fuel_for e (suc n)
fuel_for _ n = suc n

-- A program has left its set on the stack.
record Pushes (t : TopologyIndex) (e : Selector) (rest : List ℕ) (stack : List PanelSet) (fuel : ℕ)
    : Type 0 where
  result : PanelSet
  runs :
      resolve_loop (fuel_for e fuel) t (code e ++ rest) stack
      ≡ resolve_loop fuel t rest (result ∷ stack)
  holds : Holds t (selects t e) result

module _ (t : TopologyIndex) (h : IsUsable t) where
  leaf_lem :
      (op : ℕ) (ops rest : List ℕ) (s : PanelSet) (stack : List PanelSet)
      → op ≤ 14
      → length stack < 6
      → sel_eval_leaf op t ops clear_all ≡ some (rest, s)
      → resolve_step op t ops stack ≡ some (rest, s ∷ stack)
  unfolding resolve_step
  leaf_lem op ops rest s stack small room e =
      let not_and : (op == 15) ≡ false = ground arith in
      let not_or : (op == 16) ≡ false = ground arith in
      let not_not : (op == 17) ≡ false = ground arith in
      let fits : leb 6 (length stack) ≡ false = ground arith in
      rw (not_and, not_or, not_not, fits, e, resolve_step) refl

  leaf_Pushes :
      (op : ℕ) (args rest : List ℕ) (f : ℕ → Bool) (stack : List PanelSet) (fuel : ℕ)
      → op ≤ 14
      → length stack < 6
      → (r : Ran t f rest (sel_eval_leaf op t (args ++ rest) clear_all))
      → resolve_loop (suc fuel) t (op ∷ args ++ rest) stack
        ≡ resolve_loop fuel t rest (r.result ∷ stack)
  unfolding resolve_loop
  leaf_Pushes op args rest f stack fuel small room r =
      rw (leaf_lem op (args ++ rest) rest r.result stack small room r.runs, resolve_loop) refl

  combine_both :
      (a b : PanelSet) (rest : List ℕ) (stack : List PanelSet) (fuel : ℕ)
      → resolve_loop (suc fuel) t (15 ∷ rest) (b ∷ a ∷ stack)
        ≡ resolve_loop fuel t rest (and_with a b ∷ stack)
  unfolding resolve_loop resolve_step combine
  combine_both a b rest stack fuel = refl

  combine_either :
      (a b : PanelSet) (rest : List ℕ) (stack : List PanelSet) (fuel : ℕ)
      → resolve_loop (suc fuel) t (16 ∷ rest) (b ∷ a ∷ stack)
        ≡ resolve_loop fuel t rest (or_with a b ∷ stack)
  unfolding resolve_loop resolve_step combine
  combine_either a b rest stack fuel = refl

  complement_step :
      (a : PanelSet) (rest : List ℕ) (stack : List PanelSet) (fuel : ℕ)
      → resolve_loop (suc fuel) t (17 ∷ rest) (a ∷ stack)
        ≡ resolve_loop fuel t rest (invert a t.n ∷ stack)
  unfolding resolve_loop resolve_step complement
  complement_step a rest stack fuel = refl

  append_both :
      (xs ys : List ℕ) (op : ℕ) (rest : List ℕ)
      → (xs ++ (ys ++ op ∷ [])) ++ rest ≡ xs ++ (ys ++ op ∷ rest)
  append_both [] [] op rest = refl
  append_both [] (y ∷ ys) op rest = ap (λ zs. y ∷ zs) (append_both [] ys op rest)
  append_both (x ∷ xs) ys op rest = ap (λ zs. x ∷ zs) (append_both xs ys op rest)

  leaf :
      (e : Selector) (op : ℕ) (args rest : List ℕ) (stack : List PanelSet) (fuel : ℕ)
      → op ≤ 14
      → length stack < 6
      → code e ≡ op ∷ args
      → fuel_for e fuel ≡ suc fuel
      → Evaluates t op args (selects t e)
      → Pushes t e rest stack fuel
  leaf e op args rest stack fuel small room c k ran =
      let r = ran rest in
      record {
        result = r.result;
        runs = rw (c, k) (leaf_Pushes op args rest (selects t e) stack fuel small room r);
        holds = r.holds;
      }

  both_Holds :
      (e f : Selector) (a b : PanelSet)
      → Holds t (selects t e) a
      → Holds t (selects t f) b
      → Holds t (selects t (both e f)) (and_with a b)
  both_Holds e f a b ha hb = record {
    sized = and_with-IsSized a b ha.sized hb.sized;
    agrees = λ x l. test-and_with a b ha.sized hb.sized x ∙ rw (ha.agrees x l, hb.agrees x l) refl;
  }

  either_Holds :
      (e f : Selector) (a b : PanelSet)
      → Holds t (selects t e) a
      → Holds t (selects t f) b
      → Holds t (selects t (either e f)) (or_with a b)
  either_Holds e f a b ha hb = record {
    sized = or_with-IsSized a b ha.sized hb.sized;
    agrees = λ x l. test-or_with a b ha.sized hb.sized x ∙ rw (ha.agrees x l, hb.agrees x l) refl;
  }

  except_Holds :
      (e : Selector) (a : PanelSet)
      → Holds t (selects t e) a
      → Holds t (selects t (except e)) (invert a t.n)
  except_Holds e a ha = record {
    sized = invert-IsSized a t.n ha.sized;
    agrees =
        λ x l. test-invert a t.n x ha.sized (omega (arith, h.count_le)) l ∙ rw (ha.agrees x l) refl;
  }

  -- Two programs, one after the other, and an operation on the two sets they leave.
  pair_runs :
      (e f : Selector) (op : ℕ) (g : PanelSet → PanelSet → PanelSet) (rest : List ℕ)
      (stack : List PanelSet) (fuel : ℕ)
      → ((a b : PanelSet)
          → resolve_loop (suc fuel) t (op ∷ rest) (b ∷ a ∷ stack)
            ≡ resolve_loop fuel t rest (g a b ∷ stack))
      → (p : Pushes t e (code f ++ op ∷ rest) stack (fuel_for f (suc fuel)))
      → (q : Pushes t f (op ∷ rest) (p.result ∷ stack) (suc fuel))
      → resolve_loop
          (fuel_for e (fuel_for f (suc fuel)))
          t
          ((code e ++ (code f ++ op ∷ [])) ++ rest)
          stack
        ≡ resolve_loop fuel t rest (g p.result q.result ∷ stack)
  pair_runs e f op g rest stack fuel step p q =
      rw (append_both (code e) (code f) op rest) (p.runs ∙ q.runs ∙ step p.result q.result)

  code-Pushes :
      (e : Selector) (rest : List ℕ) (stack : List PanelSet) (fuel : ℕ)
      → HasBytes e
      → need e + length stack ≤ 6
      → Pushes t e rest stack fuel
  code-Pushes all rest stack fuel b n =
      leaf all 1 [] rest stack fuel (omega arith) (omega arith) refl refl (all_lem t h)
  code-Pushes root rest stack fuel b n =
      leaf root 2 [] rest stack fuel (omega arith) (omega arith) refl refl (root_lem t h)
  code-Pushes leaves rest stack fuel b n =
      leaf leaves 3 [] rest stack fuel (omega arith) (omega arith) refl refl (leaves_lem t h)
  code-Pushes branches rest stack fuel b n =
      leaf branches 4 [] rest stack fuel (omega arith) (omega arith) refl refl (branches_lem t h)
  code-Pushes even rest stack fuel b n =
      leaf even 5 [] rest stack fuel (omega arith) (omega arith) refl refl (even_lem t h)
  code-Pushes odd rest stack fuel b n =
      leaf odd 6 [] rest stack fuel (omega arith) (omega arith) refl refl (odd_lem t h)
  code-Pushes (depth x y) rest stack fuel b n =
      leaf (depth x y) 7 (x ∷ y ∷ []) rest stack fuel (omega arith) (omega arith) refl refl
        (depth_lem t h x y)
  code-Pushes (subtree p) rest stack fuel b n =
      leaf (subtree p) 8 (p ∷ []) rest stack fuel (omega arith) (omega arith) refl refl
        (subtree_lem t h p)
  code-Pushes (beside p) rest stack fuel b n =
      leaf (beside p) 9 (p ∷ []) rest stack fuel (omega arith) (omega arith) refl refl
        (beside_lem t h p)
  code-Pushes (fraction x y) rest stack fuel b n =
      leaf (fraction x y) 10 (x ∷ y ∷ []) rest stack fuel (omega arith) (omega arith) refl refl
        (fraction_lem t h x y b.0 b.1)
  code-Pushes (first k) rest stack fuel b n =
      leaf (first k) 11 (k ∷ []) rest stack fuel (omega arith) (omega arith) refl refl
        (first_lem t h k)
  code-Pushes (last k) rest stack fuel b n =
      leaf (last k) 12 (k ∷ []) rest stack fuel (omega arith) (omega arith) refl refl
        (last_lem t h k)
  code-Pushes (indices ps) rest stack fuel b n =
      leaf (indices ps) 13 (length ps ∷ ps) rest stack fuel (omega arith) (omega arith) refl refl
        (indices_lem t h ps)
  code-Pushes (both e f) rest stack fuel b n =
      let p =
        code-Pushes e (code f ++ 15 ∷ rest) stack (fuel_for f (suc fuel)) b.0 (ground arith) in
      let q = code-Pushes f (15 ∷ rest) (p.result ∷ stack) (suc fuel) b.1 (ground arith) in
      record {
        result = and_with p.result q.result;
        runs =
            pair_runs e f 15 and_with rest stack fuel (λ x y. combine_both x y rest stack fuel) p q;
        holds = both_Holds e f p.result q.result p.holds q.holds;
      }
  code-Pushes (either e f) rest stack fuel b n =
      let p =
        code-Pushes e (code f ++ 16 ∷ rest) stack (fuel_for f (suc fuel)) b.0 (ground arith) in
      let q = code-Pushes f (16 ∷ rest) (p.result ∷ stack) (suc fuel) b.1 (ground arith) in
      record {
        result = or_with p.result q.result;
        runs =
            pair_runs e f 16 or_with rest stack fuel (λ x y. combine_either x y rest stack fuel) p
              q;
        holds = either_Holds e f p.result q.result p.holds q.holds;
      }
  code-Pushes (except e) rest stack fuel b n =
      let p = code-Pushes e (17 ∷ rest) stack (suc fuel) b n in
      record {
        result = invert p.result t.n;
        runs =
            rw (append_both (code e) [] 17 rest)
              (p.runs ∙ complement_step p.result rest stack fuel);
        holds = except_Holds e p.result p.holds;
      }

fuel_for_lem : (e : Selector) (n : ℕ) → fuel_for e n ≡ nodes e + n
fuel_for_lem all n = omega arith
fuel_for_lem root n = omega arith
fuel_for_lem leaves n = omega arith
fuel_for_lem branches n = omega arith
fuel_for_lem even n = omega arith
fuel_for_lem odd n = omega arith
fuel_for_lem (depth a b) n = omega arith
fuel_for_lem (subtree p) n = omega arith
fuel_for_lem (beside p) n = omega arith
fuel_for_lem (fraction a b) n = omega arith
fuel_for_lem (first k) n = omega arith
fuel_for_lem (last k) n = omega arith
fuel_for_lem (indices ps) n = omega arith
fuel_for_lem (both e f) n =
    omega (arith, fuel_for_lem e (fuel_for f (suc n)), fuel_for_lem f (suc n))
fuel_for_lem (either e f) n =
    omega (arith, fuel_for_lem e (fuel_for f (suc n)), fuel_for_lem f (suc n))
fuel_for_lem (except e) n = omega (arith, fuel_for_lem e (suc n))

nodes-le : (e : Selector) → nodes e ≤ length (code e)
nodes-le all = omega arith
nodes-le root = omega arith
nodes-le leaves = omega arith
nodes-le branches = omega arith
nodes-le even = omega arith
nodes-le odd = omega arith
nodes-le (depth a b) = omega arith
nodes-le (subtree p) = omega arith
nodes-le (beside p) = omega arith
nodes-le (fraction a b) = omega arith
nodes-le (first k) = omega arith
nodes-le (last k) = omega arith
nodes-le (indices ps) = omega arith
nodes-le (both e f) = omega (
  arith,
  nodes-le e,
  nodes-le f,
  length-append (code e) (code f ++ 15 ∷ []),
  length-append (code f) (15 ∷ []),
)
nodes-le (either e f) = omega (
  arith,
  nodes-le e,
  nodes-le f,
  length-append (code e) (code f ++ 16 ∷ []),
  length-append (code f) (16 ∷ []),
)
nodes-le (except e) = omega (arith, nodes-le e, length-append (code e) (17 ∷ []))

-- A resolution gave a set with exactly the slots in use that the selector selects.
pub record Resolves (t : TopologyIndex) (e : Selector) (r : Option PanelSet) : Type 0 where
  pub result : PanelSet
  pub runs : r ≡ some result
  pub agrees : (x : ℕ) → x < t.n → test result x ≡ selects t e x

-- The program of an expression resolves to its set.
resolve_code :
    (t : TopologyIndex)
    → IsUsable t
    → (e : Selector) → HasBytes e
    → need e ≤ 6
    → Resolves t e (resolve_selector (record { ops = code e }) t)
unfolding resolve_selector resolve_loop finish
resolve_code t h e b n =
    let spare = length (code e) - nodes e in
    let p = code-Pushes t h e [] [] spare b (omega arith) in
    let fuel : fuel_for e spare ≡ length (code e) =
      omega (arith, fuel_for_lem e spare, nodes-le e) in
    record {
      result = p.result;
      runs =
          ap (λ k. resolve_loop k t (code e) []) (sym fuel)
          ∙ ap (λ ops. resolve_loop (fuel_for e spare) t ops []) (sym (append-nil (code e)))
          ∙ p.runs;
      agrees = p.holds.agrees;
    }

-- For a topology with 1 to 100 panels whose root, lookups and neighbours are slots in use and whose canonical positions are
-- bytes: the program of any selector expression that holds at most 6 sets at once, with byte operands,
-- resolves, and a slot in use is in the resulting set exactly when the expression selects it.
pub resolve_selector-code :
    (t : TopologyIndex) (e : Selector) (x : ℕ)
    → IsUsable t
    → HasBytes e
    → need e ≤ 6
    → x < t.n
    → Option.map (λ s. test s x) (resolve_selector (record { ops = code e }) t)
      ≡ some (selects t e x)
resolve_selector-code t e x h b n l =
    let r = resolve_code t h e b n in
    ap (Option.map (λ s. test s x)) r.runs ∙ ap some (r.agrees x l)
