-- ===== src/Controller/PanelSelector.antt =====
-- lib/Lightnet/Core/Controller/PanelSelector.hpp: which panels a byte program selects. A program is the list of
-- the `len` bytes in use, and a position in it the list of the bytes from there on. The evaluation stack
-- is listed from its top. The loop over the program takes fuel.
pub mod Sets
pub mod Meaning
pub mod Leaves
pub mod Resolve
mod Tests
use mathlib.Core.Option
use lightnet_firmware.Common.{
  ℕ, zero, suc, ◌+◌, ◌-◌, ◌*◌, ◌%◌, Bool, true, false, ◌&&◌, ◌||◌, List, [], ◌∷◌, ◌++◌, Option,
  none, some, ltb, leb, ◌==◌, if◌then◌else◌, u8, u16, length, get_or,
}
use lightnet_firmware.Controller.PanelGraph.{slot_of, panel_at}
use lightnet_firmware.Controller.TopologyIndex.{
  TopologyIndex, PanelSet, clear_all, set_bit, test, and_with, or_with, invert, is_leaf, is_branch,
  neighbors, fill_subtree,
}

abbrev pub sel_and : ℕ
sel_and = 15

abbrev pub sel_or : ℕ
sel_or = 16

abbrev pub sel_not : ℕ
sel_not = 17

abbrev pub sel_stack_max : ℕ
sel_stack_max = 6

abbrev pub selector_cap : ℕ
selector_cap = 64

pub record PanelSelector : Type 0 where
  pub ops : List ℕ

-- `emit`: the program with the byte, and whether it fitted.
unfoldable pub emit : PanelSelector → ℕ → PanelSelector × Bool
emit s b =
    if leb selector_cap (length s.ops) then (s, false) else (record { ops = s.ops ++ b ∷ [] }, true)

-- `for (x = 0; x < COUNT; x++) if (f(x)) s.set(x);`, with `k` slots left from `x` on.
unfoldable pub set_where : ℕ → ℕ → (ℕ → Bool) → PanelSet → PanelSet
unfolding set_bit
set_where zero x f s = s
set_where (suc k) x f s = set_where k (x + 1) f (if f x then set_bit s x else s)

abbrev pub select : TopologyIndex → (ℕ → Bool) → PanelSet → PanelSet
select t f s = set_where t.n 0 f s

abbrev pub canonical_pos : TopologyIndex → ℕ → ℕ
canonical_pos t x = get_or t.canon_pos x 0

abbrev pub depth_of : TopologyIndex → ℕ → ℕ
depth_of t x = get_or t.depth x 0

-- The panels that a leaf has set and the program behind its operands, if they are all there.
abbrev pub Step : Type 0
Step = Option (List ℕ × PanelSet)

unfoldable pub eval_depth : TopologyIndex → PanelSet → List ℕ → Step
eval_depth t s (a ∷ b ∷ ops) =
    some (ops, select t (λ x. leb a (depth_of t x) && leb (depth_of t x) b) s)
eval_depth t s _ = none

unfoldable pub eval_subtree : TopologyIndex → PanelSet → List ℕ → Step
eval_subtree t s [] = none
eval_subtree t s (p ∷ ops) =
    some (ops, elim (slot_of t.graph p) [ none ↦ s | some slot ↦ fill_subtree t slot s ])

unfoldable pub set_neighbors : List (ℕ × ℕ) → PanelSet → PanelSet
unfolding set_bit
set_neighbors [] s = s
set_neighbors ((v, e) ∷ vs) s = set_neighbors vs (set_bit s v)

unfoldable pub eval_neighbors : TopologyIndex → PanelSet → List ℕ → Step
eval_neighbors t s [] = none
eval_neighbors t s (p ∷ ops) = some (
  ops,
  elim (slot_of t.graph p) [ none ↦ s | some slot ↦ set_neighbors (neighbors t.graph slot) s ],
)

unfoldable pub eval_fraction : TopologyIndex → PanelSet → List ℕ → Step
eval_fraction t s (a ∷ b ∷ ops) =
    let span = t.n - 1 in
    let np255 = λ (x : ℕ). u16 (canonical_pos t x * 255) in
    some (
      ops,
      if leb t.n 1
          then (if a == 0 then set_bit s 0 else s)
          else select t (λ x. leb (u16 (a * span)) (np255 x) && leb (np255 x) (u16 (b * span))) s,
    )
eval_fraction t s _ = none

unfoldable pub eval_first : TopologyIndex → PanelSet → List ℕ → Step
eval_first t s [] = none
eval_first t s (k ∷ ops) = some (ops, select t (λ x. ltb (canonical_pos t x) k) s)

unfoldable pub eval_last : TopologyIndex → PanelSet → List ℕ → Step
eval_last t s [] = none
eval_last t s (k ∷ ops) =
    let from = if leb t.n k then 0 else u8 (t.n - k) in
    some (ops, select t (λ x. leb from (canonical_pos t x)) s)

-- The loop over the `k` indices of a list, each of which the program has.
unfoldable pub set_indices : TopologyIndex → ℕ → List ℕ → PanelSet → List ℕ × PanelSet
set_indices t zero ops s = (ops, s)
set_indices t (suc k) [] s = ([], s)
set_indices t (suc k) (p ∷ ops) s =
    set_indices t k ops (elim (slot_of t.graph p) [ none ↦ s | some slot ↦ set_bit s slot ])

unfoldable pub eval_indices : TopologyIndex → PanelSet → List ℕ → Step
eval_indices t s [] = none
eval_indices t s (list_len ∷ ops) =
    if ltb (length ops) list_len then none else some (set_indices t list_len ops s)

unfoldable pub sel_eval_leaf : ℕ → TopologyIndex → List ℕ → PanelSet → Step
sel_eval_leaf op t ops s =
    if op == 1
    then some (ops, select t (λ x. true) s)
    else if op == 2
    then some (ops, set_bit s t.root_slot)
    else if op == 3
    then some (ops, select t (λ x. is_leaf t x) s)
    else if op == 4
    then some (ops, select t (λ x. is_branch t x) s)
    else if op == 5
    then some (ops, select t (λ x. canonical_pos t x % 2 == 0) s)
    else if op == 6
    then some (ops, select t (λ x. canonical_pos t x % 2 == 1) s)
    else if op == 7
    then eval_depth t s ops
    else if op == 8
    then eval_subtree t s ops
    else if op == 9
    then eval_neighbors t s ops
    else if op == 10
    then eval_fraction t s ops
    else if op == 11
    then eval_first t s ops
    else if op == 12
    then eval_last t s ops
    else if op == 13
    then eval_indices t s ops
    else none

-- The branch of SEL_AND and SEL_OR.
unfoldable pub combine : (PanelSet → PanelSet → PanelSet) → List PanelSet → Option (List PanelSet)
combine f (b ∷ a ∷ stack) = some (f a b ∷ stack)
combine f _ = none

unfoldable pub complement : TopologyIndex → List PanelSet → Option (List PanelSet)
complement t [] = none
complement t (a ∷ stack) = some (invert a t.n ∷ stack)

-- One round of the loop of `resolveSelector`: the rest of the program and the new stack.
unfoldable pub resolve_step :
    ℕ → TopologyIndex → List ℕ → List PanelSet → Option (List ℕ × List PanelSet)
resolve_step op t ops stack =
    if op == sel_and
    then Option.map (λ r. (ops, r)) (combine and_with stack)
    else if op == sel_or
    then Option.map (λ r. (ops, r)) (combine or_with stack)
    else if op == sel_not
    then Option.map (λ r. (ops, r)) (complement t stack)
    else if leb sel_stack_max (length stack)
    then none
    else Option.map (λ r. (r.0, r.1 ∷ stack)) (sel_eval_leaf op t ops clear_all)

-- `if (sp != 1) return false; out = stack[0];`
unfoldable pub finish : List PanelSet → Option PanelSet
finish (s ∷ []) = some s
finish _ = none

unfoldable pub resolve_loop : ℕ → TopologyIndex → List ℕ → List PanelSet → Option PanelSet
unfolding finish
resolve_loop fuel t [] stack = finish stack
resolve_loop zero t (op ∷ ops) stack = none
resolve_loop (suc fuel) t (op ∷ ops) stack = elim (resolve_step op t ops stack) [
  | none ↦ none
  | some (rest, stack') ↦ resolve_loop fuel t rest stack'
]

unfoldable pub resolve_selector : PanelSelector → TopologyIndex → Option PanelSet
unfolding resolve_loop
resolve_selector sel t = resolve_loop (length sel.ops) t sel.ops []

-- The loop of `emitPanelIndices`, with `k` slots left from `x` on and room for `room` more.
unfoldable pub emit_from : TopologyIndex → PanelSet → ℕ → ℕ → ℕ → List ℕ
emit_from t s zero x room = []
emit_from t s (suc k) x zero = []
emit_from t s (suc k) x (suc room) =
    if test s x
    then panel_at t.graph x ∷ emit_from t s k (x + 1) room
    else emit_from t s k (x + 1) (suc room)

unfoldable pub emit_panel_indices : PanelSet → TopologyIndex → ℕ → List ℕ
unfolding emit_from
emit_panel_indices s t max_len = emit_from t s t.n 0 max_len
