-- ===== src/Controller/PanelSelector/Meaning.antt =====
-- Selectors as expressions, their byte code, and what they select.
use lightnet_firmware.Common.{
  ℕ, ◌+◌, ◌-◌, ◌*◌, ◌%◌, ◌<◌, ◌≤◌, ◌≡◌, Bool, true, false, not, ◌&&◌, ◌||◌, List, [], ◌∷◌, ◌++◌,
  Option, none, some, ltb, leb, ◌==◌, if◌then◌else◌, length, All,
}
use lightnet_firmware.Controller.PanelGraph.{slot_of}
use lightnet_firmware.Controller.TopologyIndex.{
  TopologyIndex, clear_all, test, is_leaf, is_branch, neighbors, fill_subtree,
}
use lightnet_firmware.Controller.PanelSelector.{canonical_pos, depth_of}

pub data Selector : Type 0 where
  all root leaves branches even odd : Selector
  depth fraction : ℕ → ℕ → Selector
  subtree beside first last : ℕ → Selector
  indices : List ℕ → Selector
  both either : Selector → Selector → Selector
  except : Selector → Selector

-- The program of a selector: operands first.
abbrev pub code : Selector → List ℕ
code all = 1 ∷ []
code root = 2 ∷ []
code leaves = 3 ∷ []
code branches = 4 ∷ []
code even = 5 ∷ []
code odd = 6 ∷ []
code (depth a b) = 7 ∷ a ∷ b ∷ []
code (subtree p) = 8 ∷ p ∷ []
code (beside p) = 9 ∷ p ∷ []
code (fraction a b) = 10 ∷ a ∷ b ∷ []
code (first k) = 11 ∷ k ∷ []
code (last k) = 12 ∷ k ∷ []
code (indices ps) = 13 ∷ length ps ∷ ps
code (both e f) = code e ++ (code f ++ 15 ∷ [])
code (either e f) = code e ++ (code f ++ 16 ∷ [])
code (except e) = code e ++ 17 ∷ []

-- The sets that its evaluation holds at once.
abbrev pub need : Selector → ℕ
need (both e f) = if ltb (need e) (need f + 1) then need f + 1 else need e
need (either e f) = if ltb (need e) (need f + 1) then need f + 1 else need e
need (except e) = need e
need _ = 1

-- Its operands are bytes.
abbrev pub HasBytes : Selector → Type 0
HasBytes (fraction a b) = (a < 256) × (b < 256)
HasBytes (both e f) = HasBytes e × HasBytes f
HasBytes (either e f) = HasBytes e × HasBytes f
HasBytes (except e) = HasBytes e
HasBytes _ = Unit

-- Whether `x` is the slot of a known panel.
abbrev pub is_slot : ℕ → Option ℕ → Bool
is_slot x none = false
is_slot x (some s) = x == s

abbrev pub among : ℕ → List (ℕ × ℕ) → Bool
among x [] = false
among x ((v, e) ∷ vs) = (x == v) || among x vs

abbrev pub listed : TopologyIndex → ℕ → List ℕ → Bool
listed t x [] = false
listed t x (p ∷ ps) = is_slot x (slot_of t.graph p) || listed t x ps

abbrev pub within : TopologyIndex → ℕ → Option ℕ → Bool
within t x none = false
within t x (some s) = test (fill_subtree t s clear_all) x

abbrev pub adjacent : TopologyIndex → ℕ → Option ℕ → Bool
adjacent t x none = false
adjacent t x (some s) = among x (neighbors t.graph s)

-- Whether a selector selects the slot `x`.
abbrev pub selects : TopologyIndex → Selector → ℕ → Bool
selects t all x = true
selects t root x = x == t.root_slot
selects t leaves x = is_leaf t x
selects t branches x = is_branch t x
selects t even x = canonical_pos t x % 2 == 0
selects t odd x = canonical_pos t x % 2 == 1
selects t (depth a b) x = leb a (depth_of t x) && leb (depth_of t x) b
selects t (subtree p) x = within t x (slot_of t.graph p)
selects t (beside p) x = adjacent t x (slot_of t.graph p)
selects t (fraction a b) x =
    if leb t.n 1
    then (a == 0) && (x == 0)
    else leb (a * (t.n - 1)) (canonical_pos t x * 255)
      && leb (canonical_pos t x * 255) (b * (t.n - 1))
selects t (first k) x = ltb (canonical_pos t x) k
selects t (last k) x = leb t.n (canonical_pos t x + k)
selects t (indices ps) x = listed t x ps
selects t (both e f) x = selects t e x && selects t f x
selects t (either e f) x = selects t e x || selects t f x
selects t (except e) x = not (selects t e x)

-- An index whose slots are below its count, of at most LIGHTNET_MAX_PANELS.
pub record IsUsable (t : TopologyIndex) : Type 0 where
  pub count_le : t.n ≤ 100
  pub count_pos : 1 ≤ t.n
  pub root_lt : t.root_slot < t.n
  pub slot_lt : (p s : ℕ) → slot_of t.graph p ≡ some s → s < t.n
  pub neighbor_lt : (u : ℕ) → All (λ c. c.0 < t.n) (neighbors t.graph u)
  pub position_lt : (x : ℕ) → canonical_pos t x < 256
