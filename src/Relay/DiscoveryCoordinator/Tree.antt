-- ===== src/Relay/DiscoveryCoordinator/Tree.antt =====
-- Trees of panels, and what the controller gets from one that is walked depth first.
use lightnet_firmware.Common.{ℕ, zero, suc, ◌+◌, List, [], ◌∷◌, ◌++◌, u8}
use lightnet_firmware.Relay.DiscoveryTreeBuilder.{TopoLink}

-- The panels behind the edges of one panel, in the order in which it probes: each with the edge that
-- leads to it, its own edge facing back, and the panels behind its other edges.
pub data Forest : Type 0 where
  bare : Forest
  branch : ℕ → ℕ → Forest → Forest → Forest

unfoldable pub size : Forest → ℕ
size bare = 0
size (branch pe ce kids sibs) = suc (size kids + size sibs)

-- What reaches the controller.
pub data Reply : Type 0 where
  registers : ℕ → ℕ → ℕ → Reply
  done : ℕ → Reply

-- A panel's children, numbered from `next` on, each register and are walked to their own DONE before
-- the next one is found.
unfoldable pub replies : ℕ → Forest → List Reply
unfolding size
replies next bare = []
replies next (branch pe ce kids sibs) =
    registers next ce pe
    ∷ (replies (suc next) kids ++ done next ∷ replies (suc next + size kids) sibs)

-- The links that the walk finds under the panel `me`: the pre-order of the tree.
unfoldable pub links : ℕ → ℕ → Forest → List TopoLink
unfolding size
links me next bare = []
links me next (branch pe ce kids sibs) =
    record { panel_a = u8 me; edge_a = u8 pe; panel_b = u8 next; edge_b = u8 ce }
    ∷ (links next (suc next) kids ++ links me (suc next + size kids) sibs)

-- `n` indices from `next` on.
unfoldable pub numbers : ℕ → ℕ → List ℕ
numbers next zero = []
numbers next (suc n) = next ∷ numbers (suc next) n

-- The replies of a whole tree of panels, the root's first.
unfoldable pub tree_replies : ℕ → ℕ → Forest → List Reply
unfolding replies
tree_replies e pe kids = registers 1 e pe ∷ (replies 2 kids ++ done 1 ∷ [])
