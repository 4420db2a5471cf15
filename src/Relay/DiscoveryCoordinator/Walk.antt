-- ===== src/Relay/DiscoveryCoordinator/Walk.antt =====
-- The walk over a whole tree of panels: the frames that a tree answers with, and what the
-- coordinator makes of them.
use mathlib.Core.List.{append_assoc, append-nil}
use native.Mathlib.Nat.{add-zero, add-suc, suc-add}
use lightnet_firmware.Common.{
  ℕ, suc, ◌+◌, ◌≤◌, ◌<◌, ◌≡◌, refl, ◌∙◌, true, false, List, [], ◌∷◌, ◌++◌, some, arith, length,
  length-append, u8,
}
use lightnet_firmware.Protocol.Types.{packet_register_edge, packet_discovery_done}
use lightnet_firmware.Protocol.Meta.{make_meta}
use lightnet_firmware.Relay.DiscoveryTreeBuilder
use lightnet_firmware.Relay.DiscoveryTreeBuilder.{
  DiscoveryTreeBuilder, TopoLink, add_root, add_link, record_panel,
}
use lightnet_firmware.Relay.DiscoveryCoordinator.{
  DiscoveryCoordinator, new, handle_register_edge_reply, resume, handle_discovery_done, build_tree,
}
use lightnet_firmware.Relay.DiscoveryCoordinator.Invariant.{Falls, length-le-of_Falls}
use lightnet_firmware.Relay.DiscoveryCoordinator.Tree.{
  Forest, bare, branch, size, Reply, registers, done, replies, links, numbers, tree_replies,
}

-- The coordinator handles one reply; retries and what it sends do not matter here.
unfoldable pub receive : DiscoveryCoordinator → Reply → DiscoveryCoordinator
receive c (registers i e pe) =
    (handle_register_edge_reply c
      (record {
        meta = make_meta packet_register_edge 0;
        panel_index = i;
        edge_index = e;
        parent_edge_index = pe;
      })
      0).0
receive c (done i) =
    (handle_discovery_done c (record { meta = make_meta packet_discovery_done 0; panel_index = i })
      0).0

unfoldable pub receive_all : DiscoveryCoordinator → List Reply → DiscoveryCoordinator
unfolding receive
receive_all c [] = c
receive_all c (r ∷ rs) = receive_all (receive c r) rs

receive_all-append :
    (c : DiscoveryCoordinator) (xs ys : List Reply)
    → receive_all c (xs ++ ys) ≡ receive_all (receive_all c xs) ys
unfolding receive_all
receive_all-append c [] ys = refl
receive_all-append c (x ∷ xs) ys = receive_all-append (receive c x) xs ys

-- The part of the coordinator that the walk is about.
pub record IsAt (c : DiscoveryCoordinator) (next me : ℕ) (stack : List ℕ) (t : DiscoveryTreeBuilder)
    : Type 0 where
  pub next_is : c.next_panel_index ≡ next
  pub frontier_is : c.frontier_panel_index ≡ me
  pub stack_is : c.stack ≡ stack
  pub tree_is : c.tree_builder ≡ some t
  pub going : c.complete ≡ false

-- A builder with `ls` appended.
pub linked : DiscoveryTreeBuilder → ℕ → List TopoLink → DiscoveryTreeBuilder
linked t next [] = t
linked t next (l ∷ ls) =
    linked
      (record t {
        indices = t.indices ++ u8 next ∷ [];
        edge_counts = t.edge_counts ++ t.edge_count_per_panel ∷ [];
        links = t.links ++ l ∷ [];
      })
      (suc next) ls

linked-append :
    (xs : List TopoLink) (t : DiscoveryTreeBuilder) (next : ℕ) (ys : List TopoLink)
    → linked t next (xs ++ ys) ≡ linked (linked t next xs) (next + length xs) ys
unfolding linked
linked-append [] t next ys = rw add-zero
linked-append (x ∷ xs) t next ys = rw (add-suc, ← suc-add) (linked-append xs _ (suc next) ys)

length-linked :
    (ls : List TopoLink) (t : DiscoveryTreeBuilder) (next : ℕ)
    → (length (linked t next ls).indices ≡ length t.indices + length ls)
      × (length (linked t next ls).links ≡ length t.links + length ls)
unfolding linked
length-linked [] t next = omega arith
length-linked (l ∷ ls) t next = omega (
  arith,
  length-append t.indices (u8 next ∷ []),
  length-append t.links (l ∷ []),
  length-linked ls
      (record {
        edge_count_per_panel = t.edge_count_per_panel;
        indices = t.indices ++ u8 next ∷ [];
        edge_counts = t.edge_counts ++ t.edge_count_per_panel ∷ [];
        links = t.links ++ l ∷ [];
      })
      (suc next),
)

length-links : (me next : ℕ) (f : Forest) → length (links me next f) ≡ size f
unfolding links
length-links me next bare = refl
length-links me next (branch pe ce kids sibs) = omega (
  arith,
  length-append (links next (suc next) kids) (links me (suc next + size kids) sibs),
  length-links next (suc next) kids,
  length-links me (suc next + size kids) sibs,
)

register-IsAt :
    (c : DiscoveryCoordinator) (next me e pe : ℕ) (stack : List ℕ) (t : DiscoveryTreeBuilder)
    → IsAt c next me stack t
    → next ≤ 100
    → 0 < me
    → me < next
    → Falls me stack
    → length t.indices < 100
    → length t.links < 100
    → IsAt (receive c (registers next e pe)) (suc next) next (me ∷ stack) (
        linked t next
          (record { panel_a = u8 me; edge_a = u8 pe; panel_b = u8 next; edge_b = u8 e } ∷ []))
unfolding receive handle_register_edge_reply build_tree linked
register-IsAt c next me e pe stack t h a b l f i k = ground (arith, length-le-of_Falls me stack f)

done-IsAt :
    (c : DiscoveryCoordinator) (next me x : ℕ) (stack : List ℕ) (t : DiscoveryTreeBuilder)
    → IsAt c next me (x ∷ stack) t
    → 0 < x
    → IsAt (receive c (done me)) next x stack t
unfolding receive handle_discovery_done resume
done-IsAt c next me x stack t h p = ground arith

-- From a frontier `me`, the replies of the panels behind it bring the walk back to `me` with those
-- panels numbered and linked.
walk_forest :
    (f : Forest) (c : DiscoveryCoordinator) (next me : ℕ) (stack : List ℕ)
    (t : DiscoveryTreeBuilder)
    → IsAt c next me stack t
    → 0 < me
    → me < next
    → Falls me stack
    → next + size f ≤ 101
    → length t.indices < next
    → length t.links < next
    → IsAt
        (receive_all c (replies next f))
        (next + size f)
        me
        stack
        (linked t next (links me next f))
unfolding receive_all replies links size linked
walk_forest bare c next me stack t h a b l n i k = rw add-zero h
walk_forest (branch pe ce kids sibs) c next me stack t h a b l n i k =
    let link : TopoLink = record {
      panel_a = u8 me;
      edge_a = u8 pe;
      panel_b = u8 next;
      edge_b = u8 ce;
    } in
    let t1 = linked t next (link ∷ []) in
    let t2 = linked t1 (suc next) (links next (suc next) kids) in
    let m = length-links next (suc next) kids in
    let h1 =
      register-IsAt c next me ce pe stack t h (omega arith) a b l (omega arith) (omega arith) in
    let h2 =
      walk_forest kids (receive c (registers next ce pe)) (suc next) next (me ∷ stack) t1 h1
        (omega arith) (omega arith) (b, l) (omega arith)
        (omega (arith, length-linked (link ∷ []) t next))
        (omega (arith, length-linked (link ∷ []) t next)) in
    let h3 = done-IsAt _ (suc next + size kids) next me stack t2 h2 a in
    let h4 =
      walk_forest sibs _ (suc next + size kids) me stack t2 h3 a (omega arith) l (omega arith)
        (omega (
          arith,
          m,
          length-linked (link ∷ []) t next,
          length-linked (links next (suc next) kids) t1 (suc next),
        ))
        (omega (
          arith,
          m,
          length-linked (link ∷ []) t next,
          length-linked (links next (suc next) kids) t1 (suc next),
        )) in
    let total : next + suc (size kids + size sibs) ≡ suc next + size kids + size sibs =
      omega arith in
    rw (receive_all-append, linked-append, m, total) h4

indices-linked :
    (ls : List TopoLink) (t : DiscoveryTreeBuilder) (next : ℕ)
    → next + length ls ≤ 256
    → (linked t next ls).indices ≡ t.indices ++ numbers next (length ls)
unfolding linked numbers
indices-linked [] t next h = rw append-nil
indices-linked (l ∷ ls) t next h =
    let small : u8 next ≡ next = omega arith in
    indices-linked ls _ (suc next) (omega arith) ∙ rw (append_assoc, small)

links-linked :
    (ls : List TopoLink) (t : DiscoveryTreeBuilder) (next : ℕ)
    → (linked t next ls).links ≡ t.links ++ ls
unfolding linked
links-linked [] t next = rw append-nil
links-linked (l ∷ ls) t next = links-linked ls _ (suc next) ∙ rw append_assoc

root-IsAt :
    (n e pe : ℕ)
    → IsAt
        (receive (new (some (DiscoveryTreeBuilder.new n))) (registers 1 e pe))
        2
        1
        (0 ∷ [])
        (add_root (DiscoveryTreeBuilder.new n) 1)
unfolding receive handle_register_edge_reply build_tree new DiscoveryTreeBuilder.new
root-IsAt n e pe = ground arith

last_done :
    (c : DiscoveryCoordinator) (next : ℕ) (t : DiscoveryTreeBuilder)
    → IsAt c next 1 (0 ∷ []) t
    → let d = receive c (done 1) in
      (d.complete ≡ true) × (d.next_panel_index ≡ next) × (d.tree_builder ≡ some t)
unfolding receive handle_discovery_done resume
last_done c next t h = ground arith

-- A new coordinator that receives the replies of any tree of at most 100 panels, as a depth-first
-- walk brings them, is then complete and has built the whole tree: the panels have the indices 1, 2,
-- … in pre-order, and the links are exactly the tree's, in the order of the walk.
pub walk_builds_tree :
    (n e pe : ℕ) (kids : Forest)
    → 1 + size kids ≤ 100
    → let c = receive_all (new (some (DiscoveryTreeBuilder.new n))) (tree_replies e pe kids) in
      (c.complete ≡ true)
      × (t : DiscoveryTreeBuilder) × (c.tree_builder ≡ some t)
      × (t.indices ≡ numbers 1 (1 + size kids))
      × (t.links ≡ links 1 2 kids)
unfolding tree_replies receive_all add_root DiscoveryTreeBuilder.new numbers
walk_builds_tree n e pe kids h =
    let t = add_root (DiscoveryTreeBuilder.new n) 1 in
    let c = receive (new (some (DiscoveryTreeBuilder.new n))) (registers 1 e pe) in
    let m = length-links 1 2 kids in
    let at =
      walk_forest kids c 2 1 (0 ∷ []) t (root-IsAt n e pe) (omega arith) (omega arith) (omega arith)
        (omega arith) (omega arith) (omega arith) in
    let (done_now, next, built) = last_done (receive_all c (replies 2 kids)) (2 + size kids) _ at in
    let q : 1 + size kids ≡ suc (size kids) = omega arith in
    (
      rw receive_all-append done_now,
      linked t 2 (links 1 2 kids),
      rw receive_all-append built,
      rw q (indices-linked (links 1 2 kids) t 2 (omega (arith, m)) ∙ rw m),
      links-linked (links 1 2 kids) t 2,
    )
