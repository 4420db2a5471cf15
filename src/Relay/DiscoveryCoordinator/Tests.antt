-- ===== src/Relay/DiscoveryCoordinator/Tests.antt =====
-- Concrete coordinators and trees on which the theorems about the walk apply.
use lightnet_firmware.Common.{
  ◌+◌, ◌≤◌, ◌<◌, ◌≡◌, refl, true, false, [], ◌∷◌, none, some, arith, length,
}
use lightnet_firmware.Protocol.Types.{packet_discovery_done}
use lightnet_firmware.Protocol.Meta.{make_meta}
use lightnet_firmware.Protocol.Discovery.{PacketDiscoveryDone}
use lightnet_firmware.Relay.DiscoveryTreeBuilder
use lightnet_firmware.Relay.DiscoveryCoordinator
use lightnet_firmware.Relay.DiscoveryCoordinator.{
  DiscoveryCoordinator, handle_register_edge_reply, handle_discovery_done,
}
use lightnet_firmware.Relay.DiscoveryCoordinator.Invariant as Bounds
use lightnet_firmware.Relay.DiscoveryCoordinator.Invariant.{
  Falls, run_stays_bounded, arrives, ticks,
}
use lightnet_firmware.Relay.DiscoveryCoordinator.Duplicates.{done_twice}
use lightnet_firmware.Relay.DiscoveryCoordinator.Tree.{
  Forest, bare, branch, size, links, numbers, tree_replies,
}
use lightnet_firmware.Relay.DiscoveryCoordinator.Walk.{receive_all, walk_builds_tree}

-- A coordinator whose frontier is panel 3, found from panel 2 behind the root panel 1.
abbrev pub walking : DiscoveryCoordinator
walking = record {
  tree_builder = none;
  next_panel_index = 4;
  frontier_panel_index = 3;
  stack = 2 ∷ 1 ∷ 0 ∷ [];
  complete = false;
  walk_stalled = false;
  begin_ms = 0;
  last_root_pull_ms = 0;
  last_progress_ms = 0;
  last_advance_ms = 0;
}

pub walking-Inv : Bounds.Inv walking
walking-Inv = record {
  next_pos = omega arith;
  next_le = omega arith;
  frontier_lt = omega arith;
  falls = (omega arith, (omega arith, (omega arith, tt)));
}

abbrev report : PacketDiscoveryDone
report = record { meta = make_meta packet_discovery_done 0; panel_index = 3 }

done_twice_example :
    let d = (handle_discovery_done walking report 50).0 in
    (d.frontier_panel_index ≡ 2)
    × (d.stack ≡ 1 ∷ 0 ∷ [])
    × (handle_discovery_done d report 90 ≡ (d, []))
done_twice_example =
    done_twice walking report 2 (1 ∷ 0 ∷ []) 50 90 walking-Inv refl refl (λ e. ground arith)

run_stays_bounded_example :
    let c = Bounds.run (DiscoveryCoordinator.new none) (arrives ([]) 5 ∷ ticks 3000 ∷ []) in
    (length c.stack ≤ 100)
    × Falls c.frontier_panel_index c.stack
    × (0 < c.next_panel_index)
    × (c.next_panel_index ≤ 101)
    × (c.frontier_panel_index < c.next_panel_index)
run_stays_bounded_example = run_stays_bounded none (arrives ([]) 5 ∷ ticks 3000 ∷ [])

-- Two panels behind the root, of which the first has a child.
abbrev two_branches : Forest
two_branches = branch 1 0 (branch 2 0 bare bare) (branch 2 1 bare bare)

walk_builds_tree_example :
    let c =
      receive_all
        (DiscoveryCoordinator.new (some (DiscoveryTreeBuilder.new 4)))
        (tree_replies 0 0 two_branches) in
    (c.complete ≡ true)
    × (t : DiscoveryTreeBuilder.DiscoveryTreeBuilder) × (c.tree_builder ≡ some t)
    × (t.indices ≡ numbers 1 (1 + size two_branches))
    × (t.links ≡ links 1 2 two_branches)
unfolding size
walk_builds_tree_example = walk_builds_tree 4 0 0 two_branches (omega arith)
