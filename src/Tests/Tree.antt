-- ===== src/Tests/Tree.antt =====
-- Trees of devices.
use agro_daemon.Base.{ℕ, ◌≡◌, refl, [], ◌∷◌, arith, true, false, Bool, some, none, subst, ap}
use agro_daemon.Base.Dict
use agro_daemon.Device.Mac.{MeshAddr, null_addr}
use agro_daemon.Device.InProgress.{addr_eq}
use agro_daemon.Device.State.{Device, empty_device}
use agro_daemon.Device.Tree.{
  Ptr, root_ptr, node_ptr, Node, Tree, TreeEndpoint, node_at, daemon, is_descendent,
}
use agro_daemon.Device.Tree.Forest.{empty, branch, member, Shows, ends, node, is_descendent-member}
use agro_daemon.Device.Tree.Shape.{Distinct, append, Outside-node}
use agro_daemon.Device.Tree.AddChild.{Joins, Added, add_child-append}
use agro_daemon.Device.Tree.Undo.{Undone, undo_branch-spine}
use agro_daemon.Device.Tree.RemoveChild.{Removed, remove_child-drop}
use agro_daemon.Device.Tree.Descend.{remove_descendent-first}
use agro_daemon.Device.Tree.Turn.{Turned, update-diverges}
use agro_daemon.Device.Tree.Fixes.{place_at}
use agro_daemon.Device.Tree.Endpoints.{bug_inconsistency_fix-endpoints}
use agro_daemon.Device.Tree.Update.{update}
use agro_daemon.Device.Tree.Roots.{bug_inconsistency_fix}
use agro_daemon.Device.Tree.Branches.{remove_descendent}
use agro_daemon.Tests.Mesh.{
  router, pump, valve, lost, node_of, router_node, lost_node, mesh, pair, at_router, at_pump,
  at_valve, at_lost, pair-Shows, mesh-Shows,
}

is_descendent-member_example :
    is_descendent 9 mesh mesh.root.children valve ≡ some (member valve (branch router pair empty))
is_descendent-member_example = is_descendent-member 9 valve mesh-Shows (omega arith)

pair-Distinct : Distinct pair
unfolding Distinct
pair-Distinct =
    (refl, ground arith, (λ x h. absurd (cc)), tt, (refl, refl, (λ x h. absurd (cc)), tt, tt))

lost-Joins : Joins mesh (node_ptr router) lost pair empty
lost-Joins = record {
  parent = router_node;
  child = lost_node;
  at_parent = at_router;
  at_new_child = at_lost;
  key = refl;
  shows = pair-Shows;
  shows_child = ends;
  distinct = pair-Distinct;
  apart = λ x h. refl;
  fresh = ground arith;
  no_cycle = refl;
  outside = Outside-node router pair (ground arith);
  outside_child = Outside-node router (branch lost empty empty) (ground arith);
}

add_child-append_example : Added 9 mesh (node_ptr router) lost (append pair lost empty)
add_child-append_example = add_child-append 9 lost-Joins (omega arith)

remove_child-drop_example : Removed 9 mesh (node_ptr router) valve pair
remove_child-drop_example =
    remove_child-drop 9 mesh (node_ptr router) valve at_router pair-Shows pair-Distinct
      (Outside-node router pair (ground arith)) (omega arith)

undo_branch-spine_example : Undone 9 mesh router pair
unfolding Distinct
undo_branch-spine_example =
    undo_branch-spine 9 mesh router at_router refl pair-Shows
      (ground arith, refl, (λ x h. refl), pair-Distinct, tt) (omega arith)

remove_descendent-first_example :
    (u : Tree ℕ) × (m : Node) × (remove_descendent 12 (node_ptr router) [] mesh ≡ some (true, u))
    × (node_at u (node_ptr router) ≡ some m)
    × Shows u m.children (branch valve empty empty)
remove_descendent-first_example =
    remove_descendent-first 9 mesh (node_ptr router) pump [] (branch valve empty empty) at_router
      refl (Outside-node router pair (ground arith)) at_pump refl refl
      (node at_valve refl ends ends) pair-Distinct refl (omega arith)

-- The tree after the valve has reported the pump as its parent, and a report of the pump that names
-- the valve as its parent.
abbrev turned : Tree ℕ
turned = record {
  dev_list = [];
  nodes =
      (valve, node_of valve 4 (some (node_ptr pump)) none none)
      ∷ (pump, node_of pump 3 none (some (node_ptr valve)) none)
      ∷ [];
  endpoints = [];
  root = node_of null_addr daemon none none none;
}

abbrev pump_report : Device ℕ
pump_report = record (empty_device 5683) { mac = pump; parent = valve; layer = 4 }

turned-Turned : Turned turned pump_report
unfolding node_at Dict.lookup empty_device
turned-Turned = record {
  parent = node_of valve 4 (some (node_ptr pump)) none none;
  device = node_of pump 3 none (some (node_ptr valve)) none;
  at_parent = ground arith;
  at_device = ground arith;
  alone = refl;
  below = refl;
  layer_bits = omega arith;
  no_root = omega arith;
  ne = ground arith;
}

update-diverges_example : update 1000 pump_report turned ≡ none
update-diverges_example = update-diverges 1000 pump_report turned-Turned

abbrev lone_node : Node
lone_node = node_of lost 2 (some root_ptr) none none

abbrev lone : Tree ℕ
lone = record {
  dev_list = [];
  nodes = (lost, lone_node) ∷ [];
  endpoints = (lost, record { addr = lost; ep = 5683; checking = false }) ∷ [];
  root = node_of null_addr daemon none (some (node_ptr lost)) none;
}

at_lone : node_at lone (node_ptr lost) ≡ some lone_node
unfolding node_at Dict.lookup
at_lone = ground arith

only_lone : (a : MeshAddr) (n : Node) → node_at lone (node_ptr a) ≡ some n → lone_node ≡ n
unfolding node_at Dict.lookup
only_lone a n h = ground (arith, h)

lone_child :
    (p : Ptr) (n : Node) (q : Ptr)
    → node_at lone p ≡ some n
    → n.children ≡ some q
    → (m : Node) × (node_at lone q ≡ some m)
unfolding node_at
lone_child root_ptr n q h e =
    let same : node_ptr lost ≡ q = cc in
    (lone_node, subst (λ r. node_at lone r ≡ some lone_node) same at_lone)
lone_child (node_ptr a) n q h e = let same = only_lone a n h in absurd (cc)

lone_parent :
    (p : Ptr) (n : Node) (q : Ptr)
    → node_at lone p ≡ some n
    → n.parent ≡ some q
    → (m : Node) × (node_at lone q ≡ some m)
unfolding node_at
lone_parent root_ptr n q h e = absurd (cc)
lone_parent (node_ptr a) n q h e =
    let same : root_ptr ≡ q = cc (ap (λ m. m.parent) (only_lone a n h)) in
    (lone.root, subst (λ r. node_at lone r ≡ some lone.root) same refl)

bug_inconsistency_fix-endpoints_example :
    (r : Bool) × (u : Tree ℕ) × (bug_inconsistency_fix lone ≡ some (r, u))
    × ((x : MeshAddr) → place_at u x ≡ place_at lone x)
    × ((x : MeshAddr) (n : Node) (e : TreeEndpoint ℕ)
        → Dict.lookup x u.nodes ≡ some n
        → Dict.lookup x u.endpoints ≡ some e
        → n.layer ≡ 1)
bug_inconsistency_fix-endpoints_example =
    bug_inconsistency_fix-endpoints (record { child = lone_child; parent = lone_parent })
