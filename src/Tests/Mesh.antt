-- ===== src/Tests/Mesh.antt =====
-- A tree of four devices for the tests: a router with two devices, and one that is not connected.
use agro_daemon.Base.{ℕ, ◌≡◌, refl, [], ◌∷◌, arith, false, Option, some, none}
use agro_daemon.Base.Dict
use agro_daemon.Device.Mac.{MeshAddr, null_addr}
use agro_daemon.Device.InProgress.{addr_eq}
use agro_daemon.Device.State.{empty_device}
use agro_daemon.Device.Tree.{Ptr, root_ptr, node_ptr, Node, Tree, node_at, daemon, undefined}
use agro_daemon.Device.Tree.Forest.{Forest, empty, branch, Shows, ends, node}

abbrev pub router : MeshAddr
router = 1 ∷ 0 ∷ 0 ∷ 0 ∷ 0 ∷ 1 ∷ []

abbrev pub pump : MeshAddr
pump = 2 ∷ 0 ∷ 0 ∷ 0 ∷ 0 ∷ 1 ∷ []

abbrev pub valve : MeshAddr
valve = 3 ∷ 0 ∷ 0 ∷ 0 ∷ 0 ∷ 1 ∷ []

abbrev pub lost : MeshAddr
lost = 4 ∷ 0 ∷ 0 ∷ 0 ∷ 0 ∷ 1 ∷ []

abbrev pub node_of : MeshAddr → ℕ → Option Ptr → Option Ptr → Option Ptr → Node
node_of a l up down next_ = record {
  addr = a;
  layer = l;
  next = next_;
  parent = up;
  children = down;
}

abbrev pub root_node : Node
root_node = node_of null_addr daemon none (some (node_ptr router)) none

abbrev pub router_node : Node
router_node = node_of router 0 (some root_ptr) (some (node_ptr pump)) none

abbrev pub pump_node : Node
pump_node = node_of pump 1 (some (node_ptr router)) none (some (node_ptr valve))

abbrev pub valve_node : Node
valve_node = node_of valve 1 (some (node_ptr router)) none none

abbrev pub lost_node : Node
lost_node = node_of lost undefined none none none

abbrev pub mesh : Tree ℕ
mesh = record {
  dev_list =
      (pump, empty_device 5683) ∷ (valve, empty_device 5683) ∷ (lost, empty_device 5683) ∷ [];
  nodes = (router, router_node) ∷ (pump, pump_node) ∷ (valve, valve_node) ∷ (lost, lost_node) ∷ [];
  endpoints = (pump, record { addr = pump; ep = 5683; checking = false }) ∷ [];
  root = root_node;
}

abbrev pub pair : Forest
pair = branch pump empty (branch valve empty empty)

pub at_router : node_at mesh (node_ptr router) ≡ some router_node
unfolding node_at Dict.lookup
at_router = ground arith

pub at_pump : node_at mesh (node_ptr pump) ≡ some pump_node
unfolding node_at Dict.lookup
at_pump = ground arith

pub at_valve : node_at mesh (node_ptr valve) ≡ some valve_node
unfolding node_at Dict.lookup
at_valve = ground arith

pub at_lost : node_at mesh (node_ptr lost) ≡ some lost_node
unfolding node_at Dict.lookup
at_lost = ground arith

pub pair-Shows : Shows mesh router_node.children pair
pair-Shows = node at_pump refl ends (node at_valve refl ends ends)

pub mesh-Shows : Shows mesh mesh.root.children (branch router pair empty)
mesh-Shows = node at_router refl pair-Shows ends
