-- ===== src/Device/Tree/Update.antt =====
-- `update`, `unconnected` and `read_device_list` of src/device/tree.cpp.
use agro_daemon.Base.{
  ◌-◌, ◌^◌, ℕ, ◌+◌, ◌%◌, Bool, false, ◌||◌, List, [], ◌∷◌, map, Option, none, some, ◌==◌, nat_eq,
  if◌then◌else◌,
}
use agro_daemon.Device.Mac.{MeshAddr}
use agro_daemon.Device.InProgress.{addr_eq}
use agro_daemon.Device.State.{Device}
use agro_daemon.Device.Tree.{
  root_ptr, node_ptr, Tree, M, pure, ◌>>=◌, ◌>>◌, load, modify, is_descendent, get_node, add_child,
}
use agro_daemon.Device.Tree.Branches.{remove_descendent, add_descendent}
use agro_daemon.Device.Tree.Roots.{
  manage_device_root_endpoint, bug_inconsistency_fix, update_endpoints,
}

module _ {Endpoint : Type 0} where
  -- `update` up to the endpoints: the nodes of the device and of its parent with their layers.
  unfoldable pub place : Device Endpoint → M Endpoint (Unit {0})
  unfolding modify load
  place device = do
    λ t. some (tt, get_node device.mac t)
    modify (node_ptr device.mac) (λ n. record n { layer = device.layer })
    λ t. some (tt, get_node device.parent t)
    dev ← load (node_ptr device.mac)
    modify (node_ptr device.parent) (λ n. record n { layer = (dev.layer + 2 ^ 32 - 1) % 2 ^ 32 })

  -- `if(parent.layer == 0) add_child(root_, parent)`
  unfoldable pub add_router : ℕ → MeshAddr → M Endpoint Bool
  unfolding load
  add_router k parent = do
    n ← load (node_ptr parent)
    if n.layer == 0 then add_child k root_ptr (node_ptr parent) else pure false

  -- The part of `update` that links nodes.
  unfoldable pub link : ℕ → Device Endpoint → M Endpoint Bool
  link k device = do
    added ← add_child k (node_ptr device.parent) (node_ptr device.mac)
    router ← add_router k device.parent
    removed ← remove_descendent k (node_ptr device.mac) device.children_table
    moved ← add_descendent k (node_ptr device.mac) device.children_table
    pure (moved || removed || router || added)

  unfoldable pub update : ℕ → Device Endpoint → M Endpoint Bool
  unfolding load
  update k device = do
    place device
    λ t. some (tt, update_endpoints device t)
    changed ← link k device
    dev ← load (node_ptr device.mac)
    _ ← manage_device_root_endpoint dev device.ep
    fixed ← bug_inconsistency_fix
    pure (fixed || changed)

  -- `unconnected`, for the addresses of the nodes that are left.
  unfoldable pub unconnected_of : ℕ → Tree Endpoint → List MeshAddr → Option (List MeshAddr)
  unconnected_of k t [] = some []
  unconnected_of k t (a ∷ addrs) = elim (is_descendent k t t.root.children a) [
    | none ↦ none
    | some found ↦ elim (unconnected_of k t addrs) [
      | none ↦ none
      | some un ↦ some (if found then un else a ∷ un)
    ]
  ]

  unfoldable pub unconnected : ℕ → Tree Endpoint → Option (List MeshAddr)
  unconnected k t = unconnected_of k t (map (λ e. e.0) t.nodes)

  unfoldable pub read_device_list :
      List (MeshAddr × Device Endpoint) → Tree Endpoint → Tree Endpoint
  read_device_list [] t = t
  read_device_list ((_, d) ∷ list) t = read_device_list list (get_node d.mac t)
