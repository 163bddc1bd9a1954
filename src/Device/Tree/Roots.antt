-- ===== src/Device/Tree/Roots.antt =====
-- The endpoints of root devices, the repair of a tree and the endpoints of devices, of
-- src/device/tree.cpp. Nodes and endpoints stand in the order in which they were added, where
-- `std::map` has them in the order of the addresses.
use agro_daemon.Base.{
  ◌^◌, Bool, true, false, ◌&&◌, ◌||◌, not, List, [], ◌∷◌, map, Option, none, some, ◌==◌, nat_eq,
  if◌then◌else◌, ltb, leb, is_some,
}
use agro_daemon.Base.Dict
use agro_daemon.Device.Mac.{MeshAddr}
use agro_daemon.Device.InProgress.{addr_eq}
use agro_daemon.Device.State.{Device, update_endpoint}
use agro_daemon.Device.Tree.{node_ptr, Node, Tree, M, pure, ◌>>=◌, node_at, change}

module _ {Endpoint : Type 0} where
  unfoldable pub add_endpoint : MeshAddr → Endpoint → Tree Endpoint → Bool × Tree Endpoint
  add_endpoint a ep t = elim (Dict.lookup a t.endpoints) [
    | some _ ↦ (false, t)
    | none ↦ (
      true,
      record t {
        endpoints = Dict.emplace a (record { addr = a; ep = ep; checking = false }) t.endpoints;
      },
    )
  ]

  unfoldable pub remove_endpoint : MeshAddr → Tree Endpoint → Bool × Tree Endpoint
  remove_endpoint a t =
      (is_some (Dict.lookup a t.endpoints), record t { endpoints = Dict.erase a t.endpoints })

  unfoldable pub uncheck_endpoint : MeshAddr → Tree Endpoint → Bool × Tree Endpoint
  uncheck_endpoint a t = (
    is_some (Dict.lookup a t.endpoints),
    record t { endpoints = Dict.adjust a (λ e. record e { checking = false }) t.endpoints },
  )

  -- `manage_device_root_endpoint`; `none` stands for a pointer that no node has.
  unfoldable pub manage_device_root_endpoint :
      Node → Endpoint → Tree Endpoint → Option (Bool × Tree Endpoint)
  unfolding add_endpoint remove_endpoint
  manage_device_root_endpoint n ep t =
      let own =
        if n.layer == 1 then some (add_endpoint n.addr ep t) else some (remove_endpoint n.addr t) in
      elim n.parent [
        | none ↦ own
        | some p ↦ elim (node_at t p) [
          | none ↦ none
          | some m ↦ if m.layer == 1 then some (add_endpoint m.addr ep t) else own
        ]
      ]

  -- `*node.children->parent != node`, where both pointers are set.
  unfoldable pub is_inconsistent : Tree Endpoint → Node → Option Bool
  is_inconsistent t n = elim n.children [
    | none ↦ some false
    | some c ↦ elim (node_at t c) [
      | none ↦ none
      | some m ↦ elim m.parent [
        | none ↦ some false
        | some p ↦ elim (node_at t p) [ none ↦ none | some q ↦ some (not (q.addr == n.addr)) ]
      ]
    ]
  ]

  -- `change = true; node.children = nullptr;` where the test holds.
  unfoldable pub cut_children : MeshAddr → Bool → Tree Endpoint → Tree Endpoint
  cut_children addr bad t =
      if bad then change (node_ptr addr) (λ m. record m { children = none }) t else t

  -- A round of the loop of `bug_inconsistency_fix`.
  unfoldable pub fix_node : MeshAddr → M Endpoint Bool
  fix_node addr t = elim (Dict.lookup addr t.nodes) [
    | none ↦ none
    | some n ↦ elim (is_inconsistent t n) [
      | none ↦ none
      | some bad ↦
          let t' = cut_children addr bad t in
          let removed = remove_endpoint addr t' in
          if n.layer == 1 then some (bad, t') else some (removed.0 || bad, removed.1)
    ]
  ]

  unfoldable pub fix_nodes : List MeshAddr → M Endpoint Bool
  fix_nodes [] = pure false
  fix_nodes (a ∷ addrs) = do fixed ← fix_node a; rest ← fix_nodes addrs; pure (fixed || rest)

  unfoldable pub bug_inconsistency_fix : M Endpoint Bool
  bug_inconsistency_fix t = fix_nodes (map (λ e. e.0) t.nodes) t

  -- `update_device_endpoint(addr, ep)`
  unfoldable pub update_device_endpoint : MeshAddr → Endpoint → Tree Endpoint → Tree Endpoint
  update_device_endpoint addr ep t = record t {
    dev_list = Dict.adjust addr (λ d. update_endpoint d ep) t.dev_list;
  }

  -- `update_device_endpoint(list, ep)`
  unfoldable pub update_device_endpoints : List MeshAddr → Endpoint → Tree Endpoint → Tree Endpoint
  update_device_endpoints [] ep t = t
  update_device_endpoints (a ∷ list) ep t =
      update_device_endpoints list ep (update_device_endpoint a ep t)

  -- A layer is an `int`.
  unfoldable pub update_endpoints : Device Endpoint → Tree Endpoint → Tree Endpoint
  update_endpoints device t =
      let t' =
        if leb 2 device.layer && ltb device.layer (2 ^ 31)
        then update_device_endpoint device.parent device.ep t
        else t in
      update_device_endpoints device.children_table device.ep t'
