-- ===== src/Instance/Network.antt =====
-- The network of devices as the daemon sees it: src/instance/tree.cpp and src/instance/check_root.cpp.
-- The calls of the database, of the notifications and of the web sockets whose results are not read
-- are events; the clock is an argument in milliseconds.
pub mod States
pub mod Roots
use agro_daemon.Base.{
  ◌-◌, ◌^◌, ℕ, ◌+◌, ◌%◌, Bool, true, false, ◌&&◌, not, List, [], ◌∷◌, ◌++◌, map, Option, none, some,
  ◌==◌, nat_eq, if◌then◌else◌, ltb, contains,
}
use agro_daemon.Base.Dict
use agro_daemon.Device.Mac.{MeshAddr}
use agro_daemon.Device.InProgress.{addr_eq}
use agro_daemon.Device.State.{Device}
use agro_daemon.Device.Lists.{DeviceList}
use agro_daemon.Device.Tree.{Tree, TreeEndpoint}
use agro_daemon.Device.Tree.Branches.{remove_node}
use agro_daemon.Device.Tree.Update.{unconnected, update}

pub record Network (Endpoint : Type 0) : Type 0 where
  -- With the list of devices, which the tree refers to.
  pub tree : Tree Endpoint
  -- `unconnected_`
  pub old_unconnected : List MeshAddr

pub data Event : Type 0 where
  -- `db_.set_device_state`
  state_stored : MeshAddr → Bool → Event
  -- `notify_all_policy` with `device_type::connect` and `device_type::disconnect`
  notified_connected : List MeshAddr → Event
  notified_disconnected : List MeshAddr → Event
  -- `write_all_policy` of the tree
  tree_written : Event

-- `has_new != has_old`, with `has_old`.
unfoldable pub state_change : List MeshAddr → List MeshAddr → MeshAddr → Option Bool
state_change old new addr =
    if contains old addr
    then (if contains new addr then none else some true)
    else if contains new addr
    then some false
    else none

-- The loop over the devices: the stored states, and those that are connected and disconnected now.
pub record Changes : Type 0 where
  pub stored : List Event
  pub new_connected : List MeshAddr
  pub new_disconnected : List MeshAddr

unfoldable pub changes : List MeshAddr → List MeshAddr → List MeshAddr → Changes
changes old new [] = record { stored = []; new_connected = []; new_disconnected = [] }
changes old new (addr ∷ addrs) =
    let rest = changes old new addrs in
    elim (state_change old new addr) [
      | none ↦ rest
      | some true ↦ record {
        stored = state_stored addr true ∷ rest.stored;
        new_connected = addr ∷ rest.new_connected;
        new_disconnected = rest.new_disconnected;
      }
      | some false ↦ record {
        stored = state_stored addr false ∷ rest.stored;
        new_connected = rest.new_connected;
        new_disconnected = addr ∷ rest.new_disconnected;
      }
    ]

-- The two notifications, each only for a list that is not empty.
unfoldable pub notices : Changes → List Event
notices c =
    elim c.new_connected as (λ _. List Event) [
      | [] ↦ []
      | a ∷ addrs ↦ notified_connected c.new_connected ∷ []
    ]
    ++ elim c.new_disconnected as (λ _. List Event) [
      | [] ↦ []
      | a ∷ addrs ↦ notified_disconnected c.new_disconnected ∷ []
    ]

module _ {Endpoint : Type 0} where
  -- `none`: the tree does not return within the fuel.
  unfoldable pub check_device_state : ℕ → Network Endpoint → Option (List Event × Network Endpoint)
  check_device_state k n = elim (unconnected k n.tree) [
    | none ↦ none
    | some new_unconnected ↦
        let c = changes n.old_unconnected new_unconnected (map (λ e. e.0) n.tree.dev_list) in
        some (c.stored ++ notices c, record n { old_unconnected = new_unconnected })
  ]

  -- The part that `remove_node_from_tree` and `update_tree` share.
  unfoldable pub after_change :
      ℕ
      → Network Endpoint
      → Option (Bool × Tree Endpoint)
      → Option (Bool × List Event × Network Endpoint)
  after_change k n none = none
  after_change k n (some (change, t)) =
      let n' = record n { tree = t } in
      elim change [
        | false ↦ some (false, [], n')
        | true ↦ elim (check_device_state k n') [
          | none ↦ none
          | some (events, n'') ↦ some (true, events ++ (tree_written ∷ []), n'')
        ]
      ]

  unfoldable pub remove_node_from_tree :
      ℕ → MeshAddr → Network Endpoint → Option (Bool × List Event × Network Endpoint)
  remove_node_from_tree k addr n = after_change k n (remove_node k addr n.tree)

  unfoldable pub update_tree :
      ℕ → Device Endpoint → Network Endpoint → Option (Bool × List Event × Network Endpoint)
  update_tree k device n = after_change k n (update k device n.tree)

  -- `check_root` at a time `now` with the limit `time_invalidate_node`: the difference is one of 32
  -- bits.
  unfoldable pub check_root : ℕ → ℕ → DeviceList Endpoint → MeshAddr → Bool
  check_root now limit list addr = elim (Dict.lookup addr list) [
    | none ↦ false
    | some dev ↦
        not (ltb limit ((now % 2 ^ 32 + 2 ^ 32 - dev.last_packet_time) % 2 ^ 32) && dev.layer == 1)
  ]

  -- The first loop of `check_network_roots`.
  unfoldable pub roots_to_remove :
      ℕ → ℕ → DeviceList Endpoint → Dict.Dict MeshAddr (TreeEndpoint Endpoint) → List MeshAddr
  roots_to_remove now limit list [] = []
  roots_to_remove now limit list ((addr, ep) ∷ endpoints) =
      let rest = roots_to_remove now limit list endpoints in
      if check_root now limit list addr then rest else addr ∷ rest

  -- The second loop.
  unfoldable pub remove_nodes :
      ℕ → List MeshAddr → Network Endpoint → Option (List Event × Network Endpoint)
  remove_nodes k [] n = some ([], n)
  remove_nodes k (addr ∷ addrs) n = elim (remove_node_from_tree k addr n) [
    | none ↦ none
    | some (_, events, n') ↦ elim (remove_nodes k addrs n') [
      | none ↦ none
      | some (events', n'') ↦ some (events ++ events', n'')
    ]
  ]

  unfoldable pub check_network_roots :
      ℕ → ℕ → ℕ → Network Endpoint → Option (List Event × Network Endpoint)
  check_network_roots k now limit n =
      remove_nodes k (roots_to_remove now limit n.tree.dev_list n.tree.endpoints) n
