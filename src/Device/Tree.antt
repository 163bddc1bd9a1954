-- ===== src/Device/Tree.antt =====
-- `Tree`, the nodes of the mesh networks: its data and the methods on nodes, of src/device/tree.hpp
-- and src/device/tree.cpp. A node of the map `nodes_` is never erased, so a pointer to one is its
-- key. A recursion takes fuel; `none` says that it does not return within it.
pub mod Branches
pub mod Roots
pub mod Update
pub mod Steps
pub mod Nodes
pub mod Forest
pub mod Shape
pub mod Append
pub mod AddChild
pub mod Undo
pub mod Unlink
pub mod RemoveChild
pub mod Descend
pub mod Cycle
pub mod Turn
pub mod Fixes
pub mod Endpoints
use agro_daemon.Base.{
  ◌-◌, ◌^◌, ℕ, zero, suc, ◌+◌, ◌%◌, Bool, true, false, List, [], Option, none, some, ◌==◌,
}
use agro_daemon.Base.Dict
use agro_daemon.Base.Dict.{Dict}
use agro_daemon.Device.Mac.{MeshAddr, null_addr}
use agro_daemon.Device.InProgress.{addr_eq}
use agro_daemon.Device.Lists.{DeviceList}

-- The bits -2 and -1 of an `int`.
abbrev pub undefined : ℕ
undefined = 2 ^ 32 - 2

abbrev pub daemon : ℕ
daemon = 2 ^ 32 - 1

-- `node*`: the member `root_` or a node of the map.
pub data Ptr : Type 0 where
  root_ptr : Ptr
  node_ptr : MeshAddr → Ptr

pub record Node : Type 0 where
  pub addr : MeshAddr
  pub layer : ℕ
  pub next : Option Ptr
  pub parent : Option Ptr
  pub children : Option Ptr

-- `node(addr)`
unfoldable pub new_node : MeshAddr → Node
new_node addr_ = record {
  addr = addr_;
  layer = undefined;
  next = none;
  parent = none;
  children = none;
}

pub record TreeEndpoint (Endpoint : Type 0) : Type 0 where
  pub addr : MeshAddr
  pub ep : Endpoint
  pub checking : Bool

pub record Tree (Endpoint : Type 0) : Type 0 where
  -- The list that the reference `dev_list_` names.
  pub dev_list : DeviceList Endpoint
  pub nodes : Dict MeshAddr Node
  pub endpoints : Dict MeshAddr (TreeEndpoint Endpoint)
  pub root : Node

unfoldable pub new_tree : {Endpoint : Type 0} → DeviceList Endpoint → Tree Endpoint
unfolding new_node
new_tree list = record {
  dev_list = list;
  nodes = [];
  endpoints = [];
  root = record (new_node null_addr) { layer = daemon };
}

-- A method that changes nodes, with its result.
abbrev pub M : Type 0 → Type 0 → Type 0
M Endpoint A = Tree Endpoint → Option (A × Tree Endpoint)

module _ {Endpoint : Type 0} where
  abbrev pub pure : {A : Type 0} → A → M Endpoint A
  pure a t = some (a, t)

  infixl 5 ◌>>=◌ ◌>>◌
  abbrev pub ◌>>=◌ : {A B : Type 0} → M Endpoint A → (A → M Endpoint B) → M Endpoint B
  ◌>>=◌ m f t = elim (m t) [ none ↦ none | some (a, t') ↦ f a t' ]

  abbrev pub ◌>>◌ : {B : Type 0} → M Endpoint (Unit {0}) → M Endpoint B → M Endpoint B
  m >> k = m >>= λ _. k

  -- `*p`
  unfoldable pub node_at : Tree Endpoint → Ptr → Option Node
  node_at t root_ptr = some t.root
  node_at t (node_ptr a) = Dict.lookup a t.nodes

  unfoldable pub load : Ptr → M Endpoint Node
  unfolding node_at
  load p t = elim (node_at t p) [ none ↦ none | some n ↦ some (n, t) ]

  unfoldable pub change : Ptr → (Node → Node) → Tree Endpoint → Tree Endpoint
  change root_ptr f t = record t { root = f t.root }
  change (node_ptr a) f t = record t { nodes = Dict.adjust a f t.nodes }

  -- An assignment to fields of `*p`.
  unfoldable pub modify : Ptr → (Node → Node) → M Endpoint (Unit {0})
  unfolding change
  modify p f t = some (tt, change p f t)

  -- The loop of `node::is_descendent` over the siblings from `c` on.
  unfoldable pub is_descendent : ℕ → Tree Endpoint → Option Ptr → MeshAddr → Option Bool
  unfolding node_at
  is_descendent zero t c child = none
  is_descendent (suc k) t none child = some false
  is_descendent (suc k) t (some p) child = elim (node_at t p) [
    | none ↦ none
    | some n ↦ elim (n.addr == child) [
      | true ↦ some true
      | false ↦ elim (is_descendent k t n.children child) [
        | none ↦ none
        | some true ↦ some true
        | some false ↦ is_descendent k t n.next child
      ]
    ]
  ]

  unfoldable mutual
    -- `node::undo_branch`
    pub undo_branch : ℕ → Ptr → M Endpoint (Unit {0})
    undo_branch zero p t = none
    undo_branch (suc k) p t = elim (node_at t p) [
      | none ↦ none
      | some n ↦ elim (undo_children k n.children t) [
        | none ↦ none
        | some (_, t') ↦ some (
          tt,
          change p
              (λ m. record m { children = none; next = none; parent = none; layer = undefined }) t',
        )
      ]
    ]

    -- Its loop, from the child `c` on: the next child is read after the call.
    pub undo_children : ℕ → Option Ptr → M Endpoint (Unit {0})
    undo_children zero c t = none
    undo_children (suc k) none t = some (tt, t)
    undo_children (suc k) (some c) t = elim (undo_branch k c t) [
      | none ↦ none
      | some (_, t') ↦ elim (node_at t' c) [ none ↦ none | some n ↦ undo_children k n.next t' ]
    ]

  -- The loop of `node::remove_child` over the siblings from `c` on, behind the sibling `before`.
  unfoldable pub remove_child_loop : ℕ → Ptr → Option Ptr → Option Ptr → MeshAddr → M Endpoint Bool
  remove_child_loop zero parent before c caddr t = none
  remove_child_loop (suc k) parent before none caddr t = some (false, t)
  remove_child_loop (suc k) parent before (some c) caddr t = elim (node_at t c) [
    | none ↦ none
    | some n ↦ elim (n.addr == caddr) [
      | true ↦
          let unlinked = elim before as (λ _. Tree Endpoint) [
            | some b ↦ change b (λ m. record m { next = n.next }) t
            | none ↦ change parent (λ m. record m { children = n.next }) t
          ] in
          elim (undo_branch k c unlinked) [ none ↦ none | some (_, t') ↦ some (true, t') ]
      | false ↦ remove_child_loop k parent (some c) n.next caddr t
    ]
  ]

  unfoldable pub remove_child : ℕ → Ptr → MeshAddr → M Endpoint Bool
  remove_child k device caddr t = elim (node_at t device) [
    | none ↦ none
    | some n ↦ remove_child_loop k device none n.children caddr t
  ]

  -- `get_node`: the node of an address, which is added when it is missing.
  unfoldable pub get_node : MeshAddr → Tree Endpoint → Tree Endpoint
  get_node addr t = elim (Dict.lookup addr t.nodes) [
    | some n ↦ t
    | none ↦ record t { nodes = Dict.emplace addr (new_node addr) t.nodes }
  ]

  -- The loop of `add_child` over the siblings from `c` on.
  unfoldable pub append_child : ℕ → Ptr → Ptr → MeshAddr → M Endpoint Bool
  append_child zero c child caddr t = none
  append_child (suc k) c child caddr t = elim (node_at t c) [
    | none ↦ none
    | some n ↦ elim (n.addr == caddr) [
      | true ↦ some (false, t)
      | false ↦ elim n.next [
        | some d ↦ append_child k d child caddr t
        | none ↦ some (
          true,
          change child (λ m. record m { next = none })
              (change c (λ m. record m { next = some child }) t),
        )
      ]
    ]
  ]

  -- The assignments in front of the loop: `child.parent = &parent` and `child.layer`.
  unfoldable pub adopt : Ptr → Ptr → Tree Endpoint → Option (Node × Tree Endpoint)
  adopt parent child t =
      let t' = change child (λ m. record m { parent = some parent }) t in
      elim (node_at t' parent) [
        | none ↦ none
        | some n ↦ some (n, change child (λ m. record m { layer = (n.layer + 1) % 2 ^ 32 }) t')
      ]

  unfoldable pub add_child : ℕ → Ptr → Ptr → M Endpoint Bool
  add_child k parent child t = elim (adopt parent child t) [
    | none ↦ none
    | some (n, t') ↦ elim n.children [
      | none ↦ some (
        true,
        change child (λ m. record m { next = none })
            (change parent (λ m. record m { children = some child }) t'),
      )
      | some c ↦ elim (node_at t' child) [ none ↦ none | some m ↦ append_child k c child m.addr t' ]
    ]
  ]
