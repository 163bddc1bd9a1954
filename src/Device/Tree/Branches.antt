-- ===== src/Device/Tree/Branches.antt =====
-- The operations of `Tree` on whole branches: `remove_descendent`, `add_descendent` and `remove_node`
-- of src/device/tree.cpp.
use agro_daemon.Base.{
  ℕ, zero, suc, Bool, true, false, ◌||◌, List, [], ◌∷◌, Option, none, some, ◌==◌, nat_eq, contains,
}
use agro_daemon.Base.Dict
use agro_daemon.Device.Mac.{MeshAddr}
use agro_daemon.Device.InProgress.{addr_eq}
use agro_daemon.Device.Tree.{
  Ptr, root_ptr, node_ptr, M, pure, ◌>>=◌, node_at, load, is_descendent, remove_child, get_node,
  add_child,
}

module _ {Endpoint : Type 0} where
  unfoldable mutual
    -- `remove_descendent`
    pub remove_descendent : ℕ → Ptr → List MeshAddr → M Endpoint Bool
    remove_descendent zero device children t = none
    remove_descendent (suc k) device children t = elim (node_at t device) [
      | none ↦ none
      | some n ↦ remove_others k device n.children children false t
    ]

    -- Its loop, from the child `c` on: the next child is read at the end of a round.
    pub remove_others : ℕ → Ptr → Option Ptr → List MeshAddr → Bool → M Endpoint Bool
    remove_others zero device c children changed t = none
    remove_others (suc k) device none children changed t = some (changed, t)
    remove_others (suc k) device (some c) children changed t = elim (node_at t c) [
      | none ↦ none
      | some n ↦ elim (remove_descendent k c children t) [
        | none ↦ none
        | some (below, t') ↦ elim (contains children n.addr) [
          | true ↦ elim (node_at t' c) [
            | none ↦ none
            | some m ↦ remove_others k device m.next children (below || changed) t'
          ]
          | false ↦ elim (remove_child k device n.addr t') [
            | none ↦ none
            | some (_, t'') ↦ elim (node_at t'' c) [
              | none ↦ none
              | some m ↦ remove_others k device m.next children true t''
            ]
          ]
        ]
      ]
    ]

  -- `if(ch.parent) ch.parent->remove_child(c)`
  unfoldable pub leave_parent : ℕ → MeshAddr → M Endpoint (Unit {0})
  unfolding load
  leave_parent k c = do
    ch ← load (node_ptr c)
    elim ch.parent [ none ↦ pure tt | some p ↦ (do _ ← remove_child k p c; pure tt) ]

  -- A round of `add_descendent`.
  unfoldable pub move_child : ℕ → Ptr → MeshAddr → M Endpoint Bool
  move_child k device c t = elim (node_at t device) [
    | none ↦ none
    | some n ↦ elim (is_descendent k t n.children c) [
      | none ↦ none
      | some true ↦ some (false, t)
      | some false ↦ elim (leave_parent k c (get_node c t)) [
        | none ↦ none
        | some (_, t') ↦ elim (add_child k device (node_ptr c) t') [
          | none ↦ none
          | some (_, t'') ↦ some (true, t'')
        ]
      ]
    ]
  ]

  unfoldable pub add_descendent : ℕ → Ptr → List MeshAddr → M Endpoint Bool
  add_descendent k device [] = pure false
  add_descendent k device (c ∷ children) = do
    moved ← move_child k device c
    rest ← add_descendent k device children
    pure (moved || rest)

  unfoldable mutual
    -- `remove_node(device, addr)`
    pub remove_below : ℕ → Ptr → MeshAddr → M Endpoint Bool
    remove_below zero device addr t = none
    remove_below (suc k) device addr t = elim (node_at t device) [
      | none ↦ none
      | some n ↦ remove_among k device n.children addr t
    ]

    -- Its loop, from the child `c` on.
    pub remove_among : ℕ → Ptr → Option Ptr → MeshAddr → M Endpoint Bool
    remove_among zero device c addr t = none
    remove_among (suc k) device none addr t = some (false, t)
    remove_among (suc k) device (some c) addr t = elim (node_at t c) [
      | none ↦ none
      | some n ↦ elim (n.addr == addr) [
        | true ↦ elim (remove_child k device addr t) [
          | none ↦ none
          | some (_, t') ↦ some (true, record t' { endpoints = Dict.erase addr t'.endpoints })
        ]
        | false ↦ elim (remove_below k c addr t) [
          | none ↦ none
          | some (true, t') ↦ some (true, t')
          | some (false, t') ↦ elim (node_at t' c) [
            | none ↦ none
            | some m ↦ remove_among k device m.next addr t'
          ]
        ]
      ]
    ]

  -- `remove_node(addr)`
  unfoldable pub remove_node : ℕ → MeshAddr → M Endpoint Bool
  remove_node k addr = remove_below k root_ptr addr
