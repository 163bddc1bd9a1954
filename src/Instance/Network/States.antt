-- ===== src/Instance/Network/States.antt =====
-- Which devices `check_device_state` of src/instance/tree.cpp stores and notifies as connected or
-- disconnected.
use agro_daemon.Base.{
  ℕ, ◌≤◌, ◌≡◌, refl, ◌∙◌, Bool, true, false, ◌&&◌, ◌||◌, not, List, [], ◌∷◌, ◌++◌, map, some, ◌==◌,
  nat_eq, arith, contains, remove_if, Bool-cases, inl, inr, ==_iff,
}
use agro_daemon.Base.Dict
use agro_daemon.Base.Keys.{contains-keys, contains-remove_if}
use agro_daemon.Device.Mac.{MeshAddr}
use agro_daemon.Device.InProgress.{addr_eq}
use agro_daemon.Device.Tree.{Node}
use agro_daemon.Device.Tree.Forest.{Forest, size, member, Shows, unconnected-remove_if}
use agro_daemon.Instance.Network.{
  Network, Event, state_stored, notified_connected, notified_disconnected, tree_written,
  state_change, Changes, changes, notices, check_device_state,
}

-- Is the state of a device stored as connected, or as disconnected?
pub stored_connected : MeshAddr → List Event → Bool
stored_connected a [] = false
stored_connected a (state_stored x true ∷ events) = x == a || stored_connected a events
stored_connected a (state_stored x false ∷ events) = stored_connected a events
stored_connected a (notified_connected xs ∷ events) = stored_connected a events
stored_connected a (notified_disconnected xs ∷ events) = stored_connected a events
stored_connected a (tree_written ∷ events) = stored_connected a events

pub stored_disconnected : MeshAddr → List Event → Bool
stored_disconnected a [] = false
stored_disconnected a (state_stored x true ∷ events) = stored_disconnected a events
stored_disconnected a (state_stored x false ∷ events) = x == a || stored_disconnected a events
stored_disconnected a (notified_connected xs ∷ events) = stored_disconnected a events
stored_disconnected a (notified_disconnected xs ∷ events) = stored_disconnected a events
stored_disconnected a (tree_written ∷ events) = stored_disconnected a events

-- Does a notification name a device as connected, or as disconnected?
pub told_connected : MeshAddr → List Event → Bool
told_connected a [] = false
told_connected a (state_stored x b ∷ events) = told_connected a events
told_connected a (notified_connected xs ∷ events) = contains xs a || told_connected a events
told_connected a (notified_disconnected xs ∷ events) = told_connected a events
told_connected a (tree_written ∷ events) = told_connected a events

pub told_disconnected : MeshAddr → List Event → Bool
told_disconnected a [] = false
told_disconnected a (state_stored x b ∷ events) = told_disconnected a events
told_disconnected a (notified_connected xs ∷ events) = told_disconnected a events
told_disconnected a (notified_disconnected xs ∷ events) =
    contains xs a || told_disconnected a events
told_disconnected a (tree_written ∷ events) = told_disconnected a events

-- The four answers for the events of the loop and of the notifications.
pub record Reports (events : List Event) (a : MeshAddr) (up down : Bool) : Type 0 where
  pub stored_up : stored_connected a events ≡ up
  pub stored_down : stored_disconnected a events ≡ down
  pub told_up : told_connected a events ≡ up
  pub told_down : told_disconnected a events ≡ down

record Collects (c : Changes) (a : MeshAddr) (up down : Bool) : Type 0 where
  stored_up : stored_connected a c.stored ≡ up
  stored_down : stored_disconnected a c.stored ≡ down
  told_up : contains c.new_connected a ≡ up
  told_down : contains c.new_disconnected a ≡ down
  no_told_up : told_connected a c.stored ≡ false
  no_told_down : told_disconnected a c.stored ≡ false

Collects-changes :
    (old new addrs : List MeshAddr) (a : MeshAddr)
    → Collects
        (changes old new addrs)
        a
        (contains addrs a && (contains old a && not (contains new a)))
        (contains addrs a && (not (contains old a) && contains new a))
unfolding changes state_change stored_connected stored_disconnected told_connected told_disconnected
Collects-changes old new [] a = record {
  stored_up = refl;
  stored_down = refl;
  told_up = refl;
  told_down = refl;
  no_told_up = refl;
  no_told_down = refl;
}
Collects-changes old new (addr ∷ addrs) a =
    let ih = Collects-changes old new addrs a in
    elim (Bool-cases (contains old addr)) [
      | inl was ↦ elim (Bool-cases (contains new addr)) [
        | inl is ↦ rw (changes, state_change, was, is) (ground (arith, ih, ==_iff addr a))
        | inr is ↦ rw (changes, state_change, was, is) (ground (arith, ih, ==_iff addr a))
      ]
      | inr was ↦ elim (Bool-cases (contains new addr)) [
        | inl is ↦ rw (changes, state_change, was, is) (ground (arith, ih, ==_iff addr a))
        | inr is ↦ rw (changes, state_change, was, is) (ground (arith, ih, ==_iff addr a))
      ]
    ]

stored_connected-append :
    (a : MeshAddr) (xs ys : List Event)
    → stored_connected a (xs ++ ys) ≡ (stored_connected a xs || stored_connected a ys)
unfolding stored_connected
stored_connected-append a [] ys = refl
stored_connected-append a (state_stored x true ∷ xs) ys =
    ground (arith, stored_connected-append a xs ys)
stored_connected-append a (state_stored x false ∷ xs) ys = stored_connected-append a xs ys
stored_connected-append a (notified_connected l ∷ xs) ys = stored_connected-append a xs ys
stored_connected-append a (notified_disconnected l ∷ xs) ys = stored_connected-append a xs ys
stored_connected-append a (tree_written ∷ xs) ys = stored_connected-append a xs ys

stored_disconnected-append :
    (a : MeshAddr) (xs ys : List Event)
    → stored_disconnected a (xs ++ ys) ≡ (stored_disconnected a xs || stored_disconnected a ys)
unfolding stored_disconnected
stored_disconnected-append a [] ys = refl
stored_disconnected-append a (state_stored x true ∷ xs) ys = stored_disconnected-append a xs ys
stored_disconnected-append a (state_stored x false ∷ xs) ys =
    ground (arith, stored_disconnected-append a xs ys)
stored_disconnected-append a (notified_connected l ∷ xs) ys = stored_disconnected-append a xs ys
stored_disconnected-append a (notified_disconnected l ∷ xs) ys = stored_disconnected-append a xs ys
stored_disconnected-append a (tree_written ∷ xs) ys = stored_disconnected-append a xs ys

told_connected-append :
    (a : MeshAddr) (xs ys : List Event)
    → told_connected a (xs ++ ys) ≡ (told_connected a xs || told_connected a ys)
unfolding told_connected
told_connected-append a [] ys = refl
told_connected-append a (state_stored x b ∷ xs) ys = told_connected-append a xs ys
told_connected-append a (notified_connected l ∷ xs) ys =
    ground (arith, told_connected-append a xs ys)
told_connected-append a (notified_disconnected l ∷ xs) ys = told_connected-append a xs ys
told_connected-append a (tree_written ∷ xs) ys = told_connected-append a xs ys

told_disconnected-append :
    (a : MeshAddr) (xs ys : List Event)
    → told_disconnected a (xs ++ ys) ≡ (told_disconnected a xs || told_disconnected a ys)
unfolding told_disconnected
told_disconnected-append a [] ys = refl
told_disconnected-append a (state_stored x b ∷ xs) ys = told_disconnected-append a xs ys
told_disconnected-append a (notified_connected l ∷ xs) ys = told_disconnected-append a xs ys
told_disconnected-append a (notified_disconnected l ∷ xs) ys =
    ground (arith, told_disconnected-append a xs ys)
told_disconnected-append a (tree_written ∷ xs) ys = told_disconnected-append a xs ys

record OnlyTold (events : List Event) (a : MeshAddr) (up down : Bool) : Type 0 where
  not_up : stored_connected a events ≡ false
  not_down : stored_disconnected a events ≡ false
  told_up : told_connected a events ≡ up
  told_down : told_disconnected a events ≡ down

OnlyTold-notices :
    (stored : List Event) (up down : List MeshAddr) (a : MeshAddr)
    → OnlyTold
        (notices (record { stored = stored; new_connected = up; new_disconnected = down }))
        a
        (contains up a)
        (contains down a)
unfolding notices stored_connected stored_disconnected told_connected told_disconnected
OnlyTold-notices stored [] [] a = ground arith
OnlyTold-notices stored [] (d ∷ down) a = ground arith
OnlyTold-notices stored (u ∷ up) [] a = ground arith
OnlyTold-notices stored (u ∷ up) (d ∷ down) a = ground arith

Reports-Collects :
    (c : Changes) (a : MeshAddr) (up down : Bool)
    → Collects c a up down
    → Reports (c.stored ++ notices c) a up down
Reports-Collects c a up down h =
    let told = OnlyTold-notices c.stored c.new_connected c.new_disconnected a in
    record {
      stored_up = stored_connected-append a c.stored (notices c) ∙ ground (arith, h, told);
      stored_down = stored_disconnected-append a c.stored (notices c) ∙ ground (arith, h, told);
      told_up = told_connected-append a c.stored (notices c) ∙ ground (arith, h, told);
      told_down = told_disconnected-append a c.stored (notices c) ∙ ground (arith, h, told);
    }

not-not : (b : Bool) → not (not b) ≡ b
not-not true = refl
not-not false = refl

-- Where the pointers from the root lead through a forest, `check_device_state` returns within as much
-- fuel as the forest has places. It stores and notifies as connected exactly the devices of the list
-- that have a node in the forest and were unconnected before, and as disconnected exactly those that
-- have a node outside the forest and were not; what it keeps as unconnected are the nodes outside the
-- forest, and the tree stays. Of a device without a node nothing is said.
pub check_device_state-Reports :
    {Endpoint : Type 0} (k : ℕ) (n : Network Endpoint) {f : Forest}
    → Shows n.tree n.tree.root.children f
    → size f ≤ k
    → (events : List Event) × (n' : Network Endpoint) × (check_device_state k n ≡ some (events, n'))
      × (n'.tree ≡ n.tree)
      × ((a : MeshAddr) (m : Node)
          → Dict.lookup a n.tree.nodes ≡ some m
          → (contains n'.old_unconnected a ≡ not (member a f))
            × Reports events a
                (contains (map (λ e. e.0) n.tree.dev_list) a
                  && (contains n.old_unconnected a && member a f))
                (contains (map (λ e. e.0) n.tree.dev_list) a
                  && (not (contains n.old_unconnected a) && not (member a f))))
unfolding check_device_state
check_device_state-Reports k n {f} shows h =
    let keys = map (λ (e : MeshAddr × Node). e.0) n.tree.nodes in
    let devices = map (λ (e : MeshAddr × _). e.0) n.tree.dev_list in
    let new = remove_if (λ a. member a f) keys in
    let c = changes n.old_unconnected new devices in
    (
      c.stored ++ notices c,
      record n { old_unconnected = new },
      rw (check_device_state, unconnected-remove_if k shows h) refl,
      refl,
      λ a m found.
          let outside : contains new a ≡ not (member a f) =
            contains-remove_if (λ x. member x f) keys a
            ∙ rw (contains-keys a n.tree.nodes m found) refl in
          (
            outside,
            Reports-Collects c a _ _ (
                rw (outside, not-not (member a f)) at
                  (Collects-changes n.old_unconnected new devices a)),
          ),
    )
