-- ===== src/Device/Tree/Cycle.antt =====
-- Branches that lead back to themselves: `remove_descendent` of src/device/tree.cpp.
use agro_daemon.Base.{
  ◌^◌, ◌≡◌, ◌≢◌, refl, sym, ◌∙◌, ◌+◌, ◌%◌, ℕ, zero, suc, true, false, List, none, some, ◌==◌,
  nat_eq, arith,
}
use agro_daemon.Device.Mac.{MeshAddr}
use agro_daemon.Device.InProgress.{addr_eq}
use agro_daemon.Device.State.{Device}
use agro_daemon.Device.Tree.{node_ptr, Node, Tree, node_at, change, adopt, add_child, load}
use agro_daemon.Device.Tree.Nodes.{node_at-change, node_at-change_ne}
use agro_daemon.Device.Tree.Steps.{bind_some, bind_none, load-some}
use agro_daemon.Device.Tree.Branches.{remove_descendent, remove_others}
use agro_daemon.Device.Tree.Update.{add_router, link}

test_zero : {n : ℕ} → n ≢ 0 → (n == 0) ≡ false
test_zero {n} h = ground arith

module _ {Endpoint : Type 0} where
  -- Two nodes, each the first child of the other.
  record Loops (t : Tree Endpoint) (a b : MeshAddr) : Type 0 where
    x : Node
    y : Node
    first : node_at t (node_ptr a) ≡ some x
    second : node_at t (node_ptr b) ≡ some y
    down : x.children ≡ some (node_ptr b)
    up : y.children ≡ some (node_ptr a)

  Loops-swap : {t : Tree Endpoint} {a b : MeshAddr} → Loops t a b → Loops t b a
  Loops-swap l = record {
    x = l.y;
    y = l.x;
    first = l.second;
    second = l.first;
    down = l.up;
    up = l.down;
  }

  remove_descendent-Loops :
      (k : ℕ) {t : Tree Endpoint} {a b : MeshAddr} (children : List MeshAddr)
      → Loops t a b
      → remove_descendent k (node_ptr a) children t ≡ none
  unfolding remove_descendent
  remove_descendent-Loops zero children l = refl
  remove_descendent-Loops (suc zero) children l = rw (remove_descendent, l.first) refl
  remove_descendent-Loops (suc (suc k)) children l =
      rw
        (
          remove_descendent,
          l.first,
          l.down,
          remove_others,
          l.second,
          remove_descendent-Loops k children (Loops-swap l),
        )
        refl

  -- The two nodes before the update: the second is the first child of the device.
  pub record Swapped (t : Tree Endpoint) (a b : MeshAddr) : Type 0 where
    pub parent : Node
    pub device : Node
    pub at_parent : node_at t (node_ptr a) ≡ some parent
    pub at_device : node_at t (node_ptr b) ≡ some device
    pub alone : parent.children ≡ none
    pub below : device.children ≡ some (node_ptr a)
    pub no_router : parent.layer ≢ 0
    pub ne : a ≢ b

  abbrev adopted : Tree Endpoint → (a b : MeshAddr) → Node → Tree Endpoint
  adopted t a b n =
      change (node_ptr b) (λ m. record m { layer = (n.layer + 1) % 2 ^ 32 })
        (change (node_ptr b) (λ m. record m { parent = some (node_ptr a) }) t)

  abbrev linked : Tree Endpoint → (a b : MeshAddr) → Node → Tree Endpoint
  linked t a b n =
      change (node_ptr b) (λ m. record m { next = none })
        (change (node_ptr a) (λ m. record m { children = some (node_ptr b) }) (adopted t a b n))

  add_child-Swapped :
      (k : ℕ) {t : Tree Endpoint} {a b : MeshAddr} (s : Swapped t a b)
      → add_child k (node_ptr a) (node_ptr b) t ≡ some (true, linked t a b s.parent)
  unfolding add_child adopt
  add_child-Swapped k {t} {a} {b} s =
      let here =
        node_at-change_ne t (λ m. record m { parent = some (node_ptr a) }) (λ e. s.ne (sym e))
        ∙ s.at_parent in
      rw (add_child, adopt, here, s.alone) refl

  at_adopted :
      {t : Tree Endpoint} {a b : MeshAddr} (s : Swapped t a b)
      → node_at (adopted t a b s.parent) (node_ptr a) ≡ some s.parent
  at_adopted {t} {a} {b} s =
      let ne = λ (e : b ≡ a). s.ne (sym e) in
      node_at-change_ne _ (λ m. record m { layer = (s.parent.layer + 1) % 2 ^ 32 }) ne
      ∙ node_at-change_ne t (λ m. record m { parent = some (node_ptr a) }) ne
      ∙ s.at_parent

  at_parent-linked :
      {t : Tree Endpoint} {a b : MeshAddr} (s : Swapped t a b)
      → node_at (linked t a b s.parent) (node_ptr a)
        ≡ some (record s.parent { children = some (node_ptr b) })
  at_parent-linked {t} {a} {b} s =
      node_at-change_ne _ (λ m. record m { next = none }) (λ e. s.ne (sym e))
      ∙ node_at-change (adopted t a b s.parent) (node_ptr a)
          (λ m. record m { children = some (node_ptr b) }) (at_adopted s)

  Loops-linked :
      {t : Tree Endpoint} {a b : MeshAddr} (s : Swapped t a b) → Loops (linked t a b s.parent) b a
  Loops-linked {t} {a} {b} s =
      let child =
        node_at-change t (node_ptr b) (λ m. record m { parent = some (node_ptr a) }) s.at_device in
      let layered =
        node_at-change _ (node_ptr b) (λ m. record m { layer = (s.parent.layer + 1) % 2 ^ 32 })
          child in
      let kept =
        node_at-change_ne (adopted t a b s.parent) (λ m. record m { children = some (node_ptr b) })
          s.ne
        ∙ layered in
      record {
        x = _;
        y = _;
        first = node_at-change _ (node_ptr b) (λ m. record m { next = none }) kept;
        second = at_parent-linked s;
        down = s.below;
        up = refl;
      }

  add_router-Swapped :
      (k : ℕ) {t : Tree Endpoint} {a b : MeshAddr} (s : Swapped t a b)
      → add_router k a (linked t a b s.parent) ≡ some (false, linked t a b s.parent)
  unfolding add_router
  add_router-Swapped k {t} {a} {b} s =
      bind_some (load (node_ptr a)) _ (linked t a b s.parent)
        (load-some _ (node_ptr a) (at_parent-linked s))
      ∙ rw (test_zero s.no_router)

  pub link-Swapped :
      (k : ℕ) {t : Tree Endpoint} (d : Device Endpoint)
      → Swapped t d.parent d.mac
      → link k d t ≡ none
  unfolding link
  link-Swapped k {t} d s =
      bind_some (add_child k (node_ptr d.parent) (node_ptr d.mac)) _ t (add_child-Swapped k s)
      ∙ bind_some (add_router k d.parent) _ (linked t d.parent d.mac s.parent)
          (add_router-Swapped k s)
      ∙ bind_none (remove_descendent k (node_ptr d.mac) d.children_table) _
          (linked t d.parent d.mac s.parent)
          (remove_descendent-Loops k d.children_table (Loops-linked s))
