-- ===== src/Device/Tree/Turn.antt =====
-- A device that reports one of its children as its parent: `update` of src/device/tree.cpp.
use agro_daemon.Base.{
  ◌-◌, ◌^◌, ◌<◌, ◌≡◌, ◌≢◌, refl, sym, ◌∙◌, inl, inr, ◌+◌, ◌%◌, ℕ, ◌&&◌, ltb, leb, List, [], ◌∷◌,
  none, some, nat_eq, arith, Bool-cases,
}
use agro_daemon.Device.Mac.{MeshAddr}
use agro_daemon.Device.InProgress.{addr_eq}
use agro_daemon.Device.State.{Device}
use agro_daemon.Device.Tree.{
  Ptr, root_ptr, node_ptr, Node, Tree, node_at, change, load, modify, get_node,
}
use agro_daemon.Device.Tree.Nodes.{node_at-change, node_at-change_ne}
use agro_daemon.Device.Tree.Steps.{bind_some, bind_none, load-some}
use agro_daemon.Device.Tree.Update.{link, place, update}
use agro_daemon.Device.Tree.Roots.{
  update_endpoints, update_device_endpoint, update_device_endpoints,
}
use agro_daemon.Device.Tree.Cycle.{Swapped, link-Swapped}

router_bits : {l : ℕ} → l < 2 ^ 32 → l ≢ 1 → (l + 2 ^ 32 - 1) % 2 ^ 32 ≢ 0
router_bits {l} h ne e = ne (omega arith)

module _ {Endpoint : Type 0} where
  -- Before the update the tree has the node of the parent, which has no children, and the node of the
  -- device, whose first child is the parent.
  pub record Turned (t : Tree Endpoint) (d : Device Endpoint) : Type 0 where
    pub parent : Node
    pub device : Node
    pub at_parent : node_at t (node_ptr d.parent) ≡ some parent
    pub at_device : node_at t (node_ptr d.mac) ≡ some device
    pub alone : parent.children ≡ none
    pub below : device.children ≡ some (node_ptr d.parent)
    pub layer_bits : d.layer < 2 ^ 32
    pub no_root : d.layer ≢ 1
    pub ne : d.parent ≢ d.mac

  get_node_same :
      (t : Tree Endpoint) (a : MeshAddr) {n : Node}
      → node_at t (node_ptr a) ≡ some n
      → get_node a t ≡ t
  unfolding get_node node_at
  get_node_same t a h = rw (get_node, h) refl

  node_at-update_device_endpoint :
      (t : Tree Endpoint) (a : MeshAddr) (ep : Endpoint) (p : Ptr)
      → node_at (update_device_endpoint a ep t) p ≡ node_at t p
  unfolding update_device_endpoint node_at
  node_at-update_device_endpoint t a ep root_ptr = refl
  node_at-update_device_endpoint t a ep (node_ptr b) = refl

  node_at-update_device_endpoints :
      (t : Tree Endpoint) (list : List MeshAddr) (ep : Endpoint) (p : Ptr)
      → node_at (update_device_endpoints list ep t) p ≡ node_at t p
  unfolding update_device_endpoints
  node_at-update_device_endpoints t [] ep p = refl
  node_at-update_device_endpoints t (a ∷ list) ep p =
      node_at-update_device_endpoints (update_device_endpoint a ep t) list ep p
      ∙ node_at-update_device_endpoint t a ep p

  node_at-endpoints :
      (t : Tree Endpoint) (d : Device Endpoint) (p : Ptr)
      → node_at (update_endpoints d t) p ≡ node_at t p
  unfolding update_endpoints
  node_at-endpoints t d p =
      node_at-update_device_endpoints _ d.children_table d.ep p
      ∙ (elim (Bool-cases (leb 2 d.layer && ltb d.layer (2 ^ 31))) [
        | inl e ↦ rw e (node_at-update_device_endpoint t d.parent d.ep p)
        | inr e ↦ rw e refl
      ])

  abbrev placed : Tree Endpoint → Device Endpoint → Tree Endpoint
  placed t d =
      change (node_ptr d.parent) (λ n. record n { layer = (d.layer + 2 ^ 32 - 1) % 2 ^ 32 })
        (change (node_ptr d.mac) (λ n. record n { layer = d.layer }) t)

  place-Turned :
      {t : Tree Endpoint} (d : Device Endpoint) → Turned t d → place d t ≡ some (tt, placed t d)
  unfolding place modify
  place-Turned {t} d h =
      let t' = change (node_ptr d.mac) (λ n. record n { layer = d.layer }) t in
      let there =
        node_at-change_ne t (λ n. record n { layer = d.layer }) (λ e. h.ne (sym e)) ∙ h.at_parent in
      let here =
        node_at-change t (node_ptr d.mac) (λ n. record n { layer = d.layer }) h.at_device in
      rw (get_node_same t d.mac h.at_device, get_node_same t' d.parent there)
        (bind_some (load (node_ptr d.mac)) _ t' (load-some t' (node_ptr d.mac) here))

  Swapped-placed :
      {t : Tree Endpoint} (d : Device Endpoint) (h : Turned t d)
      → Swapped (update_endpoints d (placed t d)) d.parent d.mac
  Swapped-placed {t} d h =
      let f = λ (n : Node). record n { layer = d.layer } in
      let g = λ (n : Node). record n { layer = (d.layer + 2 ^ 32 - 1) % 2 ^ 32 } in
      let there = node_at-change_ne t f (λ e. h.ne (sym e)) ∙ h.at_parent in
      let here = node_at-change t (node_ptr d.mac) f h.at_device in
      let t' = change (node_ptr d.mac) f t in
      record {
        parent = g h.parent;
        device = f h.device;
        at_parent =
            node_at-endpoints (placed t d) d (node_ptr d.parent)
            ∙ node_at-change t' (node_ptr d.parent) g there;
        at_device =
            node_at-endpoints (placed t d) d (node_ptr d.mac) ∙ node_at-change_ne t' g h.ne ∙ here;
        alone = h.alone;
        below = h.below;
        no_router = router_bits h.layer_bits h.no_root;
        ne = h.ne;
      }

  -- When a device reports as its parent a device that stands first among its own children, and that
  -- has no children, `update` does not return, whatever the fuel: the two nodes become each other's
  -- child. The layer of the device is not 1, so that its parent is not a router.
  pub update-diverges :
      (k : ℕ) {t : Tree Endpoint} (d : Device Endpoint) → Turned t d → update k d t ≡ none
  unfolding update
  update-diverges k {t} d h =
      bind_some (place d) _ t (place-Turned d h)
      ∙ bind_none (link k d) _ (update_endpoints d (placed t d))
          (link-Swapped k d (Swapped-placed d h))
