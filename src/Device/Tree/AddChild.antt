-- ===== src/Device/Tree/AddChild.antt =====
-- `add_child` of src/device/tree.cpp appends a branch to the children of a node.
use agro_daemon.Base.{
  ◌^◌, ◌+◌, ◌%◌, ◌≤◌, ◌≡◌, ◌≢◌, refl, sym, ◌∙◌, ap, subst, ℕ, true, false, Option, none, some,
  ==_refl, arith,
}
use agro_daemon.Device.Mac.{MeshAddr}
use agro_daemon.Device.InProgress.{addr_eq}
use agro_daemon.Device.Tree.{
  Ptr, node_ptr, Node, Tree, node_at, change, adopt, append_child, add_child,
}
use agro_daemon.Device.Tree.Nodes.{node_at-change, node_at-change_other}
use agro_daemon.Device.Tree.Forest.{Forest, empty, branch, size, member, Shows, ends, node}
use agro_daemon.Device.Tree.Shape.{
  Distinct, Outside, last, append, member-last, absent_parts, ne_of_member, ptr_ne, Shows-frame,
}
use agro_daemon.Device.Tree.Append.{appended, at_other, at_new, append_child-last, Shows-appended}

module _ {Endpoint : Type 0} where
  -- The tree with a node as the child of another, before the two are linked.
  abbrev adopted : Tree Endpoint → Ptr → MeshAddr → ℕ → Tree Endpoint
  adopted t p c layer =
      change (node_ptr c) (λ m. record m { layer = (layer + 1) % 2 ^ 32 })
        (change (node_ptr c) (λ m. record m { parent = some p }) t)

  at_rest :
      (t : Tree Endpoint) (p : Ptr) (c : MeshAddr) (layer : ℕ) (q : Ptr)
      → node_ptr c ≢ q
      → node_at (adopted t p c layer) q ≡ node_at t q
  at_rest t p c layer q h =
      node_at-change_other _ (node_ptr c) q (λ m. record m { layer = (layer + 1) % 2 ^ 32 }) h
      ∙ node_at-change_other t (node_ptr c) q (λ m. record m { parent = some p }) h

  at_child :
      (t : Tree Endpoint) (p : Ptr) (c : MeshAddr) (layer : ℕ) {m : Node}
      → node_at t (node_ptr c) ≡ some m
      → node_at (adopted t p c layer) (node_ptr c)
        ≡ some (record m { parent = some p; layer = (layer + 1) % 2 ^ 32 })
  at_child t p c layer e =
      node_at-change _ (node_ptr c) (λ m. record m { layer = (layer + 1) % 2 ^ 32 })
        (node_at-change t (node_ptr c) (λ m. record m { parent = some p }) e)

  adopt-some :
      (t : Tree Endpoint) (p : Ptr) (c : MeshAddr) {n : Node}
      → node_at t p ≡ some n
      → node_ptr c ≢ p
      → adopt p (node_ptr c) t ≡ some (n, adopted t p c n.layer)
  unfolding adopt
  adopt-some t p c e h =
      rw (adopt, node_at-change_other t (node_ptr c) p (λ m. record m { parent = some p }) h ∙ e)
        refl

  -- A node and a branch that are apart: the node is a parent and the branch is to become its child.
  pub record Joins (t : Tree Endpoint) (p : Ptr) (c : MeshAddr) (f g : Forest) : Type 0 where
    pub parent : Node
    pub child : Node
    pub at_parent : node_at t p ≡ some parent
    pub at_new_child : node_at t (node_ptr c) ≡ some child
    pub key : child.addr ≡ c
    pub shows : Shows t parent.children f
    pub shows_child : Shows t child.children g
    pub distinct : Distinct f
    pub apart : (x : MeshAddr) → member x f ≡ true → member x g ≡ false
    pub fresh : member c f ≡ false
    pub no_cycle : member c g ≡ false
    pub outside : Outside p f
    pub outside_child : Outside p (branch c g empty)

  Shows-adopted :
      {t : Tree Endpoint} (p : Ptr) (c : MeshAddr) (layer : ℕ) {q : Option Ptr} {f : Forest}
      → Shows t q f
      → member c f ≡ false
      → Shows (adopted t p c layer) q f
  Shows-adopted {t} p c layer {f} s out =
      Shows-frame (adopted t p c layer) s
        (λ x h. at_rest t p c layer (node_ptr x) (ptr_ne (ne_of_member f h out)))

  abbrev pub Added : ℕ → Tree Endpoint → Ptr → MeshAddr → Forest → Type 0
  Added k t p c f =
      (u : Tree Endpoint) × (n m : Node) × (add_child k p (node_ptr c) t ≡ some (true, u))
      × (node_at u p ≡ some n)
      × Shows u n.children f
      × (node_at u (node_ptr c) ≡ some m)
      × (m.parent ≡ some p)
      × (m.layer ≡ (n.layer + 1) % 2 ^ 32)

  add_first :
      (k : ℕ) {t : Tree Endpoint} {p : Ptr} {c : MeshAddr} {g : Forest} (j : Joins t p c empty g)
      → j.parent.children ≡ none
      → Added k t p c (append empty c g)
  unfolding add_child
  add_first k {t} {p} {c} {g} j alone =
      let layer = j.parent.layer in
      let ne = j.outside_child c (rw (==_refl c) refl) in
      let t' = adopted t p c layer in
      let link = λ (m : Node). record m { children = some (node_ptr c) } in
      let reset = λ (m : Node). record m { next = none } in
      let u = change (node_ptr c) reset (change p link t') in
      let parent = node_at-change t' p link (at_rest t p c layer p ne ∙ j.at_parent) in
      let child =
        node_at-change_other t' p (node_ptr c) link (λ e. ne (sym e))
        ∙ at_child t p c layer j.at_new_child in
      let below = Shows-frame u j.shows_child (λ x h.
        let apart = ptr_ne (ne_of_member g h j.no_cycle) in
        node_at-change_other (change p link t') (node_ptr c) (node_ptr x) reset apart
        ∙ node_at-change_other t' p (node_ptr x) link
            (λ e. j.outside_child x (ground (arith, h)) (sym e))
        ∙ at_rest t p c layer (node_ptr x) apart) in
      let at_c = node_at-change (change p link t') (node_ptr c) reset child in
      (
        u,
        link j.parent,
        _,
        rw (add_child, adopt-some t p c j.at_parent ne, alone) refl,
        node_at-change_other (change p link t') (node_ptr c) p reset ne ∙ parent,
        node at_c j.key below ends,
        at_c,
        refl,
        refl,
      )

  add_last :
      (k : ℕ) {t : Tree Endpoint} {p : Ptr} {c a : MeshAddr} {n : Node} {below behind g : Forest}
      (j : Joins t p c (branch a below behind) g)
      → size (branch a below behind) ≤ k
      → j.parent.children ≡ some (node_ptr a)
      → node_at t (node_ptr a) ≡ some n
      → n.addr ≡ a
      → Shows t n.children below
      → Shows t n.next behind
      → Added k t p c (append (branch a below behind) c g)
  unfolding add_child
  add_last k {t} {p} {c} {a} {n} {below} {behind} {g} j h first e own s r =
      let layer = j.parent.layer in
      let ne = j.outside_child c (rw (==_refl c) refl) in
      let t' = adopted t p c layer in
      let (ne_a, out_below, out_behind) = absent_parts c a below behind j.fresh in
      let b = last a behind in
      let here = member-last a below behind in
      let ne_b : b ≢ c = λ q. ne_of_member (branch a below behind) here j.fresh (sym q) in
      let u = appended t' b c in
      let at_a = at_rest t p c layer (node_ptr a) (ptr_ne (λ q. ne_a (sym q))) ∙ e in
      let child = at_child t p c layer j.at_new_child in
      let below' = Shows-frame u j.shows_child (λ x h'.
        let apart = ptr_ne (ne_of_member g h' j.no_cycle) in
        at_other t' b c (node_ptr x) (ptr_ne (ne_of_member g h' (j.apart b here))) apart
        ∙ at_rest t p c layer (node_ptr x) apart) in
      let run =
        ap (λ x. append_child k (node_ptr a) (node_ptr c) x t') j.key
        ∙ append_child-last k a c at_a own refl (Shows-adopted p c layer r out_behind) (omega arith)
            ne_a out_behind in
      (
        u,
        j.parent,
        _,
        rw (add_child, adopt-some t p c j.at_parent ne, first, child) run,
        at_other t' b c p (j.outside b here) ne ∙ at_rest t p c layer p ne ∙ j.at_parent,
        subst (λ q. Shows u q (append (branch a below behind) c g)) (sym first)
            (Shows-appended a c at_a own (Shows-adopted p c layer s out_below) refl
              (Shows-adopted p c layer r out_behind) j.distinct j.fresh child j.key below'),
        at_new t' b c ne_b child,
        refl,
        refl,
      )

  add_shown :
      (k : ℕ) {t : Tree Endpoint} {p : Ptr} {c : MeshAddr} {f g : Forest} (j : Joins t p c f g)
      {q : Option Ptr}
      → size f ≤ k
      → j.parent.children ≡ q
      → Shows t q f
      → Added k t p c (append f c g)
  add_shown k j h first ends = add_first k j first
  add_shown k j h first (node e own s r) = add_last k j h first e own s r

  -- `add_child` returns within as much fuel as the siblings have places, and says that the tree
  -- changed; the children of the parent are then its children from before and behind them the new
  -- branch, whose node has the parent and its layer plus one.
  pub add_child-append :
      (k : ℕ) {t : Tree Endpoint} {p : Ptr} {c : MeshAddr} {f g : Forest} (j : Joins t p c f g)
      → size f ≤ k
      → Added k t p c (append f c g)
  add_child-append k j h = add_shown k j h refl j.shows
