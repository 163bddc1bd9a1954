-- ===== src/Device/Tree/Descend.antt =====
-- The loop of `remove_descendent` of src/device/tree.cpp stops after the first child that it removes.
use agro_daemon.Base.{
  ◌≤◌, ◌≡◌, refl, sym, ◌∙◌, ap, subst, ℕ, zero, suc, true, false, List, none, some, ==_refl, arith,
  contains,
}
use agro_daemon.Device.Mac.{MeshAddr}
use agro_daemon.Device.InProgress.{addr_eq}
use agro_daemon.Device.Tree.{Ptr, node_ptr, Node, Tree, node_at, remove_child}
use agro_daemon.Device.Tree.Forest.{Forest, empty, branch, size, Shows, ends}
use agro_daemon.Device.Tree.Shape.{Distinct, Outside}
use agro_daemon.Device.Tree.RemoveChild.{remove_first}
use agro_daemon.Device.Tree.Branches.{remove_descendent, remove_others}

module _ {Endpoint : Type 0} where
  remove_descendent-leaf :
      (k : ℕ) (t : Tree Endpoint) (a : MeshAddr) (children : List MeshAddr) {n : Node}
      → node_at t (node_ptr a) ≡ some n
      → n.children ≡ none
      → remove_descendent (suc (suc k)) (node_ptr a) children t ≡ some (false, t)
  unfolding remove_descendent
  remove_descendent-leaf k t a children e leaf = rw (remove_descendent, e, leaf, remove_others) refl

  -- A device whose first child has no children and is not among the reported ones: `remove_descendent`
  -- takes that child out, and every sibling behind it stays, whatever was reported.
  pub remove_descendent-first :
      (k : ℕ) (t : Tree Endpoint) (p : Ptr) (a : MeshAddr) (children : List MeshAddr) {np n : Node}
      (behind : Forest)
      → node_at t p ≡ some np
      → np.children ≡ some (node_ptr a)
      → Outside p (branch a empty behind)
      → node_at t (node_ptr a) ≡ some n
      → n.addr ≡ a
      → n.children ≡ none
      → Shows t n.next behind
      → Distinct (branch a empty behind)
      → contains children a ≡ false
      → size (branch a empty behind) ≤ k
      → (u : Tree Endpoint) × (m : Node) × (remove_descendent (suc (suc (suc k))) p children t
          ≡ some (true, u))
        × (node_at u p ≡ some m)
        × Shows u m.children behind
  unfolding remove_descendent
  remove_descendent-first zero t p a children behind ep first out e own leaf r d absent h =
      absurd (omega arith)
  remove_descendent-first (suc k) t p a children {np} {n} behind ep first out e own leaf r d absent
        h =
      let here = ==_refl a in
      let ((u, m, ran, at_p, rest, _), o, at_last, no_next) =
        remove_first (suc k) t p a a empty behind ep first out e own here
          (subst (λ q. Shows t q empty) (sym leaf) ends) r d h in
      let ran' : remove_child (suc (suc k)) p n.addr t ≡ some (true, u) =
        ap (λ x. remove_child (suc (suc k)) p x t) own ∙ ran ∙ rw here refl in
      let absent' : contains children n.addr ≡ false = ap (contains children) own ∙ absent in
      (
        u,
        m,
        rw
            (
              remove_descendent,
              ep,
              first,
              remove_others,
              e,
              remove_descendent-leaf k t a children e leaf,
              absent',
              ran',
              at_last,
              no_next,
            )
            refl,
        at_p,
        rw here at rest,
      )
