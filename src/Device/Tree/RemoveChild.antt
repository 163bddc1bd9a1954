-- ===== src/Device/Tree/RemoveChild.antt =====
-- `node::remove_child` of src/device/tree.cpp takes a branch out of the children of a node.
use agro_daemon.Base.{
  ◌<◌, ◌≤◌, ◌≡◌, ◌≢◌, refl, sym, ◌∙◌, ap, subst, ℕ, zero, suc, true, false, Option, none, some,
  ◌==◌, ==_refl, arith, Bool-cases, inl, inr,
}
use agro_daemon.Device.Mac.{MeshAddr}
use agro_daemon.Device.InProgress.{addr_eq}
use agro_daemon.Device.Tree.{
  Ptr, node_ptr, Node, Tree, node_at, change, remove_child_loop, remove_child,
}
use agro_daemon.Device.Tree.Nodes.{node_at-change, node_at-change_other}
use agro_daemon.Device.Tree.Forest.{Forest, empty, branch, size, member, Shows, ends, node}
use agro_daemon.Device.Tree.Shape.{
  Distinct, Outside, drop, sibling, ptr_ne, ne_of_member, Shows-frame,
}
use agro_daemon.Device.Tree.Unlink.{Behind, undo_first, remove_after}
use agro_daemon.Device.Tree.Undo.{size_pos}

module _ {Endpoint : Type 0} where
  -- What `remove_child` leaves at the parent.
  abbrev pub Removed : ℕ → Tree Endpoint → Ptr → MeshAddr → Forest → Type 0
  Removed k t p c f =
      (u : Tree Endpoint) × (m : Node) × (remove_child k p c t ≡ some (sibling c f, u))
      × (node_at u p ≡ some m)
      × Shows u m.children (drop c f)
      × ((q : Ptr) → p ≢ q → Outside q f → node_at u q ≡ node_at t q)

  pub remove_first :
      (k : ℕ) (t : Tree Endpoint) (p : Ptr) (c a : MeshAddr) {np n : Node} (below behind : Forest)
      → node_at t p ≡ some np
      → np.children ≡ some (node_ptr a)
      → Outside p (branch a below behind)
      → node_at t (node_ptr a) ≡ some n
      → n.addr ≡ a
      → (a == c) ≡ true
      → Shows t n.children below
      → Shows t n.next behind
      → Distinct (branch a below behind)
      → size (branch a below behind) ≤ k
      → (r : Removed (suc k) t p c (branch a below behind)) × (m : Node) × (node_at r.0 (node_ptr a)
          ≡ some m)
        × (m.next ≡ none)
  unfolding remove_child remove_child_loop
  remove_first k t p c a {np} {n} below behind ep first out e own hit s r d h =
      let link = λ (m : Node). record m { children = n.next } in
      let t' = change p link t in
      let test : (n.addr == c) ≡ true = ap (λ x. x == c) own ∙ hit in
      let still = λ (x : MeshAddr) (i : member x (branch a below behind) ≡ true).
        node_at-change_other t p (node_ptr x) link (λ q. out x i (sym q)) in
      let at_a = still a (rw (==_refl a) refl) ∙ e in
      let (u, ran, same, rest, o, at_last, no_next) =
        undo_first k t' a below behind at_a (Shows-frame t' s (λ x i. still x (ground (arith, i))))
          (Shows-frame t' r (λ x i. still x (ground (arith, i)))) d h in
      (
        (
          u,
          link np,
          rw (remove_child, ep, first, remove_child_loop, e, test, ran, hit) refl,
          same p (λ x i. out x (ground (arith, i))) ∙ node_at-change t p link ep,
          rw hit rest,
          λ q ne out_q.
              same q (λ x i. out_q x (ground (arith, i))) ∙ node_at-change_other t p q link ne,
        ),
        o,
        at_last,
        no_next,
      )

  remove_later :
      (k : ℕ) (t : Tree Endpoint) (p : Ptr) (c a : MeshAddr) {np n : Node} (below behind : Forest)
      → node_at t p ≡ some np
      → np.children ≡ some (node_ptr a)
      → Outside p (branch a below behind)
      → node_at t (node_ptr a) ≡ some n
      → n.addr ≡ a
      → (a == c) ≡ false
      → Shows t n.children below
      → Distinct (branch a below behind)
      → Behind k t p a n n.next c behind
      → Removed (suc k) t p c (branch a below behind)
  unfolding remove_child remove_child_loop Distinct
  remove_later k t p c a {np} {n} below behind ep first out e own miss s d
        (u, m, ran, same, at_a, rest, kept) =
      let test : (n.addr == c) ≡ false = ap (λ x. x == c) own ∙ miss in
      let at_p = same p (out a (rw (==_refl a) refl)) (λ x i. out x (ground (arith, i))) ∙ ep in
      let below' = Shows-frame u s (λ x i.
        same (node_ptr x) (ptr_ne (ne_of_member below i d.0))
          (λ y j. ptr_ne (λ q. ne_of_member behind j (d.2 x i) (sym q)))) in
      let front =
        node at_a (kept.0 ∙ own) (subst (λ q. Shows u q below) (sym kept.1) below') rest in
      (
        u,
        np,
        rw (remove_child, ep, first, remove_child_loop, e, test, miss) ran,
        at_p,
        rw miss (subst (λ q. Shows u q (branch a below (drop c behind))) (sym first) front),
        λ q ne out_q. same q (out_q a (rw (==_refl a) refl)) (λ x i. out_q x (ground (arith, i))),
      )

  remove_shown :
      (k : ℕ) (t : Tree Endpoint) (p : Ptr) (c : MeshAddr) {np : Node} {q : Option Ptr} {f : Forest}
      → node_at t p ≡ some np
      → np.children ≡ q
      → Shows t q f
      → Distinct f
      → Outside p f
      → size f < k
      → Removed k t p c f
  unfolding remove_child remove_child_loop Distinct
  remove_shown zero t p c ep first s d out h = absurd (omega arith)
  remove_shown (suc k) t p c {np} ep first ends d out h = (
    t,
    np,
    rw (remove_child, ep, first, remove_child_loop) refl,
    ep,
    subst (λ q. Shows t q empty) (sym first) ends,
    λ q ne out_q. refl,
  )
  remove_shown (suc k) t p c ep first (node {a} {n} {below} {behind} e own s r) d out h =
      elim (Bool-cases (a == c)) [
        | inl hit ↦
            (remove_first k t p c a below behind ep first out e own hit s r d (omega arith)).0
        | inr miss ↦
            remove_later k t p c a below behind ep first out e own miss s d
              (remove_after k t p a c e refl d.1 r d.4 (omega (arith, size_pos below)))
      ]

  -- On a node whose children are a forest without repeated addresses, `remove_child` returns within
  -- more fuel than the forest has places, and says whether the address is that of a child. The
  -- children are then those from before without that branch, and no node outside of them changes but
  -- the parent.
  pub remove_child-drop :
      (k : ℕ) (t : Tree Endpoint) (p : Ptr) (c : MeshAddr) {np : Node} {f : Forest}
      → node_at t p ≡ some np
      → Shows t np.children f
      → Distinct f
      → Outside p f
      → size f < k
      → Removed k t p c f
  remove_child-drop k t p c ep s d out h = remove_shown k t p c ep refl s d out h
