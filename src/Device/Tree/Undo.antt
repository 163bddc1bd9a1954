-- ===== src/Device/Tree/Undo.antt =====
-- `node::undo_branch` of src/device/tree.cpp: which nodes of a branch it resets.
use agro_daemon.Base.{
  ◌<◌, ◌≤◌, ◌≡◌, ◌≢◌, refl, sym, ◌∙◌, subst, ℕ, zero, suc, Bool, true, false, ◌||◌, Option, none,
  some, ◌==◌, ==_refl, ==_iff, arith, Bool-cases, inl, inr,
}
use agro_daemon.Device.Mac.{MeshAddr}
use agro_daemon.Device.InProgress.{addr_eq}
use agro_daemon.Device.Tree.{
  Ptr, node_ptr, Node, Tree, undefined, node_at, change, undo_branch, undo_children,
}
use agro_daemon.Device.Tree.Nodes.{node_at-change, node_at-change_other}
use agro_daemon.Device.Tree.Forest.{Forest, empty, branch, size, member, Shows, ends, node}
use agro_daemon.Device.Tree.Shape.{Distinct, ptr_ne, ne_of_member}

-- Is the address the first of its siblings, the first child of that, and so on?
abbrev pub on_spine : MeshAddr → Forest → Bool
on_spine x empty = false
on_spine x (branch a below behind) = a == x || on_spine x below

-- `layer`, `parent`, `children` and `next` as in a new node.
abbrev pub Reset : Node → Type 0
Reset m = (m.layer ≡ undefined) × (m.parent ≡ none) × (m.children ≡ none) × (m.next ≡ none)

pub member_of_spine : (x : MeshAddr) (f : Forest) → on_spine x f ≡ true → member x f ≡ true
member_of_spine x empty h = absurd (cc)
member_of_spine x (branch a below behind) h = ground (arith, h, member_of_spine x below)

pub size_pos : (f : Forest) → 0 < size f
size_pos empty = omega arith
size_pos (branch a below behind) = omega arith

abbrev reset : Node → Node
reset m = record m { children = none; next = none; parent = none; layer = undefined }

module _ {Endpoint : Type 0} where
  abbrev pub Undone : ℕ → Tree Endpoint → MeshAddr → Forest → Type 0
  Undone k t a below =
      (u : Tree Endpoint) × (undo_branch k (node_ptr a) t ≡ some (tt, u))
      × ((p : Ptr)
          → ((x : MeshAddr) → on_spine x (branch a below empty) ≡ true → node_ptr x ≢ p)
          → node_at u p ≡ node_at t p)
      × ((x : MeshAddr)
          → on_spine x (branch a below empty) ≡ true
          → (m : Node) × (node_at u (node_ptr x) ≡ some m) × Reset m)

  at_reset :
      (t : Tree Endpoint) (a x : MeshAddr) {n : Node}
      → node_at t (node_ptr a) ≡ some n
      → (a == x) ≡ true
      → (m : Node) × (node_at (change (node_ptr a) reset t) (node_ptr x) ≡ some m) × Reset m
  at_reset t a x {n} e h = (
    reset n,
    subst (λ y. node_at (change (node_ptr a) reset t) (node_ptr y) ≡ some (reset n))
        ((==_iff a x).0 h) (node_at-change t (node_ptr a) reset e),
    (refl, refl, refl, refl),
  )

  undo_alone :
      (k : ℕ) (t : Tree Endpoint) (a : MeshAddr) {n : Node}
      → node_at t (node_ptr a) ≡ some n
      → n.children ≡ none
      → Undone (suc (suc k)) t a empty
  unfolding undo_branch
  undo_alone k t a {n} e alone = (
    change (node_ptr a) reset t,
    rw (undo_branch, e, alone, undo_children) refl,
    λ p out. node_at-change_other t (node_ptr a) p reset (out a (rw (==_refl a) refl)),
    λ x h. at_reset t a x e (ground (arith, h)),
  )

  undo_above :
      (k : ℕ) (t : Tree Endpoint) (a c : MeshAddr) {n : Node} (below behind : Forest)
      → node_at t (node_ptr a) ≡ some n
      → n.children ≡ some (node_ptr c)
      → member a (branch c below behind) ≡ false
      → Undone (suc k) t c below
      → Undone (suc (suc (suc k))) t a (branch c below behind)
  unfolding undo_branch
  undo_above k t a c {n} below behind e first out (u, ran, same, resets) =
      let spine_ne = λ (x : MeshAddr) (h : on_spine x (branch c below empty) ≡ true).
        ne_of_member (branch c below behind) (member_of_spine x (branch c below behind) h) out in
      let (m, at_c, is_reset) = resets c (rw (==_refl c) refl) in
      let at_a = same (node_ptr a) (λ x h. ptr_ne (λ q. spine_ne x h (sym q))) ∙ e in
      (
        change (node_ptr a) reset u,
        rw (undo_branch, e, first, undo_children, ran, at_c, is_reset.3) refl,
        λ p outside.
            node_at-change_other u (node_ptr a) p reset (outside a (rw (==_refl a) refl))
            ∙ same p (λ x h. outside x (ground (arith, h))),
        λ x h. elim (Bool-cases (a == x)) [
          | inl own ↦ at_reset u a x at_a own
          | inr other ↦
              let inside : on_spine x (branch c below empty) ≡ true = rw other at h in
              let (o, at_x, is_reset') = resets x inside in
              (
                o,
                node_at-change_other u (node_ptr a) (node_ptr x) reset (ptr_ne (spine_ne x inside))
                    ∙ at_x,
                is_reset',
              )
        ],
      )

  -- On a branch without repeated addresses `undo_branch` returns within as much fuel as the branch
  -- has places. It resets the node, its first child, the first child of that, and so on; every other
  -- node keeps its fields, the other children in the branch included.
  pub undo_branch-spine :
      (k : ℕ) (t : Tree Endpoint) (a : MeshAddr) {n : Node} {q : Option Ptr} {below : Forest}
      → node_at t (node_ptr a) ≡ some n
      → n.children ≡ q
      → Shows t q below
      → Distinct (branch a below empty)
      → size (branch a below empty) ≤ k
      → Undone k t a below
  unfolding Distinct
  undo_branch-spine zero t a e first s d h = absurd (omega arith)
  undo_branch-spine (suc zero) t a e first ends d h = absurd (omega arith)
  undo_branch-spine (suc zero) t a e first (node e' own s r) d h = absurd (omega arith)
  undo_branch-spine (suc (suc k)) t a e first ends d h = undo_alone k t a e first
  undo_branch-spine (suc (suc zero)) t a e first (node e' own s r) d h = absurd (omega arith)
  undo_branch-spine (suc (suc (suc k))) t a e first (node {a = c} {below} {behind} e' own s r) d h =
      undo_above k t a c below behind e first d.0 (
        undo_branch-spine (suc k) t c e' refl s (d.3.0, refl, (λ x h'. refl), d.3.3, tt)
          (omega (arith, size_pos behind)))
