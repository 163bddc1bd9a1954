-- ===== src/Device/Tree/Unlink.antt =====
-- The rounds of the loop of `node::remove_child` of src/device/tree.cpp.
use agro_daemon.Base.{
  ◌<◌, ◌≤◌, ◌≡◌, ◌≢◌, refl, sym, ◌∙◌, ap, subst, ℕ, zero, suc, true, false, Option, none, some,
  ◌==◌, ==_refl, ==_iff, arith, Bool-cases, inl, inr,
}
use agro_daemon.Device.Mac.{MeshAddr}
use agro_daemon.Device.InProgress.{addr_eq}
use agro_daemon.Device.Tree.{
  Ptr, node_ptr, Node, Tree, node_at, change, undo_branch, remove_child_loop,
}
use agro_daemon.Device.Tree.Nodes.{node_at-change, node_at-change_other}
use agro_daemon.Device.Tree.Forest.{Forest, empty, branch, size, member, Shows, ends, node}
use agro_daemon.Device.Tree.Shape.{
  Distinct, Outside, drop, sibling, absent_parts, ptr_ne, ne_of_member, Shows-frame,
}
use agro_daemon.Device.Tree.Undo.{member_of_spine, size_pos, undo_branch-spine}

-- The address and the children of a node are those of another.
abbrev pub Keeps : Node → Node → Type 0
Keeps m n = (m.addr ≡ n.addr) × (m.children ≡ n.children)

front_absent :
    (y a : MeshAddr) (below behind : Forest)
    → Distinct (branch a below behind)
    → member y (branch a below empty) ≡ true
    → member y behind ≡ false
unfolding Distinct
front_absent y a below behind d h = elim (Bool-cases (a == y)) [
  | inl own ↦ subst (λ x. member x behind ≡ false) ((==_iff a y).0 own) d.1
  | inr other ↦ d.2 y (ground (arith, h, other))
]

module _ {Endpoint : Type 0} where
  -- A change that spares every node but one node, and those of a forest.
  abbrev pub Spares : Tree Endpoint → Tree Endpoint → Ptr → Forest → Type 0
  Spares t u q f = (p : Ptr) → q ≢ p → Outside p f → node_at u p ≡ node_at t p

  -- The branch behind which the siblings go on is undone.
  pub undo_first :
      (k : ℕ) (t : Tree Endpoint) (a : MeshAddr) {n : Node} (below behind : Forest)
      → node_at t (node_ptr a) ≡ some n
      → Shows t n.children below
      → Shows t n.next behind
      → Distinct (branch a below behind)
      → size (branch a below behind) ≤ k
      → (u : Tree Endpoint) × (undo_branch k (node_ptr a) t ≡ some (tt, u))
        × ((p : Ptr) → Outside p (branch a below empty) → node_at u p ≡ node_at t p)
        × Shows u n.next behind
        × (m : Node) × (node_at u (node_ptr a) ≡ some m)
        × (m.next ≡ none)
  unfolding Distinct
  undo_first k t a below behind e s r d h =
      let (u, ran, same, resets) =
        undo_branch-spine k t a e refl s (d.0, refl, (λ x h'. refl), d.3, tt)
          (omega (arith, size_pos behind)) in
      let spared = λ (p : Ptr) (out : Outside p (branch a below empty)).
        same p (λ x h'. out x (member_of_spine x (branch a below empty) h')) in
      let rest = Shows-frame u r (λ x h'.
        spared (node_ptr x)
          (λ y h''. ptr_ne (ne_of_member behind h' (front_absent y a below behind d h'')))) in
      let (m, at_a, is_reset) = resets a (rw (==_refl a) refl) in
      (u, ran, spared, rest, m, at_a, is_reset.3)

  -- What the loop leaves behind the sibling `b`, which it has passed.
  abbrev pub Behind :
      ℕ → Tree Endpoint → Ptr → MeshAddr → Node → Option Ptr → MeshAddr → Forest → Type 0
  Behind k t parent b nb q c f =
      (u : Tree Endpoint) × (m : Node) × (remove_child_loop k parent (some (node_ptr b)) q c t
        ≡ some (sibling c f, u))
      × Spares t u (node_ptr b) f
      × (node_at u (node_ptr b) ≡ some m)
      × Shows u m.next (drop c f)
      × Keeps m nb

  unlink_after :
      (k : ℕ) (t : Tree Endpoint) (parent : Ptr) (b c a : MeshAddr) {nb n : Node}
      (below behind : Forest)
      → node_at t (node_ptr b) ≡ some nb
      → member b (branch a below behind) ≡ false
      → node_at t (node_ptr a) ≡ some n
      → (n.addr == c) ≡ true
      → (a == c) ≡ true
      → Shows t n.children below
      → Shows t n.next behind
      → Distinct (branch a below behind)
      → size (branch a below behind) ≤ k
      → Behind (suc k) t parent b nb (some (node_ptr a)) c (branch a below behind)
  unfolding remove_child_loop
  unlink_after k t parent b c a {nb} {n} below behind eb out e test hit s r d h =
      let link = λ (m : Node). record m { next = n.next } in
      let t' = change (node_ptr b) link t in
      let still = λ (x : MeshAddr) (i : member x (branch a below behind) ≡ true).
        node_at-change_other t (node_ptr b) (node_ptr x) link
          (ptr_ne (ne_of_member (branch a below behind) i out)) in
      let at_a = still a (rw (==_refl a) refl) ∙ e in
      let (u, ran, same, rest, _, _, _) =
        undo_first k t' a below behind at_a (Shows-frame t' s (λ x i. still x (ground (arith, i))))
          (Shows-frame t' r (λ x i. still x (ground (arith, i)))) d h in
      (
        u,
        link nb,
        rw (remove_child_loop, e, test, ran, hit) refl,
        λ p ne out_p.
            same p (λ x i. out_p x (ground (arith, i)))
            ∙ node_at-change_other t (node_ptr b) p link ne,
        same (node_ptr b) (λ x i.
              ptr_ne (λ q. ne_of_member (branch a below behind) (ground (arith, i)) out (sym q)))
            ∙ node_at-change t (node_ptr b) link eb,
        rw hit rest,
        (refl, refl),
      )

  pass_after :
      (k : ℕ) (t : Tree Endpoint) (parent : Ptr) (b c a : MeshAddr) {nb n : Node}
      (below behind : Forest)
      → node_at t (node_ptr b) ≡ some nb
      → nb.next ≡ some (node_ptr a)
      → member b (branch a below behind) ≡ false
      → node_at t (node_ptr a) ≡ some n
      → n.addr ≡ a
      → (a == c) ≡ false
      → Shows t n.children below
      → Distinct (branch a below behind)
      → Behind k t parent a n n.next c behind
      → Behind (suc k) t parent b nb (some (node_ptr a)) c (branch a below behind)
  unfolding remove_child_loop Distinct
  pass_after k t parent b c a {nb} {n} below behind eb next out e own miss s d
        (u, m, ran, same, at_a, rest, kept) =
      let test : (n.addr == c) ≡ false = ap (λ x. x == c) own ∙ miss in
      let (a_ne, _, out_behind) = absent_parts b a below behind out in
      let at_b =
        same (node_ptr b) (ptr_ne a_ne)
          (λ x i. ptr_ne (λ q. ne_of_member behind i out_behind (sym q)))
        ∙ eb in
      let below' = Shows-frame u s (λ x i.
        same (node_ptr x) (ptr_ne (ne_of_member below i d.0))
          (λ y j. ptr_ne (λ q. ne_of_member behind j (d.2 x i) (sym q)))) in
      let front =
        node at_a (kept.0 ∙ own) (subst (λ q. Shows u q below) (sym kept.1) below') rest in
      (
        u,
        nb,
        rw (remove_child_loop, e, test, miss) ran,
        λ p ne out_p. same p (out_p a (rw (==_refl a) refl)) (λ x i. out_p x (ground (arith, i))),
        at_b,
        rw miss (subst (λ q. Shows u q (branch a below (drop c behind))) (sym next) front),
        (refl, refl),
      )

  pub remove_after :
      (k : ℕ) (t : Tree Endpoint) (parent : Ptr) (b c : MeshAddr) {nb : Node} {q : Option Ptr}
      {f : Forest}
      → node_at t (node_ptr b) ≡ some nb
      → nb.next ≡ q
      → member b f ≡ false
      → Shows t q f
      → Distinct f
      → size f < k
      → Behind k t parent b nb q c f
  unfolding remove_child_loop Distinct
  remove_after zero t parent b c eb next out s d h = absurd (omega arith)
  remove_after (suc k) t parent b c {nb} eb next out ends d h = (
    t,
    nb,
    refl,
    (λ p ne out_p. refl),
    eb,
    subst (λ q. Shows t q empty) (sym next) ends,
    (refl, refl),
  )
  remove_after (suc k) t parent b c {nb} eb next out (node {a} {n} {below} {behind} e own s r) d h =
      let test : (n.addr == c) ≡ (a == c) = ap (λ x. x == c) own in
      elim (Bool-cases (a == c)) [
        | inl hit ↦
            unlink_after k t parent b c a below behind eb out e (test ∙ hit) hit s r d (omega arith)
        | inr miss ↦
            pass_after k t parent b c a below behind eb next out e own miss s d
              (remove_after k t parent a c e refl d.1 r d.4 (omega (arith, size_pos below)))
      ]
