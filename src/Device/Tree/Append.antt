-- ===== src/Device/Tree/Append.antt =====
-- The loop of `add_child` of src/device/tree.cpp.
use agro_daemon.Base.{
  ◌≤◌, ◌≡◌, ◌≢◌, refl, sym, ◌∙◌, ap, subst, ℕ, zero, suc, true, false, Option, none, some, ◌==◌,
  arith,
}
use agro_daemon.Device.Mac.{MeshAddr}
use agro_daemon.Device.InProgress.{addr_eq}
use agro_daemon.Device.Tree.{Ptr, node_ptr, Node, Tree, node_at, change, append_child}
use agro_daemon.Device.Tree.Nodes.{node_at-change, node_at-change_other, test_of_ne}
use agro_daemon.Device.Tree.Forest.{Forest, empty, branch, size, member, Shows, ends, node}
use agro_daemon.Device.Tree.Shape.{
  Distinct, last, append, member-last, absent_parts, ne_of_member, ptr_ne, Shows-frame,
}

module _ {Endpoint : Type 0} where
  -- The tree with a node behind another as the last of its siblings.
  abbrev pub appended : Tree Endpoint → MeshAddr → MeshAddr → Tree Endpoint
  appended t b c =
      change (node_ptr c) (λ m. record m { next = none })
        (change (node_ptr b) (λ m. record m { next = some (node_ptr c) }) t)

  pub at_other :
      (t : Tree Endpoint) (b c : MeshAddr) (p : Ptr)
      → node_ptr b ≢ p
      → node_ptr c ≢ p
      → node_at (appended t b c) p ≡ node_at t p
  at_other t b c p hb hc =
      node_at-change_other _ (node_ptr c) p (λ m. record m { next = none }) hc
      ∙ node_at-change_other t (node_ptr b) p (λ m. record m { next = some (node_ptr c) }) hb

  at_before :
      (t : Tree Endpoint) (b c : MeshAddr) {n : Node}
      → b ≢ c
      → node_at t (node_ptr b) ≡ some n
      → node_at (appended t b c) (node_ptr b) ≡ some (record n { next = some (node_ptr c) })
  at_before t b c h e =
      node_at-change_other _ (node_ptr c) (node_ptr b) (λ m. record m { next = none })
        (ptr_ne (λ e'. h (sym e')))
      ∙ node_at-change t (node_ptr b) (λ m. record m { next = some (node_ptr c) }) e

  pub at_new :
      (t : Tree Endpoint) (b c : MeshAddr) {m : Node}
      → b ≢ c
      → node_at t (node_ptr c) ≡ some m
      → node_at (appended t b c) (node_ptr c) ≡ some (record m { next = none })
  at_new t b c h e =
      node_at-change _ (node_ptr c) (λ m. record m { next = none })
        (node_at-change_other t (node_ptr b) (node_ptr c)
            (λ m. record m { next = some (node_ptr c) }) (ptr_ne h)
          ∙ e)

  pub append_child-last :
      (k : ℕ) {t : Tree Endpoint} (a c : MeshAddr) {n : Node} {q : Option Ptr} {behind : Forest}
      → node_at t (node_ptr a) ≡ some n
      → n.addr ≡ a
      → n.next ≡ q
      → Shows t q behind
      → size behind ≤ k
      → a ≢ c
      → member c behind ≡ false
      → append_child k (node_ptr a) (node_ptr c) c t ≡ some (true, appended t (last a behind) c)
  unfolding append_child
  append_child-last zero a c e own eq ends h ne out = absurd (omega arith)
  append_child-last zero a c e own eq (node e' own' s r) h ne out = absurd (omega arith)
  append_child-last (suc k) a c {n} e own eq ends h ne out =
      let test : (n.addr == c) ≡ false = ap (λ x. x == c) own ∙ test_of_ne ne in
      rw (append_child, e, test, eq) refl
  append_child-last (suc k) {t} a c {n} e own eq (node {a = b} {below} {behind} e' own' s r) h ne
        out =
      let test : (n.addr == c) ≡ false = ap (λ x. x == c) own ∙ test_of_ne ne in
      let (ne', _, out') = absent_parts c b below behind out in
      rw (append_child, e, test, eq) (append_child-last k b c e' own' refl r (omega arith) ne' out')

  -- The appended tree shows the siblings with the new branch behind them.
  pub Shows-appended :
      {t : Tree Endpoint} (a c : MeshAddr) {n m : Node} {below sub : Forest} {q : Option Ptr}
      {behind : Forest}
      → node_at t (node_ptr a) ≡ some n
      → n.addr ≡ a
      → Shows t n.children below
      → n.next ≡ q
      → Shows t q behind
      → Distinct (branch a below behind)
      → member c (branch a below behind) ≡ false
      → node_at t (node_ptr c) ≡ some m
      → m.addr ≡ c
      → Shows (appended t (last a behind) c) m.children sub
      → Shows
          (appended t (last a behind) c)
          (some (node_ptr a))
          (append (branch a below behind) c sub)
  unfolding Distinct
  Shows-appended {t} a c {below} {sub} e own s eq ends d out e' own' g =
      let (ne, out_below, _) = absent_parts c a below empty out in
      node (at_before t a c ne e) own
        (Shows-frame (appended t a c) s (λ x h.
          at_other t a c (node_ptr x) (ptr_ne (ne_of_member below h d.0))
            (ptr_ne (ne_of_member below h out_below))))
        (node (at_new t a c ne e') own' g ends)
  Shows-appended {t} a c {below} {sub} e own s eq
        (node {a = b} {below = f} {behind = r} e₁ own₁ s₁ r₁) d out e' own' g =
      let behind = branch b f r in
      let here = member-last b f r in
      let (ne, out_below, out_behind) = absent_parts c a below behind out in
      node
        (at_other t (last b r) c (node_ptr a) (ptr_ne (λ p. ne_of_member behind here d.1 (sym p)))
            (ptr_ne (λ p. ne (sym p)))
          ∙ e)
        own
        (Shows-frame (appended t (last b r) c) s (λ x h.
          at_other t (last b r) c (node_ptr x)
            (ptr_ne (λ p. ne_of_member behind here (d.2 x h) (sym p)))
            (ptr_ne (ne_of_member below h out_below))))
        (subst (λ p. Shows (appended t (last b r) c) p (append behind c sub)) (sym eq)
          (Shows-appended b c e₁ own₁ s₁ refl r₁ d.4 out_behind e' own' g))
