-- ===== src/Device/Tree/Nodes.antt =====
-- What an assignment to the fields of one node leaves at the others.
use agro_daemon.Base.{
  ◌≡◌, ◌≢◌, refl, ap, false, some, ◌==◌, ==_iff, arith, Bool-cases, inl, inr, ◌⊎◌,
}
use agro_daemon.Base.Dict
use agro_daemon.Device.Mac.{MeshAddr}
use agro_daemon.Device.InProgress.{addr_eq}
use agro_daemon.Device.Tree.{Ptr, root_ptr, node_ptr, Node, Tree, node_at, change}

pub ne_of_test : {a b : MeshAddr} → (a == b) ≡ false → a ≢ b
ne_of_test {a} {b} h e = let same = (==_iff a b).1 e in cc

pub test_of_ne : {a b : MeshAddr} → a ≢ b → (a == b) ≡ false
test_of_ne {a} {b} h = elim (Bool-cases (a == b)) [
  | inl e ↦ absurd (h ((==_iff a b).0 e))
  | inr e ↦ e
]

module _ {Endpoint : Type 0} (t : Tree Endpoint) where
  pub node_at-change :
      (p : Ptr) (f : Node → Node) {n : Node}
      → node_at t p ≡ some n
      → node_at (change p f t) p ≡ some (f n)
  unfolding node_at change
  node_at-change root_ptr f h = ground arith
  node_at-change (node_ptr a) f {n} h = Dict.lookup-adjust_self a f t.nodes n h

  pub node_at-change_ne :
      {a b : MeshAddr} (f : Node → Node)
      → a ≢ b
      → node_at (change (node_ptr a) f t) (node_ptr b) ≡ node_at t (node_ptr b)
  unfolding node_at change
  node_at-change_ne {a} {b} f h = Dict.lookup-adjust_ne b a f t.nodes h

  pub node_at-change_other :
      (p q : Ptr) (f : Node → Node) → p ≢ q → node_at (change p f t) q ≡ node_at t q
  unfolding node_at change
  node_at-change_other root_ptr root_ptr f h = absurd (h refl)
  node_at-change_other root_ptr (node_ptr b) f h = refl
  node_at-change_other (node_ptr a) root_ptr f h = refl
  node_at-change_other (node_ptr a) (node_ptr b) f h =
      Dict.lookup-adjust_ne b a f t.nodes (λ e. h (ap node_ptr e))

  -- Each node is one from before, changed or not.
  pub change-back :
      (a : MeshAddr) (f : Node → Node) (p : Ptr) {m : Node}
      → node_at (change (node_ptr a) f t) p ≡ some m
      → (o : Node) × (node_at t p ≡ some o) × ((m ≡ o) ⊎ (m ≡ f o))
  unfolding node_at change
  change-back a f root_ptr {m} h = (t.root, refl, inl (ground arith))
  change-back a f (node_ptr b) {m} h = Dict.adjust-back b a f t.nodes h

  pub change-forth :
      (a : MeshAddr) (f : Node → Node) (p : Ptr) {o : Node}
      → node_at t p ≡ some o
      → (m : Node) × (node_at (change (node_ptr a) f t) p ≡ some m)
  unfolding node_at change
  change-forth a f root_ptr h = (t.root, refl)
  change-forth a f (node_ptr b) h = Dict.adjust-forth b a f t.nodes h
