-- ===== src/Device/Tree/Forest.antt =====
-- The branches that the pointers of a tree stand for, and the searches over them: `is_descendent`
-- and `unconnected` of src/device/tree.cpp.
use agro_daemon.Base.{
  ◌≤◌, ◌≡◌, refl, ◌∙◌, ap, inl, inr, ◌+◌, ℕ, zero, suc, Bool, false, ◌||◌, List, [], ◌∷◌, map,
  Option, none, some, ◌==◌, arith, Bool-cases, remove_if,
}
use agro_daemon.Device.Mac.{MeshAddr}
use agro_daemon.Device.InProgress.{addr_eq}
use agro_daemon.Device.Tree.{Ptr, node_ptr, Node, Tree, node_at, is_descendent}
use agro_daemon.Device.Tree.Update.{unconnected_of, unconnected}

-- Siblings, each with its children.
pub data Forest : Type 0 where
  empty : Forest
  branch : MeshAddr → Forest → Forest → Forest

abbrev pub size : Forest → ℕ
size empty = 1
size (branch a below behind) = suc (size below + size behind)

abbrev pub member : MeshAddr → Forest → Bool
member a empty = false
member a (branch b below behind) = b == a || member a below || member a behind

module _ {Endpoint : Type 0} (t : Tree Endpoint) where
  -- From a pointer the `children` and `next` pointers lead through the branches of a forest.
  pub data Shows : Option Ptr → Forest → Type 0 where
    ends : Shows none empty
    node :
        {a : MeshAddr} {n : Node} {below behind : Forest}
        → node_at t (node_ptr a) ≡ some n
        → n.addr ≡ a
        → Shows n.children below
        → Shows n.next behind
        → Shows (some (node_ptr a)) (branch a below behind)

module _ {Endpoint : Type 0} {t : Tree Endpoint} where
  -- Where the pointers lead through a forest, `is_descendent` returns within as much fuel as the
  -- forest has places, and says whether the address is in it.
  pub is_descendent-member :
      (k : ℕ) {c : Option Ptr} {f : Forest} (a : MeshAddr)
      → Shows t c f
      → size f ≤ k
      → is_descendent k t c a ≡ some (member a f)
  unfolding is_descendent
  is_descendent-member zero a ends h = absurd (omega arith)
  is_descendent-member (suc k) a ends h = refl
  is_descendent-member zero a (node e own below behind) h = absurd (omega arith)
  is_descendent-member (suc k) a (node {a = b} {n} {below = f} e own below behind) h =
      let test : (n.addr == a) ≡ (b == a) = ap (λ x. x == a) own in
      elim (Bool-cases (b == a)) [
        | inl same ↦ rw (is_descendent, e, test ∙ same, same) refl
        | inr differ ↦ elim (Bool-cases (member a f)) [
          | inl found ↦
              rw
                (
                  is_descendent,
                  e,
                  test ∙ differ,
                  differ,
                  is_descendent-member k a below (omega arith),
                  found,
                )
                refl
          | inr missing ↦
              rw
                (
                  is_descendent,
                  e,
                  test ∙ differ,
                  differ,
                  is_descendent-member k a below (omega arith),
                  missing,
                )
                (is_descendent-member k a behind (omega arith))
        ]
      ]

  unconnected_of-remove_if :
      (k : ℕ) {f : Forest} (addrs : List MeshAddr)
      → Shows t t.root.children f
      → size f ≤ k
      → unconnected_of k t addrs ≡ some (remove_if (λ a. member a f) addrs)
  unfolding unconnected_of
  unconnected_of-remove_if k [] shows h = refl
  unconnected_of-remove_if k {f} (a ∷ addrs) shows h =
      rw
        (unconnected_of, is_descendent-member k a shows h, unconnected_of-remove_if k addrs shows h)
        (elim (Bool-cases (member a f)) [ inl e ↦ rw e refl | inr e ↦ rw e refl ])

  -- Where the pointers from the root lead through a forest, `unconnected` returns within as much
  -- fuel as the forest has places, and its result is the addresses of the nodes that are not in the
  -- forest, in the order of the nodes.
  pub unconnected-remove_if :
      (k : ℕ) {f : Forest}
      → Shows t t.root.children f
      → size f ≤ k
      → unconnected k t ≡ some (remove_if (λ a. member a f) (map (λ e. e.0) t.nodes))
  unfolding unconnected
  unconnected-remove_if k shows h = unconnected_of-remove_if k (map (λ e. e.0) t.nodes) shows h
