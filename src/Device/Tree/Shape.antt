-- ===== src/Device/Tree/Shape.antt =====
-- Forests whose addresses differ, and changes of the tree that spare a forest.
use agro_daemon.Base.{
  ◌≡◌, ◌≢◌, refl, sym, ◌∙◌, ap, Bool, true, false, ◌||◌, Option, ◌==◌, ==_refl, arith,
  if◌then◌else◌,
}
use agro_daemon.Device.Mac.{MeshAddr}
use agro_daemon.Device.InProgress.{addr_eq}
use agro_daemon.Device.Tree.{Ptr, node_ptr, Tree, node_at}
use agro_daemon.Device.Tree.Nodes.{ne_of_test}
use agro_daemon.Device.Tree.Forest.{Forest, empty, branch, member, Shows, ends, node}

-- No address occurs twice.
unfoldable pub Distinct : Forest → Type 0
Distinct empty = Unit
Distinct (branch a below behind) =
    (member a below ≡ false)
    × (member a behind ≡ false)
    × ((x : MeshAddr) → member x below ≡ true → member x behind ≡ false)
    × Distinct below
    × Distinct behind

-- A pointer to no node of the forest.
abbrev pub Outside : Ptr → Forest → Type 0
Outside p f = (x : MeshAddr) → member x f ≡ true → node_ptr x ≢ p

-- The last of some siblings, or the node before them.
abbrev pub last : MeshAddr → Forest → MeshAddr
last a empty = a
last a (branch b below behind) = last b behind

-- A branch behind the last sibling.
abbrev pub append : Forest → MeshAddr → Forest → Forest
append empty c g = branch c g empty
append (branch b below behind) c g = branch b below (append behind c g)

-- Without the first sibling that has an address.
abbrev pub drop : MeshAddr → Forest → Forest
drop c empty = empty
drop c (branch b below behind) = if b == c then behind else branch b below (drop c behind)

-- Is the address that of a sibling?
abbrev pub sibling : MeshAddr → Forest → Bool
sibling c empty = false
sibling c (branch b below behind) = b == c || sibling c behind

pub member-last :
    (a : MeshAddr) (below behind : Forest) → member (last a behind) (branch a below behind) ≡ true
member-last a below empty = rw (==_refl a) refl
member-last a below (branch b c d) = ground (arith, member-last b c d)

pub absent_parts :
    (c b : MeshAddr) (below behind : Forest)
    → member c (branch b below behind) ≡ false
    → (b ≢ c) × (member c below ≡ false) × (member c behind ≡ false)
absent_parts c b below behind h =
    (ne_of_test (ground (arith, h)), ground (arith, h), ground (arith, h))

pub ne_of_member : {x a : MeshAddr} (f : Forest) → member x f ≡ true → member a f ≡ false → a ≢ x
ne_of_member f h h' e = cc (ap (λ y. member y f) e)

pub ptr_ne : {a b : MeshAddr} → a ≢ b → node_ptr a ≢ node_ptr b
ptr_ne h e = h (cc e)

pub Outside-node : (a : MeshAddr) (f : Forest) → member a f ≡ false → Outside (node_ptr a) f
Outside-node a f h x i = ptr_ne (λ e. ne_of_member f i h (sym e))

module _ {Endpoint : Type 0} where
  -- A forest survives every change that spares its nodes.
  pub Shows-frame :
      {t : Tree Endpoint} (u : Tree Endpoint) {c : Option Ptr} {f : Forest}
      → Shows t c f
      → ((x : MeshAddr) → member x f ≡ true → node_at u (node_ptr x) ≡ node_at t (node_ptr x))
      → Shows u c f
  Shows-frame u ends same = ends
  Shows-frame u (node {a} {below} {behind} e own s r) same =
      node (same a (rw (==_refl a) refl) ∙ e) own
        (Shows-frame u s (λ x h. same x (ground (arith, h))))
        (Shows-frame u r (λ x h. same x (ground (arith, h))))
