-- ===== src/Device/Tree/Fixes.antt =====
-- What a round of `bug_inconsistency_fix` of src/device/tree.cpp leaves as it was.
use agro_daemon.Base.{
  ◌≡◌, refl, sym, ◌∙◌, ap, inl, inr, ℕ, Bool, true, false, not, [], ◌∷◌, Option, none, some, ◌==◌,
  nat_eq, Bool-cases, Option-cases, if◌then◌else◌,
}
use agro_daemon.Base.Dict
use agro_daemon.Device.Mac.{MeshAddr}
use agro_daemon.Device.InProgress.{addr_eq}
use agro_daemon.Device.Tree.{Ptr, root_ptr, node_ptr, Node, Tree, node_at, change}
use agro_daemon.Device.Tree.Nodes.{change-back, change-forth}
use agro_daemon.Device.Tree.Roots.{is_inconsistent, remove_endpoint}

if_same : {A : Type 0} (b : Bool) (x : A) → (if b then x else x) ≡ x
if_same true x = refl
if_same false x = refl

abbrev pub place_of : Option Node → Option (ℕ × Option Ptr)
place_of none = none
place_of (some n) = some (n.layer, n.parent)

pub none_of_place : (o : Option Node) → place_of o ≡ none → o ≡ none
none_of_place none h = refl
none_of_place (some n) h = absurd (cc)

abbrev pub cut : Node → Node
cut m = record m { children = none }

place_at-cut :
    (a x : MeshAddr) (d : Dict.Dict MeshAddr Node)
    → place_of (Dict.lookup x (Dict.adjust a cut d)) ≡ place_of (Dict.lookup x d)
unfolding Dict.lookup Dict.adjust
place_at-cut a x [] = refl
place_at-cut a x ((b, n) ∷ d) = elim (Bool-cases (b == a)) [
  | inl own ↦ elim (Bool-cases (b == x)) [
    | inl here ↦ rw (own, here) refl
    | inr there ↦ rw (own, there) refl
  ]
  | inr other ↦ elim (Bool-cases (b == x)) [
    | inl here ↦ rw (other, here) refl
    | inr there ↦ rw (other, there) (place_at-cut a x d)
  ]
]

module _ {Endpoint : Type 0} where
  -- The layer and the parent of a node, if there is a node.
  abbrev pub place_at : Tree Endpoint → MeshAddr → Option (ℕ × Option Ptr)
  place_at t a = place_of (Dict.lookup a t.nodes)

  -- Every pointer of a node leads to a node.
  pub record Closed (t : Tree Endpoint) : Type 0 where
    pub child :
        (p : Ptr) (n : Node) (q : Ptr)
        → node_at t p ≡ some n
        → n.children ≡ some q
        → (m : Node) × (node_at t q ≡ some m)
    pub parent :
        (p : Ptr) (n : Node) (q : Ptr)
        → node_at t p ≡ some n
        → n.parent ≡ some q
        → (m : Node) × (node_at t q ≡ some m)

  pub at_key :
      (t : Tree Endpoint) (a : MeshAddr) {n : Node}
      → Dict.lookup a t.nodes ≡ some n
      → node_at t (node_ptr a) ≡ some n
  unfolding node_at
  at_key t a h = h

  pub is_inconsistent-some :
      {t : Tree Endpoint} (c : Closed t) (p : Ptr) (n : Node)
      → node_at t p ≡ some n
      → (b : Bool) × (is_inconsistent t n ≡ some b)
  unfolding is_inconsistent
  is_inconsistent-some {t} c p n h = elim (Option-cases n.children) [
    | inl e ↦ (false, rw (is_inconsistent, e) refl)
    | inr (q, e) ↦
        let (m, at_child) = c.child p n q h e in
        elim (Option-cases m.parent) [
          | inl e' ↦ (false, rw (is_inconsistent, e, at_child, e') refl)
          | inr (r, e') ↦
              let (o, at_parent) = c.parent q m r at_child e' in
              (not (o.addr == n.addr), rw (is_inconsistent, e, at_child, e', at_parent) refl)
        ]
  ]

  -- `u` is `t` with the children of some nodes cut off, and without some of its endpoints.
  pub record Fixes (t u : Tree Endpoint) : Type 0 where
    pub same : (x : MeshAddr) → place_at u x ≡ place_at t x
    pub closed : Closed u
    pub gone : (x : MeshAddr) → Dict.lookup x t.endpoints ≡ none → Dict.lookup x u.endpoints ≡ none

  Closed-cut :
      {t : Tree Endpoint} (c : Closed t) (a : MeshAddr) → Closed (change (node_ptr a) cut t)
  Closed-cut {t} c a = record {
    child = λ p n q h e.
        let (o, old, from) = change-back t a cut p h in
        elim from [
          | inl same ↦
              change-forth t a cut q (c.child p o q old (ap (λ m. m.children) (sym same) ∙ e)).1
          | inr changed ↦ absurd (cc (ap (λ m. m.children) changed))
        ];
    parent = λ p n q h e.
        let (o, old, from) = change-back t a cut p h in
        let kept : o.parent ≡ n.parent = elim from [
          | inl same ↦ ap (λ m. m.parent) (sym same)
          | inr changed ↦ ap (λ m. m.parent) (sym changed)
        ] in
        change-forth t a cut q (c.parent p o q old (kept ∙ e)).1;
  }

  pub Fixes-refl : {t : Tree Endpoint} → Closed t → Fixes t t
  Fixes-refl c = record { same = λ x. refl; closed = c; gone = λ x h. h }

  pub Fixes-trans : {t u v : Tree Endpoint} → Fixes t u → Fixes u v → Fixes t v
  Fixes-trans f g = record {
    same = λ x. g.same x ∙ f.same x;
    closed = g.closed;
    gone = λ x h. g.gone x (f.gone x h);
  }

  pub Fixes-cut :
      {t : Tree Endpoint} → Closed t → (a : MeshAddr) → Fixes t (change (node_ptr a) cut t)
  unfolding change
  Fixes-cut {t} c a = record {
    same = λ x. place_at-cut a x t.nodes;
    closed = Closed-cut c a;
    gone = λ x h. h;
  }

  Closed-endpoints :
      {t u : Tree Endpoint} → Closed t → ((p : Ptr) → node_at u p ≡ node_at t p) → Closed u
  Closed-endpoints c e = record {
    child = λ p n q h h'. let (m, found) = c.child p n q (sym (e p) ∙ h) h' in (m, e q ∙ found);
    parent = λ p n q h h'. let (m, found) = c.parent p n q (sym (e p) ∙ h) h' in (m, e q ∙ found);
  }

  node_at-remove_endpoint :
      (t : Tree Endpoint) (a : MeshAddr) (p : Ptr) → node_at (remove_endpoint a t).1 p ≡ node_at t p
  unfolding node_at remove_endpoint
  node_at-remove_endpoint t a root_ptr = refl
  node_at-remove_endpoint t a (node_ptr b) = refl

  pub Fixes-remove_endpoint :
      {t : Tree Endpoint} → Closed t → (a : MeshAddr) → Fixes t (remove_endpoint a t).1
  unfolding remove_endpoint
  Fixes-remove_endpoint {t} c a = record {
    same = λ x. refl;
    closed = Closed-endpoints c (node_at-remove_endpoint t a);
    gone = λ x h. rw (Dict.lookup-erase x a t.endpoints, h) (if_same (a == x) none);
  }
