-- ===== src/Device/Tree/Endpoints.antt =====
-- The endpoints of root devices after `bug_inconsistency_fix` of src/device/tree.cpp.
use agro_daemon.Base.{
  ◌≡◌, ◌≢◌, refl, sym, ◌∙◌, ap, subst, inl, inr, ◌⊎◌, Bool, true, false, ◌||◌, List, [], ◌∷◌, map,
  none, some, ◌==◌, ==_refl, ==_iff, nat_eq, arith, Bool-cases, Option-cases, contains,
}
use agro_daemon.Base.Dict
use agro_daemon.Base.Keys.{contains-keys, lookup_of_contains}
use agro_daemon.Device.Mac.{MeshAddr}
use agro_daemon.Device.InProgress.{addr_eq}
use agro_daemon.Device.Tree.{node_ptr, Node, Tree, TreeEndpoint}
use agro_daemon.Device.Tree.Steps.{bind_some}
use agro_daemon.Device.Tree.Roots.{
  cut_children, remove_endpoint, fix_node, fix_nodes, bug_inconsistency_fix,
}
use agro_daemon.Device.Tree.Fixes.{
  place_of, place_at, none_of_place, Closed, Fixes, at_key, is_inconsistent-some, Fixes-refl,
  Fixes-trans, Fixes-cut, Fixes-remove_endpoint,
}

or_right : (b : Bool) {c : Bool} → c ≡ true → (b || c) ≡ true
or_right b h = ground (arith, h)

module _ {Endpoint : Type 0} where
  -- The outcome at a node: it has layer 1, or no endpoint is left for it.
  abbrev pub Settled : Tree Endpoint → MeshAddr → Type 0
  Settled t a =
      ((n : Node) → Dict.lookup a t.nodes ≡ some n → n.layer ≡ 1)
      ⊎ (Dict.lookup a t.endpoints ≡ none)

  Fixes-cut_children :
      {t : Tree Endpoint} → Closed t → (a : MeshAddr) (bad : Bool) → Fixes t (cut_children a bad t)
  unfolding cut_children
  Fixes-cut_children c a true = Fixes-cut c a
  Fixes-cut_children c a false = Fixes-refl c

  Settled-layer :
      {t : Tree Endpoint} (u : Tree Endpoint) (a : MeshAddr) {n : Node}
      → Dict.lookup a t.nodes ≡ some n
      → (n.layer == 1) ≡ true
      → Fixes t u
      → Settled u a
  Settled-layer u a {n} h root f = inl (λ m at_u.
      let places = ap place_of (sym at_u) ∙ f.same a ∙ ap place_of h in
      let layers : m.layer ≡ n.layer = cc places in layers ∙ (==_iff n.layer 1).0 root)

  fix_node-Fixes :
      {t : Tree Endpoint} (c : Closed t) (a : MeshAddr) (n : Node)
      → Dict.lookup a t.nodes ≡ some n
      → (r : Bool) × (u : Tree Endpoint) × (fix_node a t ≡ some (r, u)) × Fixes t u × Settled u a
  unfolding fix_node remove_endpoint
  fix_node-Fixes {t} c a n h =
      let (bad, tested) = is_inconsistent-some c (node_ptr a) n (at_key t a h) in
      let t' = cut_children a bad t in
      let f = Fixes-cut_children c a bad in
      elim (Bool-cases (n.layer == 1)) [
        | inl root ↦ (bad, t', rw (fix_node, h, tested, root) refl, f, Settled-layer t' a h root f)
        | inr other ↦ (
          (remove_endpoint a t').0 || bad,
          (remove_endpoint a t').1,
          rw (fix_node, h, tested, other) refl,
          Fixes-trans f (Fixes-remove_endpoint f.closed a),
          inr (rw (Dict.lookup-erase a a t'.endpoints, ==_refl a) refl),
        )
      ]

  key_of_place :
      (x : MeshAddr) (t u : Tree Endpoint) {n : Node}
      → place_at u x ≡ place_at t x
      → Dict.lookup x u.nodes ≡ some n
      → contains (map (λ e. e.0) t.nodes) x ≡ true
  key_of_place x t u same at_u = elim (Option-cases (Dict.lookup x t.nodes)) [
    | inl missing ↦ absurd (cc (ap place_of (sym at_u) ∙ same ∙ ap place_of missing))
    | inr (n, found) ↦ contains-keys x t.nodes n found
  ]

  Settled-Fixes : {t u : Tree Endpoint} (a : MeshAddr) → Settled t a → Fixes t u → Settled u a
  Settled-Fixes {t} {u} a (inr none_left) f = inr (f.gone a none_left)
  Settled-Fixes {t} {u} a (inl root) f = elim (Option-cases (Dict.lookup a t.nodes)) [
    | inl missing ↦
        inl (λ m at_u. absurd (cc (ap place_of (sym at_u) ∙ f.same a ∙ ap place_of missing)))
    | inr (n, found) ↦ inl (λ m at_u.
        let layers : m.layer ≡ n.layer =
          cc (ap place_of (sym at_u) ∙ f.same a ∙ ap place_of found) in
        layers ∙ root n found)
  ]

  fix_nodes-Fixes :
      {t : Tree Endpoint} (c : Closed t) (addrs : List MeshAddr)
      → ((x : MeshAddr) → contains addrs x ≡ true → place_at t x ≢ none)
      → (r : Bool) × (u : Tree Endpoint) × (fix_nodes addrs t ≡ some (r, u))
        × Fixes t u
        × ((x : MeshAddr) → contains addrs x ≡ true → Settled u x)
  unfolding fix_nodes
  fix_nodes-Fixes {t} c [] keys = (false, t, refl, Fixes-refl c, λ x. cc)
  fix_nodes-Fixes {t} c (a ∷ addrs) keys = elim (Option-cases (Dict.lookup a t.nodes)) [
    | inl missing ↦ absurd (keys a (rw (==_refl a) refl) (ap place_of missing))
    | inr (n, found) ↦
        let (r, u, ran, f, own) = fix_node-Fixes c a n found in
        let (r', v, ran', f', all) =
          fix_nodes-Fixes {t = u} f.closed addrs
            (λ x h e. keys x (or_right (a == x) h) (sym (f.same x) ∙ e)) in
        (
          r || r',
          v,
          bind_some (fix_node a) _ t ran ∙ bind_some (fix_nodes addrs) _ u ran',
          Fixes-trans f f',
          λ x h. elim (Bool-cases (a == x)) [
            | inl here ↦ subst (Settled v) ((==_iff a x).0 here) (Settled-Fixes a own f')
            | inr there ↦ all x (rw there at h)
          ],
        )
  ]

  -- Where every pointer leads to a node, `bug_inconsistency_fix` returns; it leaves the layers and
  -- the parents of all nodes, and every node that still has an endpoint has layer 1.
  pub bug_inconsistency_fix-endpoints :
      {t : Tree Endpoint}
      → Closed t
      → (r : Bool) × (u : Tree Endpoint) × (bug_inconsistency_fix t ≡ some (r, u))
        × ((x : MeshAddr) → place_at u x ≡ place_at t x)
        × ((x : MeshAddr) (n : Node) (e : TreeEndpoint Endpoint)
            → Dict.lookup x u.nodes ≡ some n
            → Dict.lookup x u.endpoints ≡ some e
            → n.layer ≡ 1)
  unfolding bug_inconsistency_fix
  bug_inconsistency_fix-endpoints {t} c =
      let keys = map (λ (e : MeshAddr × Node). e.0) t.nodes in
      let is_there = λ (x : MeshAddr) (h : contains keys x ≡ true) (e : place_at t x ≡ none).
        lookup_of_contains x t.nodes h (none_of_place _ e) in
      let (r, u, ran, f, settled) = fix_nodes-Fixes c keys is_there in
      (
        r,
        u,
        ran,
        f.same,
        λ x n e at_u endpoint. elim (settled x (key_of_place x t u (f.same x) at_u)) [
          | inl root ↦ root n at_u
          | inr none_left ↦ absurd (cc (sym none_left ∙ endpoint))
        ],
      )
