-- ===== src/Device/Tree/Steps.antt =====
-- A step of a chain of methods, when what the step before it returns is known.
use agro_daemon.Base.{◌≡◌, refl, none, some}
use agro_daemon.Device.Tree.{Ptr, Node, Tree, M, ◌>>=◌, node_at, load}

module _ {Endpoint A B : Type 0} (m : M Endpoint A) (f : A → M Endpoint B) (t : Tree Endpoint) where
  pub bind_some : {a : A} {t' : Tree Endpoint} → m t ≡ some (a, t') → (m >>= f) t ≡ f a t'
  bind_some h = rw (◌>>=◌, h) refl

  pub bind_none : m t ≡ none → (m >>= f) t ≡ none
  bind_none h = rw (◌>>=◌, h) refl

pub load-some :
    {Endpoint : Type 0} (t : Tree Endpoint) (p : Ptr) {n : Node}
    → node_at t p ≡ some n
    → load p t ≡ some (n, t)
unfolding load
load-some t p h = rw (load, h) refl
