-- ===== src/Base/Keys.antt =====
-- The keys of a map.
use mathlib.Core.Path.{◌≡◌, refl}
use mathlib.Core.Bool.{Bool, true, not, ◌&&◌}
use mathlib.Core.List.{List, [], ◌∷◌, map}
use mathlib.Core.Option.{none, some}
use mathlib.Core.Logic.{◌≢◌}
use native.Mathlib.Omega.{arith}
use agro_daemon.Base.Equality.{Eq, ==_iff}
use agro_daemon.Base.Lists.{contains, remove_if}
use agro_daemon.Base.Dict
use agro_daemon.Base.Dict.{Dict}

module _ {K : Type 0} {V : Type 0} ⦃e : Eq K⦄ where
  pub contains-keys :
      (x : K) (d : Dict K V) (v : V)
      → Dict.lookup x d ≡ some v
      → contains (map (λ e. e.0) d) x ≡ true
  unfolding Dict.lookup
  contains-keys x [] v h = absurd (cc)
  contains-keys x ((b, w) ∷ d) v h = ground (arith, h, contains-keys x d v)

  pub lookup_of_contains :
      (x : K) (d : Dict K V) → contains (map (λ e. e.0) d) x ≡ true → Dict.lookup x d ≢ none
  unfolding Dict.lookup
  lookup_of_contains x [] h = λ e. cc
  lookup_of_contains x ((b, w) ∷ d) h = λ e. ground (arith, h, lookup_of_contains x d)

module _ {A : Type 0} ⦃e : Eq A⦄ where
  pub contains-remove_if :
      (p : A → Bool) (xs : List A) (a : A)
      → contains (remove_if p xs) a ≡ (contains xs a && not (p a))
  contains-remove_if p [] a = refl
  contains-remove_if p (x ∷ xs) a = ground (arith, contains-remove_if p xs a, ==_iff x a)
