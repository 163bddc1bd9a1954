-- ===== src/Base/Dict.antt =====
-- `std::map` and `std::unordered_map`: keys with values, each key once.
use mathlib.Core.Path.{◌≡◌, refl, ◌∙◌}
use mathlib.Core.List.{List, [], ◌∷◌}
use mathlib.Core.Option.{Option, none, some}
use mathlib.Core.Logic.{◌≢◌, ◌⊎◌, inl, inr}
use native.Mathlib.Omega.{arith}
use agro_daemon.Base.Equality.{Eq, ◌==◌, ==_refl, if◌then◌else◌, Bool-cases}

abbrev pub Dict {ℓ κ} : Type ℓ → Type κ → Type (ℓ ⊔ κ)
Dict K V = List (K × V)

module _ {ℓ κ} {K : Type ℓ} {V : Type κ} ⦃e : Eq K⦄ where
  -- `find`
  unfoldable pub lookup : K → Dict K V → Option V
  lookup k [] = none
  lookup k ((j, v) ∷ d) = if j == k then some v else lookup k d

  -- `emplace`: an entry that is there stays.
  unfoldable pub emplace : K → V → Dict K V → Dict K V
  emplace k v [] = (k, v) ∷ []
  emplace k v ((j, w) ∷ d) = if j == k then (j, w) ∷ d else (j, w) ∷ emplace k v d

  -- A change through the pointer that `find` returned.
  unfoldable pub adjust : K → (V → V) → Dict K V → Dict K V
  adjust k f [] = []
  adjust k f ((j, w) ∷ d) = if j == k then (j, f w) ∷ d else (j, w) ∷ adjust k f d

  -- `erase(key)`
  unfoldable pub erase : K → Dict K V → Dict K V
  erase k [] = []
  erase k ((j, w) ∷ d) = let rest = erase k d in if j == k then rest else (j, w) ∷ rest

  pub lookup-emplace :
      (j k : K) (v : V) (d : Dict K V)
      → lookup k d ≡ none
      → lookup j (emplace k v d) ≡ (if k == j then some v else lookup j d)
  unfolding lookup emplace
  lookup-emplace j k v [] h = refl
  lookup-emplace j k v ((i, w) ∷ d) h = ground (arith, lookup-emplace j k v d)

  pub lookup-emplace_self :
      (k : K) (v : V) (d : Dict K V) → lookup k d ≡ none → lookup k (emplace k v d) ≡ some v
  lookup-emplace_self k v d h = lookup-emplace k k v d h ∙ rw (==_refl k) refl

  pub lookup-adjust_self :
      (k : K) (f : V → V) (d : Dict K V) (v : V)
      → lookup k d ≡ some v
      → lookup k (adjust k f d) ≡ some (f v)
  unfolding lookup adjust
  lookup-adjust_self k f [] v h = ground arith
  lookup-adjust_self k f ((i, w) ∷ d) v h = ground (arith, lookup-adjust_self k f d v)

  pub lookup-adjust_ne :
      (j k : K) (f : V → V) (d : Dict K V) → k ≢ j → lookup j (adjust k f d) ≡ lookup j d
  unfolding lookup adjust
  lookup-adjust_ne j k f [] h = refl
  lookup-adjust_ne j k f ((i, w) ∷ d) h = ground (arith, lookup-adjust_ne j k f d h)

  pub lookup-erase :
      (j k : K) (d : Dict K V) → lookup j (erase k d) ≡ (if k == j then none else lookup j d)
  unfolding lookup erase
  lookup-erase j k [] = ground arith
  lookup-erase j k ((i, w) ∷ d) = ground (arith, lookup-erase j k d)

  pub lookup-adjust :
      (j k : K) (f : V → V) (d : Dict K V) (v : V)
      → lookup k d ≡ some v
      → lookup j (adjust k f d) ≡ (if k == j then some (f v) else lookup j d)
  unfolding lookup adjust
  lookup-adjust j k f [] v h = ground arith
  lookup-adjust j k f ((i, w) ∷ d) v h = ground (arith, lookup-adjust j k f d v)

  -- Each value is one from before, changed or not.
  pub adjust-back :
      (j k : K) (f : V → V) (d : Dict K V) {v : V}
      → lookup j (adjust k f d) ≡ some v
      → (w : V) × (lookup j d ≡ some w) × ((v ≡ w) ⊎ (v ≡ f w))
  unfolding lookup adjust
  adjust-back j k f [] h = absurd (cc)
  adjust-back j k f ((i, w) ∷ d) {v} h = elim (Bool-cases (i == k)) [
    | inl own ↦ elim (Bool-cases (i == j)) [
      | inl here ↦ (w, rw here refl, inr (ground (arith, own, here)))
      | inr there ↦ (v, rw there (ground (arith, own, there)), inl refl)
    ]
    | inr other ↦ elim (Bool-cases (i == j)) [
      | inl here ↦ (w, rw here refl, inl (ground (arith, other, here)))
      | inr there ↦ rw there (adjust-back j k f d (ground (arith, other, there)))
    ]
  ]

  pub adjust-forth :
      (j k : K) (f : V → V) (d : Dict K V) {w : V}
      → lookup j d ≡ some w
      → (v : V) × (lookup j (adjust k f d) ≡ some v)
  unfolding lookup adjust
  adjust-forth j k f [] h = absurd (cc)
  adjust-forth j k f ((i, v) ∷ d) {w} h = elim (Bool-cases (i == k)) [
    | inl own ↦ elim (Bool-cases (i == j)) [
      | inl here ↦ (f v, rw (own, here) refl)
      | inr there ↦ (w, rw (own, there) (ground (arith, there)))
    ]
    | inr other ↦ elim (Bool-cases (i == j)) [
      | inl here ↦ (v, rw (other, here) refl)
      | inr there ↦ rw (other, there) (adjust-forth j k f d {w = w} (ground (arith, there)))
    ]
  ]
