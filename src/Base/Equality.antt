-- ===== src/Base/Equality.antt =====
-- `==` for every type whose equality can be decided, orders of numbers as Boolean tests, and the
-- conditional.
use Prim.Native.Nat.{ℕ, compare, Ordering}
use Prim.Native.String.{String}
use mathlib.Core.Path.{◌≡◌, refl}
use mathlib.Core.Logic.{◌↔◌, ◌⊎◌, inl, inr, ite, dite}
use mathlib.Core.Bool.{Bool, true, false, cond, Bool-discrete}
use mathlib.Core.Option.{Option, none, some}
use native.Mathlib.Omega.{arith}
use native.Mathlib.Decide.{ℕ_discrete}
use text.Mathlib.Text
use text.Mathlib.TextEquality.{eq_iff}

infix 1 if◌then◌else◌
abbrev pub if◌then◌else◌ {ℓ} : {A : Type ℓ} → Bool → A → A → A
if b then x else y = cond b x y

abbrev pub ltb : ℕ → ℕ → Bool
ltb a b = elim (compare a b) [ Ordering.lt ↦ true | _ ↦ false ]

abbrev pub leb : ℕ → ℕ → Bool
leb a b = elim (compare a b) [ Ordering.gt ↦ false | _ ↦ true ]

pub record Eq {ℓ} (A : Type ℓ) : Type ℓ where
  pub dec : Discrete A

module _ {ℓ} {A : Type ℓ} ⦃e : Eq A⦄ where
  infix 50 ◌==◌
  abbrev pub ◌==◌ : A → A → Bool
  a == b = ite (e.dec a b) true false

  pub ==_iff : (a b : A) → ((a == b) ≡ true) ↔ (a ≡ b)
  ==_iff a b = ground arith

  pub ==_refl : (a : A) → (a == a) ≡ true
  ==_refl a = (==_iff a a).1 refl

instance abbrev pub nat_eq : Eq ℕ
nat_eq = record { dec = ℕ_discrete }

-- Shut in proofs, where a split on `s == t` yields the equation or its negation.
instance unfoldable pub string_eq : Eq String
string_eq = record {
  dec = λ s t.
      dite (Bool-discrete (Text.◌==◌ s t) true) (λ same. yes ((eq_iff s t).0 same))
        (λ differ. no (λ p. differ ((eq_iff s t).1 p)));
}

-- To split on a computed value and keep the equation.
pub Bool-cases : (b : Bool) → (b ≡ true) ⊎ (b ≡ false)
Bool-cases true = inl refl
Bool-cases false = inr refl

pub Option-cases {ℓ} : {A : Type ℓ} (o : Option A) → (o ≡ none) ⊎ ((a : A) × (o ≡ some a))
Option-cases none = inl refl
Option-cases (some a) = inr (a, refl)
