-- ===== src/Base/Lists.antt =====
-- Lists measured by native numbers, membership as a test, and the loops that the sources share.
use Prim.Native.Nat.{ℕ, suc, ◌+◌}
use mathlib.Core.Path.{◌≡◌, refl}
use mathlib.Core.Bool.{Bool, true, false, ◌||◌}
use mathlib.Core.List.{List, [], ◌∷◌, ◌++◌, map}
use mathlib.Core.Option.{Option, none, some}
use native.Mathlib.Omega.{arith}
use agro_daemon.Base.Equality.{Eq, ◌==◌, if◌then◌else◌}

module _ {ℓ} {A : Type ℓ} where
  abbrev pub length : List A → ℕ
  length [] = 0
  length (x ∷ xs) = suc (length xs)

  abbrev pub is_some : Option A → Bool
  is_some none = false
  is_some (some _) = true

  -- A predicate of every element.
  abbrev pub All {κ} : (A → Type κ) → List A → Type κ
  All P [] = Unit
  All P (x ∷ xs) = P x × All P xs

  -- `std::find_if`
  abbrev pub find_if : (A → Bool) → List A → Option A
  find_if p [] = none
  find_if p (x ∷ xs) = if p x then some x else find_if p xs

  -- `for(x : xs) if(p(x)) return true; return false;`
  abbrev pub any : (A → Bool) → List A → Bool
  any p [] = false
  any p (x ∷ xs) = p x || any p xs

  -- `erase(remove_if(...))`
  abbrev pub remove_if : (A → Bool) → List A → List A
  remove_if p [] = []
  remove_if p (x ∷ xs) = let rest = remove_if p xs in if p x then rest else x ∷ rest

  -- `for(x : xs){ if(p(x)){ xs.erase(begin + i); return true; } i++; } return false;`
  abbrev pub erase_first : (A → Bool) → List A → Bool × List A
  erase_first p [] = (false, [])
  erase_first p (x ∷ xs) =
      let rest = erase_first p xs in if p x then (true, xs) else (rest.0, x ∷ rest.1)

  -- `for(x : xs) if(p(x)) return f(x); return false;`, where `f` changes `x`.
  abbrev pub at_first : (A → Bool) → (A → Bool × A) → List A → Bool × List A
  at_first p f [] = (false, [])
  at_first p f (x ∷ xs) =
      let rest = at_first p f xs in if p x then ((f x).0, (f x).1 ∷ xs) else (rest.0, x ∷ rest.1)

  -- `for(x : xs) if(p(x)){ f(x); return; } xs.emplace_back(a);`
  abbrev pub update_or_append : (A → Bool) → (A → A) → A → List A → List A
  update_or_append p f a [] = a ∷ []
  update_or_append p f a (x ∷ xs) =
      let rest = update_or_append p f a xs in if p x then f x ∷ xs else x ∷ rest

  pub length-append : (xs ys : List A) → length (xs ++ ys) ≡ length xs + length ys
  length-append [] ys = omega arith
  length-append (x ∷ xs) ys = omega (arith, length-append xs ys)

  pub any-append : (p : A → Bool) (xs ys : List A) → any p (xs ++ ys) ≡ (any p xs || any p ys)
  any-append p [] ys = refl
  any-append p (x ∷ xs) ys = ground (arith, any-append p xs ys)

  -- The loop returns whether an element fits.
  pub erase_first-any : (p : A → Bool) (xs : List A) → (erase_first p xs).0 ≡ any p xs
  erase_first-any p [] = refl
  erase_first-any p (x ∷ xs) = ground (arith, erase_first-any p xs)

  pub erase_first-eq_of_none :
      (p : A → Bool) (xs : List A) → any p xs ≡ false → (erase_first p xs).1 ≡ xs
  erase_first-eq_of_none p [] h = refl
  erase_first-eq_of_none p (x ∷ xs) h = ground (arith, erase_first-eq_of_none p xs)

  pub any-or : (p q : A → Bool) (xs : List A) → any (λ x. p x || q x) xs ≡ (any p xs || any q xs)
  any-or p q [] = refl
  any-or p q (x ∷ xs) = ground (arith, any-or p q xs)

  pub any-remove_if : (p : A → Bool) (xs : List A) → any p (remove_if p xs) ≡ false
  any-remove_if p [] = refl
  any-remove_if p (x ∷ xs) = ground (arith, any-remove_if p xs)

  pub any-eq-is_some : (p : A → Bool) (xs : List A) → any p xs ≡ is_some (find_if p xs)
  any-eq-is_some p [] = refl
  any-eq-is_some p (x ∷ xs) = ground (arith, any-eq-is_some p xs)

module _ {ℓ} {A : Type ℓ} ⦃e : Eq A⦄ where
  -- `std::find(xs, a) != end`
  abbrev pub contains : List A → A → Bool
  contains [] a = false
  contains (x ∷ xs) a = x == a || contains xs a

  -- No two elements are equal.
  abbrev pub NodupB : List A → Type 0
  NodupB [] = Unit
  NodupB (x ∷ xs) = (contains xs x ≡ false) × NodupB xs

  pub contains-append :
      (xs ys : List A) (a : A) → contains (xs ++ ys) a ≡ (contains xs a || contains ys a)
  contains-append [] ys a = refl
  contains-append (x ∷ xs) ys a = ground (arith, contains-append xs ys a)

  pub any-eq-contains : (xs : List A) (a : A) → any (λ x. x == a) xs ≡ contains xs a
  any-eq-contains [] a = refl
  any-eq-contains (x ∷ xs) a = ground (arith, any-eq-contains xs a)

  pub NodupB-append :
      (xs : List A) (a : A) → NodupB xs → contains xs a ≡ false → NodupB (xs ++ (a ∷ []))
  NodupB-append [] a u h = (refl, tt)
  NodupB-append (x ∷ xs) a u h =
      ground (arith, NodupB-append xs a u.1, contains-append xs (a ∷ []) x)

  pub erase_first-absent :
      (p : A → Bool) (xs : List A) (a : A)
      → contains xs a ≡ false
      → contains (erase_first p xs).1 a ≡ false
  erase_first-absent p [] a h = refl
  erase_first-absent p (x ∷ xs) a h = ground (arith, erase_first-absent p xs a)

  pub NodupB-erase_first : (p : A → Bool) (xs : List A) → NodupB xs → NodupB (erase_first p xs).1
  NodupB-erase_first p [] h = tt
  NodupB-erase_first p (x ∷ xs) h =
      ground (arith, NodupB-erase_first p xs h.1, erase_first-absent p xs x)

-- Lists seen through a key.
module _ {ℓ κ} {A : Type ℓ} {K : Type κ} ⦃e : Eq K⦄ (f : A → K) where
  contains-map_append :
      (xs : List A) (a : A) (k : K)
      → contains (map f (xs ++ (a ∷ []))) k ≡ (contains (map f xs) k || (f a == k))
  contains-map_append [] a k = ground arith
  contains-map_append (x ∷ xs) a k = ground (arith, contains-map_append xs a k)

  pub any-key : (xs : List A) (k : K) → any (λ x. f x == k) xs ≡ contains (map f xs) k
  any-key [] k = refl
  any-key (x ∷ xs) k = ground (arith, any-key xs k)

  pub NodupB-map_append :
      (xs : List A) (a : A)
      → NodupB (map f xs)
      → any (λ x. f x == f a) xs ≡ false
      → NodupB (map f (xs ++ (a ∷ [])))
  NodupB-map_append [] a u h = (refl, tt)
  NodupB-map_append (x ∷ xs) a u h =
      ground (arith, NodupB-map_append xs a u.1, contains-map_append xs a (f x))

  pub contains-erase_first :
      (p : A → Bool) (xs : List A) (k : K)
      → contains (map f xs) k ≡ false
      → contains (map f (erase_first p xs).1) k ≡ false
  contains-erase_first p [] k h = refl
  contains-erase_first p (x ∷ xs) k h = ground (arith, contains-erase_first p xs k)

  pub erase_first-NodupB :
      (p : A → Bool) (xs : List A) → NodupB (map f xs) → NodupB (map f (erase_first p xs).1)
  erase_first-NodupB p [] h = tt
  erase_first-NodupB p (x ∷ xs) h =
      ground (arith, erase_first-NodupB p xs h.1, contains-erase_first p xs (f x))

module _ {ℓ κ} {A : Type ℓ} {K : Type κ} (f : A → K) where
  pub map-at_first :
      (p : A → Bool) (g : A → Bool × A) (xs : List A)
      → ((x : A) → f (g x).1 ≡ f x)
      → map f (at_first p g xs).1 ≡ map f xs
  map-at_first p g [] h = refl
  map-at_first p g (x ∷ xs) h = ground (arith, map-at_first p g xs h, h x)

  pub map-map_same :
      (g : A → A) (xs : List A) → ((x : A) → f (g x) ≡ f x) → map f (map g xs) ≡ map f xs
  map-map_same g [] h = refl
  map-map_same g (x ∷ xs) h = ground (arith, map-map_same g xs h, h x)

module _ {ℓ κ} {A : Type ℓ} (P : A → Type κ) where
  pub All-append : (xs : List A) (a : A) → All P xs → P a → All P (xs ++ (a ∷ []))
  All-append [] a h p = (p, tt)
  All-append (x ∷ xs) a h p = (h.0, All-append xs a h.1 p)

  pub All-erase_first : (p : A → Bool) (xs : List A) → All P xs → All P (erase_first p xs).1
  All-erase_first p [] h = tt
  All-erase_first p (x ∷ xs) h = ground (arith, All-erase_first p xs h.1)

  pub All-at_first :
      (p : A → Bool) (g : A → Bool × A) (xs : List A)
      → ((x : A) → P x → P (g x).1)
      → All P xs
      → All P (at_first p g xs).1
  All-at_first p g [] h a = tt
  All-at_first p g (x ∷ xs) h a = ground (arith, All-at_first p g xs h a.1, h x a.0)

  pub All-map : (g : A → A) (xs : List A) → ((x : A) → P x → P (g x)) → All P xs → All P (map g xs)
  All-map g [] h a = tt
  All-map g (x ∷ xs) h a = (h x a.0, All-map g xs h a.1)
