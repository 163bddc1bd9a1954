-- ===== src/Sensor/Kinds/Laws.antt =====
-- The list of sensor types as a map from ids to descriptions.
use agro_daemon.Base.{
  ℕ, ◌≡◌, refl, Bool, List, [], ◌∷◌, Option, none, some, ◌==◌, nat_eq, subst, if◌then◌else◌,
  Bool-cases, Option-cases, inl, inr, ◌∙◌, ap, ==_iff, is_some, not, string_eq,
}
use agro_daemon.Base.Dict
use agro_daemon.Sensor.Kinds.{SensorDescription, SensorTypeList, add, update, updated, remove, get}

pub data Op : Type 0 where
  adds : SensorDescription → Op
  updates : SensorDescription → Op
  removes : ℕ → Op

pub step : SensorTypeList → Op → Bool × SensorTypeList
step list (adds s) = add list s
step list (updates s) = update list s
step list (removes id) = remove list id

-- The id that an operation is about, and what it leaves there.
pub target : Op → ℕ
target (adds s) = s.id
target (updates s) = s.id
target (removes id) = id

pub effect : Op → Option SensorDescription → Option SensorDescription
effect (adds s) none = some s
effect (adds s) (some u) = some u
effect (updates s) none = none
effect (updates s) (some u) = some (updated s u)
effect (removes id) old = none

pub succeeds : Op → Option SensorDescription → Bool
succeeds (adds s) old = not (is_some old)
succeeds (updates s) old = is_some old
succeeds (removes id) old = is_some old

pub run : SensorTypeList → List Op → SensorTypeList
run list [] = list
run list (op ∷ ops) = run (step list op).1 ops

pub effects : ℕ → List Op → Option SensorDescription → Option SensorDescription
effects k [] old = old
effects k (op ∷ ops) old = effects k ops (if target op == k then effect op old else old)

-- An operation that leaves what it found changes nothing.
unchanged :
    (list : SensorTypeList) (t k : ℕ) (old : Option SensorDescription)
    → Dict.lookup t list ≡ old
    → Dict.lookup k list ≡ (if t == k then old else Dict.lookup k list)
unchanged list t k old e = elim (Bool-cases (t == k)) [
  | inl same ↦ rw same (subst (λ i. Dict.lookup i list ≡ old) ((==_iff t k).0 same) e)
  | inr differ ↦ rw differ refl
]

-- One operation, by what stands at its target.
pub get-step :
    (list : SensorTypeList) (op : Op) (k : ℕ)
    → (get (step list op).1 k
        ≡ (if target op == k then effect op (get list (target op)) else get list k))
      × ((step list op).0 ≡ succeeds op (get list (target op)))
unfolding get step target effect succeeds add update remove
get-step list (adds s) k = elim (Option-cases (Dict.lookup s.id list)) [
  | inl free ↦ rw (free, add) (Dict.lookup-emplace k s.id s list free, refl)
  | inr (u, taken) ↦ rw (taken, add) (unchanged list s.id k (some u) taken, refl)
]
get-step list (updates s) k = elim (Option-cases (Dict.lookup s.id list)) [
  | inl free ↦ rw (free, update) (unchanged list s.id k none free, refl)
  | inr (u, taken) ↦ rw (taken, update) (Dict.lookup-adjust k s.id (updated s) list u taken, refl)
]
get-step list (removes id) k = elim (Option-cases (Dict.lookup id list)) [
  | inl free ↦ rw (free, remove) (unchanged list id k none free, refl)
  | inr (u, taken) ↦ rw (taken, remove) (Dict.lookup-erase k id list, refl)
]

at_target :
    (list : SensorTypeList) (op : Op) (k : ℕ)
    → (if target op == k then effect op (get list (target op)) else get list k)
      ≡ (if target op == k then effect op (get list k) else get list k)
at_target list op k = elim (Bool-cases (target op == k)) [
  | inl same ↦ rw (same, (==_iff (target op) k).0 same) refl
  | inr differ ↦ rw differ refl
]

-- After every sequence of adds, updates and removes, the description under an id is what those of
-- the operations that have this id leave of the one before: an add is kept if there was none, an
-- update changes all but the id, the name and the unit's type if there was one, a remove leaves none.
pub get-run :
    (list : SensorTypeList) (ops : List Op) (k : ℕ)
    → get (run list ops) k ≡ effects k ops (get list k)
unfolding run effects
get-run list [] k = refl
get-run list (op ∷ ops) k =
    get-run (step list op).1 ops k
    ∙ ap (effects k ops) ((get-step list op k).0 ∙ at_target list op k)
