-- ===== src/Sensor/Series/Laws.antt =====
-- The values of each sensor are those of its own readings.
use agro_daemon.Base.{
  ℕ, ◌≡◌, refl, Bool, List, [], ◌∷◌, Option, none, some, ◌==◌, arith, if◌then◌else◌, Bool-cases,
  Option-cases, inl, inr, ◌∙◌, ap, ==_iff,
}
use agro_daemon.Base.Dict
use agro_daemon.Sensor.Values
use agro_daemon.Sensor.Values.{Value}
use agro_daemon.Sensor.Series.{Key, key_eq, max, SensorList, add}

pub record Reading : Type 0 where
  pub sensor : Key
  pub time : ℕ
  pub value : ℕ
  pub add_change : Bool

unfoldable pub step : SensorList → Reading → Bool × SensorList
step list r = add list r.sensor.0 r.sensor.1 r.time r.value r.add_change

unfoldable pub run : SensorList → List Reading → SensorList
run list [] = list
run list (r ∷ rs) = run (step list r).1 rs

-- What a reading does to the values of its own sensor.
pub feed : Reading → List Value → List Value
feed r values =
    if r.add_change
    then (Values.add_change max values r.time r.value).1
    else Values.add max values r.time r.value

pub fed : Reading → Option (List Value) → Option (List Value)
fed r none = some (feed r [])
fed r (some vs) = some (feed r vs)

-- The values of one sensor, which has none before its first reading.
pub series : Key → List Reading → Option (List Value) → Option (List Value)
series k [] values = values
series k (r ∷ rs) values = series k rs (if r.sensor == k then fed r values else values)

feed-nil : (r : Reading) → feed r [] ≡ Values.add max [] r.time r.value
unfolding feed Values.add_change
feed-nil r = ground arith

lookup-step :
    (list : SensorList) (r : Reading) (k : Key)
    → Dict.lookup k (step list r).1
      ≡ (if r.sensor == k then fed r (Dict.lookup r.sensor list) else Dict.lookup k list)
unfolding step add fed feed
lookup-step list r k = elim (Option-cases (Dict.lookup r.sensor list)) [
  | inl missing ↦
      let there = Dict.lookup-emplace k r.sensor [] list missing in
      let here = Dict.lookup-emplace r.sensor r.sensor [] list missing in
      let changed =
        Dict.lookup-adjust k r.sensor (λ vs. Values.add max vs r.time r.value)
          (Dict.emplace r.sensor [] list) [] (here ∙ ground arith) in
      rw (missing, add, feed-nil r)
        (changed ∙ (elim (Bool-cases (r.sensor == k)) [
          | inl same ↦ rw same refl
          | inr differ ↦ rw differ (there ∙ rw differ refl)
        ]))
  | inr (vs, found) ↦ elim (Bool-cases r.add_change) [
    | inl on ↦ rw (found, add, on) (Dict.lookup-adjust k r.sensor _ list vs found)
    | inr off ↦ rw (found, add, off) (Dict.lookup-adjust k r.sensor _ list vs found)
  ]
]

own_key :
    (list : SensorList) (r : Reading) (k : Key)
    → (if r.sensor == k then fed r (Dict.lookup r.sensor list) else Dict.lookup k list)
      ≡ (if r.sensor == k then fed r (Dict.lookup k list) else Dict.lookup k list)
own_key list r k = elim (Bool-cases (r.sensor == k)) [
  | inl same ↦ rw (same, (==_iff r.sensor k).0 same) refl
  | inr differ ↦ rw differ refl
]

-- From any list of sensors, the values of a sensor after a sequence of readings are those it had
-- followed by its own readings, each added as its `add_change` says, whatever other sensors were
-- read between them.
pub lookup-run :
    (list : SensorList) (rs : List Reading) (k : Key)
    → Dict.lookup k (run list rs) ≡ series k rs (Dict.lookup k list)
unfolding run series
lookup-run list [] k = refl
lookup-run list (r ∷ rs) k =
    lookup-run (step list r).1 rs k ∙ ap (series k rs) (lookup-step list r k ∙ own_key list r k)
