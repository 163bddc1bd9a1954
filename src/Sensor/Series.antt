-- ===== src/Sensor/Series.antt =====
-- `Sensor_List`: src/sensor/sensor_list.hpp and src/sensor/sensor_list.cpp.
pub mod Laws
use agro_daemon.Base.{
  ℕ, Bool, true, false, List, [], Option, none, some, Eq, ◌==◌, nat_eq, ℕ_discrete,
}
use mathlib.Core.HLevel.{×_discrete}
use agro_daemon.Base.Dict
use agro_daemon.Base.Dict.{Dict}
use agro_daemon.Sensor.Values
use agro_daemon.Sensor.Values.{Value}

abbrev pub Key : Type 0
Key = ℕ × ℕ

instance abbrev pub key_eq : Eq Key
key_eq = record { dec = ×_discrete ℕ_discrete ℕ_discrete }

-- `Value_List<int, 20>`
abbrev pub max : ℕ
max = 20

abbrev pub SensorList : Type 0
SensorList = Dict Key (List Value)

-- `emplace(lkey, value{}).first->second`, then a change of it: an entry that is there is used.
unfoldable pub get_or_add : SensorList → ℕ → ℕ → SensorList
get_or_add list type_ index = elim (Dict.lookup (type_, index) list) [
  | some values ↦ list
  | none ↦ Dict.emplace (type_, index) [] list
]

-- `add` without a time, which takes the clock's.
unfoldable pub add_now : ℕ → SensorList → ℕ → ℕ → ℕ → Bool → Bool × SensorList
add_now now list type_ index value add_change = elim (Dict.lookup (type_, index) list) [
  | some values ↦ elim add_change [
    | true ↦
        let changed = Values.add_change_now max now values value in
        (changed.0, Dict.adjust (type_, index) (λ _. changed.1) list)
    | false ↦ (true, Dict.adjust (type_, index) (λ vs. Values.add_now max now vs value) list)
  ]
  | none ↦ (
    true,
    Dict.adjust (type_, index) (λ vs. Values.add_now max now vs value)
        (Dict.emplace (type_, index) [] list),
  )
]

unfoldable pub add : SensorList → ℕ → ℕ → ℕ → ℕ → Bool → Bool × SensorList
add list type_ index time value add_change = elim (Dict.lookup (type_, index) list) [
  | some values ↦ elim add_change [
    | true ↦
        let changed = Values.add_change max values time value in
        (changed.0, Dict.adjust (type_, index) (λ _. changed.1) list)
    | false ↦ (true, Dict.adjust (type_, index) (λ vs. Values.add max vs time value) list)
  ]
  | none ↦ (
    true,
    Dict.adjust (type_, index) (λ vs. Values.add max vs time value)
        (Dict.emplace (type_, index) [] list),
  )
]
