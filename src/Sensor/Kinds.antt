-- ===== src/Sensor/Kinds.antt =====
-- `Sensor_Type_List`, the descriptions of sensor types: src/sensor/sensor_type_list.hpp and
-- src/sensor/sensor_type_list.cpp. Ids are the bits of an `int`.
pub mod Laws
use agro_daemon.Base.{
  ℕ, String, Bool, true, false, List, Option, none, some, ◌==◌, nat_eq, string_eq, find_if,
}
use agro_daemon.Base.Dict
use agro_daemon.Base.Dict.{Dict}

pub data SensorUnitType : Type 0 where
  integer : SensorUnitType
  tunsigned : SensorUnitType
  tfloat : SensorUnitType
  array : SensorUnitType

pub record SensorDescription : Type 0 where
  pub id : ℕ
  pub name : String
  pub long_name : String
  pub type_ : SensorUnitType
  pub unit : String
  pub unit_name : String
  pub description : String
  pub add_change : Bool

abbrev pub SensorTypeList : Type 0
SensorTypeList = Dict ℕ SensorDescription

unfoldable pub add : SensorTypeList → SensorDescription → Bool × SensorTypeList
add list sensor = elim (Dict.lookup sensor.id list) [
  | some u ↦ (false, list)
  | none ↦ (true, Dict.emplace sensor.id sensor list)
]

-- The fields that `update` copies: neither the id and the name nor the type of the unit.
unfoldable pub updated : SensorDescription → SensorDescription → SensorDescription
updated sensor u = record u {
  long_name = sensor.long_name;
  unit = sensor.unit;
  unit_name = sensor.unit_name;
  description = sensor.description;
  add_change = sensor.add_change;
}

unfoldable pub update : SensorTypeList → SensorDescription → Bool × SensorTypeList
update list sensor = elim (Dict.lookup sensor.id list) [
  | none ↦ (false, list)
  | some u ↦ (true, Dict.adjust sensor.id (updated sensor) list)
]

-- `remove` by name erases the id of the first description that has it.
unfoldable pub remove_name : SensorTypeList → String → Bool × SensorTypeList
remove_name list name = elim (find_if (λ e. e.1.name == name) list) [
  | none ↦ (false, list)
  | some e ↦ (true, Dict.erase e.1.id list)
]

unfoldable pub remove : SensorTypeList → ℕ → Bool × SensorTypeList
remove list id = elim (Dict.lookup id list) [
  | none ↦ (false, list)
  | some u ↦ (true, Dict.erase id list)
]

unfoldable pub get : SensorTypeList → ℕ → Option SensorDescription
get list id = Dict.lookup id list
