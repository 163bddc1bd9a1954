-- ===== src/Instance/Readings.antt =====
-- The readings that a device sends: `update_sensor_value` of src/instance/sensor.cpp over the
-- `sensor_type` of src/sensor/sensor_type.hpp. The calls of the database and of the notifications
-- whose results are not read are events; `times` is what the clock gives at
-- its calls.
pub mod Packets
use agro_daemon.Base.{
  ℕ, zero, suc, ◌+◌, ◌*◌, ◌^◌, Bool, true, false, List, [], ◌∷◌, ◌++◌, none, some, if◌then◌else◌,
}
use agro_daemon.Device.State.{Device, update_sensor}
use agro_daemon.Sensor.Kinds
use agro_daemon.Sensor.Kinds.{SensorTypeList}

-- `sensor_type`: a type of 24 bits, an index of 8 bits and the 32 bits of a value.
pub record SensorType : Type 0 where
  pub type_ : ℕ
  pub index : ℕ
  pub value : ℕ

pub data Event : Type 0 where
  -- `db_.update_sensor_value`
  stored : SensorType → ℕ → Event
  -- `notify_all_policy` with the rule `view_device`
  notified : SensorType → Event

-- `stype ? stype->add_change : false`
unfoldable pub has_add_change : SensorTypeList → ℕ → Bool
has_add_change kinds id = elim (Kinds.get kinds id) [ none ↦ false | some stype ↦ stype.add_change ]

-- The result of `update_sensor_value` with the device and the calls that it leaves.
pub record Updated (Endpoint : Type 0) : Type 0 where
  pub count : ℕ
  pub device : Device Endpoint
  pub events : List Event

module _ {Endpoint : Type 0} where
  -- `update_sensor_value(device, sensor)`
  unfoldable pub update_reading :
      SensorTypeList → ℕ → Device Endpoint → SensorType → Bool × (Device Endpoint × List Event)
  update_reading kinds time d sensor =
      let added =
        update_sensor d sensor.type_ sensor.index time sensor.value
          (has_add_change kinds sensor.type_) in
      (
        added.0,
        (added.1, (if added.0 then stored sensor time ∷ [] else []) ++ (notified sensor ∷ [])),
      )

  -- A round of the loop in front of the rest of it.
  unfoldable pub more : Bool × (Device Endpoint × List Event) → Updated Endpoint → Updated Endpoint
  more one rest = record rest {
    count = if one.0 then suc rest.count else rest.count;
    events = one.1.1 ++ rest.events;
  }

  -- `update_sensor_value(device, data, size)`; its loop ends before a part of a reading.
  unfoldable pub update_readings :
      SensorTypeList → (ℕ → ℕ) → Device Endpoint → List ℕ → Updated Endpoint
  update_readings kinds times d (t₀ ∷ t₁ ∷ t₂ ∷ i ∷ v₀ ∷ v₁ ∷ v₂ ∷ v₃ ∷ bytes) =
      let sensor : SensorType = record {
        type_ = t₀ + 2 ^ 8 * t₁ + 2 ^ 16 * t₂;
        index = i;
        value = v₀ + 2 ^ 8 * v₁ + 2 ^ 16 * v₂ + 2 ^ 24 * v₃;
      } in
      let one = update_reading kinds (times 0) d sensor in
      more one (update_readings kinds (λ n. times (suc n)) one.1.0 bytes)
  update_readings kinds times d bytes = record { count = 0; device = d; events = [] }
