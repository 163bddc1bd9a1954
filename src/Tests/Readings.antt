-- ===== src/Tests/Readings.antt =====
-- Payloads of readings.
use agro_daemon.Base.{ℕ, ℕ_discrete, ◌+◌, ◌≡◌, List, [], ◌∷◌, All, arith, true}
use agro_daemon.Device.State.{Device, empty_device}
use agro_daemon.Sensor.Series.Laws.{run}
use agro_daemon.Sensor.Kinds.{SensorDescription, SensorUnitType, SensorTypeList}
use agro_daemon.Instance.Readings.{SensorType, update_readings}
use agro_daemon.Instance.Readings.Packets.{Fits, packets, dated, notices, update_readings-packets}

abbrev meter : Device ℕ
meter = empty_device 5683

abbrev humidity : SensorDescription
humidity = record {
  id = 7;
  name = "hum";
  long_name = "humidity";
  type_ = SensorUnitType.tunsigned;
  unit = "%";
  unit_name = "percent";
  description = "";
  add_change = true;
}

abbrev kinds : SensorTypeList
kinds = (7, humidity) ∷ []

abbrev clock : ℕ → ℕ
clock n = 1000 + n

abbrev sensors : List SensorType
sensors =
    record { type_ = 7; index = 0; value = 55 }
    ∷ record { type_ = 7; index = 0; value = 55 }
    ∷ record { type_ = 300; index = 2; value = 70000 }
    ∷ []

sensors-Fits : All Fits sensors
unfolding ℕ_discrete
sensors-Fits = (
  record { type_bound = omega arith; value_bound = omega arith },
  (
    record { type_bound = omega arith; value_bound = omega arith },
    (record { type_bound = omega arith; value_bound = omega arith }, tt),
  ),
)

update_readings-packets_example :
    ((update_readings kinds clock meter (packets sensors (9 ∷ []))).device
      ≡ record meter { slist = run meter.slist (dated kinds clock sensors) })
    × (notices (update_readings kinds clock meter (packets sensors (9 ∷ []))).events ≡ sensors)
unfolding ℕ_discrete
update_readings-packets_example =
    update_readings-packets kinds clock meter sensors (9 ∷ []) sensors-Fits (omega arith)
