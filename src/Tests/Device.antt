-- ===== src/Tests/Device.antt =====
-- Addresses, requests in progress and sensors at small data.
use agro_daemon.Base.{
  ℕ_discrete, ◌≤◌, ◌<◌, ◌≡◌, refl, ◌≢◌, true, false, none, some, List, [], ◌∷◌, All, arith,
}
use agro_daemon.Base.Dict
use agro_daemon.Device.Mac.{MeshAddr, string_to_mac, to_string, null_addr, hex, hex_byte}
use agro_daemon.Device.Mac.RoundTrip.{string_to_mac-to_string}
use agro_daemon.Device.Mac.Overrun.{colons, string_to_mac-safe}
use agro_daemon.Device.InProgress.Laws as Locks
use agro_daemon.Device.InProgress.Laws.{run-locks, holds}
use agro_daemon.Sensor.Values.{Value}
use agro_daemon.Sensor.Values.Window.{add_changes, last_of, compress, add_changes-last_of}
use agro_daemon.Sensor.Series.{Key, SensorList, key_eq}
use agro_daemon.Sensor.Series.Laws as Series
use agro_daemon.Sensor.Series.Laws.{Reading, lookup-run}

abbrev addr : MeshAddr
addr = 0x24 ∷ 0x6f ∷ 0x28 ∷ 0xa0 ∷ 0x0b ∷ 0xff ∷ []

addr-bytes : All (λ b. b < 256) addr
addr-bytes =
    (omega arith, (omega arith, (omega arith, (omega arith, (omega arith, (omega arith, tt))))))

string_to_mac-to_string_example : string_to_mac (to_string addr) null_addr ≡ some (true, addr)
string_to_mac-to_string_example = string_to_mac-to_string addr null_addr refl addr-bytes refl

five : colons (to_string addr) ≤ 5
unfolding to_string colons hex_byte hex ℕ_discrete
five = omega arith

string_to_mac-safe_example : string_to_mac (to_string addr) null_addr ≢ none
string_to_mac-safe_example = string_to_mac-safe (to_string addr) null_addr refl five

abbrev uptime : Locks.Key
uptime = record { addr = addr; method = 1; request = 8 }

abbrev locks : List Locks.Op
locks = Locks.adds uptime 7 ∷ Locks.adds uptime 8 ∷ Locks.removes uptime ∷ []

run-locks_example :
    ((Locks.run [] locks).0 ≡ Locks.results locks (holds []))
    × (holds (Locks.run [] locks).1 ≡ Locks.all_locked locks (holds []))
run-locks_example = run-locks [] locks

abbrev readings : List Value
readings =
    record { time = 1; value = 20 }
    ∷ record { time = 2; value = 20 }
    ∷ record { time = 3; value = 21 }
    ∷ []

add_changes-last_of_example : add_changes 2 [] readings ≡ last_of 2 (compress none readings)
add_changes-last_of_example = add_changes-last_of 2 readings (omega arith)

abbrev of_sensors : List Reading
of_sensors =
    record { sensor = (1, 0); time = 1; value = 20; add_change = true }
    ∷ record { sensor = (2, 0); time = 1; value = 5; add_change = false }
    ∷ record { sensor = (1, 0); time = 2; value = 20; add_change = true }
    ∷ []

abbrev no_sensors : SensorList
no_sensors = []

abbrev temperature : Key
temperature = (1, 0)

lookup-run_example :
    Dict.lookup temperature (Series.run no_sensors of_sensors)
    ≡ Series.series temperature of_sensors (Dict.lookup temperature no_sensors)
lookup-run_example = lookup-run no_sensors of_sensors temperature
