-- ===== src/Device/Resource/Process.antt =====
-- What becomes of a payload of a device, `process_*` of src/device/resources/process.cpp, and the
-- handlers of the resources that call it: route.cpp, board_config.cpp, config.cpp, full_config.cpp,
-- sensor_data.cpp and app.cpp of that folder.
use agro_daemon.Base.{
  ℕ, ◌/◌, ◌%◌, Bool, List, [], ◌∷◌, ◌++◌, Option, none, some, ◌==◌, nat_eq, map, if◌then◌else◌,
}
use agro_daemon.Base.Dict
use agro_daemon.Device.Mac.{MeshAddr}
use agro_daemon.Device.InProgress.{addr_eq}
use agro_daemon.Device.State.{Device, has_config, set_version}
use agro_daemon.Device.AppList.{read_packet_app_list}
use agro_daemon.Instance.Network.{update_tree}
use agro_daemon.Instance.Readings.{update_readings}
use agro_daemon.Sensor.Kinds.{SensorTypeList}
use agro_daemon.Instance.Devices.{
  Event, network, reading, device_stored, route_written, board_written, config_written,
  full_config_written, sensors_written, apps_written, Known, Given, Requested, requested,
  devices_of, with_devices, process_device_request,
}
use agro_daemon.Device.Resource.{
  Route, Config, route_at, config_at, split_version, Processed, fault, unfinished, refused,
  processed, process_packet, update_route_data, update_config_data,
}

-- What the processing reads beside the payload: the clock, the types of sensors, the fuel of the walks
-- in the tree, and the endpoint that the message came from.
pub record Reading (Endpoint : Type 0) : Type 0 where
  pub given : Given Endpoint
  pub kinds : SensorTypeList
  -- In milliseconds, and in seconds at each call.
  pub now : ℕ
  pub times : ℕ → ℕ
  pub fuel : ℕ
  pub ep : Endpoint

-- The code of a response. Routes, configurations and values are answered to a confirmable message, or
-- when they are refused.
pub data Response : Type 0 where
  bad_request success changed : Response

pub data Answered (Endpoint : Type 0) : Type 0 where
  undefined_behaviour unended ignored : Answered Endpoint
  answered : Option Response → Known Endpoint → List (Event Endpoint) → Answered Endpoint

module _ {Endpoint : Type 0} (r : Reading Endpoint) where
  -- The device under the address is changed.
  abbrev pub change_device :
      MeshAddr → (Device Endpoint → Device Endpoint) → Known Endpoint → Known Endpoint
  change_device host f k = with_devices k (Dict.adjust host f (devices_of k))

  -- The tree takes the device of `host` up, and `finish` has the result.
  abbrev pub updated_tree :
      MeshAddr
      → Known Endpoint
      → (Device Endpoint → Bool → Known Endpoint → List (Event Endpoint) → Processed Endpoint)
      → Processed Endpoint
  updated_tree host k finish = elim (Dict.lookup host (devices_of k)) [
    | none ↦ fault
    | some dev ↦ elim (update_tree r.fuel dev k.net) [
      | none ↦ unfinished
      | some (change, events, net') ↦
          finish dev change (record k { net = net' }) (map network events)
    ]
  ]

  -- With `force_send`, as every call has it.
  unfoldable pub process_route : MeshAddr → Known Endpoint → List ℕ → Processed Endpoint
  process_route host k payload = elim (route_at payload) [
    | none ↦ refused
    | some (data_, children) ↦
        let packet = Dict.adjust host (process_packet r.now r.ep) (devices_of k) in
        elim (update_route_data r.given host packet data_ children) [
          | none ↦ fault
          | some (connected, list) ↦
              updated_tree host (with_devices k list) (λ dev change k' events.
                processed k' (connected ++ events ++ (route_written dev ∷ [])))
        ]
  ]

  unfoldable pub process_board : MeshAddr → Known Endpoint → List ℕ → Processed Endpoint
  process_board host k [] = refused
  process_board host k (flags ∷ str) =
      let version = split_version str in
      let update = λ (d : Device Endpoint).
        set_version (has_config (process_packet r.now r.ep d) (flags / 2 % 2 == 1) (flags % 2 == 1))
          version.0 version.1 in
      elim (Dict.lookup host (devices_of k)) [
        | none ↦ fault
        | some dev ↦ processed (change_device host update k) (board_written (update dev) ∷ [])
      ]

  unfoldable pub process_config : MeshAddr → Known Endpoint → List ℕ → Processed Endpoint
  process_config host k payload = elim (config_at payload) [
    | none ↦ refused
    | some (data_, rest) ↦
        let k' =
          update_config_data r.given host (change_device host (process_packet r.now r.ep) k)
            data_ in
        elim (Dict.lookup host (devices_of k')) [
          | none ↦ fault
          | some dev ↦ processed k' (config_written dev ∷ [])
        ]
  ]

  -- One byte, the strength of the signal, stands between the two packets.
  abbrev pub full_config_at : List ℕ → Option (Config × (Route × List ℕ))
  full_config_at payload = elim (config_at payload) [
    | none ↦ none
    | some (fconfig, []) ↦ none
    | some (fconfig, rssi ∷ rest) ↦ elim (route_at rest) [
      | none ↦ none
      | some (froute, children) ↦ some (fconfig, (froute, children))
    ]
  ]

  -- The time of the last packet and the endpoint of the device stay as they are.
  unfoldable pub process_full_config : MeshAddr → Known Endpoint → List ℕ → Processed Endpoint
  process_full_config host k payload = elim (full_config_at payload) [
    | none ↦ refused
    | some (fconfig, (froute, children)) ↦
        let k' = update_config_data r.given host k fconfig in
        elim (update_route_data r.given host (devices_of k') froute children) [
          | none ↦ fault
          | some (connected, list) ↦
              updated_tree host (with_devices k' list) (λ dev change k'' events.
                processed k'' (connected ++ (full_config_written dev ∷ events)))
        ]
  ]

  unfoldable pub process_sensors_data : MeshAddr → Known Endpoint → List ℕ → Processed Endpoint
  process_sensors_data host k payload = elim (Dict.lookup host (devices_of k)) [
    | none ↦ fault
    | some dev ↦
        let dev' = process_packet r.now r.ep dev in
        let updated = update_readings r.kinds r.times dev' payload in
        processed (change_device host (λ old. updated.device) k) (
          device_stored dev'
          ∷ (map reading updated.events ++ (sensors_written updated.device payload ∷ [])))
  ]

  -- The handlers `put_route_handler`, `put_board_config_handler`, `put_config_handler` and
  -- `put_full_config_handler` differ in what they call alone.
  unfoldable pub put_handler :
      (MeshAddr → Known Endpoint → List ℕ → Processed Endpoint)
      → MeshAddr
      → Known Endpoint
      → Option (List ℕ)
      → Bool
      → List ℕ
      → Answered Endpoint
  put_handler process garbage k op confirmable payload =
      elim (process_device_request r.given garbage k op) [
        | Requested.fault ↦ undefined_behaviour
        | Requested.refused ↦ ignored
        | requested host k' events ↦ elim (process host k' payload) [
          | fault ↦ undefined_behaviour
          | unfinished ↦ unended
          | refused ↦ answered (some bad_request) k' events
          | processed k'' calls ↦ elim (Dict.lookup host (devices_of k'')) [
            | none ↦ undefined_behaviour
            | some dev ↦
                answered (if confirmable then some success else none) k''
                  (events ++ calls ++ (device_stored dev ∷ []))
          ]
        ]
      ]

  unfoldable pub put_sensors_data_handler :
      MeshAddr → Known Endpoint → Option (List ℕ) → Bool → List ℕ → Answered Endpoint
  put_sensors_data_handler garbage k op confirmable payload =
      elim (process_device_request r.given garbage k op) [
        | Requested.fault ↦ undefined_behaviour
        | Requested.refused ↦ ignored
        | requested host k' events ↦ elim (process_sensors_data host k' payload) [
          | fault ↦ undefined_behaviour
          | unfinished ↦ unended
          | refused ↦ undefined_behaviour
          | processed k'' calls ↦
              answered (if confirmable then some success else none) k'' (events ++ calls)
        ]
      ]

  unfoldable pub post_app_handler :
      MeshAddr → Known Endpoint → Option (List ℕ) → List ℕ → Answered Endpoint
  post_app_handler garbage k op payload = elim (process_device_request r.given garbage k op) [
    | Requested.fault ↦ undefined_behaviour
    | Requested.refused ↦ ignored
    | requested host k' events ↦ elim (Dict.lookup host (devices_of k')) [
      | none ↦ undefined_behaviour
      | some dev ↦ elim (read_packet_app_list dev payload) [
        | none ↦ undefined_behaviour
        | some dev' ↦
            answered (some changed) (change_device host (λ old. dev') k')
              (events ++ (apps_written dev' ∷ []))
      ]
    ]
  ]
