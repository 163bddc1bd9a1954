-- ===== src/Device/Request/Respond.antt =====
-- The handlers of src/device/request/ota.cpp, system.cpp, ac_load.cpp and packet.cpp, and the choice
-- of a handler by the table of requests.
use agro_daemon.Base.{ℕ, ◌+◌, ◌*◌, ◌^◌, none, some, List, [], ◌∷◌, nat_eq, ◌++◌, map, if◌then◌else◌}
use agro_daemon.Base.Dict
use agro_daemon.Device.Mac.{MeshAddr}
use agro_daemon.Device.InProgress.{addr_eq}
use agro_daemon.Device.State as Device
use agro_daemon.Device.State.{Device, set_jobs, set_fuse}
use agro_daemon.Device.Lists.{DeviceList}
use agro_daemon.Device.Request.{
  RequestType, custom, ac_load1_on, ac_load1_off, ac_load2_on, ac_load2_off, ac_load3_on,
  ac_load3_off, get_rtc, update_rtc, get_fuse, update_fuse, waive_root, sensors, route, board,
  config, full_config, get_ota, update_ota, send_job, get_job, delete_job, get_app, send_app,
  run_app, delete_app,
}
use agro_daemon.Instance.Readings.{SensorType, update_reading}
use agro_daemon.Sensor.Kinds.{SensorTypeList}
use agro_daemon.Instance.Devices.{Known, Event, devices_of, with_devices}
use agro_daemon.Device.Resource as Resource
use agro_daemon.Device.Resource.{Processed, processed}
use agro_daemon.Device.Resource.Process.{
  Reading, process_sensors_data, process_board, process_config, process_full_config, process_route,
}
use agro_daemon.Device.Request.Response.{
  Answer, Notice, success, words, bytes, report, ota, uptime, reset_reason, sensor_data, reading,
  custom_answer, Handled, fault, done, changed, at_host, say, failed, get_rtc_response,
  update_rtc_response, get_fuse_response, update_fuse_response, send_job_response, get_job_response,
  delete_job_response, get_app_response, send_app_response, exec_app_response, delete_app_response,
}

module _ {Endpoint : Type 0} (devices : DeviceList Endpoint) (host : MeshAddr) where
  unfoldable pub get_ota_response : Answer → Handled Endpoint
  get_ota_response answer =
      at_host devices host (failed devices host (words "Device not found") (words "GET OTA"))
        (λ dev. say devices host (ota dev answer.payload))

  unfoldable pub update_ota_response : List ℕ → Answer → Handled Endpoint
  update_ota_response sent answer =
      if answer.is_error
      then failed devices host (words "Update OTA error") (bytes sent)
      else say devices host (report success host (words "Update OTA initiated") (bytes sent))

  -- `strtoll` of the payload, as a pattern of 64 bits, is the argument `number`.
  unfoldable pub update_uptime_response : ℕ → (List ℕ → ℕ) → Answer → Handled Endpoint
  update_uptime_response now number answer =
      at_host devices host (failed devices host (words "Device not found") (words "uptime")) (λ dev.
        changed devices host (some (Device.update_uptime now dev (number answer.payload))) uptime)

  unfoldable pub reset_reason_response : (List ℕ → ℕ) → Answer → Handled Endpoint
  reset_reason_response number answer =
      at_host devices host (failed devices host (words "Device not found") (words "reset_reason"))
        (λ dev. say devices host (reset_reason dev (number answer.payload)))

  unfoldable pub process_ac_load : SensorTypeList → ℕ → SensorType → Handled Endpoint
  process_ac_load kinds now sensor = at_host devices host fault (λ dev.
      let updated = update_reading kinds now dev sensor in
      done (Dict.adjust host (λ old. updated.1.0) devices)
        (map reading updated.1.1 ++ (sensor_data updated.1.0 sensor ∷ [])))

  -- A payload that is not the eight bytes of a reading is passed over. The handler is that of the
  -- requests `ac1_on` to `ac3_off` alone.
  unfoldable pub ac_load_response : SensorTypeList → ℕ → List ℕ → Handled Endpoint
  ac_load_response kinds now (t₀ ∷ t₁ ∷ t₂ ∷ i ∷ v₀ ∷ v₁ ∷ v₂ ∷ v₃ ∷ []) =
      process_ac_load kinds now (record {
        type_ = t₀ + 2 ^ 8 * t₁ + 2 ^ 16 * t₂;
        index = i;
        value = v₀ + 2 ^ 8 * v₁ + 2 ^ 16 * v₂ + 2 ^ 24 * v₃;
      })
  ac_load_response kinds now payload = done devices []

-- What the handler of an answer leaves: undefined behaviour, a walk in the tree that takes more than its
-- fuel, or what the daemon knows behind it, with the notices and the calls of the resources.
pub data Responded (Endpoint : Type 0) : Type 0 where
  faulty unended : Responded Endpoint
  responded : Known Endpoint → List (Notice Endpoint) → List (Event Endpoint) → Responded Endpoint

module _ {Endpoint : Type 0} (r : Reading Endpoint) (k : Known Endpoint) (host : MeshAddr) where
  -- What a handler of the devices alone leaves.
  abbrev pub with_handled : Handled Endpoint → Responded Endpoint
  with_handled fault = faulty
  with_handled (done devices notices) = responded (with_devices k devices) notices []

  -- What a payload leaves; the error of one that is refused is not read.
  abbrev pub with_processed : Processed Endpoint → Responded Endpoint
  with_processed Resource.fault = faulty
  with_processed Resource.unfinished = unended
  with_processed Resource.refused = responded k [] []
  with_processed (processed k' events) = responded k' [] events

  -- The reference `*dev`, of a pointer that is null when the device is not listed.
  abbrev pub of_device : Processed Endpoint → Responded Endpoint
  of_device p = elim (Dict.lookup host (devices_of k)) [
    | none ↦ faulty
    | some dev ↦ with_processed p
  ]

  unfoldable pub packet_response : RequestType → List ℕ → Responded Endpoint
  packet_response req payload = elim req [
    | sensors ↦ of_device (process_sensors_data r host k payload)
    | board ↦ of_device (process_board r host k payload)
    | config ↦ of_device (process_config r host k payload)
    | full_config ↦ of_device (process_full_config r host k payload)
    | route ↦ of_device (process_route r host k payload)
    | _ ↦ responded k [] []
  ]

  -- The handler that the table has for a type; `now` is what the clock gives it.
  unfoldable pub respond : (List ℕ → ℕ) → ℕ → RequestType → List ℕ → Answer → Responded Endpoint
  respond number now t sent answer =
      let devices = devices_of k in
      elim t [
        | custom ↦ with_handled (say devices host (custom_answer sent answer))
        | ac_load1_on ↦ with_handled (ac_load_response devices host r.kinds now answer.payload)
        | ac_load1_off ↦ with_handled (ac_load_response devices host r.kinds now answer.payload)
        | ac_load2_on ↦ with_handled (ac_load_response devices host r.kinds now answer.payload)
        | ac_load2_off ↦ with_handled (ac_load_response devices host r.kinds now answer.payload)
        | ac_load3_on ↦ with_handled (ac_load_response devices host r.kinds now answer.payload)
        | ac_load3_off ↦ with_handled (ac_load_response devices host r.kinds now answer.payload)
        | RequestType.reset ↦ with_handled (done devices [])
        | RequestType.uptime ↦ with_handled (update_uptime_response devices host now number answer)
        | RequestType.reset_reason ↦ with_handled (reset_reason_response devices host number answer)
        | get_rtc ↦ with_handled (get_rtc_response devices host now answer)
        | update_rtc ↦ with_handled (update_rtc_response devices host now sent answer)
        | get_fuse ↦ with_handled (get_fuse_response devices host answer)
        | update_fuse ↦ with_handled (update_fuse_response devices host sent answer)
        | waive_root ↦ with_handled (done devices [])
        | sensors ↦ packet_response sensors answer.payload
        | route ↦ packet_response route answer.payload
        | board ↦ packet_response board answer.payload
        | config ↦ packet_response config answer.payload
        | full_config ↦ packet_response full_config answer.payload
        | get_ota ↦ with_handled (get_ota_response devices host answer)
        | update_ota ↦ with_handled (update_ota_response devices host sent answer)
        | send_job ↦ with_handled (send_job_response devices host sent answer)
        | get_job ↦ with_handled (get_job_response devices host answer)
        | delete_job ↦ with_handled (delete_job_response devices host answer)
        | get_app ↦ with_handled (get_app_response devices host answer)
        | send_app ↦ with_handled (send_app_response devices host answer)
        | run_app ↦ with_handled (exec_app_response devices host sent answer)
        | delete_app ↦ with_handled (delete_app_response devices host sent answer)
      ]
