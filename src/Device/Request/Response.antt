-- ===== src/Device/Request/Response.antt =====
-- What the daemon does with the answer of a device: the handlers of src/device/request/time.cpp,
-- job.cpp and app.cpp. What is written to the log is left out.
use agro_daemon.Base.{
  ℕ, ◌+◌, ◌*◌, ◌^◌, Bool, not, ◌&&◌, String, Option, none, some, List, [], ◌∷◌, nat_eq,
  if◌then◌else◌,
}
use agro_daemon.Base.Dict
use agro_daemon.Device.Mac.{MeshAddr}
use agro_daemon.Device.InProgress.{addr_eq}
use agro_daemon.Device.Packets.{skip}
use agro_daemon.Device.State as Device
use agro_daemon.Device.State.{Device, set_jobs, set_fuse}
use agro_daemon.Device.AppList.{read_packet_app_list}
use agro_daemon.Device.Lists.{DeviceList}
use agro_daemon.Instance.Readings.{Event, SensorType}

-- An answer: what its code says, and its payload.
pub record Answer : Type 0 where
  pub is_error : Bool
  pub is_not_found : Bool
  pub payload : List ℕ

pub data Severity : Type 0 where
  success info error : Severity

-- A text of the source, or bytes of a message.
pub data Text : Type 0 where
  words : String → Text
  bytes : List ℕ → Text

-- The report of a run of an app has the name of the app, its argument and its result.
pub data Notice (Endpoint : Type 0) : Type 0 where
  report : Severity → MeshAddr → Text → Text → Notice Endpoint
  executed : MeshAddr → List ℕ → ℕ → ℕ → Notice Endpoint
  -- To all that have the right `view_device`.
  rtc_time fuse jobs apps uptime : Device Endpoint → Notice Endpoint
  ota : Device Endpoint → List ℕ → Notice Endpoint
  reset_reason : Device Endpoint → ℕ → Notice Endpoint
  sensor_data : Device Endpoint → SensorType → Notice Endpoint
  -- The calls of `update_sensor_value`, and the message that an answer to a custom request makes.
  reading : Event → Notice Endpoint
  custom_answer : List ℕ → Answer → Notice Endpoint

pub data Handled (Endpoint : Type 0) : Type 0 where
  fault : Handled Endpoint
  done : DeviceList Endpoint → List (Notice Endpoint) → Handled Endpoint

-- The number in the first four bytes; `none` is a read past the end.
abbrev pub int32_at : List ℕ → Option ℕ
int32_at (b₀ ∷ b₁ ∷ b₂ ∷ b₃ ∷ rest) = some (b₀ + 2 ^ 8 * b₁ + 2 ^ 16 * b₂ + 2 ^ 24 * b₃)
int32_at _ = none

module _ {Endpoint : Type 0} (devices : DeviceList Endpoint) (host : MeshAddr) where
  -- The device of the host is changed, and a notice tells of it.
  abbrev pub changed :
      Option (Device Endpoint) → (Device Endpoint → Notice Endpoint) → Handled Endpoint
  changed none notice = fault
  changed (some dev) notice = done (Dict.adjust host (λ old. dev) devices) (notice dev ∷ [])

  -- The device of the host, and what follows when there is none.
  abbrev pub at_host : Handled Endpoint → (Device Endpoint → Handled Endpoint) → Handled Endpoint
  at_host missing f = elim (Dict.lookup host devices) [ none ↦ missing | some dev ↦ f dev ]

  abbrev pub say : Notice Endpoint → Handled Endpoint
  say notice = done devices (notice ∷ [])

  abbrev pub failed : Text → Text → Handled Endpoint
  failed message path = say (report error host message path)

  -- `now` is what the clock gives. A device that is not listed is followed as a null pointer.
  unfoldable pub process_rtc_time : ℕ → List ℕ → Handled Endpoint
  process_rtc_time now payload = at_host fault (λ dev. elim (int32_at payload) [
    | none ↦ fault
    | some time ↦ changed (some (Device.update_rtc_time now dev time)) rtc_time
  ])

  unfoldable pub get_rtc_response : ℕ → Answer → Handled Endpoint
  get_rtc_response now answer =
      if answer.is_error
      then failed (words "Get RTC error") (bytes answer.payload)
      else process_rtc_time now answer.payload

  -- The time that was sent counts as that of the device.
  unfoldable pub update_rtc_response : ℕ → List ℕ → Answer → Handled Endpoint
  update_rtc_response now sent answer =
      if answer.is_error
      then failed (words "Update RTC error") (bytes answer.payload)
      else process_rtc_time now sent

  unfoldable pub process_fuse : List ℕ → Handled Endpoint
  process_fuse payload = at_host fault (λ dev. elim (int32_at payload) [
    | none ↦ fault
    | some time ↦ changed (some (set_fuse dev time)) fuse
  ])

  unfoldable pub get_fuse_response : Answer → Handled Endpoint
  get_fuse_response answer =
      if answer.is_error
      then failed (words "Get fuse error") (bytes answer.payload)
      else process_fuse answer.payload

  unfoldable pub update_fuse_response : List ℕ → Answer → Handled Endpoint
  update_fuse_response sent answer =
      if answer.is_error
      then failed (words "Update fuse error") (bytes answer.payload)
      else process_fuse sent

  unfoldable pub process_jobs : List ℕ → Handled Endpoint
  process_jobs payload = at_host (done devices []) (λ dev. changed (set_jobs dev payload) jobs)

  unfoldable pub send_job_response : List ℕ → Answer → Handled Endpoint
  send_job_response sent answer =
      if answer.is_error then failed (bytes answer.payload) (words "PUT job") else process_jobs sent

  unfoldable pub get_job_response : Answer → Handled Endpoint
  get_job_response answer =
      if answer.is_error
      then failed (bytes answer.payload) (words "GET job")
      else process_jobs answer.payload

  -- The code of the answer is not looked at.
  unfoldable pub delete_job_response : Answer → Handled Endpoint
  delete_job_response answer = process_jobs []

  unfoldable pub get_app_response : Answer → Handled Endpoint
  get_app_response answer = at_host (done devices []) (λ dev.
      if answer.is_error && not answer.is_not_found
      then failed (bytes answer.payload) (words "GET App")
      else changed (read_packet_app_list dev (if answer.is_not_found then [] else answer.payload))
          apps)

  unfoldable pub send_app_response : Answer → Handled Endpoint
  send_app_response answer =
      if answer.is_error then failed (bytes answer.payload) (words "GET App") else done devices []

  unfoldable pub exec_app_response : List ℕ → Answer → Handled Endpoint
  exec_app_response sent answer =
      if answer.is_error
      then failed (bytes answer.payload) (words "Exec App")
      else elim (int32_at sent) [
        | none ↦ fault
        | some arg ↦ elim (int32_at answer.payload) [
          | none ↦ fault
          | some ret ↦ say (executed host (skip 4 sent) arg ret)
        ]
      ]

  unfoldable pub delete_app_response : List ℕ → Answer → Handled Endpoint
  delete_app_response sent answer = at_host (done devices []) (λ dev.
      if answer.is_error
      then failed (bytes answer.payload) (words "Delete App")
      else changed (some (Device.delete_app dev sent)) apps)
