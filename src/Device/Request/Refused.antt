-- ===== src/Device/Request/Refused.antt =====
-- Answers with the code of an error.
use agro_daemon.Base.{
  ℕ, ◌≡◌, refl, Bool, true, false, List, [], nat_eq, arith, Option-cases, inl, inr,
}
use agro_daemon.Base.Dict
use agro_daemon.Device.Mac.{MeshAddr}
use agro_daemon.Device.InProgress.{addr_eq}
use agro_daemon.Device.State.{Device}
use agro_daemon.Device.Lists.{DeviceList}
use agro_daemon.Device.Request.{
  RequestType, custom, ac_load1_on, ac_load1_off, ac_load2_on, ac_load2_off, ac_load3_on,
  ac_load3_off, get_rtc, update_rtc, get_fuse, update_fuse, waive_root, sensors, route, board,
  config, full_config, get_ota, update_ota, send_job, get_job, delete_job, get_app, send_app,
  run_app, delete_app,
}
use agro_daemon.Device.Request.Response.{
  Answer, Notice, Handled, done, at_host, get_rtc_response, update_rtc_response, get_fuse_response,
  update_fuse_response, send_job_response, get_job_response, get_app_response, send_app_response,
  exec_app_response, delete_app_response,
}
use agro_daemon.Device.Request.Respond.{
  get_ota_response, update_ota_response, reset_reason_response, responded, with_handled, respond,
}
use agro_daemon.Instance.Devices.{Known, devices_of}
use agro_daemon.Device.Resource.Process.{Reading}

-- The requests whose answer changes the device also when its code is that of an error, and those
-- with the handler `packet_response`.
unfoldable pub unguarded : RequestType → Bool
unguarded t = elim t [
  | ac_load1_on ↦ true
  | ac_load1_off ↦ true
  | ac_load2_on ↦ true
  | ac_load2_off ↦ true
  | ac_load3_on ↦ true
  | ac_load3_off ↦ true
  | RequestType.uptime ↦ true
  | delete_job ↦ true
  | sensors ↦ true
  | route ↦ true
  | board ↦ true
  | config ↦ true
  | full_config ↦ true
  | _ ↦ false
]

module _ {Endpoint : Type 0} (devices : DeviceList Endpoint) (host : MeshAddr) where
  -- An error leaves the devices, at the cost of a notice at most.
  IsQuiet : Handled Endpoint → Type 0
  IsQuiet h = (notices : List (Notice Endpoint)) × (h ≡ done devices notices)

  at_host-IsQuiet :
      (missing : Handled Endpoint) (f : Device Endpoint → Handled Endpoint)
      → IsQuiet missing
      → ((dev : Device Endpoint) → IsQuiet (f dev))
      → IsQuiet (at_host devices host missing f)
  unfolding IsQuiet
  at_host-IsQuiet missing f m h = elim (Option-cases (Dict.lookup host devices)) [
    | inl none_ ↦ rw (none_, at_host) m
    | inr (dev, some_) ↦ rw (some_, at_host) (h dev)
  ]

module _ {Endpoint : Type 0} (r : Reading Endpoint) (k : Known Endpoint) (host : MeshAddr) where
  quiet :
      (h : Handled Endpoint)
      → IsQuiet (devices_of k) host h
      → (notices : List (Notice Endpoint)) × (with_handled r k host h ≡ responded k notices [])
  unfolding IsQuiet
  quiet h (notices, e) = (notices, rw e refl)

  -- An answer with the code of an error other than `not_found` is handled without undefined behaviour
  -- and changes nothing of what the daemon knows, unless it answers `uptime`, `del_job`, one of the six requests about loads
  -- or one whose handler is `packet_response`.
  pub respond-error :
      (number : List ℕ → ℕ) (now : ℕ) (t : RequestType) (sent : List ℕ) (answer : Answer)
      → unguarded t ≡ false
      → answer.is_error ≡ true
      → answer.is_not_found ≡ false
      → (notices : List (Notice Endpoint)) × (respond r k host number now t sent answer
          ≡ responded k notices [])
  unfolding respond unguarded IsQuiet get_rtc_response update_rtc_response get_fuse_response
      update_fuse_response send_job_response get_job_response get_app_response send_app_response
      exec_app_response delete_app_response get_ota_response update_ota_response
      reset_reason_response
  respond-error number now custom sent answer g err other = (_, refl)
  respond-error number now RequestType.reset sent answer g err other = (_, refl)
  respond-error number now waive_root sent answer g err other = (_, refl)
  respond-error number now get_rtc sent answer g err other = rw err (_, refl)
  respond-error number now update_rtc sent answer g err other = rw err (_, refl)
  respond-error number now get_fuse sent answer g err other = rw err (_, refl)
  respond-error number now update_fuse sent answer g err other = rw err (_, refl)
  respond-error number now send_job sent answer g err other = rw err (_, refl)
  respond-error number now get_job sent answer g err other = rw err (_, refl)
  respond-error number now send_app sent answer g err other = rw err (_, refl)
  respond-error number now run_app sent answer g err other = rw err (_, refl)
  respond-error number now update_ota sent answer g err other = rw err (_, refl)
  respond-error number now get_ota sent answer g err other =
      quiet _ (at_host-IsQuiet (devices_of k) host _ _ (_, refl) (λ dev. (_, refl)))
  respond-error number now RequestType.reset_reason sent answer g err other =
      quiet _ (at_host-IsQuiet (devices_of k) host _ _ (_, refl) (λ dev. (_, refl)))
  respond-error number now get_app sent answer g err other =
      quiet _ (at_host-IsQuiet (devices_of k) host _ _ (_, refl) (λ dev. rw (err, other) (_, refl)))
  respond-error number now delete_app sent answer g err other =
      quiet _ (at_host-IsQuiet (devices_of k) host _ _ (_, refl) (λ dev. rw err (_, refl)))
  respond-error number now t sent answer g err other = absurd (ground arith)
