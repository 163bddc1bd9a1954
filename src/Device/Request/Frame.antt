-- ===== src/Device/Request/Frame.antt =====
-- The answer of a device changes that device alone, but for a route or a full configuration.
use agro_daemon.Base.{ℕ, ◌≡◌, refl, some, List, [], nat_eq, ◌≢◌, not, ◌&&◌}
use agro_daemon.Device.Mac.{MeshAddr}
use agro_daemon.Device.InProgress.{addr_eq}
use agro_daemon.Device.State
use agro_daemon.Device.State.{Device, update_rtc_time, set_fuse}
use agro_daemon.Device.Lists.{find_device}
use agro_daemon.Device.Request.{
  RequestType, custom, ac_load1_on, ac_load1_off, ac_load2_on, ac_load2_off, ac_load3_on,
  ac_load3_off, get_rtc, update_rtc, get_fuse, update_fuse, waive_root, sensors, route, board,
  config, full_config, get_ota, update_ota, send_job, get_job, delete_job, get_app, send_app,
  run_app, delete_app,
}
use agro_daemon.Device.Request.Response.{
  Answer, Notice, int32_at, get_rtc_response, update_rtc_response, get_fuse_response,
  update_fuse_response, send_job_response, get_job_response, delete_job_response, get_app_response,
  send_app_response, exec_app_response, delete_app_response,
}
use agro_daemon.Device.Request.Respond.{
  get_ota_response, update_ota_response, update_uptime_response, reset_reason_response, responded,
  packet_response, respond,
}
use agro_daemon.Instance.Devices.{Known, Event, devices_of}
use agro_daemon.Device.Resource.Process.{Reading}
use agro_daemon.Device.Request.Kept.{
  done-Kept, at_host-Kept, changed-Kept, option-Kept, process_rtc_time-Kept, process_fuse-Kept,
  process_jobs-Kept, refusing-Kept, ac_load_response-Kept,
}
use agro_daemon.Device.Request.AllKept.{
  AllKept, handled, of_device-AllKept, process_board-AllKept, process_sensors_data-AllKept,
  process_config-AllKept,
}

module _ {Endpoint : Type 0} (r : Reading Endpoint) (k : Known Endpoint) (host : MeshAddr) where
  -- The answer of a device to any request but those for the route and for the full configuration, which
  -- tell of other devices, leaves the device of every other address as it is.
  pub respond-elsewhere :
      (number : List ℕ → ℕ) (now : ℕ) (t : RequestType) (sent : List ℕ) (answer : Answer)
      (a : MeshAddr)
      → host ≢ a
      → t ≢ route
      → t ≢ full_config
      → (k' : Known Endpoint) (notices : List (Notice Endpoint)) (events : List (Event Endpoint))
      → respond r k host number now t sent answer ≡ responded k' notices events
      → find_device (devices_of k') a ≡ find_device (devices_of k) a
  unfolding respond packet_response AllKept get_rtc_response update_rtc_response get_fuse_response
      update_fuse_response send_job_response get_job_response delete_job_response get_app_response
      send_app_response exec_app_response delete_app_response get_ota_response update_ota_response
      update_uptime_response reset_reason_response
  respond-elsewhere number now custom sent answer a other no_route no_full =
      handled r k host a other _ (done-Kept (devices_of k) host a other _)
  respond-elsewhere number now RequestType.reset sent answer a other no_route no_full =
      handled r k host a other _ (done-Kept (devices_of k) host a other _)
  respond-elsewhere number now waive_root sent answer a other no_route no_full =
      handled r k host a other _ (done-Kept (devices_of k) host a other _)
  respond-elsewhere number now RequestType.uptime sent answer a other no_route no_full =
      handled r k host a other _ (
        at_host-Kept (devices_of k) host a other _ _ (done-Kept (devices_of k) host a other _)
          (λ dev. changed-Kept (devices_of k) host a other (some _) Notice.uptime))
  respond-elsewhere number now RequestType.reset_reason sent answer a other no_route no_full =
      handled r k host a other _ (
        at_host-Kept (devices_of k) host a other _ _ (done-Kept (devices_of k) host a other _)
          (λ dev. done-Kept (devices_of k) host a other _))
  respond-elsewhere number now get_ota sent answer a other no_route no_full =
      handled r k host a other _ (
        at_host-Kept (devices_of k) host a other _ _ (done-Kept (devices_of k) host a other _)
          (λ dev. done-Kept (devices_of k) host a other _))
  respond-elsewhere number now get_rtc sent answer a other no_route no_full =
      handled r k host a other _ (
        refusing-Kept (devices_of k) host a other answer.is_error _ _
          (process_rtc_time-Kept (devices_of k) host a other now answer.payload))
  respond-elsewhere number now update_rtc sent answer a other no_route no_full =
      handled r k host a other _ (
        refusing-Kept (devices_of k) host a other answer.is_error _ _
          (process_rtc_time-Kept (devices_of k) host a other now sent))
  respond-elsewhere number now get_fuse sent answer a other no_route no_full =
      handled r k host a other _ (
        refusing-Kept (devices_of k) host a other answer.is_error _ _
          (process_fuse-Kept (devices_of k) host a other answer.payload))
  respond-elsewhere number now update_fuse sent answer a other no_route no_full =
      handled r k host a other _ (
        refusing-Kept (devices_of k) host a other answer.is_error _ _
          (process_fuse-Kept (devices_of k) host a other sent))
  respond-elsewhere number now update_ota sent answer a other no_route no_full =
      handled r k host a other _ (
        refusing-Kept (devices_of k) host a other answer.is_error _ _
          (done-Kept (devices_of k) host a other _))
  respond-elsewhere number now send_job sent answer a other no_route no_full =
      handled r k host a other _ (
        refusing-Kept (devices_of k) host a other answer.is_error _ _
          (process_jobs-Kept (devices_of k) host a other sent))
  respond-elsewhere number now get_job sent answer a other no_route no_full =
      handled r k host a other _ (
        refusing-Kept (devices_of k) host a other answer.is_error _ _
          (process_jobs-Kept (devices_of k) host a other answer.payload))
  respond-elsewhere number now delete_job sent answer a other no_route no_full =
      handled r k host a other _ (process_jobs-Kept (devices_of k) host a other [])
  respond-elsewhere number now get_app sent answer a other no_route no_full =
      handled r k host a other _ (
        at_host-Kept (devices_of k) host a other _ _ (done-Kept (devices_of k) host a other _)
          (λ dev.
            refusing-Kept (devices_of k) host a other (answer.is_error && not answer.is_not_found) _
              _ (changed-Kept (devices_of k) host a other _ _)))
  respond-elsewhere number now send_app sent answer a other no_route no_full =
      handled r k host a other _ (
        refusing-Kept (devices_of k) host a other answer.is_error _ _
          (done-Kept (devices_of k) host a other _))
  respond-elsewhere number now run_app sent answer a other no_route no_full =
      handled r k host a other _ (
        refusing-Kept (devices_of k) host a other answer.is_error _ _ (
          option-Kept (devices_of k) host a other (int32_at sent) _ (λ arg.
            option-Kept (devices_of k) host a other (int32_at answer.payload) _
              (λ ret. done-Kept (devices_of k) host a other _))))
  respond-elsewhere number now delete_app sent answer a other no_route no_full =
      handled r k host a other _ (
        at_host-Kept (devices_of k) host a other _ _ (done-Kept (devices_of k) host a other _)
          (λ dev. refusing-Kept (devices_of k) host a other answer.is_error _ _ (
            changed-Kept (devices_of k) host a other (some (State.delete_app dev sent))
              Notice.apps)))
  respond-elsewhere number now ac_load1_on sent answer a other no_route no_full =
      handled r k host a other _
        (ac_load_response-Kept (devices_of k) host a other r.kinds now answer.payload)
  respond-elsewhere number now ac_load1_off sent answer a other no_route no_full =
      handled r k host a other _
        (ac_load_response-Kept (devices_of k) host a other r.kinds now answer.payload)
  respond-elsewhere number now ac_load2_on sent answer a other no_route no_full =
      handled r k host a other _
        (ac_load_response-Kept (devices_of k) host a other r.kinds now answer.payload)
  respond-elsewhere number now ac_load2_off sent answer a other no_route no_full =
      handled r k host a other _
        (ac_load_response-Kept (devices_of k) host a other r.kinds now answer.payload)
  respond-elsewhere number now ac_load3_on sent answer a other no_route no_full =
      handled r k host a other _
        (ac_load_response-Kept (devices_of k) host a other r.kinds now answer.payload)
  respond-elsewhere number now ac_load3_off sent answer a other no_route no_full =
      handled r k host a other _
        (ac_load_response-Kept (devices_of k) host a other r.kinds now answer.payload)
  respond-elsewhere number now sensors sent answer a other no_route no_full =
      of_device-AllKept r k host a other _
        (process_sensors_data-AllKept r k host a other answer.payload)
  respond-elsewhere number now route sent answer a other no_route no_full = absurd (no_route refl)
  respond-elsewhere number now board sent answer a other no_route no_full =
      of_device-AllKept r k host a other _ (process_board-AllKept r k host a other answer.payload)
  respond-elsewhere number now config sent answer a other no_route no_full =
      of_device-AllKept r k host a other _ (process_config-AllKept r k host a other answer.payload)
  respond-elsewhere number now full_config sent answer a other no_route no_full =
      absurd (no_full refl)
