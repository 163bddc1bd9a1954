-- ===== src/Device/Request/Config.antt =====
-- The messages of the requests and the table that finds them by name or type: the constants of
-- src/device/request and src/device/request/types.hpp.
use agro_daemon.Base.{
  ℕ, String, Option, none, some, List, [], ◌∷◌, ◌==◌, nat_eq, string_eq, if◌then◌else◌,
}
use agro_daemon.Message.Json.{Json}
use agro_daemon.Device.Request.{
  RequestType, custom, ac_load1_on, ac_load1_off, ac_load2_on, ac_load2_off, ac_load3_on,
  ac_load3_off, reset, uptime, reset_reason, get_rtc, update_rtc, get_fuse, update_fuse, waive_root,
  sensors, route, board, config, full_config, get_ota, update_ota, send_job, get_job, delete_job,
  get_app, send_app, run_app, delete_app, number, Code, get, post, put, cdelete, confirmable,
  nonconfirmable, CoapOption, uri_path, uri_query, content_octet_stream, accept_octet_stream,
  Filled, RequestMessage, Surroundings,
}
use agro_daemon.Device.Request.Payload.{
  send_job_payload, rtc_update_payload, update_fuse_payload, update_ota_payload, send_app_payload,
  exec_app_payload, delete_app_payload,
}

-- `request_config`, without the handler of the answer.
pub record RequestConfig (Doc : Type 0) : Type 0 where
  pub type_ : RequestType
  pub name : String
  pub message : Option (RequestMessage Doc)

-- `get_config` by the name and by the type of an entry.
unfoldable pub named :
    {Doc : Type 0} → String → List (RequestConfig Doc) → Option (RequestConfig Doc)
named name [] = none
named name (c ∷ rest) = if name == c.name then some c else named name rest

unfoldable pub typed :
    {Doc : Type 0} → RequestType → List (RequestConfig Doc) → Option (RequestConfig Doc)
typed t [] = none
typed t (c ∷ rest) = if number t == number c.type_ then some c else typed t rest

module _ {Doc : Type 0} where
  abbrev pub without_payload : Code → List CoapOption → RequestMessage Doc
  without_payload method options = record {
    method = method;
    options = options;
    mtype = confirmable;
    payload = none;
  }

  abbrev pub with_payload : Code → List CoapOption → (ℕ → Doc → Filled) → RequestMessage Doc
  with_payload method options f = record {
    method = method;
    options = options;
    mtype = confirmable;
    payload = some f;
  }

  -- `AC_LOAD`
  abbrev pub req_ac : String → String → RequestMessage Doc
  req_ac num value = without_payload put (uri_path "ac_load" ∷ uri_path num ∷ uri_query value ∷ [])

  -- `REQUIRE_PACKET`
  abbrev pub req_packet : String → String → RequestMessage Doc
  req_packet sub name = without_payload get (uri_path sub ∷ uri_path name ∷ [])

  abbrev pub req_uptime : RequestMessage Doc
  req_uptime = without_payload get (uri_path "uptime" ∷ [])

  abbrev pub req_reset : RequestMessage Doc
  req_reset = record {
    method = post;
    options = uri_path "reboot" ∷ [];
    mtype = nonconfirmable;
    payload = none;
  }

  abbrev pub req_reset_reason : RequestMessage Doc
  req_reset_reason = without_payload get (uri_path "reset_reason" ∷ [])

  abbrev pub req_waive_root : RequestMessage Doc
  req_waive_root = without_payload put (uri_path "net" ∷ uri_path "waive" ∷ [])

  abbrev pub req_get_job : RequestMessage Doc
  req_get_job = without_payload get (uri_path "job" ∷ [])

  abbrev pub req_del_job : RequestMessage Doc
  req_del_job = without_payload cdelete (uri_path "job" ∷ [])

  abbrev pub req_get_rtc : RequestMessage Doc
  req_get_rtc = without_payload get (accept_octet_stream ∷ uri_path "rtc" ∷ [])

  abbrev pub req_get_fuse : RequestMessage Doc
  req_get_fuse = without_payload get (uri_path "fuse" ∷ accept_octet_stream ∷ [])

  abbrev pub req_get_ota : RequestMessage Doc
  req_get_ota = without_payload get (uri_path "ota" ∷ [])

  abbrev pub req_get_app : RequestMessage Doc
  req_get_app = without_payload get (uri_path "app" ∷ [])

module _ (J : Json) (S : Surroundings) where
  abbrev pub req_send_job : RequestMessage J.Value
  req_send_job = with_payload put (uri_path "job" ∷ []) (send_job_payload J S)

  abbrev pub req_update_rtc : RequestMessage J.Value
  req_update_rtc =
      with_payload put (content_octet_stream ∷ uri_path "rtc" ∷ []) (rtc_update_payload J S)

  abbrev pub req_update_fuse : RequestMessage J.Value
  req_update_fuse =
      with_payload put (uri_path "fuse" ∷ content_octet_stream ∷ []) (update_fuse_payload J S)

  abbrev pub req_update_ota : RequestMessage J.Value
  req_update_ota = with_payload post (uri_path "ota" ∷ []) (update_ota_payload J S)

  abbrev pub req_send_app : RequestMessage J.Value
  req_send_app = with_payload post (uri_path "app" ∷ []) (send_app_payload J S)

  abbrev pub req_execute_app : RequestMessage J.Value
  req_execute_app = with_payload put (uri_path "app" ∷ []) (exec_app_payload J S)

  abbrev pub req_delete_app : RequestMessage J.Value
  req_delete_app = with_payload cdelete (uri_path "app" ∷ []) (delete_app_payload J S)

  abbrev pub entry : RequestType → String → RequestMessage J.Value → RequestConfig J.Value
  entry t name message = record { type_ = t; name = name; message = some message }

  abbrev pub rconfig : List (RequestConfig J.Value)
  rconfig =
      record { type_ = custom; name = "custom"; message = none }
      ∷ entry uptime "uptime" req_uptime
      ∷ entry reset "reset" req_reset
      ∷ entry reset_reason "reset_reason" req_reset_reason
      ∷ entry waive_root "waive_root" req_waive_root
      ∷ entry ac_load1_on "ac1_on" (req_ac "1" "value=1")
      ∷ entry ac_load1_off "ac1_off" (req_ac "1" "value=0")
      ∷ entry ac_load2_on "ac2_on" (req_ac "2" "value=1")
      ∷ entry ac_load2_off "ac2_off" (req_ac "2" "value=0")
      ∷ entry ac_load3_on "ac3_on" (req_ac "3" "value=1")
      ∷ entry ac_load3_off "ac3_off" (req_ac "3" "value=0")
      ∷ entry sensors "sensors" (req_packet "packet" "sensors")
      ∷ entry board "board" (req_packet "packet" "board")
      ∷ entry config "config" (req_packet "net" "config")
      ∷ entry route "route" (req_packet "net" "route")
      ∷ entry full_config "full_config" (req_packet "net" "full_config")
      ∷ entry send_job "send_job" req_send_job
      ∷ entry get_job "get_job" req_get_job
      ∷ entry delete_job "del_job" req_del_job
      ∷ entry get_rtc "get_rtc" req_get_rtc
      ∷ entry update_rtc "update_rtc" req_update_rtc
      ∷ entry get_fuse "get_fuse" req_get_fuse
      ∷ entry update_fuse "update_fuse" req_update_fuse
      ∷ entry get_ota "get_ota_version" req_get_ota
      ∷ entry update_ota "update_ota" req_update_ota
      ∷ entry get_app "get_app" req_get_app
      ∷ entry send_app "send_app" req_send_app
      ∷ entry run_app "execute_app" req_execute_app
      ∷ entry delete_app "delete_app" req_delete_app
      ∷ []

  unfoldable pub get_requests_config : String → Option (RequestConfig J.Value)
  get_requests_config name = named name rconfig

  unfoldable pub get_config : RequestType → Option (RequestConfig J.Value)
  get_config t = typed t rconfig
