-- ===== src/Device/Request/Process.antt =====
-- A request of a connection, and what follows when the device answers or does not:
-- `process_request` and `request_cb` of src/device/request/request.cpp.
use agro_daemon.Base.{
  ℕ, String, Bool, true, false, not, ◌&&◌, Option, none, some, List, [], ◌∷◌, ◌==◌, nat_eq,
  string_eq, if◌then◌else◌,
}
use agro_daemon.Message.Json.{Json}
use agro_daemon.Message.User.{
  Read, refused, broken, read, ◌>>=◌, checked, unchecked, require, object_at, text_at,
}
use agro_daemon.User.Account.{User, Logged}
use agro_daemon.Device.Mac.{MeshAddr, mesh_addr_of}
use agro_daemon.Device.InProgress.{Requests, add, remove}
use agro_daemon.Device.State.{Device}
use agro_daemon.Device.Lists.{DeviceList, find_text}
use agro_daemon.Device.Request.{
  RequestType, custom, number, Code, Kind, RequestMessage, Surroundings, make_coap_path,
}
use agro_daemon.Device.Request.Config.{get_requests_config}
use agro_daemon.Device.Request.Send.{no_free_slots}
use agro_daemon.Device.Request.{reset, waive_root}
use agro_daemon.Device.Request.Send.{
  SendError, Transaction, Sent, overrun, unsent, sent, is_confirmable, message_of, is_user_allowed,
  send_request,
}

-- What a connection is told about a request.
pub data Outcome : Type 0 where
  in_progress server_busy request_succeded request_failed : Outcome
  server_error : SendError → Outcome

pub data Call : Type 0 where
  -- A report for the connection, about an address and a path.
  make_report : Outcome → MeshAddr → List ℕ → ℕ → Call
  -- The handler of the answer in the table, and the end of a device in the tree.
  response : RequestType → MeshAddr → Call
  remove_node_from_tree : MeshAddr → Call

-- The requests in progress, and the ones that the engine has not finished.
pub record Daemon (Endpoint : Type 0) : Type 0 where
  pub requests : Requests
  pub transactions : List (Transaction Endpoint)

pub data Processed (Endpoint : Type 0) : Type 0 where
  fault : Processed Endpoint
  done : Daemon Endpoint → List Call → Processed Endpoint

-- What `process_request` has found in front of the list of requests in progress.
pub record Accepted (Doc Endpoint : Type 0) : Type 0 where
  pub type_ : RequestType
  pub host : List ℕ
  pub dev : Device Endpoint
  pub msg : RequestMessage Doc

-- Whether a request is put on the list of those in progress.
abbrev pub has_lock : RequestType → Kind → Bool
has_lock t mtype = not (number t == number custom) && is_confirmable mtype

-- The `switch` over the error.
abbrev pub failure : SendError → Outcome
failure no_free_slots = server_busy
failure e = server_error e

-- Whether the table has a handler of the answer: `reset` and `waive_root` have none.
abbrev pub has_response : RequestType → Bool
has_response reset = false
has_response waive_root = false
has_response t = true

-- What the callback does beside the end of the request in progress. Every type is in the table; `user`
-- is the user that the connection has by then.
unfoldable pub callback_calls :
    {Endpoint : Type 0} → (String → List ℕ) → ℕ → Bool → MeshAddr → Transaction Endpoint → List Call
callback_calls chars user true host t =
    make_report request_succeded host (make_coap_path chars t.options) user
    ∷ (if has_response t.request then response t.request host ∷ [] else [])
callback_calls chars user false host t =
    make_report request_failed host (make_coap_path chars t.options) user
    ∷ remove_node_from_tree host
    ∷ []

module _ {Endpoint : Type 0} (J : Json) (S : Surroundings) where
  -- The checks of `process_request` in their order. `garbage` is what a new address holds.
  unfoldable pub accept :
      MeshAddr
      → (ℕ → Option User)
      → DeviceList Endpoint
      → J.Value
      → Logged
      → Read (Accepted J.Value Endpoint)
  accept garbage find list doc logged = do
    data_ ← object_at J doc "data"
    request ← text_at J data_ "request"
    config ← checked (get_requests_config J S request)
    device ← text_at J data_ "device"
    found ← unchecked (find_text garbage list (S.chars device))
    dev ← checked found
    msg ← message_of J config doc
    allowed ← unchecked (is_user_allowed find msg.method logged)
    _ ← require allowed
    read (record { type_ = config.type_; host = S.chars device; dev = dev; msg = msg })

module _ {Endpoint : Type 0} (code_number : Code → ℕ) where
  -- A request that was not sent is taken off the list, if it is not a custom one.
  unfoldable pub send_failed :
      {Doc : Type 0}
      → (String → List ℕ)
      → Daemon Endpoint
      → Accepted Doc Endpoint
      → ℕ
      → SendError
      → Processed Endpoint
  send_failed chars d a user e =
      done
        (if number a.type_ == number custom then d else record d {
          requests = (remove d.requests a.dev.mac (code_number a.msg.method) (number a.type_)).1;
        })
        (make_report (failure e) a.dev.mac (make_coap_path chars a.msg.options) user ∷ [])

  -- The request, once it is on the list or needs no place there.
  unfoldable pub finish :
      {Doc : Type 0}
      → (String → List ℕ)
      → Daemon Endpoint
      → Accepted Doc Endpoint
      → ℕ
      → Sent Endpoint
      → Processed Endpoint
  finish chars d a user overrun = fault
  finish chars d a user (unsent e) = send_failed chars d a user e
  finish chars d a user (sent t) = done (record d { transactions = t ∷ d.transactions }) []

  -- `request_cb` of a transaction that is no longer one of the engine's: `answered` tells whether
  -- there is a response.
  unfoldable pub request_cb :
      (String → List ℕ)
      → MeshAddr
      → ℕ
      → Bool
      → Transaction Endpoint
      → Daemon Endpoint
      → Processed Endpoint
  request_cb chars garbage user answered t d = elim (mesh_addr_of garbage t.host) [
    | none ↦ fault
    | some (host, set) ↦
        done
          (record d {
            requests = (remove d.requests host (code_number t.method) (number t.request)).1;
          })
          (callback_calls chars user answered host t)
  ]

  module _ (J : Json) (S : Surroundings) (packet_size : ℕ) where
    -- The list of requests in progress, and then the engine.
    unfoldable pub start :
        Option SendError
        → Daemon Endpoint
        → J.Value
        → Accepted J.Value Endpoint
        → ℕ
        → Processed Endpoint
    start answer d doc a user =
        let added = add d.requests a.dev.mac (code_number a.msg.method) (number a.type_) user in
        let out = send_request J packet_size answer a.dev a.host a.type_ a.msg doc in
        if has_lock a.type_ a.msg.mtype
        then if added.0
          then finish S.chars (record d { requests = added.1 }) a user out
          else done d
              (make_report in_progress a.dev.mac (make_coap_path S.chars a.msg.options) user ∷ [])
        else finish S.chars d a user out

    unfoldable pub process_request :
        MeshAddr
        → (ℕ → Option User)
        → DeviceList Endpoint
        → Option SendError
        → Daemon Endpoint
        → J.Value
        → Logged
        → Processed Endpoint
    process_request garbage find list answer d doc logged =
        elim (accept J S garbage find list doc logged) [
          | refused ↦ done d []
          | broken ↦ fault
          | read a ↦ start answer d doc a logged.id
        ]
