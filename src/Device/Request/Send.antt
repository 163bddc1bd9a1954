-- ===== src/Device/Request/Send.antt =====
-- Custom requests, the right that a request needs, and the hand-over of a request to the CoAP engine:
-- the functions of src/device/request/request.cpp that `process_request` calls.
use agro_daemon.Base.{
  ℕ, String, Bool, true, false, Option, none, some, List, [], ◌∷◌, ◌++◌, ◌==◌, nat_eq, string_eq,
  if◌then◌else◌, ◌%◌, ◌^◌,
}
use agro_daemon.Message.Json.{Json}
use agro_daemon.Message.User.{Read, refused, read, ◌>>=◌, unchecked, object_at, text_at, items_at}
use agro_daemon.User.Rule
use agro_daemon.User.Account.{User, Logged, can}
use agro_daemon.Device.State.{Device}
use agro_daemon.Device.Request.{
  RequestType, custom, number, Code, get, post, put, cdelete, bad_request, Kind, confirmable,
  nonconfirmable, CoapOption, uri_path, uri_query, Filled, failed, bounded, bad_access, filled,
  RequestMessage,
}
use agro_daemon.Device.Request.Config.{RequestConfig}

unfoldable pub string_to_method : String → Code
unfolding string_eq
string_to_method s =
    if s == "get"
    then get
    else if s == "post"
    then post
    else if s == "put"
    then put
    else if s == "del"
    then cdelete
    else bad_request

-- The right that a method needs.
unfoldable pub rule_of : Code → Option ℕ
rule_of get = some Rule.get_resource
rule_of put = some Rule.put_resource
rule_of post = some Rule.post_resource
rule_of cdelete = some Rule.delete_resource
rule_of bad_request = none

-- `none` is undefined behaviour: the pointer to the user leads nowhere.
unfoldable pub is_user_allowed : (ℕ → Option User) → Code → Logged → Option Bool
is_user_allowed find code logged = elim (rule_of code) [
  | none ↦ some false
  | some rule ↦ can find logged rule
]

-- The error of a request that is not sent: of its payload, of the engine, or another one of it.
pub data SendError : Type 0 where
  invalid_data no_free_slots : SendError
  other_error : ℕ → SendError

-- A request that the engine sends, with what is bound to its callback.
pub record Transaction (Endpoint : Type 0) : Type 0 where
  pub ep : Endpoint
  -- The option `uri_host`.
  pub host : List ℕ
  pub method : Code
  pub mtype : Kind
  pub options : List CoapOption
  pub payload : List ℕ
  pub request : RequestType

pub data Sent (Endpoint : Type 0) : Type 0 where
  overrun : Sent Endpoint
  unsent : SendError → Sent Endpoint
  sent : Transaction Endpoint → Sent Endpoint

-- `req->mtype != nonconfirmable`
abbrev pub is_confirmable : Kind → Bool
is_confirmable confirmable = true
is_confirmable nonconfirmable = false

-- The method of a custom request.
abbrev pub checked_method : Code → Read Code
checked_method get = read get
checked_method post = read post
checked_method put = read put
checked_method cdelete = read cdelete
checked_method bad_request = refused

module _ (J : Json) where
  -- An option for each text of an array, with no test of the type.
  unfoldable pub text_options : (String → CoapOption) → List J.Value → Read (List CoapOption)
  text_options option [] = read []
  text_options option (v ∷ vs) =
      let rest = text_options option vs in
      unchecked (J.text v) >>= λ s. rest >>= λ options. read (option s ∷ options)

  abbrev pub options_at : (String → CoapOption) → J.Value → String → Read (List CoapOption)
  options_at option v name = elim (items_at J v name) [
    | none ↦ read []
    | some vs ↦ text_options option vs
  ]

  -- `static_cast<uint8_t>(v.GetUint())`, with no test of the type.
  unfoldable pub payload_bytes : List J.Value → Filled
  payload_bytes [] = filled []
  payload_bytes (v ∷ vs) = elim (J.unsigned v) [
    | none ↦ bad_access
    | some n ↦ elim (payload_bytes vs) [
      | failed e ↦ failed e
      | bad_access ↦ bad_access
      | filled bytes ↦ filled (n % 2 ^ 8 ∷ bytes)
    ]
  ]

  -- The message of a custom request, from the object `data`.
  unfoldable pub custom_message : J.Value → Read (RequestMessage J.Value)
  custom_message data_ = do
    method ← text_at J data_ "method"
    code ← checked_method (string_to_method method)
    resource ← options_at uri_path data_ "resource"
    query ← options_at uri_query data_ "query"
    read (record {
      method = code;
      options = resource ++ query;
      mtype = confirmable;
      payload = elim (items_at J data_ "payload") [
        | none ↦ none
        | some vs ↦ some (λ size doc. bounded size (payload_bytes vs))
      ];
    })

  unfoldable pub process_custom_request : J.Value → Read (RequestMessage J.Value)
  process_custom_request doc = object_at J doc "data" >>= custom_message

  -- The message of an entry of the table, or of the document.
  unfoldable pub message_of : RequestConfig J.Value → J.Value → Read (RequestMessage J.Value)
  message_of config doc =
      if number config.type_ == number custom
      then process_custom_request doc
      else unchecked config.message

  module _ {Endpoint : Type 0} where
    abbrev pub transaction :
        Device Endpoint
        → List ℕ
        → RequestType
        → RequestMessage J.Value
        → List ℕ
        → Transaction Endpoint
    transaction dev host t msg bytes = record {
      ep = dev.ep;
      host = host;
      method = msg.method;
      mtype = msg.mtype;
      options = msg.options;
      payload = bytes;
      request = t;
    }

    -- `engine.send(req, ec)`: `answer` is the error that it reports, if it does.
    abbrev pub engine_send : Option SendError → Transaction Endpoint → Sent Endpoint
    engine_send none t = sent t
    engine_send (some e) t = unsent e

    -- The payload goes to a buffer of `packet_size` bytes.
    unfoldable pub send_request :
        ℕ
        → Option SendError
        → Device Endpoint
        → List ℕ
        → RequestType
        → RequestMessage J.Value
        → J.Value
        → Sent Endpoint
    send_request packet_size answer dev host t msg doc = elim msg.payload [
      | none ↦ engine_send answer (transaction dev host t msg [])
      | some payload ↦ elim (payload packet_size doc) [
        | failed e ↦ unsent invalid_data
        | bad_access ↦ overrun
        | filled bytes ↦ engine_send answer (transaction dev host t msg bytes)
      ]
    ]
