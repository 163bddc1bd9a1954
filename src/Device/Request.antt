-- ===== src/Device/Request.antt =====
-- The requests that are sent to devices: src/device/request, and `make_coap_path` of
-- src/helper/coap_helper.cpp. The CoAP library is not part of the repository: a method and an option
-- are named here the way the source names them.
pub mod Payload
pub mod Config
pub mod Send
pub mod Process
pub mod Hosts
pub mod Locks
pub mod Taken
pub mod Start
pub mod Runs
pub mod Jobs
pub mod JobList
pub mod Response
pub mod Respond
pub mod Kept
pub mod AllKept
pub mod Frame
pub mod Refused
use agro_daemon.Base.{
  ℕ, String, Bool, true, false, Option, List, [], ◌∷◌, ◌++◌, if◌then◌else◌, length, ltb,
}

-- `enum class request_type`, with the number of each enumerator.
pub data RequestType : Type 0 where
  custom ac_load1_on ac_load1_off ac_load2_on ac_load2_off : RequestType
  ac_load3_on ac_load3_off reset uptime reset_reason : RequestType
  get_rtc update_rtc get_fuse update_fuse waive_root : RequestType
  sensors route board config full_config get_ota update_ota : RequestType
  send_job get_job delete_job get_app send_app run_app delete_app : RequestType

abbrev pub number : RequestType → ℕ
number custom = 0
number ac_load1_on = 1
number ac_load1_off = 2
number ac_load2_on = 3
number ac_load2_off = 4
number ac_load3_on = 5
number ac_load3_off = 6
number reset = 7
number uptime = 8
number reset_reason = 9
number get_rtc = 10
number update_rtc = 11
number get_fuse = 12
number update_fuse = 13
number waive_root = 14
number sensors = 15
number route = 16
number board = 17
number config = 18
number full_config = 19
number get_ota = 20
number update_ota = 21
number send_job = 22
number get_job = 23
number delete_job = 24
number get_app = 25
number send_app = 26
number run_app = 27
number delete_app = 28

-- `CoAP::Message::code` as far as requests use it.
pub data Code : Type 0 where
  get post put cdelete bad_request : Code

pub data Kind : Type 0 where
  confirmable nonconfirmable : Kind

-- The options of a request, with the text of those that have one.
pub data CoapOption : Type 0 where
  uri_path uri_query : String → CoapOption
  content_octet_stream accept_octet_stream : CoapOption

-- The errors of `src/error.hpp` that a request can meet.
pub data Error : Type 0 where
  ill_formed invalid_value missing_field app_not_found image_not_found : Error

-- What a function `payload` of a message does: an error, a read or a write out of bounds, or the bytes
-- that it writes from the start of the buffer on.
pub data Filled : Type 0 where
  failed : Error → Filled
  bad_access : Filled
  filled : List ℕ → Filled

-- The functions write without a look at the size of the buffer: more bytes than that go past its end.
abbrev pub bounded : ℕ → Filled → Filled
bounded size (failed e) = failed e
bounded size bad_access = bad_access
bounded size (filled bytes) = if ltb size (length bytes) then bad_access else filled bytes

-- `request_message`, over the type of documents.
pub record RequestMessage (Doc : Type 0) : Type 0 where
  pub method : Code
  pub options : List CoapOption
  pub mtype : Kind
  -- Of the size of the buffer, and the document.
  pub payload : Option (ℕ → Doc → Filled)

-- What the payloads take from the surroundings: the bytes of a text, what the memory holds behind
-- the zero of one, the clock, and the files of images and apps.
pub record Surroundings : Type 0 where
  pub chars : String → List ℕ
  pub behind : List ℕ
  pub get_time : ℕ
  pub has_image : List ℕ → Bool
  pub app_hash : List ℕ → Option (List ℕ)

-- `make_coap_path`: the separators of queries are the wrong way round in the source.
unfoldable pub path_from : Bool → (String → List ℕ) → List CoapOption → List ℕ
path_from has_query chars [] = []
path_from has_query chars (uri_path s ∷ options) =
    b'/' ∷ (chars s ++ path_from has_query chars options)
path_from true chars (uri_query s ∷ options) = b'?' ∷ (chars s ++ path_from true chars options)
path_from false chars (uri_query s ∷ options) = b'&' ∷ (chars s ++ path_from true chars options)
path_from has_query chars (content_octet_stream ∷ options) = path_from has_query chars options
path_from has_query chars (accept_octet_stream ∷ options) = path_from has_query chars options

unfoldable pub make_coap_path : (String → List ℕ) → List CoapOption → List ℕ
make_coap_path chars options = path_from false chars options
