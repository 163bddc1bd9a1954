-- ===== src/Tests/Requests.antt =====
-- Requests to devices and their answers.
use agro_daemon.Base.{
  ℕ, String, ◌≡◌, ◌≢◌, refl, true, false, List, [], ◌∷◌, length, All, map, some, none, arith, ◌==◌,
  Bool-cases, inl, inr, string_eq, nat_eq, if◌then◌else◌, ℕ_discrete, ◌*◌, ◌≤◌, ◌<◌, ap,
}
use agro_daemon.Base.Dict
use agro_daemon.User.Account.{Logged, can}
use agro_daemon.Message.User.{read}
use agro_daemon.Device.Mac.{
  MeshAddr, null_addr, mesh_addr_of, string_to_mac, string_to_mac_impl, scan, store, cell, digit,
  shift_in,
}
use agro_daemon.Device.InProgress.{has, add, addr_eq}
use agro_daemon.Device.InProgress.Laws.{Key, holds}
use agro_daemon.Device.State.{Device, empty_device, set_jobs}
use agro_daemon.Device.Packets.{read_jobs}
use agro_daemon.Device.Lists.{DeviceList, find_device, find_text}
use agro_daemon.Device.Request.{
  Code, get, post, put, cdelete, bad_request, get_fuse, delete_job, uri_path, accept_octet_stream,
  Surroundings, confirmable, filled, bad_access,
}
use agro_daemon.Device.Request.Payload.{send_job_payload, read_entry}
use agro_daemon.Device.Request.Config.{named, get_requests_config}
use agro_daemon.Device.Request.Send.{rule_of, message_of, is_user_allowed, send_request}
use agro_daemon.Device.Request.Process.{
  Daemon, Accepted, done, accept, start, process_request, finish,
}
use agro_daemon.Device.Request.Runs.{
  Event, asks, Valid, step, run, run-IsLocked, ends_all, run-ends_all,
}
use agro_daemon.Device.Request.Locks.{IsLocked}
use agro_daemon.Device.Request.Hosts.{Keyed}
use agro_daemon.Device.Request.Jobs.{job_of}
use agro_daemon.Device.Request.JobList.{
  entries_of, send_job_payload-set_jobs, send_job_payload-overrun,
}
use agro_daemon.Device.Request.Response
use agro_daemon.Device.Request.Response.{Answer, Notice, Handled, delete_job_response, process_jobs}
use agro_daemon.Instance.Devices.{Known, with_devices}
use agro_daemon.Device.Resource.Process.{Reading}
use agro_daemon.Device.Request.Respond.{respond, responded, with_handled}
use agro_daemon.Device.Request.Refused.{unguarded, respond-error}
use agro_daemon.Device.Request.Frame.{respond-elsewhere}
use agro_daemon.Tests.Documents.{
  Document, text, number as num, end, field, json, member, as_text, as_integer, is_object, entries,
}

abbrev pump_text : List ℕ
pump_text = b'2' ∷ b':' ∷ b'0' ∷ b':' ∷ b'0' ∷ b':' ∷ b'0' ∷ b':' ∷ b'0' ∷ b':' ∷ b'1' ∷ []

abbrev pump : MeshAddr
pump = 2 ∷ 0 ∷ 0 ∷ 0 ∷ 0 ∷ 1 ∷ []

unfoldable chars_of : String → List ℕ
chars_of s = if s == "pump" then pump_text else b'f' ∷ b'a' ∷ b'n' ∷ []

abbrev around : Surroundings
around = record {
  chars = chars_of;
  behind = 9 ∷ 9 ∷ 9 ∷ 9 ∷ 9 ∷ 9 ∷ 9 ∷ 9 ∷ 9 ∷ 9 ∷ 9 ∷ [];
  get_time = 77;
  has_image = λ name. true;
  app_hash = λ name. none;
}

abbrev code_of : Code → ℕ
code_of get = 1
code_of post = 2
code_of put = 3
code_of cdelete = 4
code_of bad_request = 128

abbrev root : Logged
root = record { id = 0; user_agent = "desk"; session_id = "s"; authenticated = true; user = some 0 }

abbrev devices : DeviceList ℕ
devices = (pump, record (empty_device 5683) { mac = pump }) ∷ []

abbrev pump_device : Device ℕ
pump_device = record (empty_device 5683) { mac = pump }

abbrev ask_fuse : Document
ask_fuse = field "data" (field "request" (text "get_fuse") (field "device" (text "pump") end)) end

abbrev events : List (Event json ℕ)
events = asks null_addr (λ id. none) devices none ask_fuse root ∷ []

abbrev fuse_of_pump : Daemon ℕ
fuse_of_pump = record {
  requests = record { addr = pump; method = 1; request = 12; id = 0 } ∷ [];
  transactions =
      record {
        ep = 5683;
        host = pump_text;
        method = get;
        mtype = confirmable;
        options = uri_path "fuse" ∷ accept_octet_stream ∷ [];
        payload = [];
        request = get_fuse;
      }
      ∷ [];
}

abbrev found : Accepted Document ℕ
found = record {
  type_ = get_fuse;
  host = pump_text;
  dev = record (empty_device 5683) { mac = pump };
  msg = record {
    method = get;
    options = uri_path "fuse" ∷ accept_octet_stream ∷ [];
    mtype = confirmable;
    payload = none;
  };
}

at_pump :
    find_text null_addr devices pump_text ≡ some (some (record (empty_device 5683) { mac = pump }))
unfolding find_text mesh_addr_of string_to_mac string_to_mac_impl scan store cell digit shift_in
    ℕ_discrete Dict.lookup
at_pump = ground arith

allowed : accept json around null_addr (λ id. none) devices ask_fuse root ≡ read found
unfolding accept member as_text is_object string_eq get_requests_config named message_of chars_of
    is_user_allowed rule_of can ℕ_discrete
allowed = rw at_pump refl

started :
    start code_of json around 1024 none
      (record { requests = []; transactions = [] })
      ask_fuse
      found
      0
    ≡ done fuse_of_pump []
unfolding start add has finish send_request ℕ_discrete empty_device
started = refl

went :
    run json code_of around 1024 events (record { requests = []; transactions = [] })
    ≡ some fuse_of_pump
unfolding step run process_request
went = rw (run, step, process_request, allowed, started) refl

run-IsLocked_example : IsLocked code_of fuse_of_pump
unfolding Valid Keyed
run-IsLocked_example =
    run-IsLocked json code_of around 1024 events fuse_of_pump ((refl, (refl, tt)), tt) went

-- A request that times out.
run-ends_all_example :
    (d' : Daemon ℕ) × (run json code_of around 1024
        (ends_all null_addr ((0, false) ∷ []))
        fuse_of_pump
      ≡ some d')
    × (d'.transactions ≡ [])
    × ((k : Key) → holds d'.requests k ≡ false)
unfolding Valid Keyed
run-ends_all_example =
    run-ends_all json code_of around 1024 ((0, false) ∷ []) null_addr fuse_of_pump
      (run-IsLocked json code_of around 1024 events fuse_of_pump ((refl, (refl, tt)), tt) went) refl
      refl

-- A job with all its members, and an entry that is none.
abbrev clock : ℕ → ℕ → Document
clock h m = field "hour" (num h) (field "minute" (num m) end)

abbrev watering : Document
watering = field "begin" (clock 6 30) (
    field "end" (clock 7 0) (
      field "dow" (num 127)
        (field "priority" (num 300) (field "exec" (text "fan") (field "arg" (num 5) end)))))

abbrev job_list : Document
job_list = field "" watering (field "" (text "no") end)

abbrev job_data : Document
job_data = field "jobs" job_list end

nonzero : (s : String) → All (λ c. c ≢ 0) (chars_of s)
unfolding chars_of
nonzero s = elim (Bool-cases (s == "pump")) [
  | inl is_pump ↦ rw is_pump (ground arith)
  | inr other ↦ rw other (ground arith)
]

room : 22 * length (entries_of json (watering ∷ text "no" ∷ [])) ≤ 1024
unfolding entries_of read_entry member is_object as_text as_integer string_eq
room = ground arith

send_job_payload-set_jobs_example :
    (bytes : List ℕ) × (send_job_payload json around 1024 (field "data" job_data end)
      ≡ filled bytes)
    × (set_jobs pump_device bytes
        ≡ some (record pump_device {
          jobs = map (job_of around) (entries_of json (watering ∷ text "no" ∷ []));
        }))
unfolding member is_object entries string_eq
send_job_payload-set_jobs_example =
    send_job_payload-set_jobs json around pump_device 1024 (field "data" job_data end) job_data
      (watering ∷ text "no" ∷ []) refl refl room (omega arith) nonzero

tight : 21 < 22 * length (entries_of json (watering ∷ text "no" ∷ []))
unfolding entries_of read_entry member is_object as_text as_integer string_eq
tight = ground arith

send_job_payload-overrun_example :
    send_job_payload json around 21 (field "data" job_data end) ≡ bad_access
unfolding member is_object entries string_eq
send_job_payload-overrun_example =
    send_job_payload-overrun json around 21 (field "data" job_data end) job_data
      (watering ∷ text "no" ∷ []) refl refl tight (omega arith) nonzero

abbrev reading : Reading ℕ
reading = record {
  given = record { device_id = λ a. 7; net_id = λ a. 1; no_endpoint = 0 };
  kinds = [];
  now = 7;
  times = λ n. 7;
  fuel = 9;
  ep = 5683;
}

abbrev known : Known ℕ
known = record {
  net = record {
    tree = record {
      dev_list = devices;
      nodes = [];
      endpoints = [];
      root = record { addr = null_addr; layer = 0; next = none; parent = none; children = none };
    };
    old_unconnected = [];
  };
  nets = [];
}

abbrev missing : Answer
missing = record { is_error = true; is_not_found = false; payload = b'n' ∷ b'o' ∷ [] }

respond-error_example :
    (notices : List (Notice ℕ)) × (respond reading known pump length 7 get_fuse [] missing
      ≡ responded known notices [])
unfolding unguarded
respond-error_example = respond-error reading known pump length 7 get_fuse [] missing refl refl refl

listed : Dict.lookup pump devices ≡ some pump_device
unfolding Dict.lookup
listed = ground arith

-- The answer to a `del_job` of the pump that failed, seen from another address.
cleared :
    delete_job_response devices pump missing
    ≡ Response.done
        (Dict.adjust pump (λ old. record pump_device { jobs = [] }) devices)
        (Notice.jobs (record pump_device { jobs = [] }) ∷ [])
unfolding delete_job_response process_jobs set_jobs read_jobs ℕ_discrete
cleared = rw (delete_job_response, process_jobs, Response.at_host, listed) refl

abbrev without_jobs : DeviceList ℕ
without_jobs = Dict.adjust pump (λ old. record pump_device { jobs = [] }) devices

respond-elsewhere_example : find_device without_jobs null_addr ≡ find_device devices null_addr
unfolding respond
respond-elsewhere_example =
    respond-elsewhere reading known pump length 7 delete_job [] missing null_addr
      (λ e. ground arith) (λ e. ground arith) (λ e. ground arith) (with_devices known without_jobs)
      (Notice.jobs (record pump_device { jobs = [] }) ∷ []) []
      (ap (with_handled reading known pump) cleared)
