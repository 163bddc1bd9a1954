-- ===== src/Device/State.antt =====
-- `Device`: src/device/device.hpp and src/device/device.cpp.
-- A text is the list of its bytes. The endpoint type is that of the CoAP library, a parameter; a
-- method with a value of the same name sets it.
pub mod Load
pub mod Apps
pub mod Jobs
use agro_daemon.Base.{
  ◌/◌, length, ℕ, zero, suc, ◌+◌, ◌-◌, ◌*◌, ◌^◌, ◌%◌, Bool, true, false, List, [], ◌∷◌, ◌++◌,
  Option, none, some, Eq, ◌==◌, nat_eq, ℕ_discrete, if◌then◌else◌, ltb, remove_if, update_or_append,
  bit_and, bit_or,
}
use mathlib.Core.List.{List-discrete}
use agro_daemon.Base.Dict
use agro_daemon.Device.Mac.{MeshAddr, null_addr, to_string}
use agro_daemon.Device.Packets.{App, Job, packet_size, read_jobs}
use agro_daemon.Device.InProgress.{addr_eq}
use agro_daemon.Sensor.Values
use agro_daemon.Sensor.Values.{Value, back}
use agro_daemon.Sensor.Series
use agro_daemon.Sensor.Series.{SensorList, key_eq}

pub record Device (Endpoint : Type 0) : Type 0 where
  pub id : ℕ
  pub mac : MeshAddr
  pub parent : MeshAddr
  pub mac_ap : MeshAddr
  pub net_id : MeshAddr
  -- The id of the net that the pointer `net_` points to.
  pub net : Option ℕ
  pub ep : Endpoint
  pub name : List ℕ
  pub ch_config : ℕ
  pub ch_conn : ℕ
  pub layer : ℕ
  pub children_table : List MeshAddr
  pub fw_version : List ℕ
  pub hw_version : List ℕ
  pub last_packet_time : ℕ
  pub has_rtc : Bool
  pub has_sensor_temp : Bool
  pub slist : SensorList
  pub uptime : Value
  pub rtc_time : Value
  pub fuse : ℕ
  pub apps : List App
  pub jobs : List Job

-- The bits -1 and -2 of an `int`.
abbrev pub no_id : ℕ
no_id = 2 ^ 32 - 1

abbrev pub undefined_layer : ℕ
undefined_layer = 2 ^ 32 - 2

abbrev pub no_value : Value
no_value = record { time = 0; value = 0 }

abbrev pub gpios_array : Series.Key
gpios_array = (5, 0)

-- `(v & ~(1UL << n)) | (value << n)`, as the bits of an `int`.
unfoldable pub put_bit : ℕ → ℕ → Bool → ℕ
put_bit v n value = bit_or (bit_and v (2 ^ 32 - 1 - 2 ^ n)) (if value then 2 ^ n else 0)

-- The new value of the output pins, from the last one if there is one.
unfoldable pub gpios_value : Option Value → ℕ → Bool → ℕ
gpios_value none n value = if value then 2 ^ n else 0
gpios_value (some v) n value = put_bit v.value n value

-- The values of a sensor.
abbrev pub values_of : SensorList → Series.Key → List Value
values_of slist k = elim (Dict.lookup k slist) [ none ↦ [] | some vs ↦ vs ]

module _ {Endpoint : Type 0} where
  -- `Device()`
  unfoldable pub empty_device : Endpoint → Device Endpoint
  empty_device ep = record {
    id = no_id;
    mac = null_addr;
    parent = null_addr;
    mac_ap = null_addr;
    net_id = null_addr;
    net = none;
    ep = ep;
    name = [];
    ch_config = 0;
    ch_conn = 0;
    layer = undefined_layer;
    children_table = [];
    fw_version = [];
    hw_version = [];
    last_packet_time = 0;
    has_rtc = false;
    has_sensor_temp = false;
    slist = [];
    uptime = no_value;
    rtc_time = no_value;
    fuse = 0;
    apps = [];
    jobs = [];
  }

  -- `Device(mesh_addr_t const&)`: the text of the address is the name.
  unfoldable pub new_device : Endpoint → MeshAddr → Device Endpoint
  new_device ep mac = record (empty_device ep) { mac = mac; name = to_string mac }

  unfoldable pub set_net : Device Endpoint → Option ℕ → Device Endpoint
  set_net d net_ptr = record d { net = net_ptr }

  unfoldable pub set_parent : Device Endpoint → MeshAddr → Device Endpoint
  set_parent d addr = record d { parent = addr }

  unfoldable pub set_mac_ap : Device Endpoint → MeshAddr → Device Endpoint
  set_mac_ap d addr = record d { mac_ap = addr }

  unfoldable pub set_net_id : Device Endpoint → MeshAddr → Device Endpoint
  set_net_id d nid = record d { net_id = nid }

  unfoldable pub update_endpoint : Device Endpoint → Endpoint → Device Endpoint
  update_endpoint d ep = record d { ep = ep }

  unfoldable pub set_channel : Device Endpoint → ℕ → ℕ → Device Endpoint
  set_channel d ch_cfg ch = record d { ch_config = ch_cfg; ch_conn = ch }

  unfoldable pub set_layer : Device Endpoint → ℕ → Device Endpoint
  set_layer d nlayer = record d { layer = nlayer }

  unfoldable pub set_version : Device Endpoint → List ℕ → List ℕ → Device Endpoint
  set_version d fw hw = record d { fw_version = fw; hw_version = hw }

  unfoldable pub has_config : Device Endpoint → Bool → Bool → Device Endpoint
  has_config d rtc temp_sensor = record d { has_rtc = rtc; has_sensor_temp = temp_sensor }

  unfoldable pub update_last_packet_time : ℕ → Device Endpoint → Device Endpoint
  update_last_packet_time now d = record d { last_packet_time = now % 2 ^ 32 }

  unfoldable pub clear_children : Device Endpoint → Device Endpoint
  clear_children d = record d { children_table = [] }

  unfoldable pub add_children : Device Endpoint → MeshAddr → Device Endpoint
  add_children d child = record d { children_table = d.children_table ++ (child ∷ []) }

  unfoldable pub update_sensor : Device Endpoint → ℕ → ℕ → ℕ → ℕ → Bool → Bool × Device Endpoint
  update_sensor d type_ index time value add_change =
      let added = Series.add d.slist type_ index time value add_change in
      (added.0, record d { slist = added.1 })

  -- The result is the new value of the output pins, with 0 for an index that is out of range.
  unfoldable pub update_ac_load : ℕ → Device Endpoint → ℕ → Bool → ℕ × Device Endpoint
  update_ac_load now d index value =
      let slist = Series.get_or_add d.slist gpios_array.0 gpios_array.1 in
      let nvalue = gpios_value (back (values_of slist gpios_array)) (index + 8) value in
      let slist' = Dict.adjust gpios_array (λ vs. Values.add_now Series.max now vs nvalue) slist in
      if ltb 2 index then (0, d) else (nvalue, record d { slist = slist' })

  unfoldable pub update_uptime : ℕ → Device Endpoint → ℕ → Device Endpoint
  update_uptime now d time = record d { uptime = Values.update d.uptime now time }

  unfoldable pub update_rtc_time : ℕ → Device Endpoint → ℕ → Device Endpoint
  update_rtc_time now d time = record d { rtc_time = Values.update d.rtc_time now time }

  unfoldable pub set_fuse : Device Endpoint → ℕ → Device Endpoint
  set_fuse d f = record d { fuse = f }

  unfoldable pub add_app : Device Endpoint → List ℕ → ℕ → List ℕ → Device Endpoint
  add_app d name size hash = record d {
    apps =
        update_or_append (λ v. v.name == name) (λ v. record v { size = size; hash = hash })
          (record { name = name; size = size; hash = hash }) d.apps;
  }

  unfoldable pub clear_apps : Device Endpoint → Device Endpoint
  clear_apps d = record d { apps = [] }

  unfoldable pub delete_app : Device Endpoint → List ℕ → Device Endpoint
  delete_app d name = record d { apps = remove_if (λ v. v.name == name) d.apps }

  -- `jobs(jobs, size)`; `none` is undefined behaviour.
  unfoldable pub set_jobs : Device Endpoint → List ℕ → Option (Device Endpoint)
  set_jobs d bytes =
      if length bytes % packet_size == 0
      then elim (read_jobs (length bytes / packet_size) bytes) [
        | none ↦ none
        | some js ↦ some (record d { jobs = js })
      ]
      else some d
