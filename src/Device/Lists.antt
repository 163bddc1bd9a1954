-- ===== src/Device/Lists.antt =====
-- `Device_List`, `Net` and `Net_List`: src/device/list.hpp, src/device/list.cpp, src/device/net.hpp
-- and src/device/net.cpp.
pub mod Laws
use agro_daemon.Base.{
  ℕ, Bool, true, false, List, Option, none, some, ◌==◌, nat_eq, find_if, if◌then◌else◌,
}
use agro_daemon.Base.Dict
use agro_daemon.Base.Dict.{Dict}
use agro_daemon.Device.Mac.{MeshAddr, mesh_addr_of}
use agro_daemon.Device.InProgress.{addr_eq}
use agro_daemon.Device.State.{Device, new_device}

abbrev pub DeviceList : Type 0 → Type 0
DeviceList Endpoint = Dict MeshAddr (Device Endpoint)

module _ {Endpoint : Type 0} where
  -- `operator[](mesh_addr_t const&)`
  unfoldable pub find_device : DeviceList Endpoint → MeshAddr → Option (Device Endpoint)
  find_device list addr = Dict.lookup addr list

  -- `operator[](const char*)`; the outer `none` is undefined behaviour, and `garbage` what the new
  -- address holds before it is set.
  unfoldable pub find_text :
      MeshAddr → DeviceList Endpoint → List ℕ → Option (Option (Device Endpoint))
  find_text garbage list addr_str = elim (mesh_addr_of garbage addr_str) [
    | none ↦ none
    | some (addr, set) ↦ some (if set then Dict.lookup addr list else none)
  ]

  unfoldable pub add : DeviceList Endpoint → Device Endpoint → Bool × DeviceList Endpoint
  add list device = elim (Dict.lookup device.mac list) [
    | some _ ↦ (false, list)
    | none ↦ (true, Dict.emplace device.mac device list)
  ]

  -- `ep` is the endpoint of a new device.
  unfoldable pub add_or_get :
      Endpoint → DeviceList Endpoint → MeshAddr → Device Endpoint × DeviceList Endpoint
  add_or_get ep list mac = elim (Dict.lookup mac list) [
    | some dev ↦ (dev, list)
    | none ↦ (new_device ep mac, Dict.emplace mac (new_device ep mac) list)
  ]

pub record Net : Type 0 where
  pub id : ℕ
  pub net_addr : MeshAddr
  pub name : List ℕ

abbrev pub NetList : Type 0
NetList = Dict ℕ Net

unfoldable pub add_net : NetList → Net → Bool × NetList
add_net list net = elim (Dict.lookup net.id list) [
  | some _ ↦ (false, list)
  | none ↦ (true, Dict.emplace net.id net list)
]

unfoldable pub get_net : NetList → ℕ → Option Net
get_net list id = Dict.lookup id list

-- `get(mesh_addr_t const&)`: the first entry with the address.
unfoldable pub net_at : NetList → MeshAddr → Option Net
net_at list number = elim (find_if (λ n. n.1.net_addr == number) list) [
  | none ↦ none
  | some n ↦ some n.1
]
