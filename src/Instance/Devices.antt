-- ===== src/Instance/Devices.antt =====
-- Devices and nets that the daemon comes to know: src/instance/device.cpp. The calls of the database,
-- of the notifications and of the web sockets whose results are not read are events.
use agro_daemon.Base.{
  ℕ, Bool, true, false, List, [], ◌∷◌, ◌++◌, Option, none, some, map, if◌then◌else◌,
}
use agro_daemon.Base.Dict
use agro_daemon.Device.Mac.{MeshAddr, mesh_addr_of}
use agro_daemon.Device.InProgress.{addr_eq}
use agro_daemon.Device.State.{Device, empty_device}
use agro_daemon.Device.Lists as Lists
use agro_daemon.Device.Lists.{DeviceList, Net, NetList, net_at, add_net, find_device}
use agro_daemon.Instance.Network
use agro_daemon.Instance.Network.{Network}
use agro_daemon.Instance.Readings

pub data Event (Endpoint : Type 0) : Type 0 where
  network : Network.Event → Event Endpoint
  reading : Readings.Event → Event Endpoint
  -- `db_.update_device`
  device_stored : Device Endpoint → Event Endpoint
  -- `notify_all_policy` of the new devices
  devices_added : List MeshAddr → Event Endpoint
  -- `write_all_policy` of what a device reported
  route_written board_written config_written : Device Endpoint → Event Endpoint
  full_config_written : Device Endpoint → Event Endpoint
  apps_written : Device Endpoint → Event Endpoint
  sensors_written : Device Endpoint → List ℕ → Event Endpoint

-- The devices with their tree, and the nets.
pub record Known (Endpoint : Type 0) : Type 0 where
  pub net : Network Endpoint
  pub nets : NetList

-- How a request of a device begins: undefined behaviour, a request that is passed over, or the address
-- of the device that it names.
pub data Requested (Endpoint : Type 0) : Type 0 where
  fault refused : Requested Endpoint
  requested : MeshAddr → Known Endpoint → List (Event Endpoint) → Requested Endpoint

-- The ids that `db_.add_device` and `db_.add_net` give out, and the endpoint of a new device.
pub record Given (Endpoint : Type 0) : Type 0 where
  pub device_id : MeshAddr → ℕ
  pub net_id : MeshAddr → ℕ
  pub no_endpoint : Endpoint

module _ {Endpoint : Type 0} where
  abbrev pub devices_of : Known Endpoint → DeviceList Endpoint
  devices_of k = k.net.tree.dev_list

  abbrev pub with_devices : Known Endpoint → DeviceList Endpoint → Known Endpoint
  with_devices k list = record k {
    net = record k.net { tree = record k.net.tree { dev_list = list } };
  }

  module _ (given : Given Endpoint) where
    -- `Device(device_id, mesh_addr_t const&)`
    unfoldable pub device_at : MeshAddr → Device Endpoint
    device_at mac = record (empty_device given.no_endpoint) { id = given.device_id mac; mac = mac }

    -- The device under the address, whether it is new, and the list with it.
    unfoldable pub add_or_get_device :
        DeviceList Endpoint → MeshAddr → Device Endpoint × (Bool × DeviceList Endpoint)
    add_or_get_device list mac = elim (Dict.lookup mac list) [
      | some dev ↦ (dev, (false, list))
      | none ↦ (device_at mac, (true, (Lists.add list (device_at mac)).1))
    ]

    -- The id of the net that the pointer leads to; `none` is a null pointer: the new net has an id
    -- that is taken.
    unfoldable pub get_or_add_net : NetList → MeshAddr → Option ℕ × NetList
    get_or_add_net nets net_addr = elim (net_at nets net_addr) [
      | some n ↦ (some n.id, nets)
      | none ↦
          let n : Net = record { id = given.net_id net_addr; net_addr = net_addr; name = [] } in
          let added = add_net nets n in (if added.0 then some n.id else none, added.1)
    ]

    unfoldable pub device_connected : List MeshAddr → List (Event Endpoint)
    device_connected [] = []
    device_connected (mac ∷ list) =
        map (λ a. network (Network.state_stored a true)) (mac ∷ list)
        ++ (devices_added (mac ∷ list) ∷ [])

    -- The option `uri_host` is `op`, if there is one.
    unfoldable pub process_device_request :
        MeshAddr → Known Endpoint → Option (List ℕ) → Requested Endpoint
    process_device_request garbage k none = refused
    process_device_request garbage k (some op) = elim (mesh_addr_of garbage op) [
      | none ↦ fault
      | some (host, set) ↦
          let found = add_or_get_device (devices_of k) host in
          if set
          then requested host (with_devices k found.1.1)
              (if found.1.0 then device_connected (host ∷ []) else [])
          else refused
    ]
