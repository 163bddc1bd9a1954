-- ===== src/Device/Resource.antt =====
-- The payloads that devices send: src/device/resources/process.cpp, with the packets of
-- src/device/resources/types.hpp.
pub mod Process
pub mod Children
pub mod Blocks
use agro_daemon.Base.{
  ℕ, ◌+◌, ◌*◌, ◌/◌, ◌%◌, ◌^◌, Bool, true, false, ◌||◌, List, [], ◌∷◌, ◌++◌, Option, none, some,
  ◌==◌, nat_eq, map, if◌then◌else◌, length, ltb,
}
use agro_daemon.Base.Dict
use agro_daemon.Device.Mac.{MeshAddr, mac_ap_to_addr}
use agro_daemon.Device.InProgress.{addr_eq}
use agro_daemon.Device.State.{
  Device, set_channel, set_mac_ap, set_net_id, set_net, set_layer, set_parent, clear_children,
  add_children, update_endpoint, update_last_packet_time, has_config, set_version,
}
use agro_daemon.Device.Lists.{DeviceList}
use agro_daemon.Instance.Network.{update_tree}
use agro_daemon.Instance.Readings.{update_readings}
use agro_daemon.Sensor.Kinds.{SensorTypeList}
use agro_daemon.Instance.Devices.{
  Event, network, reading, device_stored, route_written, board_written, config_written,
  full_config_written, sensors_written, Known, Given, devices_of, with_devices, add_or_get_device,
  get_or_add_net, device_connected,
}

pub record Route : Type 0 where
  pub parent : MeshAddr
  pub layer : ℕ

pub record Config : Type 0 where
  pub mac_ap : MeshAddr
  pub net_id : MeshAddr
  pub channel_config : ℕ
  pub channel_conn : ℕ

-- A packet in front of the other bytes; the layer has its high byte first.
unfoldable pub route_at : List ℕ → Option (Route × List ℕ)
route_at (p₀ ∷ p₁ ∷ p₂ ∷ p₃ ∷ p₄ ∷ p₅ ∷ l₀ ∷ l₁ ∷ rest) =
    some (record { parent = p₀ ∷ p₁ ∷ p₂ ∷ p₃ ∷ p₄ ∷ p₅ ∷ []; layer = 2 ^ 8 * l₀ + l₁ }, rest)
route_at payload = none

unfoldable pub config_at : List ℕ → Option (Config × List ℕ)
config_at (a₀ ∷ a₁ ∷ a₂ ∷ a₃ ∷ a₄ ∷ a₅ ∷ n₀ ∷ n₁ ∷ n₂ ∷ n₃ ∷ n₄ ∷ n₅ ∷ channels ∷ rest) = some (
  record {
    mac_ap = a₀ ∷ a₁ ∷ a₂ ∷ a₃ ∷ a₄ ∷ a₅ ∷ [];
    net_id = n₀ ∷ n₁ ∷ n₂ ∷ n₃ ∷ n₄ ∷ n₅ ∷ [];
    channel_config = channels % 2 ^ 4;
    channel_conn = channels / 2 ^ 4 % 2 ^ 4;
  },
  rest,
)
config_at payload = none

-- The parts in front of the first `|` and behind it; without one the second is empty.
unfoldable pub split_version : List ℕ → List ℕ × List ℕ
split_version [] = ([], [])
split_version (c ∷ str) =
    let rest = split_version str in if c == b'|' then ([], str) else (c ∷ rest.0, rest.1)

-- What becomes of a payload: undefined behaviour, a walk in the tree that takes more than its fuel, a
-- payload that is too small, or the state behind it with the calls.
pub data Processed (Endpoint : Type 0) : Type 0 where
  fault unfinished refused : Processed Endpoint
  processed : Known Endpoint → List (Event Endpoint) → Processed Endpoint

module _ {Endpoint : Type 0} where
  -- `now` is what the clock gives.
  unfoldable pub process_packet : ℕ → Endpoint → Device Endpoint → Device Endpoint
  process_packet now ep d = update_endpoint (update_last_packet_time now d) ep

  unfoldable pub initiate_child_data : Device Endpoint → Device Endpoint → Device Endpoint
  initiate_child_data parent child =
      set_net
        (set_net_id
          (update_endpoint (set_parent (set_layer child (parent.layer + 1)) parent.mac) parent.ep)
          parent.net_id)
        parent.net

  -- The layer of the device is compared with 1 once it is set.
  unfoldable pub route_data : Route → Device Endpoint → Device Endpoint
  route_data data_ d = clear_children (
      set_parent (set_layer d data_.layer)
        (if data_.layer == 1 then data_.parent else mac_ap_to_addr data_.parent))

  module _ (given : Given Endpoint) where
    -- A round of the loop over the children of the device under `host`: whether the child is a new
    -- device, and the list.
    unfoldable pub add_child_device :
        MeshAddr → DeviceList Endpoint → MeshAddr → Option (Bool × DeviceList Endpoint)
    add_child_device host list child =
        let listed = Dict.adjust host (λ d. add_children d child) list in
        let found = add_or_get_device given listed child in
        elim (Dict.lookup host listed) [
          | none ↦ none
          | some dev ↦ some (
            found.1.0,
            if found.1.0 then Dict.adjust child (initiate_child_data dev) found.1.1 else found.1.1,
          )
        ]

    -- The loop, six bytes a round, with the devices that are new. A round with less than six bytes
    -- reads past the payload, which is `none`.
    unfoldable pub add_child_devices :
        MeshAddr → DeviceList Endpoint → List ℕ → Option (List MeshAddr × DeviceList Endpoint)
    add_child_devices host list [] = some ([], list)
    add_child_devices host list (c₀ ∷ c₁ ∷ c₂ ∷ c₃ ∷ c₄ ∷ c₅ ∷ rest) =
        let child = c₀ ∷ c₁ ∷ c₂ ∷ c₃ ∷ c₄ ∷ c₅ ∷ [] in
        elim (add_child_device host list child) [
          | none ↦ none
          | some (is_new, list') ↦ elim (add_child_devices host list' rest) [
            | none ↦ none
            | some (new_device, list'') ↦
                some (if is_new then child ∷ new_device else new_device, list'')
          ]
        ]
    add_child_devices host list children = none

    unfoldable pub update_route_data :
        MeshAddr
        → DeviceList Endpoint
        → Route
        → List ℕ
        → Option (List (Event Endpoint) × DeviceList Endpoint)
    update_route_data host list data_ children =
        elim (add_child_devices host (Dict.adjust host (route_data data_) list) children) [
          | none ↦ none
          | some (new_device, list') ↦ some (device_connected given new_device, list')
        ]

    unfoldable pub update_config_data : MeshAddr → Known Endpoint → Config → Known Endpoint
    update_config_data host k data_ =
        let found = get_or_add_net given k.nets data_.net_id in
        record (with_devices k (
          Dict.adjust host
            (λ d.
              set_net
                (set_net_id
                  (set_mac_ap (set_channel d data_.channel_config data_.channel_conn) data_.mac_ap)
                  data_.net_id)
                found.0)
            (devices_of k))) { nets = found.1 }
