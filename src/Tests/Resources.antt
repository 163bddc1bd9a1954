-- ===== src/Tests/Resources.antt =====
-- Payloads of devices: a report of children, and the transfer of a file.
use agro_daemon.Base.{
  ◌++◌, ℕ_discrete, ◌*◌, ◌/◌, ◌^◌, ◌+◌, ◌%◌, ◌≤◌, true, ℕ, ◌≡◌, ◌≢◌, refl, List, [], ◌∷◌, some,
  none, arith, length,
}
use agro_daemon.Base.Dict
use agro_daemon.Device.Mac.{MeshAddr}
use agro_daemon.Device.InProgress.{addr_eq}
use agro_daemon.Device.State.{Device, empty_device}
use agro_daemon.Device.Lists.{DeviceList}
use agro_daemon.Instance.Devices.{Given}
use agro_daemon.Device.Resource.Blocks.{
  Folder, BlockOption, content, out_of_bound, get_file_handler,
}
use agro_daemon.Device.Resource.Blocks.Transfer.{fetch, fetch-file, get_file_handler-short}
use agro_daemon.Device.Resource.{add_child_devices, split_version, route_at, config_at}
use agro_daemon.Device.Resource.Children.{
  flat, after_report, with_children, add_child_devices-lookup,
}

abbrev router : MeshAddr
router = 2 ∷ 0 ∷ 0 ∷ 0 ∷ 0 ∷ 1 ∷ []

abbrev pump : MeshAddr
pump = 2 ∷ 0 ∷ 0 ∷ 0 ∷ 0 ∷ 2 ∷ []

abbrev valve : MeshAddr
valve = 2 ∷ 0 ∷ 0 ∷ 0 ∷ 0 ∷ 3 ∷ []

abbrev given : Given ℕ
given = record { device_id = λ a. 7; net_id = λ a. 1; no_endpoint = 0 }

-- A router on the first layer.
abbrev dev : Device ℕ
dev = record (empty_device 80) { id = 1; mac = router; layer = 1; net = some 1 }

abbrev old_pump : Device ℕ
old_pump = record (empty_device 81) { id = 2; mac = pump; layer = 2 }

abbrev devices : DeviceList ℕ
devices = (router, dev) ∷ (pump, old_pump) ∷ []

add_child_devices-lookup_example :
    (new_device : List MeshAddr) × (list' : DeviceList ℕ) × (add_child_devices given router devices
        (flat (pump ∷ valve ∷ []))
      ≡ some (new_device, list'))
    × (Dict.lookup router list' ≡ some (with_children dev (pump ∷ valve ∷ [])))
    × ((a : MeshAddr)
        → router ≢ a
        → Dict.lookup a list'
          ≡ after_report given dev (pump ∷ valve ∷ []) a (Dict.lookup a devices))
unfolding Dict.lookup
add_child_devices-lookup_example =
    add_child_devices-lookup given router devices dev (pump ∷ valve ∷ []) (ground arith)
      (refl, (refl, tt))

-- The options of RFC 7959: three bits of the size, the mark that more follows, and the number.
abbrev size_of : ℕ → ℕ
size_of value = 2 ^ (value % 8 + 4)

abbrev options : BlockOption
options = record {
  block_size = size_of;
  block_number = λ value. value / 16;
  byte_offset = λ value. value / 16 * size_of value;
}

abbrev ask : ℕ → ℕ
ask n = n * 16

abbrev image : List ℕ
image =
    1 ∷ 2 ∷ 3 ∷ 4 ∷ 5 ∷ 6 ∷ 7 ∷ 8 ∷ 9 ∷ 10 ∷ 11 ∷ 12 ∷ 13 ∷ 14 ∷ 15 ∷ 16 ∷ 17 ∷ 18 ∷ 19 ∷ 20 ∷ []

abbrev folder : Folder
folder = record { file = λ name. some image; opens = λ name. true }

asks :
    (n : ℕ)
    → n * 16 ≤ length image
    → (options.block_size (ask n) ≡ 16) × (options.byte_offset (ask n) ≡ n * 16)
asks n inside =
    let smallest : n * 16 % 8 ≡ 0 = omega arith in
    let number : n * 16 / 16 ≡ n = omega arith in (rw smallest refl, rw (smallest, number) refl)

fetch-file_example : fetch options folder (b'a' ∷ []) ask 2 0 ≡ some image
fetch-file_example =
    fetch-file options folder (b'a' ∷ []) image refl refl (omega arith) 16 ask asks 2 (omega arith)

get_file_handler-short_example :
    (get_file_handler options folder (b'a' ∷ []) none
      ≡ content 20 (record { number = 0; more = true; size = 512 }) image)
    × (get_file_handler options folder (b'a' ∷ []) (some (16 + 5)) ≡ out_of_bound)
get_file_handler-short_example =
    get_file_handler-short options folder (b'a' ∷ []) image refl refl (omega arith) (16 + 5)
      (omega arith) refl

version_parts : split_version (b'1' ∷ b'|' ∷ b'2' ∷ b'|' ∷ []) ≡ (b'1' ∷ [], b'2' ∷ b'|' ∷ [])
unfolding split_version ℕ_discrete
version_parts = refl

route_packet :
    route_at (router ++ (1 ∷ 3 ∷ pump)) ≡ some (record { parent = router; layer = 259 }, pump)
unfolding route_at
route_packet = refl

config_packet :
    config_at (router ++ pump ++ (182 ∷ []))
    ≡ some (record { mac_ap = router; net_id = pump; channel_config = 6; channel_conn = 11 }, [])
unfolding config_at
config_packet = refl
