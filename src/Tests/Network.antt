-- ===== src/Tests/Network.antt =====
-- The states of devices and the time limit of roots.
use agro_daemon.Base.{
  ℕ, ◌+◌, ◌≡◌, ◌&&◌, not, List, [], ◌∷◌, map, some, ◌==◌, nat_eq, ltb, arith, contains,
}
use agro_daemon.Base.Dict
use agro_daemon.Device.Mac.{MeshAddr}
use agro_daemon.Device.InProgress.{addr_eq}
use agro_daemon.Device.State.{Device, empty_device, update_last_packet_time}
use agro_daemon.Device.Tree.{Node}
use agro_daemon.Device.Tree.Forest.{Forest, empty, branch, member}
use agro_daemon.Instance.Network.{Network, Event, check_device_state, check_root}
use agro_daemon.Instance.Network.States.{Reports, check_device_state-Reports}
use agro_daemon.Instance.Network.Roots.{check_root-elapsed}
use agro_daemon.Tests.Mesh.{router, pump, valve, pair, mesh, mesh-Shows}

-- The pump was not connected and the unconnected device was.
abbrev network : Network ℕ
network = record { tree = mesh; old_unconnected = pump ∷ [] }

abbrev shown : Forest
shown = branch router pair empty

check_device_state-Reports_example :
    (events : List Event) × (n' : Network ℕ) × (check_device_state 9 network ≡ some (events, n'))
    × (n'.tree ≡ mesh)
    × ((a : MeshAddr) (m : Node)
        → Dict.lookup a mesh.nodes ≡ some m
        → (contains n'.old_unconnected a ≡ not (member a shown))
          × Reports events a
              (contains (map (λ e. e.0) mesh.dev_list) a
                && (contains (pump ∷ []) a && member a shown))
              (contains (map (λ e. e.0) mesh.dev_list) a
                && (not (contains (pump ∷ []) a) && not (member a shown))))
check_device_state-Reports_example =
    check_device_state-Reports 9 network {f = shown} mesh-Shows (omega arith)

-- A packet half a second before the clock of 32 bits wraps, and a check half a minute later.
abbrev last_time : ℕ
last_time = 4294966796

abbrev seen : Device ℕ
seen = record (empty_device 5683) { layer = 1 }

check_root-elapsed_example :
    check_root
      (last_time + 31500)
      31000
      ((valve, update_last_packet_time last_time seen) ∷ [])
      valve
    ≡ not (ltb 31000 31500 && seen.layer == 1)
unfolding Dict.lookup
check_root-elapsed_example =
    check_root-elapsed ((valve, update_last_packet_time last_time seen) ∷ []) valve seen last_time
      31500 31000 (ground arith) (omega arith)
