-- ===== src/Instance/Network/Roots.antt =====
-- The time limit of root devices.
use agro_daemon.Base.{
  ◌-◌, ◌^◌, ℕ, ◌+◌, ◌%◌, ◌<◌, ◌≡◌, refl, ◌&&◌, not, some, ◌==◌, nat_eq, ltb, arith,
}
use agro_daemon.Base.Dict
use agro_daemon.Device.Mac.{MeshAddr}
use agro_daemon.Device.InProgress.{addr_eq}
use agro_daemon.Device.State.{Device, update_last_packet_time}
use agro_daemon.Device.Lists.{DeviceList}
use agro_daemon.Instance.Network.{check_root}

-- A device whose last packet came at one time and that is checked at a later time, less than 2 ^ 32
-- milliseconds after it, is refused exactly if more than the limit has passed and its layer is 1, also
-- where the clock of 32 bits wraps between the two times.
pub check_root-elapsed :
    {Endpoint : Type 0} (list : DeviceList Endpoint) (addr : MeshAddr) (d : Device Endpoint)
    (then_ elapsed limit : ℕ)
    → Dict.lookup addr list ≡ some (update_last_packet_time then_ d)
    → elapsed < 2 ^ 32
    → check_root (then_ + elapsed) limit list addr ≡ not (ltb limit elapsed && d.layer == 1)
unfolding check_root update_last_packet_time
check_root-elapsed list addr d then_ elapsed limit found h =
    let wrap : ((then_ + elapsed) % 2 ^ 32 + 2 ^ 32 - then_ % 2 ^ 32) % 2 ^ 32 ≡ elapsed =
      omega (arith, h) in
    rw (check_root, found, wrap) refl
