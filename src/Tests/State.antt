-- ===== src/Tests/State.antt =====
-- A device, its apps and its loads, and a list of devices.
use agro_daemon.Base.{
  zero, suc, none, ◌-◌, ◌^◌, ℕ, ◌<◌, ◌≡◌, refl, true, some, List, [], ◌∷◌, All, arith, ℕ_discrete,
}
use agro_daemon.Device.Mac.{MeshAddr}
use agro_daemon.Device.Packets.{App, Job}
use agro_daemon.Device.AppList.{read_packet_app_list}
use agro_daemon.Device.AppList.Overrun.{read_packet_app_list-overrun}
use agro_daemon.Device.AppList.RoundTrip as Reports
use agro_daemon.Device.AppList.RoundTrip.{app_packets, reported, read_packet_app_list-app_packets}
use agro_daemon.Device.State.Jobs.{Fits, job_packets, set_jobs-job_packets}
use agro_daemon.Device.State.{
  set_jobs, Device, empty_device, update_ac_load, values_of, gpios_array,
}
use agro_daemon.Device.State.Load.{bit_at, bit_of, last_gpios, update_ac_load-bits}
use agro_daemon.Device.State.Apps as Apps
use agro_daemon.Device.State.Apps.{app_at, app_at-run}
use agro_daemon.Device.Lists.{DeviceList}
use agro_daemon.Sensor.Values.{back}

abbrev pump : Device ℕ
pump = record (empty_device 5683) {
  slist = (gpios_array, record { time = 3; value = 0x200 } ∷ []) ∷ [];
}

update_ac_load-bits_example :
    ((bit_at 8 (update_ac_load 9 pump 0 true).0) ≡ bit_of true)
    × (last_gpios (back (values_of (update_ac_load 9 pump 0 true).1.slist gpios_array))
        ≡ (update_ac_load 9 pump 0 true).0)
unfolding ℕ_discrete
update_ac_load-bits_example = update_ac_load-bits 9 pump 0 8 true (omega arith) (omega arith)

abbrev app_ops : List Apps.Op
app_ops =
    Apps.adds (1 ∷ 2 ∷ []) 100 (7 ∷ [])
    ∷ Apps.adds (1 ∷ 2 ∷ []) 200 (8 ∷ [])
    ∷ Apps.deletes (3 ∷ [])
    ∷ []

app_at-run_example :
    app_at (Apps.run pump app_ops).apps (1 ∷ 2 ∷ [])
    ≡ Apps.effects app_ops (1 ∷ 2 ∷ []) (app_at pump.apps (1 ∷ 2 ∷ []))
app_at-run_example = app_at-run pump app_ops (1 ∷ 2 ∷ [])

abbrev valve : MeshAddr
valve = 1 ∷ 2 ∷ 3 ∷ 4 ∷ 5 ∷ 0xff ∷ []

valve-bytes : All (λ b. b < 256) valve
valve-bytes =
    (omega arith, (omega arith, (omega arith, (omega arith, (omega arith, (omega arith, tt))))))

abbrev devices : DeviceList ℕ
devices = (valve, pump) ∷ []

abbrev watering : Job
watering = record {
  hour_before = 6;
  minute_before = 30;
  hour_after = 7;
  minute_after = 0;
  day_of_week = 0x7f;
  priority = 1;
  app_name = b'v' ∷ b'1' ∷ [];
  argument = 2 ^ 32 - 1;
}

abbrev job_list : List Job
job_list = watering ∷ watering ∷ []

watering-Fits : Fits watering
watering-Fits = record {
  name_size = omega arith;
  name_bytes = ((λ p. omega arith), ((λ p. omega arith), tt));
  argument_size = omega arith;
}

set_jobs-job_packets_example :
    set_jobs pump (job_packets job_list) ≡ some (record pump { jobs = job_list })
set_jobs-job_packets_example =
    set_jobs-job_packets pump job_list (watering-Fits, (watering-Fits, tt))

abbrev repeated : ℕ → ℕ → List ℕ
repeated zero c = []
repeated (suc n) c = c ∷ repeated n c

abbrev app_list : List App
app_list =
    record { name = 1 ∷ 2 ∷ []; size = 70000; hash = repeated 32 5 }
    ∷ record { name = 3 ∷ []; size = 12; hash = repeated 32 6 }
    ∷ []

app_list-Fits : All Reports.Fits app_list
unfolding ℕ_discrete
app_list-Fits = (
  record {
    name_size = omega arith;
    name_bytes = (omega arith, (omega arith, tt));
    size_bound = omega arith;
    hash_bytes = refl;
  },
  (
    record {
      name_size = omega arith;
      name_bytes = (omega arith, tt);
      size_bound = omega arith;
      hash_bytes = refl;
    },
    tt,
  ),
)

read_packet_app_list-app_packets_example :
    read_packet_app_list pump (app_packets app_list)
    ≡ some (Apps.run pump (Apps.clears ∷ reported app_list))
read_packet_app_list-app_packets_example =
    read_packet_app_list-app_packets pump app_list app_list-Fits

read_packet_app_list-overrun_example : read_packet_app_list pump (repeated 60 7) ≡ none
read_packet_app_list-overrun_example =
    read_packet_app_list-overrun pump (repeated 60 7) (omega arith) (omega arith)
