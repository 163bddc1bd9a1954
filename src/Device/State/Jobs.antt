-- ===== src/Device/State/Jobs.antt =====
-- The packets of jobs that a device reports are read back.
use agro_daemon.Base.{
  ℕ, ℕ_discrete, ◌+◌, ◌*◌, ◌/◌, ◌%◌, ◌^◌, ◌<◌, ◌≡◌, refl, ◌≢◌, some, List, [], ◌∷◌, nat_eq, length,
  All, arith,
}
use agro_daemon.Device.Packets.{Job, read_jobs, packet_size}
use agro_daemon.Device.Packets.Padded.{padded, c_string-padded, skip-padded, length-padded}
use agro_daemon.Device.State.{Device, set_jobs}

-- The packet of a job in front of other bytes.
pub job_packet : Job → List ℕ → List ℕ
job_packet j rest =
    j.hour_before
    ∷ j.minute_before
    ∷ j.hour_after
    ∷ j.minute_after
    ∷ j.day_of_week
    ∷ j.priority
    ∷ j.argument % 2 ^ 8
    ∷ j.argument / 2 ^ 8 % 2 ^ 8
    ∷ j.argument / 2 ^ 16 % 2 ^ 8
    ∷ j.argument / 2 ^ 24
    ∷ padded 12 j.app_name rest

pub job_packets : List Job → List ℕ
job_packets [] = []
job_packets (j ∷ js) = job_packet j (job_packets js)

-- The name fits with a zero behind it, and holds no zero; the argument has 32 bits.
pub record Fits (j : Job) : Type 0 where
  pub name_size : length j.app_name < 12
  pub name_bytes : All (λ c. c ≢ 0) j.app_name
  pub argument_size : j.argument < 2 ^ 32

length-job_packets : (js : List Job) → length (job_packets js) ≡ packet_size * length js
unfolding job_packets job_packet
length-job_packets [] = refl
length-job_packets (j ∷ js) =
    omega (arith, length-padded 12 j.app_name (job_packets js), length-job_packets js)

read_jobs-job_packets :
    (js : List Job) → All Fits js → read_jobs (length js) (job_packets js) ≡ some js
unfolding read_jobs job_packets job_packet
read_jobs-job_packets [] h = refl
read_jobs-job_packets (j ∷ js) h =
    let name = c_string-padded 12 j.app_name (job_packets js) h.0.name_size h.0.name_bytes in
    let behind = skip-padded 12 j.app_name (job_packets js) in
    let argument : j.argument % 2 ^ 8
          + 2 ^ 8 * (j.argument / 2 ^ 8 % 2 ^ 8)
          + 2 ^ 16 * (j.argument / 2 ^ 16 % 2 ^ 8)
          + 2 ^ 24 * (j.argument / 2 ^ 24)
        ≡ j.argument =
      omega (arith, h.0.argument_size) in
    ground (arith, name, behind, read_jobs-job_packets js h.1, argument)

-- From the packets of jobs whose names fit their arrays with a zero behind them, and whose arguments
-- have 32 bits, a device takes exactly those jobs in their order, and nothing else of it changes.
pub set_jobs-job_packets :
    {Endpoint : Type 0} (d : Device Endpoint) (js : List Job)
    → All Fits js
    → set_jobs d (job_packets js) ≡ some (record d { jobs = js })
unfolding set_jobs ℕ_discrete
set_jobs-job_packets d js h =
    let size = length-job_packets js in
    let whole : packet_size * length js % packet_size ≡ 0 = omega arith in
    let count : packet_size * length js / packet_size ≡ length js = omega arith in
    rw (size, whole, count, read_jobs-job_packets js h) refl
