-- ===== src/Device/Request/JobList.antt =====
-- The jobs of a document are what the device holds once they were sent and read back.
use agro_daemon.Base.{
  ℕ, ◌*◌, ◌/◌, ◌%◌, ◌≤◌, ◌≡◌, refl, ◌≢◌, String, Option, none, some, List, [], ◌∷◌, ◌++◌, nat_eq,
  ℕ_discrete, length, length-append, ltb, true, false, ◌<◌, All, arith, inl, inr, map,
}
use agro_daemon.Message.Json.{Json}
use agro_daemon.Message.User.{
  Read, refused, broken, read, ◌>>=◌, checked, object_at, items_at, text_at, integer_at,
}
use agro_daemon.Device.Packets.{read_jobs, packet_size}
use agro_daemon.Device.State.{Device, set_jobs}
use agro_daemon.Device.Request.{Surroundings, filled, bad_access}
use agro_daemon.Device.Request.Hosts.{Read-cases}
use agro_daemon.Device.Request.Payload.{
  JobEntry, read_entry, job_bytes, send_job_payload, unsigned_at,
}
use agro_daemon.Device.Request.Jobs.{job_of, read_jobs-entry_bytes, entry_bytes-some}

checked_sound {ℓ} : {A : Type ℓ} (o : Option A) → checked o ≢ broken
checked_sound none h = ground arith
checked_sound (some a) h = ground arith

bind_sound {ℓ κ} :
    {A : Type ℓ} {B : Type κ} (m : Read A) (f : A → Read B)
    → m ≢ broken
    → ((a : A) → f a ≢ broken)
    → m >>= f ≢ broken
bind_sound refused f hm hf h = ground arith
bind_sound broken f hm hf h = hm refl
bind_sound (read a) f hm hf h = hf a h

module _ (J : Json) where
  read_entry_sound : (v : J.Value) → read_entry J v ≢ broken
  unfolding read_entry
  read_entry_sound v = bind_sound (object_at J v "begin") _ (checked_sound _) (λ begin.
      bind_sound (unsigned_at J begin "hour") _ (checked_sound _) (λ hour.
        bind_sound (unsigned_at J begin "minute") _ (checked_sound _) (λ minute.
          bind_sound (object_at J v "end") _ (checked_sound _) (λ end.
            bind_sound (unsigned_at J end "hour") _ (checked_sound _) (λ end_hour.
              bind_sound (unsigned_at J end "minute") _ (checked_sound _) (λ end_minute.
                bind_sound (unsigned_at J v "dow") _ (checked_sound _) (λ dow.
                  bind_sound (unsigned_at J v "priority") _ (checked_sound _) (λ priority.
                    bind_sound (text_at J v "exec") _ (checked_sound _) (λ exec.
                      bind_sound (integer_at J v "arg") _ (checked_sound _)
                        (λ arg. ground arith))))))))))

  -- The entries that have all their members.
  unfoldable pub entries_of : List J.Value → List JobEntry
  entries_of [] = []
  entries_of (v ∷ vs) = elim (read_entry J v) [
    | refused ↦ entries_of vs
    | broken ↦ entries_of vs
    | read e ↦ e ∷ entries_of vs
  ]

  job_bytes-entries_of :
      (S : Surroundings) (vs : List J.Value)
      → 11 ≤ length S.behind
      → ((s : String) → All (λ c. c ≢ 0) (S.chars s))
      → (bytes : List ℕ) × (job_bytes J S vs ≡ read bytes)
        × (length bytes ≡ packet_size * length (entries_of vs))
        × (read_jobs (length (entries_of vs)) bytes ≡ some (map (job_of S) (entries_of vs)))
  unfolding job_bytes entries_of read_jobs
  job_bytes-entries_of S [] h nonzero = ([], refl, refl, refl)
  job_bytes-entries_of S (v ∷ vs) h nonzero =
      let (rest, e, size, jobs) = job_bytes-entries_of S vs h nonzero in
      elim (Read-cases (read_entry J v)) [
        | inl (inl refused_) ↦ rw (refused_, job_bytes, entries_of) (rest, e, size, jobs)
        | inl (inr broken_) ↦ absurd (read_entry_sound v broken_)
        | inr (entry, read_) ↦
            let (bytes, e', size') = entry_bytes-some S J entry h in
            rw (read_, job_bytes, entries_of, e', e)
              (
                bytes ++ rest,
                refl,
                omega (arith, length-append bytes rest, size, size'),
                read_jobs-entry_bytes S J entry bytes rest _ _ (nonzero entry.exec) e' jobs,
              )
      ]

  -- For a document with an object `data` and an array `jobs` in it, when the buffer has room for a
  -- packet of each entry with all members, the memory behind a text has eleven bytes more and no text
  -- holds a zero, `send_job_payload` succeeds, and a device that takes
  -- those bytes holds one job for each entry with all members, in their order: with every number cut
  -- down to its bytes and the name of the app to eleven, and with nothing of the memory behind it.
  pub send_job_payload-set_jobs :
      {Endpoint : Type 0} (S : Surroundings) (d : Device Endpoint) (size : ℕ) (doc data_ : J.Value)
      (vs : List J.Value)
      → object_at J doc "data" ≡ read data_
      → items_at J data_ "jobs" ≡ some vs
      → packet_size * length (entries_of vs) ≤ size
      → 11 ≤ length S.behind
      → ((s : String) → All (λ c. c ≢ 0) (S.chars s))
      → (bytes : List ℕ) × (send_job_payload J S size doc ≡ filled bytes)
        × (set_jobs d bytes ≡ some (record d { jobs = map (job_of S) (entries_of vs) }))
  unfolding send_job_payload set_jobs ℕ_discrete
  send_job_payload-set_jobs S d size doc data_ vs found array room h nonzero =
      let (bytes, e, whole_size, jobs) = job_bytes-entries_of S vs h nonzero in
      let n = length (entries_of vs) in
      let whole : packet_size * n % packet_size ≡ 0 = omega arith in
      let count : packet_size * n / packet_size ≡ n = omega arith in
      let fits : ltb size (length bytes) ≡ false = ground (arith, room, whole_size) in
      (
        bytes,
        rw (send_job_payload, found, array, e, fits) refl,
        rw (whole_size, whole, count, jobs) refl,
      )

  -- For a document with an object `data` and an array `jobs` in it, when the buffer has less room than a
  -- packet of each entry with all members takes, the memory behind a text has eleven bytes more and no
  -- text holds a zero, `send_job_payload` accesses memory out of bounds: nothing keeps it in the buffer.
  pub send_job_payload-overrun :
      (S : Surroundings) (size : ℕ) (doc data_ : J.Value) (vs : List J.Value)
      → object_at J doc "data" ≡ read data_
      → items_at J data_ "jobs" ≡ some vs
      → size < packet_size * length (entries_of vs)
      → 11 ≤ length S.behind
      → ((s : String) → All (λ c. c ≢ 0) (S.chars s))
      → send_job_payload J S size doc ≡ bad_access
  unfolding send_job_payload
  send_job_payload-overrun S size doc data_ vs found array long h nonzero =
      let (bytes, e, whole_size, jobs) = job_bytes-entries_of S vs h nonzero in
      let beyond : ltb size (length bytes) ≡ true = ground (arith, long, whole_size) in
      rw (send_job_payload, found, array, e, beyond) refl
