-- ===== src/Device/Request/Payload.antt =====
-- The functions that write the payloads of requests: src/device/request/job.cpp, app.cpp, ota.cpp
-- and time.cpp. Their first argument is the size of the buffer.
use agro_daemon.Base.{
  ℕ, ◌/◌, ◌%◌, ◌^◌, zero, suc, String, Option, none, some, List, [], ◌∷◌, ◌++◌, if◌then◌else◌,
}
use agro_daemon.Message.Json.{Json}
use agro_daemon.Message.User.{
  Read, refused, broken, read, ◌>>=◌, checked, object_at, text_at, integer_at,
}
use agro_daemon.Device.AppList.{read_bytes}
use agro_daemon.Device.Packets.{max_app_name_size}
use agro_daemon.Device.Request.{
  Error, ill_formed, invalid_value, missing_field, app_not_found, image_not_found, Filled, failed,
  bounded, bad_access, filled, Surroundings,
}

-- The four bytes of a number, the low one first.
abbrev pub int32_bytes : ℕ → List ℕ
int32_bytes n = n % 2 ^ 8 ∷ n / 2 ^ 8 % 2 ^ 8 ∷ n / 2 ^ 16 % 2 ^ 8 ∷ n / 2 ^ 24 % 2 ^ 8 ∷ []

-- `exec[n] = '\0'`
abbrev pub cut_at : ℕ → List ℕ → List ℕ
cut_at n [] = []
cut_at zero (c ∷ bytes) = 0 ∷ bytes
cut_at (suc n) (c ∷ bytes) = c ∷ cut_at n bytes

-- A payload from what is read of the document; an early return has the error `e`.
abbrev pub fill : Error → Read (List ℕ) → Filled
fill e refused = failed e
fill e broken = bad_access
fill e (read bytes) = filled bytes

-- `fill` for a function with two errors.
abbrev pub fill_read : Error → Read Filled → Filled
fill_read e refused = failed e
fill_read e broken = bad_access
fill_read e (read f) = f

-- The members of an entry of the array `jobs`.
pub record JobEntry : Type 0 where
  pub hour : ℕ
  pub minute : ℕ
  pub end_hour : ℕ
  pub end_minute : ℕ
  pub dow : ℕ
  pub priority : ℕ
  pub exec : String
  pub arg : ℕ

module _ (J : Json) where
  abbrev pub unsigned_at : J.Value → String → Read ℕ
  unsigned_at v name = checked (elim (J.member v name) [ none ↦ none | some w ↦ J.unsigned w ])

  -- The tests of the loop of `send_job_payload`; an entry that fails one is passed over.
  unfoldable pub read_entry : J.Value → Read JobEntry
  read_entry job = do
    begin ← object_at J job "begin"
    hour ← unsigned_at begin "hour"
    minute ← unsigned_at begin "minute"
    end ← object_at J job "end"
    end_hour ← unsigned_at end "hour"
    end_minute ← unsigned_at end "minute"
    dow ← unsigned_at job "dow"
    priority ← unsigned_at job "priority"
    exec ← text_at J job "exec"
    arg ← integer_at J job "arg"
    read (record {
      hour = hour;
      minute = minute;
      end_hour = end_hour;
      end_minute = end_minute;
      dow = dow;
      priority = priority;
      exec = exec;
      arg = arg;
    })

  module _ (S : Surroundings) where
    -- The two packets of an entry; the copy of the name takes twelve bytes, however long the text is,
    -- and the last one is set to zero.
    unfoldable pub entry_bytes : JobEntry → Option (List ℕ)
    entry_bytes e = elim (read_bytes max_app_name_size (S.chars e.exec ++ (0 ∷ S.behind))) [
      | none ↦ none
      | some exec ↦ some (
          e.hour % 2 ^ 8
          ∷ e.minute % 2 ^ 8
          ∷ e.end_hour % 2 ^ 8
          ∷ e.end_minute % 2 ^ 8
          ∷ e.dow % 2 ^ 8
          ∷ e.priority % 2 ^ 8
          ∷ (int32_bytes e.arg ++ cut_at 11 exec))
    ]

    -- The loop over the array.
    unfoldable pub job_bytes : List J.Value → Read (List ℕ)
    job_bytes [] = read []
    job_bytes (job ∷ jobs) =
        let rest = job_bytes jobs in
        elim (read_entry job) [
          | refused ↦ rest
          | broken ↦ broken
          | read e ↦ elim (entry_bytes e) [
            | none ↦ broken
            | some bytes ↦ rest >>= λ others. read (bytes ++ others)
          ]
        ]

    unfoldable pub send_job_payload : ℕ → J.Value → Filled
    send_job_payload size doc = bounded size (
        fill missing_field (do
          data_ ← object_at J doc "data"
          jobs ← checked (elim (J.member data_ "jobs") [ none ↦ none | some w ↦ J.items w ])
          job_bytes jobs))

    unfoldable pub delete_app_payload : ℕ → J.Value → Filled
    delete_app_payload size doc = bounded size (
        fill missing_field
          (do data_ ← object_at J doc "data"; app ← text_at J data_ "app"; read (S.chars app)))

    unfoldable pub exec_app_payload : ℕ → J.Value → Filled
    exec_app_payload size doc = bounded size (
        fill missing_field (do
          data_ ← object_at J doc "data"
          app ← text_at J data_ "app"
          arg ← integer_at J data_ "arg"
          read (int32_bytes arg ++ S.chars app)))

    -- The hash and the name of an app whose file there is.
    unfoldable pub app_packet : String → Filled
    app_packet app = elim (S.app_hash (S.chars app)) [
      | none ↦ failed app_not_found
      | some hash ↦ filled (hash ++ S.chars app)
    ]

    unfoldable pub send_app_payload : ℕ → J.Value → Filled
    send_app_payload size doc = bounded size (
        fill_read ill_formed (
          object_at J doc "data" >>= λ data_.
          read (fill_read missing_field (text_at J data_ "app" >>= λ app. read (app_packet app)))))

    unfoldable pub update_ota_payload : ℕ → J.Value → Filled
    update_ota_payload size doc = bounded size (
        fill_read missing_field (do
          data_ ← object_at J doc "data"
          image ← text_at J data_ "image"
          read (
              if S.has_image (S.chars image)
              then filled (S.chars image)
              else failed image_not_found)))

    unfoldable pub rtc_update_payload : ℕ → J.Value → Filled
    rtc_update_payload size doc = bounded size (filled (int32_bytes S.get_time))

    unfoldable pub update_fuse_payload : ℕ → J.Value → Filled
    update_fuse_payload size doc = bounded size (
        fill_read missing_field (
          object_at J doc "data" >>= λ data_.
          read (fill invalid_value (integer_at J data_ "payload" >>= λ c. read (int32_bytes c)))))
