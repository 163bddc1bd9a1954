-- ===== src/Device/Packets.antt =====
-- Apps and jobs of a device and the packets of jobs: src/device/types.hpp and the loop of
-- `Device::jobs` in src/device/device.cpp. A text is the list of its bytes.
pub mod Padded
use agro_daemon.Base.{
  ℕ, zero, suc, ◌+◌, ◌*◌, ◌^◌, List, [], ◌∷◌, Option, none, some, ◌==◌, nat_eq, if◌then◌else◌,
}

pub record App : Type 0 where
  pub name : List ℕ
  pub size : ℕ
  pub hash : List ℕ

pub record Job : Type 0 where
  pub hour_before : ℕ
  pub minute_before : ℕ
  pub hour_after : ℕ
  pub minute_after : ℕ
  pub day_of_week : ℕ
  pub priority : ℕ
  pub app_name : List ℕ
  pub argument : ℕ

abbrev pub max_app_name_size : ℕ
max_app_name_size = 12

-- `job::packet_size`: six bytes, an `int32_t` and the name of an app.
abbrev pub packet_size : ℕ
packet_size = 6 + (4 + 12)

-- `std::string(const char*)` of an array of `n` bytes; without a zero among them it reads past the
-- array, which is `none`.
unfoldable pub c_string : ℕ → List ℕ → Option (List ℕ)
c_string zero bytes = none
c_string (suc n) [] = none
c_string (suc n) (c ∷ bytes) =
    let rest = c_string n bytes in
    if c == 0 then some [] else elim rest [ none ↦ none | some cs ↦ some (c ∷ cs) ]

-- The bytes behind the first `n`.
unfoldable pub skip : ℕ → List ℕ → List ℕ
skip zero bytes = bytes
skip (suc n) [] = []
skip (suc n) (c ∷ bytes) = skip n bytes

-- The loop over the packets, of which `n` are left; the argument has its low byte first.
unfoldable pub read_jobs : ℕ → List ℕ → Option (List Job)
read_jobs zero bytes = some []
read_jobs (suc n) (hour ∷ minute ∷ hour' ∷ minute' ∷ day ∷ priority ∷ a₀ ∷ a₁ ∷ a₂ ∷ a₃ ∷ exec) =
    let rest = read_jobs n (skip max_app_name_size exec) in
    elim (c_string max_app_name_size exec) [
      | none ↦ none
      | some name ↦ elim rest [
        | none ↦ none
        | some js ↦ some (
            record {
              hour_before = hour;
              minute_before = minute;
              hour_after = hour';
              minute_after = minute';
              day_of_week = day;
              priority = priority;
              app_name = name;
              argument = a₀ + 2 ^ 8 * a₁ + 2 ^ 16 * a₂ + 2 ^ 24 * a₃;
            }
            ∷ js)
      ]
    ]
read_jobs (suc n) bytes = none
