-- ===== src/Device/AppList.antt =====
-- The list of apps that a device reports: `read_packet_app_list` of src/device/helper.cpp. Numbers
-- have their low byte first, and three bytes fill an `app_packet` up to a multiple of four.
pub mod RoundTrip
pub mod Overrun
use agro_daemon.Base.{◌/◌, length, ℕ, zero, suc, ◌+◌, ◌*◌, ◌^◌, List, [], ◌∷◌, Option, none, some}
use agro_daemon.Device.Packets.{c_string, skip}
use agro_daemon.Device.State.{Device, add_app, clear_apps}

abbrev pub app_max_name_size : ℕ
app_max_name_size = 12

abbrev pub hash_size : ℕ
hash_size = 32

-- `sizeof(app_packet)`.
abbrev pub app_packet_size : ℕ
app_packet_size = 4 + hash_size + (app_max_name_size + 1) + 3

-- The first `n` bytes; `none` when there are less.
unfoldable pub read_bytes : ℕ → List ℕ → Option (List ℕ)
read_bytes zero bytes = some []
read_bytes (suc n) [] = none
read_bytes (suc n) (c ∷ bytes) = elim (read_bytes n bytes) [ none ↦ none | some cs ↦ some (c ∷ cs) ]

module _ {Endpoint : Type 0} where
  -- The packet at the front is added; `none` is a read past the end of the bytes.
  unfoldable pub read_app : Device Endpoint → List ℕ → Option (Device Endpoint)
  read_app d (s₀ ∷ s₁ ∷ s₂ ∷ s₃ ∷ bytes) =
      elim (c_string (app_max_name_size + 1) (skip hash_size bytes)) [
        | none ↦ none
        | some name ↦ elim (read_bytes hash_size bytes) [
          | none ↦ none
          | some hash ↦ some (add_app d name (s₀ + 2 ^ 8 * s₁ + 2 ^ 16 * s₂ + 2 ^ 24 * s₃) hash)
        ]
      ]
  read_app d bytes = none

  -- The loop, with `n` rounds to go.
  unfoldable pub read_apps : ℕ → Device Endpoint → List ℕ → Option (Device Endpoint)
  read_apps zero d bytes = some d
  read_apps (suc n) d bytes = elim (read_app d bytes) [
    | none ↦ none
    | some d' ↦ read_apps n d' (skip app_packet_size bytes)
  ]

  -- The loop runs for `i = 0, 52, 104, …` below the size.
  unfoldable pub read_packet_app_list : Device Endpoint → List ℕ → Option (Device Endpoint)
  read_packet_app_list d bytes =
      read_apps ((length bytes + 51) / app_packet_size) (clear_apps d) bytes
