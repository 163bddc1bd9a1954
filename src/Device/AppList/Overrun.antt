-- ===== src/Device/AppList/Overrun.antt =====
-- Reports of apps that end in the middle of a packet: `read_packet_app_list` of
-- src/device/helper.cpp.
use agro_daemon.Base.{
  ℕ, zero, suc, ◌+◌, ◌-◌, ◌*◌, ◌/◌, ◌%◌, ◌<◌, ◌≤◌, ◌≡◌, refl, none, List, [], ◌∷◌, nat_eq, length,
  arith, Option-cases, inl, inr,
}
use agro_daemon.Device.Packets.{c_string, skip}
use agro_daemon.Device.State.{Device, clear_apps}
use agro_daemon.Device.AppList.{read_app, read_apps, read_packet_app_list}

length-skip : (n : ℕ) (bytes : List ℕ) → length (skip n bytes) ≡ length bytes - n
unfolding skip
length-skip zero bytes = omega arith
length-skip (suc n) [] = omega arith
length-skip (suc n) (c ∷ bytes) = omega (arith, length-skip n bytes)

skip_short : (n : ℕ) (bytes : List ℕ) → length bytes ≤ n → skip n bytes ≡ []
unfolding skip
skip_short zero [] h = refl
skip_short zero (c ∷ bytes) h = absurd (omega arith)
skip_short (suc n) [] h = refl
skip_short (suc n) (c ∷ bytes) h = skip_short n bytes (omega arith)

-- No name is behind the hash.
read_app_short :
    {Endpoint : Type 0} (d : Device Endpoint) (bytes : List ℕ)
    → length bytes < 37
    → read_app d bytes ≡ none
unfolding read_app c_string skip
read_app_short d [] h = refl
read_app_short d (s₀ ∷ []) h = refl
read_app_short d (s₀ ∷ s₁ ∷ []) h = refl
read_app_short d (s₀ ∷ s₁ ∷ s₂ ∷ []) h = refl
read_app_short d (s₀ ∷ s₁ ∷ s₂ ∷ s₃ ∷ bytes) h = rw (skip_short 32 bytes (omega arith)) refl

read_apps_short :
    {Endpoint : Type 0} (n : ℕ) (d : Device Endpoint) (bytes : List ℕ)
    → length bytes < 52 * n + 37
    → read_apps (suc n) d bytes ≡ none
unfolding read_apps
read_apps_short zero d bytes h = rw (read_apps, read_app_short d bytes (omega arith)) refl
read_apps_short (suc n) d bytes h = elim (Option-cases (read_app d bytes)) [
  | inl e ↦ rw (read_apps, e) refl
  | inr (d', e) ↦
      rw (read_apps, e) (read_apps_short n d' (skip 52 bytes) (omega (arith, length-skip 52 bytes)))
]

-- A report that ends inside a packet, before its name, is read past its end, whatever stands in it:
-- the number of its bytes is not compared with the size of a packet.
pub read_packet_app_list-overrun :
    {Endpoint : Type 0} (d : Device Endpoint) (bytes : List ℕ)
    → 0 < length bytes % 52
    → length bytes % 52 < 37
    → read_packet_app_list d bytes ≡ none
unfolding read_packet_app_list
read_packet_app_list-overrun d bytes h h' =
    let rounds : (length bytes + 51) / 52 ≡ suc (length bytes / 52) = omega arith in
    rw rounds (read_apps_short (length bytes / 52) (clear_apps d) bytes (omega arith))
