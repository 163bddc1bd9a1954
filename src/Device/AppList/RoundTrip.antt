-- ===== src/Device/AppList/RoundTrip.antt =====
-- What the list of apps of a device is after a report: `read_packet_app_list` of
-- src/device/helper.cpp.
use agro_daemon.Base.{
  ℕ, zero, suc, ◌+◌, ◌*◌, ◌/◌, ◌%◌, ◌^◌, ◌<◌, ◌≡◌, refl, ◌≢◌, some, List, [], ◌∷◌, ◌++◌, nat_eq,
  length, All, arith, ◌∙◌, ap, sym,
}
use agro_daemon.Device.Packets.{App, skip}
use agro_daemon.Device.Packets.Padded.{padded, c_string-padded, skip-padded, length-padded}
use agro_daemon.Device.State.{Device, add_app, clear_apps}
use agro_daemon.Device.State.Apps.{Op, adds, clears, step, run}
use agro_daemon.Device.AppList.{read_bytes, read_app, read_apps, read_packet_app_list}

-- The packet of an app in front of other bytes.
pub app_packet : App → List ℕ → List ℕ
app_packet a rest =
    a.size % 2 ^ 8
    ∷ a.size / 2 ^ 8 % 2 ^ 8
    ∷ a.size / 2 ^ 16 % 2 ^ 8
    ∷ a.size / 2 ^ 24
    ∷ (a.hash ++ padded 13 a.name (0 ∷ 0 ∷ 0 ∷ rest))

pub app_packets : List App → List ℕ
app_packets [] = []
app_packets (a ∷ apps) = app_packet a (app_packets apps)

-- The name fits with a zero behind it, and holds no zero; the size has 32 bits, the hash 32 bytes.
pub record Fits (a : App) : Type 0 where
  pub name_size : length a.name < 13
  pub name_bytes : All (λ c. c ≢ 0) a.name
  pub size_bound : a.size < 2 ^ 32
  pub hash_bytes : length a.hash ≡ 32

-- The adds that a report stands for.
pub reported : List App → List Op
reported [] = []
reported (a ∷ apps) = adds a.name a.size a.hash ∷ reported apps

read_bytes_++ :
    (n : ℕ) (hash rest : List ℕ) → length hash ≡ n → read_bytes n (hash ++ rest) ≡ some hash
unfolding read_bytes
read_bytes_++ zero [] rest h = refl
read_bytes_++ zero (c ∷ hash) rest h = absurd (omega arith)
read_bytes_++ (suc n) [] rest h = absurd (omega arith)
read_bytes_++ (suc n) (c ∷ hash) rest h = ground (arith, read_bytes_++ n hash rest (omega arith))

skip_nil : (n : ℕ) → skip n [] ≡ []
unfolding skip
skip_nil zero = refl
skip_nil (suc n) = refl

skip_++ : (n : ℕ) (hash rest : List ℕ) → length hash ≡ n → skip n (hash ++ rest) ≡ rest
unfolding skip
skip_++ zero [] rest h = refl
skip_++ zero (c ∷ hash) rest h = absurd (omega arith)
skip_++ (suc n) [] rest h = absurd (omega arith)
skip_++ (suc n) (c ∷ hash) rest h = skip_++ n hash rest (omega arith)

skip_add : (n m : ℕ) (bytes : List ℕ) → skip (n + m) bytes ≡ skip m (skip n bytes)
unfolding skip
skip_add zero m bytes = ap (λ k. skip k bytes) (omega arith)
skip_add (suc n) m [] = skip_nil (suc n + m) ∙ sym (skip_nil m)
skip_add (suc n) m (c ∷ bytes) =
    let sum : suc n + m ≡ suc (n + m) = omega arith in
    ap (λ k. skip k (c ∷ bytes)) sum ∙ skip_add n m bytes

-- The packet at the front is behind the reader after its 52 bytes.
skip-app_packet : (a : App) (rest : List ℕ) → Fits a → skip 52 (app_packet a rest) ≡ rest
unfolding app_packet skip
skip-app_packet a rest h =
    let name = padded 13 a.name (0 ∷ 0 ∷ 0 ∷ rest) in
    skip_add 32 16 (a.hash ++ name)
    ∙ ap (skip 16) (skip_++ 32 a.hash name h.hash_bytes)
    ∙ skip_add 13 3 name
    ∙ ap (skip 3) (skip-padded 13 a.name (0 ∷ 0 ∷ 0 ∷ rest))

read_app-app_packet :
    {Endpoint : Type 0} (d : Device Endpoint) (a : App) (rest : List ℕ)
    → Fits a
    → read_app d (app_packet a rest) ≡ some (add_app d a.name a.size a.hash)
unfolding read_app app_packet
read_app-app_packet d a rest h =
    let tail = 0 ∷ 0 ∷ 0 ∷ rest in
    let behind = skip_++ 32 a.hash (padded 13 a.name tail) h.hash_bytes in
    let name = c_string-padded 13 a.name tail h.name_size h.name_bytes in
    let hash = read_bytes_++ 32 a.hash (padded 13 a.name tail) h.hash_bytes in
    let size : a.size % 2 ^ 8
          + 2 ^ 8 * (a.size / 2 ^ 8 % 2 ^ 8)
          + 2 ^ 16 * (a.size / 2 ^ 16 % 2 ^ 8)
          + 2 ^ 24 * (a.size / 2 ^ 24)
        ≡ a.size =
      omega (arith, h.size_bound) in
    rw (read_app, app_packet, behind, name, hash, size) refl

length_++ : (xs ys : List ℕ) → length (xs ++ ys) ≡ length xs + length ys
length_++ [] ys = omega arith
length_++ (x ∷ xs) ys = omega (arith, length_++ xs ys)

length-app_packets :
    (apps : List App) → All Fits apps → length (app_packets apps) ≡ 52 * length apps
unfolding app_packets app_packet
length-app_packets [] h = refl
length-app_packets (a ∷ apps) h =
    let tail = 0 ∷ 0 ∷ 0 ∷ app_packets apps in
    omega (
      arith,
      length_++ a.hash (padded 13 a.name tail),
      length-padded 13 a.name tail,
      length-app_packets apps h.1,
      h.0.hash_bytes,
    )

read_apps-app_packets :
    {Endpoint : Type 0} (d : Device Endpoint) (apps : List App)
    → All Fits apps
    → read_apps (length apps) d (app_packets apps) ≡ some (run d (reported apps))
unfolding read_apps app_packets reported run step
read_apps-app_packets d [] h = refl
read_apps-app_packets d (a ∷ apps) h =
    rw
      (
        read_apps,
        app_packets,
        read_app-app_packet d a (app_packets apps) h.0,
        skip-app_packet a (app_packets apps) h.0,
      )
      (read_apps-app_packets (add_app d a.name a.size a.hash) apps h.1)

-- A report of apps whose names fit their arrays with a zero behind them, with sizes of 32 bits and
-- hashes of 32 bytes, is read to its end: the old apps are dropped, the reported apps are added in
-- their order, and nothing else of the device changes.
pub read_packet_app_list-app_packets :
    {Endpoint : Type 0} (d : Device Endpoint) (apps : List App)
    → All Fits apps
    → read_packet_app_list d (app_packets apps) ≡ some (run d (clears ∷ reported apps))
unfolding read_packet_app_list run step
read_packet_app_list-app_packets d apps h =
    let size = length-app_packets apps h in
    let rounds : (52 * length apps + 51) / 52 ≡ length apps = omega arith in
    rw (size, rounds) (read_apps-app_packets (clear_apps d) apps h)
