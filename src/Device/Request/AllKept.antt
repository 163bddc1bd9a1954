-- ===== src/Device/Request/AllKept.antt =====
-- What the handler of an answer leaves of the devices of other addresses: src/device/request/packet.cpp
-- and the payloads of src/device/resources/process.cpp.
use agro_daemon.Base.{
  ℕ, ◌≡◌, refl, List, [], ◌∷◌, nat_eq, arith, Option-cases, inl, inr, subst, ◌∙◌, ◌≢◌,
}
use agro_daemon.Base.Dict
use agro_daemon.Device.Mac.{MeshAddr}
use agro_daemon.Device.InProgress.{addr_eq}
use agro_daemon.Device.State.{Device}
use agro_daemon.Device.Lists.{find_device}
use agro_daemon.Device.Request.Response.{Notice, Handled, fault, done}
use agro_daemon.Device.Request.Respond.{
  Responded, faulty, unended, responded, with_handled, with_processed, of_device,
}
use agro_daemon.Instance.Devices.{Known, Event, config_written, devices_of, with_devices}
use agro_daemon.Device.Resource.{Config, config_at, Processed, process_packet, update_config_data}
use agro_daemon.Device.Resource.Process.{
  Reading, change_device, process_board, process_config, process_sensors_data,
}
use agro_daemon.Device.Request.Kept.{Kept}

module _ {Endpoint : Type 0} (r : Reading Endpoint) (k : Known Endpoint) (host : MeshAddr) where
  -- What `Kept` says, of all that the daemon knows.
  unfoldable pub AllKept : MeshAddr → Responded Endpoint → Type 0
  AllKept a h =
      (k' : Known Endpoint) (notices : List (Notice Endpoint)) (events : List (Event Endpoint))
      → h ≡ responded k' notices events
      → find_device (devices_of k') a ≡ find_device (devices_of k) a

  module _ (a : MeshAddr) (other : host ≢ a) where
    responded-AllKept :
        (k₁ : Known Endpoint) (notices : List (Notice Endpoint)) (events : List (Event Endpoint))
        → find_device (devices_of k₁) a ≡ find_device (devices_of k) a
        → AllKept a (responded k₁ notices events)
    unfolding AllKept
    responded-AllKept k₁ notices events h k' notices' events' e =
        let same : k₁ ≡ k' = ground arith in
        subst (λ x. find_device (devices_of x) a ≡ find_device (devices_of k) a) same h

    faulty-AllKept : AllKept a faulty
    unfolding AllKept
    faulty-AllKept k' notices events e = absurd (ground arith)

    unended-AllKept : AllKept a unended
    unfolding AllKept
    unended-AllKept k' notices events e = absurd (ground arith)

    pub handled :
        (h : Handled Endpoint) → Kept (devices_of k) host a h → AllKept a (with_handled r k host h)
    unfolding Kept
    handled fault h = faulty-AllKept
    handled (done devices notices) h =
        responded-AllKept (with_devices k devices) notices [] (h devices notices refl)

    changed_device :
        (f : Device Endpoint → Device Endpoint)
        → find_device (Dict.adjust host f (devices_of k)) a ≡ find_device (devices_of k) a
    unfolding find_device
    changed_device f = Dict.lookup-adjust_ne a host f (devices_of k) other

    pub of_device-AllKept :
        (p : Processed Endpoint)
        → AllKept a (with_processed r k host p)
        → AllKept a (of_device r k host p)
    of_device-AllKept p h = elim (Option-cases (Dict.lookup host (devices_of k))) [
      | inl none_ ↦ rw (none_, of_device) faulty-AllKept
      | inr (dev, some_) ↦ rw (some_, of_device) h
    ]

    pub process_board-AllKept :
        (payload : List ℕ) → AllKept a (with_processed r k host (process_board r host k payload))
    unfolding process_board
    process_board-AllKept [] = responded-AllKept k [] [] refl
    process_board-AllKept (flags ∷ str) = elim (Option-cases (Dict.lookup host (devices_of k))) [
      | inl none_ ↦ rw (none_, process_board) faulty-AllKept
      | inr (dev, some_) ↦ rw (some_, process_board) (responded-AllKept _ _ _ (changed_device _))
    ]

    pub process_sensors_data-AllKept :
        (payload : List ℕ)
        → AllKept a (with_processed r k host (process_sensors_data r host k payload))
    unfolding process_sensors_data
    process_sensors_data-AllKept payload = elim (Option-cases (Dict.lookup host (devices_of k))) [
      | inl none_ ↦ rw (none_, process_sensors_data) faulty-AllKept
      | inr (dev, some_) ↦
          rw (some_, process_sensors_data) (responded-AllKept _ _ _ (changed_device _))
    ]

    update_config_data-keeps :
        (data_ : Config)
        → find_device
            (devices_of (
              update_config_data r.given host
                (change_device r host (process_packet r.now r.ep) k)
                data_))
            a
          ≡ find_device (devices_of k) a
    unfolding update_config_data find_device
    update_config_data-keeps data_ =
        Dict.lookup-adjust_ne a host _ (Dict.adjust host (process_packet r.now r.ep) (devices_of k))
          other
        ∙ Dict.lookup-adjust_ne a host (process_packet r.now r.ep) (devices_of k) other

    pub process_config-AllKept :
        (payload : List ℕ) → AllKept a (with_processed r k host (process_config r host k payload))
    unfolding process_config
    process_config-AllKept payload = elim (Option-cases (config_at payload)) [
      | inl none_ ↦ rw (process_config, none_) (responded-AllKept k [] [] refl)
      | inr ((data_, rest), some_) ↦
          let k₁ =
            update_config_data r.given host (change_device r host (process_packet r.now r.ep) k)
              data_ in
          elim (Option-cases (Dict.lookup host (devices_of k₁))) [
            | inl none_ ↦ rw (process_config, some_, none_) faulty-AllKept
            | inr (dev, at_host_) ↦
                rw (process_config, some_, at_host_)
                  (responded-AllKept k₁ [] (config_written dev ∷ [])
                    (update_config_data-keeps data_))
          ]
    ]
