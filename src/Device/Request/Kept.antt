-- ===== src/Device/Request/Kept.antt =====
-- The handlers that look at the devices alone change the device of the answer at most.
use agro_daemon.Base.{
  ℕ, ◌≡◌, refl, Bool, true, false, Option, none, some, List, [], ◌∷◌, nat_eq, if◌then◌else◌, arith,
  Option-cases, inl, inr, sym, ◌≢◌,
}
use agro_daemon.Base.Dict
use agro_daemon.Device.Mac.{MeshAddr}
use agro_daemon.Device.InProgress.{addr_eq}
use agro_daemon.Device.State.{Device, update_rtc_time, set_fuse}
use agro_daemon.Device.Lists.{DeviceList, find_device}
use agro_daemon.Device.Request.Response.{
  Notice, Handled, fault, done, changed, at_host, say, int32_at, process_rtc_time, process_fuse,
  process_jobs,
}
use agro_daemon.Device.Request.Respond.{process_ac_load, ac_load_response}
use agro_daemon.Instance.Readings.{SensorType}
use agro_daemon.Sensor.Kinds.{SensorTypeList}

module _ {Endpoint : Type 0} (devices : DeviceList Endpoint) (host : MeshAddr) where
  -- Whatever else a handler does, the device of another address stays as it is.
  unfoldable pub Kept : MeshAddr → Handled Endpoint → Type 0
  Kept a h =
      (devices' : DeviceList Endpoint) (notices : List (Notice Endpoint))
      → h ≡ done devices' notices
      → find_device devices' a ≡ find_device devices a

  module _ (a : MeshAddr) (other : host ≢ a) where
    pub done-Kept : (notices : List (Notice Endpoint)) → Kept a (done devices notices)
    unfolding Kept
    done-Kept notices devices' notices' e =
        let same : devices ≡ devices' = ground arith in rw (sym same) refl

    fault-Kept : Kept a fault
    unfolding Kept
    fault-Kept devices' notices' e = absurd (ground arith)

    adjusted-Kept :
        (f : Device Endpoint → Device Endpoint) (notices : List (Notice Endpoint))
        → Kept a (done (Dict.adjust host f devices) notices)
    unfolding Kept find_device
    adjusted-Kept f notices devices' notices' e =
        let same : Dict.adjust host f devices ≡ devices' = ground arith in
        rw (sym same) (Dict.lookup-adjust_ne a host f devices other)

    pub at_host-Kept :
        (missing : Handled Endpoint) (f : Device Endpoint → Handled Endpoint)
        → Kept a missing
        → ((dev : Device Endpoint) → Kept a (f dev))
        → Kept a (at_host devices host missing f)
    at_host-Kept missing f m h = elim (Option-cases (Dict.lookup host devices)) [
      | inl none_ ↦ rw (none_, at_host) m
      | inr (dev, some_) ↦ rw (some_, at_host) (h dev)
    ]

    pub changed-Kept :
        (o : Option (Device Endpoint)) (notice : Device Endpoint → Notice Endpoint)
        → Kept a (changed devices host o notice)
    changed-Kept none notice = fault-Kept
    changed-Kept (some dev) notice = adjusted-Kept (λ old. dev) (notice dev ∷ [])

    if-Kept :
        (b : Bool) (h k : Handled Endpoint) → Kept a h → Kept a k → Kept a (if b then h else k)
    if-Kept true h k x y = x
    if-Kept false h k x y = y

    pub option-Kept :
        (o : Option ℕ) (f : ℕ → Handled Endpoint)
        → ((n : ℕ) → Kept a (f n))
        → Kept a (elim o [ none ↦ fault | some n ↦ f n ])
    option-Kept none f h = fault-Kept
    option-Kept (some n) f h = h n

    pub process_rtc_time-Kept :
        (now : ℕ) (payload : List ℕ) → Kept a (process_rtc_time devices host now payload)
    unfolding process_rtc_time
    process_rtc_time-Kept now payload = at_host-Kept _ _ fault-Kept (λ dev.
        option-Kept (int32_at payload) _
          (λ time. changed-Kept (some (update_rtc_time now dev time)) Notice.rtc_time))

    pub process_fuse-Kept : (payload : List ℕ) → Kept a (process_fuse devices host payload)
    unfolding process_fuse
    process_fuse-Kept payload = at_host-Kept _ _ fault-Kept (λ dev.
        option-Kept (int32_at payload) _
          (λ time. changed-Kept (some (set_fuse dev time)) Notice.fuse))

    pub process_jobs-Kept : (payload : List ℕ) → Kept a (process_jobs devices host payload)
    unfolding process_jobs
    process_jobs-Kept payload = at_host-Kept _ _ (done-Kept _) (λ dev. changed-Kept _ _)

    -- A handler that looks at the code of the answer first.
    pub refusing-Kept :
        (b : Bool) (notice : Notice Endpoint) (h : Handled Endpoint)
        → Kept a h
        → Kept a (if b then say devices host notice else h)
    refusing-Kept b notice h k = if-Kept b _ _ (done-Kept _) k

    process_ac_load-Kept :
        (kinds : SensorTypeList) (now : ℕ) (sensor : SensorType)
        → Kept a (process_ac_load devices host kinds now sensor)
    unfolding process_ac_load
    process_ac_load-Kept kinds now sensor = at_host-Kept _ _ fault-Kept (λ dev. adjusted-Kept _ _)

    pub ac_load_response-Kept :
        (kinds : SensorTypeList) (now : ℕ) (payload : List ℕ)
        → Kept a (ac_load_response devices host kinds now payload)
    unfolding ac_load_response
    ac_load_response-Kept kinds now (t₀ ∷ t₁ ∷ t₂ ∷ i ∷ v₀ ∷ v₁ ∷ v₂ ∷ v₃ ∷ []) =
        process_ac_load-Kept kinds now _
    ac_load_response-Kept kinds now payload = done-Kept []
