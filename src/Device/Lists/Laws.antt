-- ===== src/Device/Lists/Laws.antt =====
-- The list of devices as a map from addresses, and searches by the text of an address.
use agro_daemon.Base.{
  ◌<◌, ◌≡◌, refl, false, Option, none, some, List, [], ◌∷◌, ◌==◌, if◌then◌else◌, arith, All, length,
  ◌∙◌, ap, Option-cases, Bool-cases, inl, inr, ==_iff, subst, nat_eq,
}
use agro_daemon.Base.Dict
use agro_daemon.Device.Mac.{MeshAddr, mesh_addr_of, to_string}
use agro_daemon.Device.Mac.RoundTrip.{string_to_mac-to_string}
use agro_daemon.Device.InProgress.{addr_eq}
use agro_daemon.Device.State.{Device, new_device}
use agro_daemon.Device.Lists.{DeviceList, find_device, find_text, add, add_or_get}

-- A search by the text of an address of six bytes finds what a search by the address finds, whatever
-- the memory of the new address holds.
pub find_text-to_string :
    {Endpoint : Type 0} (list : DeviceList Endpoint) (a garbage : MeshAddr)
    → length a ≡ 6
    → All (λ b. b < 256) a
    → length garbage ≡ 6
    → find_text garbage list (to_string a) ≡ some (find_device list a)
unfolding find_text find_device mesh_addr_of
find_text-to_string list a garbage ha bytes hg =
    let read = string_to_mac-to_string a garbage ha bytes hg in ground (arith, read)

pub data Op (Endpoint : Type 0) : Type 0 where
  adds : Device Endpoint → Op Endpoint
  gets : Endpoint → MeshAddr → Op Endpoint

module _ {Endpoint : Type 0} where
  pub step : DeviceList Endpoint → Op Endpoint → DeviceList Endpoint
  step list (adds device) = (add list device).1
  step list (gets ep mac) = (add_or_get ep list mac).1

  pub run : DeviceList Endpoint → List (Op Endpoint) → DeviceList Endpoint
  run list [] = list
  run list (op ∷ ops) = run (step list op) ops

  -- The device that an operation brings.
  pub brought : Op Endpoint → Device Endpoint
  brought (adds device) = device
  brought (gets ep mac) = new_device ep mac

  pub address : Op Endpoint → MeshAddr
  address (adds device) = device.mac
  address (gets ep mac) = mac

  -- One operation, by what is under its address.
  step-free :
      (list : DeviceList Endpoint) (op : Op Endpoint)
      → Dict.lookup (address op) list ≡ none
      → step list op ≡ Dict.emplace (address op) (brought op) list
  unfolding step address brought add add_or_get
  step-free list (adds device) free =
      let e : Dict.lookup device.mac list ≡ none = free in rw (e, step, add) refl
  step-free list (gets ep mac) free =
      let e : Dict.lookup mac list ≡ none = free in rw (e, step, add_or_get) refl

  step-taken :
      (list : DeviceList Endpoint) (op : Op Endpoint) (d : Device Endpoint)
      → Dict.lookup (address op) list ≡ some d
      → step list op ≡ list
  unfolding step address add add_or_get
  step-taken list (adds device) d taken =
      let e : Dict.lookup device.mac list ≡ some d = taken in rw (e, step, add) refl
  step-taken list (gets ep mac) d taken =
      let e : Dict.lookup mac list ≡ some d = taken in rw (e, step, add_or_get) refl

  -- What an operation leaves under an address.
  pub after : MeshAddr → Op Endpoint → Option (Device Endpoint) → Option (Device Endpoint)
  after a op (some d) = some d
  after a op none = if address op == a then some (brought op) else none

  kept :
      (list : DeviceList Endpoint) (op : Op Endpoint) (a : MeshAddr)
      → (address op == a) ≡ false
      → Dict.lookup a list ≡ after a op (Dict.lookup a list)
  unfolding after
  kept list op a other = elim (Option-cases (Dict.lookup a list)) [
    | inl none_ ↦ rw (none_, other) refl
    | inr (d, found) ↦ rw found refl
  ]

  lookup-step :
      (list : DeviceList Endpoint) (op : Op Endpoint) (a : MeshAddr)
      → Dict.lookup a (step list op) ≡ after a op (Dict.lookup a list)
  unfolding after
  lookup-step list op a = elim (Bool-cases (address op == a)) [
    | inl same ↦
        let e = (==_iff (address op) a).0 same in
        elim (Option-cases (Dict.lookup (address op) list)) [
          | inr (d, taken) ↦
              let here : Dict.lookup a list ≡ some d =
                subst (λ j. Dict.lookup j list ≡ some d) e taken in
              rw (step-taken list op d taken, here) refl
          | inl free ↦
              let here : Dict.lookup a list ≡ none =
                subst (λ j. Dict.lookup j list ≡ none) e free in
              rw (step-free list op free, here, same)
                (Dict.lookup-emplace a (address op) (brought op) list free ∙ rw same refl)
        ]
    | inr other ↦ elim (Option-cases (Dict.lookup (address op) list)) [
      | inr (d, taken) ↦ rw (step-taken list op d taken) (kept list op a other)
      | inl free ↦ rw (step-free list op free) (
          Dict.lookup-emplace a (address op) (brought op) list free
          ∙ rw other (kept list op a other))
    ]
  ]

  -- The first device that is brought under an address stays.
  pub first : MeshAddr → List (Op Endpoint) → Option (Device Endpoint) → Option (Device Endpoint)
  first a [] old = old
  first a (op ∷ ops) old = first a ops (after a op old)

  -- After every sequence of `add` and `add_or_get`, what stands under an address is the device that
  -- stood there, or else the first one that was brought with that address, if there was one.
  pub lookup-run-first :
      (list : DeviceList Endpoint) (ops : List (Op Endpoint)) (a : MeshAddr)
      → find_device (run list ops) a ≡ first a ops (find_device list a)
  unfolding run first find_device
  lookup-run-first list [] a = refl
  lookup-run-first list (op ∷ ops) a =
      lookup-run-first (step list op) ops a ∙ ap (first a ops) (lookup-step list op a)
