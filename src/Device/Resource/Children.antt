-- ===== src/Device/Resource/Children.antt =====
-- The children that a device reports, and the devices that the daemon learns of by them.
use agro_daemon.Base.{
  ℕ, ◌+◌, ◌≡◌, refl, ◌≢◌, Bool, true, false, List, [], ◌∷◌, ◌++◌, ◌%◌, Option, none, some, ◌==◌,
  nat_eq, if◌then◌else◌, length, All, contains, arith, Bool-cases, Option-cases, inl, inr, ==_iff,
  ==_refl, subst, sym, ap, ◌∙◌,
}
use agro_daemon.Base.Dict
use mathlib.Core.List.{append-nil, append_assoc}
use agro_daemon.Device.Mac.{MeshAddr}
use agro_daemon.Device.Mac.RoundTrip.{length-Six}
use agro_daemon.Device.InProgress.{addr_eq}
use agro_daemon.Device.State.{
  Device, add_children, set_layer, set_parent, set_net, set_net_id, update_endpoint,
}
use agro_daemon.Device.Lists as Lists
use agro_daemon.Device.Lists.{DeviceList}
use agro_daemon.Instance.Devices.{Given, add_or_get_device, device_at}
use agro_daemon.Device.Resource.{initiate_child_data, add_child_device, add_child_devices}

-- The bytes of addresses, one behind the other.
pub flat : List MeshAddr → List ℕ
flat [] = []
flat (c ∷ cs) = c ++ flat cs

-- What a report of children leaves: the device has them all behind those that it had.
pub with_children : {Endpoint : Type 0} → Device Endpoint → List MeshAddr → Device Endpoint
with_children dev cs = record dev { children_table = dev.children_table ++ cs }

module _ {Endpoint : Type 0} (given : Given Endpoint) where
  -- The device that a child becomes that was not listed: one layer below the device that reports it,
  -- with the endpoint and the net of that.
  pub new_child : Device Endpoint → MeshAddr → Device Endpoint
  new_child dev child = record (device_at given child) {
    layer = dev.layer + 1;
    parent = dev.mac;
    ep = dev.ep;
    net_id = dev.net_id;
    net = dev.net;
  }

  -- What stands under an address behind a report of children.
  pub after_report :
      Device Endpoint
      → List MeshAddr
      → MeshAddr
      → Option (Device Endpoint)
      → Option (Device Endpoint)
  after_report dev cs a (some old) = some old
  after_report dev cs a none = if contains cs a then some (new_child dev a) else none

  add_or_get_device-some :
      (list : DeviceList Endpoint) (a : MeshAddr) (x : Device Endpoint)
      → Dict.lookup a list ≡ some x
      → add_or_get_device given list a ≡ (x, (false, list))
  unfolding add_or_get_device
  add_or_get_device-some list a x h = rw (h, add_or_get_device) refl

  add_or_get_device-none :
      (list : DeviceList Endpoint) (a : MeshAddr)
      → Dict.lookup a list ≡ none
      → add_or_get_device given list a
        ≡ (device_at given a, (true, Dict.emplace a (device_at given a) list))
  unfolding device_at add_or_get_device Lists.add
  add_or_get_device-none list a h =
      let free : Dict.lookup (device_at given a).mac list ≡ none = h in
      rw (add_or_get_device, h, Lists.add, free) refl

  -- A report changes nothing of an address that is not the child.
  unreported :
      (dev : Device Endpoint) (cs : List MeshAddr) (a : MeshAddr) (o : Option (Device Endpoint))
      → (o ≡ none → contains cs a ≡ false)
      → o ≡ after_report dev cs a o
  unfolding after_report
  unreported dev cs a none h = rw (h refl) refl
  unreported dev cs a (some x) h = refl

  module _ (host : MeshAddr) (list : DeviceList Endpoint) (dev : Device Endpoint) (child : MeshAddr)
      (h : Dict.lookup host list ≡ some dev) where
    listed : DeviceList Endpoint
    listed = Dict.adjust host (λ d. add_children d child) list

    reported : Dict.lookup host listed ≡ some (add_children dev child)
    unfolding listed
    reported = Dict.lookup-adjust_self host (λ d. add_children d child) list dev h

    kept : (a : MeshAddr) → host ≢ a → Dict.lookup a listed ≡ Dict.lookup a list
    unfolding listed
    kept a other = Dict.lookup-adjust_ne a host (λ d. add_children d child) list other

    -- What a round leaves, by its result.
    pub Round : Bool × DeviceList Endpoint → Type 0
    Round after =
        (add_child_device given host list child ≡ some after)
        × (Dict.lookup host after.1 ≡ some (add_children dev child))
        × ((a : MeshAddr)
            → host ≢ a
            → Dict.lookup a after.1 ≡ after_report dev (child ∷ []) a (Dict.lookup a list))

    child_taken : (x : Device Endpoint) → Dict.lookup child listed ≡ some x → Round (false, listed)
    unfolding Round add_child_device listed
    child_taken x taken = (
      rw (add_child_device, reported, add_or_get_device-some listed child x taken) refl,
      reported,
      λ a other.
          kept a other
          ∙ unreported dev (child ∷ []) a (Dict.lookup a list) (λ none_.
            elim (Bool-cases (child == a)) [
              | inl same ↦
                  let there : Dict.lookup a listed ≡ some x =
                    subst (λ b. Dict.lookup b listed ≡ some x) ((==_iff child a).0 same) taken in
                  absurd (ground (arith, there, kept a other, none_))
              | inr differ ↦ rw differ refl
            ]),
    )

    with_child : DeviceList Endpoint
    with_child =
        Dict.adjust child (initiate_child_data (add_children dev child))
          (Dict.emplace child (device_at given child) listed)

    -- The entry of a child that is a new device.
    child_entry :
        Dict.lookup child listed ≡ none
        → (a : MeshAddr) → host ≢ a
        → child ≡ a
        → Dict.lookup a with_child ≡ after_report dev (child ∷ []) a (Dict.lookup a list)
    unfolding with_child after_report new_child initiate_child_data add_children set_layer
        set_parent set_net set_net_id update_endpoint
    child_entry free a other e =
        let f = initiate_child_data (add_children dev child) in
        let added = Dict.emplace child (device_at given child) listed in
        let free' : Dict.lookup a list ≡ none =
          sym (kept a other) ∙ subst (λ b. Dict.lookup b listed ≡ none) e free in
        rw free' (
          subst
            (λ b.
              Dict.lookup b (Dict.adjust child f added)
              ≡ (if contains (child ∷ []) b then some (new_child dev b) else none))
            e
            (Dict.lookup-adjust_self child f added (device_at given child)
                (Dict.lookup-emplace_self child (device_at given child) listed free)
              ∙ rw (==_refl child) refl))

    child_free : Dict.lookup child listed ≡ none → Round (true, with_child)
    unfolding Round add_child_device listed with_child
    child_free free =
        let apart : child ≢ host = λ e.
          let gone : Dict.lookup host listed ≡ none =
            subst (λ c. Dict.lookup c listed ≡ none) e free in
          absurd (ground (arith, reported, gone)) in
        let f = initiate_child_data (add_children dev child) in
        let added = Dict.emplace child (device_at given child) listed in
        (
          rw (add_child_device, reported, add_or_get_device-none listed child free) refl,
          Dict.lookup-adjust_ne host child f added apart
              ∙ Dict.lookup-emplace host child (device_at given child) listed free
              ∙ elim (Bool-cases (child == host)) [
                | inl same ↦ absurd (apart ((==_iff child host).0 same))
                | inr differ ↦ rw differ reported
              ],
          λ a other. elim (Bool-cases (child == a)) [
            | inl same ↦ child_entry free a other ((==_iff child a).0 same)
            | inr differ ↦
                let elsewhere : child ≢ a = λ e. absurd (ground (arith, differ, e)) in
                Dict.lookup-adjust_ne a child f added elsewhere
                ∙ Dict.lookup-emplace a child (device_at given child) listed free
                ∙ rw differ (
                    kept a other
                    ∙ unreported dev (child ∷ []) a (Dict.lookup a list) (λ none_. rw differ refl))
          ],
        )

  round :
      (host : MeshAddr) (list : DeviceList Endpoint) (dev : Device Endpoint) (child : MeshAddr)
      → (h : Dict.lookup host list ≡ some dev)
      → (after : Bool × DeviceList Endpoint) × Round host list dev child h after
  round host list dev child h =
      elim (Option-cases (Dict.lookup child (listed host list dev child h))) [
        | inl free ↦ (_, child_free host list dev child h free)
        | inr (x, taken) ↦ (_, child_taken host list dev child h x taken)
      ]

  after_report-cons :
      (dev : Device Endpoint) (c : MeshAddr) (cs : List MeshAddr) (a : MeshAddr)
      (o : Option (Device Endpoint))
      → after_report (add_children dev c) cs a (after_report dev (c ∷ []) a o)
        ≡ after_report dev (c ∷ cs) a o
  unfolding after_report new_child initiate_child_data add_children set_layer set_parent set_net
      set_net_id update_endpoint
  after_report-cons dev c cs a (some x) = refl
  after_report-cons dev c cs a none = elim (Bool-cases (c == a)) [
    | inl same ↦ rw same refl
    | inr differ ↦ rw differ refl
  ]

  -- A child of six bytes in front of the others.
  loop_step :
      (host : MeshAddr) (list list' list'' : DeviceList Endpoint) (c : MeshAddr) (bytes : List ℕ)
      (is_new : Bool) (new_device : List MeshAddr)
      → length c ≡ 6
      → add_child_device given host list c ≡ some (is_new, list')
      → add_child_devices given host list' bytes ≡ some (new_device, list'')
      → add_child_devices given host list (c ++ bytes)
        ≡ some (if is_new then c ∷ new_device else new_device, list'')
  unfolding add_child_devices
  loop_step host list list' list'' c bytes is_new new_device six e rest =
      let (b₀, b₁, b₂, b₃, b₄, b₅, whole) = length-Six c six in
      let e' : add_child_device given host list (b₀ ∷ b₁ ∷ b₂ ∷ b₃ ∷ b₄ ∷ b₅ ∷ [])
          ≡ some (is_new, list') =
        subst (λ x. add_child_device given host list x ≡ some (is_new, list')) whole e in
      rw whole (rw (add_child_devices, e', rest) refl)

  -- From a list with the device that reports, a report of whole addresses puts them all in its table
  -- of children, in their order behind those that it had. Each of them that was not listed is listed
  -- as a device, one layer below, and every other device stays as it is.
  pub add_child_devices-lookup :
      (host : MeshAddr) (list : DeviceList Endpoint) (dev : Device Endpoint) (cs : List MeshAddr)
      → Dict.lookup host list ≡ some dev
      → All (λ c. length c ≡ 6) cs
      → (new_device : List MeshAddr) × (list' : DeviceList Endpoint) × (add_child_devices given host
            list
            (flat cs)
          ≡ some (new_device, list'))
        × (Dict.lookup host list' ≡ some (with_children dev cs))
        × ((a : MeshAddr)
            → host ≢ a
            → Dict.lookup a list' ≡ after_report dev cs a (Dict.lookup a list))
  unfolding add_child_devices flat with_children after_report Round add_children
  add_child_devices-lookup host list dev [] h six = (
    [],
    list,
    refl,
    h ∙ ap (λ t. some (record dev { children_table = t })) (sym (append-nil dev.children_table)),
    λ a other. unreported dev [] a (Dict.lookup a list) (λ none_. refl),
  )
  add_child_devices-lookup host list dev (c ∷ cs) h six =
      let (after, step) = round host list dev c h in
      let (e, own, others) = step in
      let (new_device, list', e', own', others') =
        add_child_devices-lookup host after.1 (add_children dev c) cs own six.1 in
      (
        if after.0 then c ∷ new_device else new_device,
        list',
        loop_step host list after.1 list' c (flat cs) after.0 new_device six.0 e e',
        own'
            ∙ ap (λ t. some (record dev { children_table = t }))
                (append_assoc dev.children_table (c ∷ []) cs),
        λ a other.
            others' a other
            ∙ ap (after_report (add_children dev c) cs a) (others a other)
            ∙ after_report-cons dev c cs a (Dict.lookup a list),
      )

  -- A report whose bytes are not a whole number of addresses is read past its end.
  add_child_devices-overrun :
      (host : MeshAddr) (list : DeviceList Endpoint) (bytes : List ℕ)
      → length bytes % 6 ≢ 0
      → add_child_devices given host list bytes ≡ none
  unfolding add_child_devices
  add_child_devices-overrun host list [] h = absurd (h refl)
  add_child_devices-overrun host list (c₀ ∷ []) h = refl
  add_child_devices-overrun host list (c₀ ∷ c₁ ∷ []) h = refl
  add_child_devices-overrun host list (c₀ ∷ c₁ ∷ c₂ ∷ []) h = refl
  add_child_devices-overrun host list (c₀ ∷ c₁ ∷ c₂ ∷ c₃ ∷ []) h = refl
  add_child_devices-overrun host list (c₀ ∷ c₁ ∷ c₂ ∷ c₃ ∷ c₄ ∷ []) h = refl
  add_child_devices-overrun host list (c₀ ∷ c₁ ∷ c₂ ∷ c₃ ∷ c₄ ∷ c₅ ∷ rest) h =
      let child = c₀ ∷ c₁ ∷ c₂ ∷ c₃ ∷ c₄ ∷ c₅ ∷ [] in
      elim (Option-cases (add_child_device given host list child)) [
        | inl none_ ↦ rw (add_child_devices, none_) refl
        | inr ((is_new, list'), some_) ↦
            rw
              (
                add_child_devices,
                some_,
                add_child_devices-overrun host list' rest (λ e. h (omega (arith, e))),
              )
              refl
      ]
