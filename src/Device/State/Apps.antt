-- ===== src/Device/State/Apps.antt =====
-- The apps of a device as a map from names.
use agro_daemon.Base.{
  ℕ, ◌≡◌, refl, Option, none, some, List, [], ◌∷◌, ◌==◌, if◌then◌else◌, arith, find_if,
  update_or_append, remove_if, ◌∙◌, ap,
}
use agro_daemon.Device.InProgress.{addr_eq}
use agro_daemon.Device.Packets.{App}
use agro_daemon.Device.State.{Device, add_app, clear_apps, delete_app}

-- The app that has a name.
abbrev pub app_at : List App → List ℕ → Option App
app_at apps name = find_if (λ v. v.name == name) apps

pub data Op : Type 0 where
  adds : List ℕ → ℕ → List ℕ → Op
  clears : Op
  deletes : List ℕ → Op

unfoldable pub step : {Endpoint : Type 0} → Device Endpoint → Op → Device Endpoint
step d (adds name size hash) = add_app d name size hash
step d clears = clear_apps d
step d (deletes name) = delete_app d name

-- What an operation leaves under a name.
pub effect : Op → List ℕ → Option App → Option App
effect (adds name size hash) n old =
    if name == n then some (record { name = name; size = size; hash = hash }) else old
effect clears n old = none
effect (deletes name) n old = if name == n then none else old

unfoldable pub run : {Endpoint : Type 0} → Device Endpoint → List Op → Device Endpoint
run d [] = d
run d (op ∷ ops) = run (step d op) ops

pub effects : List Op → List ℕ → Option App → Option App
effects [] n old = old
effects (op ∷ ops) n old = effects ops n (effect op n old)

app_at-adds :
    (apps : List App) (name : List ℕ) (size : ℕ) (hash n : List ℕ)
    → app_at
        (update_or_append
          (λ v. v.name == name)
          (λ v. record v { size = size; hash = hash })
          (record { name = name; size = size; hash = hash })
          apps)
        n
      ≡ effect (adds name size hash) n (app_at apps n)
unfolding effect
app_at-adds [] name size hash n = ground arith
app_at-adds (a ∷ apps) name size hash n = ground (arith, app_at-adds apps name size hash n)

app_at-deletes :
    (apps : List App) (name n : List ℕ)
    → app_at (remove_if (λ v. v.name == name) apps) n ≡ effect (deletes name) n (app_at apps n)
unfolding effect
app_at-deletes [] name n = ground arith
app_at-deletes (a ∷ apps) name n = ground (arith, app_at-deletes apps name n)

app_at-step :
    {Endpoint : Type 0} (d : Device Endpoint) (op : Op) (n : List ℕ)
    → app_at (step d op).apps n ≡ effect op n (app_at d.apps n)
unfolding step add_app clear_apps delete_app effect
app_at-step d (adds name size hash) n = app_at-adds d.apps name size hash n
app_at-step d clears n = refl
app_at-step d (deletes name) n = app_at-deletes d.apps name n

-- Every sequence of adds, deletes and clears acts on the apps of a device as on a map: under a name
-- stands the size and the hash that it was last given, if it was not deleted or cleared since.
pub app_at-run :
    {Endpoint : Type 0} (d : Device Endpoint) (ops : List Op) (n : List ℕ)
    → app_at (run d ops).apps n ≡ effects ops n (app_at d.apps n)
unfolding run effects
app_at-run d [] n = refl
app_at-run d (op ∷ ops) n = app_at-run (step d op) ops n ∙ ap (effects ops n) (app_at-step d op n)
