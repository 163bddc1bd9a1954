-- ===== src/Device/Request/Runs.antt =====
-- Requests of connections, and answers and timeouts of the engine, in any order.
use agro_daemon.Base.{
  ℕ, suc, ◌≡◌, refl, Bool, false, Option, none, some, List, [], ◌∷◌, length, arith, Option-cases,
  ◌⊎◌, All, inl, inr, subst, sym, ap, ◌∙◌,
}
use agro_daemon.Message.Json.{Json}
use agro_daemon.User.Account.{User, Logged}
use agro_daemon.Device.Mac.{MeshAddr}
use agro_daemon.Device.InProgress.{has, remove}
use agro_daemon.Device.InProgress.Laws.{Key, holds}
use agro_daemon.Device.Lists.{DeviceList}
use agro_daemon.Device.Request.{Code, Surroundings, number}
use agro_daemon.Device.Request.Send.{SendError, Transaction}
use agro_daemon.Device.Request.Process.{
  Call, Daemon, Processed, fault, done, callback_calls, request_cb, accept, process_request,
}
use agro_daemon.Device.Request.Hosts.{Host, Keyed, accept-IsFound, Read-cases}
use agro_daemon.Device.Request.Locks.{take_out, address, waits, Distinct, IsLocked, ended}
use agro_daemon.Device.Request.Start.{start-IsLocked}

pub data Event (J : Json) (Endpoint : Type 0) : Type 0 where
  -- A document of a connection; the devices and the answer of the engine are those of the moment.
  asks :
      MeshAddr
      → (ℕ → Option User)
      → DeviceList Endpoint
      → Option SendError
      → J.Value
      → Logged
      → Event J Endpoint
  -- The engine ends the transaction at a place of its list, with an answer or without; the second number
  -- is the user that the connection has by then.
  ends : ℕ → MeshAddr → ℕ → Bool → Event J Endpoint

-- New addresses have six bytes, and the devices stand under their own addresses.
unfoldable pub Valid : {J : Json} {Endpoint : Type 0} → Event J Endpoint → Type 0
Valid (asks garbage find list answer doc logged) = (length garbage ≡ 6) × Keyed list
Valid (ends n garbage user answered) = length garbage ≡ 6

-- The end of as many transactions as there are, each the first of those that are left.
unfoldable pub ends_all :
    {J : Json} {Endpoint : Type 0} → MeshAddr → List (ℕ × Bool) → List (Event J Endpoint)
ends_all garbage [] = []
ends_all garbage ((user, answered) ∷ flags) = ends 0 garbage user answered ∷ ends_all garbage flags

Processed-cases :
    {Endpoint : Type 0} (p : Processed Endpoint)
    → (p ≡ fault) ⊎ ((d : Daemon Endpoint) × (calls : List Call) × (p ≡ done d calls))
Processed-cases fault = inl refl
Processed-cases (done d calls) = inr (d, calls, refl)

no_entries : {A : Type 0} (xs : List A) → 0 ≡ length xs → xs ≡ []
no_entries [] h = refl
no_entries (x ∷ xs) h = absurd (omega (arith, h))

first_entry :
    {A : Type 0} (n : ℕ) (xs : List A)
    → suc n ≡ length xs
    → (x : A) × (ys : List A) × (xs ≡ x ∷ ys) × (n ≡ length ys)
first_entry n [] h = absurd (omega (arith, h))
first_entry n (x ∷ xs) h = (x, xs, refl, omega (arith, h))

state_of : {Endpoint : Type 0} → Daemon Endpoint → Processed Endpoint → Daemon Endpoint
state_of d fault = d
state_of d (done d' calls) = d'

module _ {Endpoint : Type 0} (J : Json) (code_number : Code → ℕ) (S : Surroundings)
    (packet_size : ℕ) where
  unfoldable pub step : Event J Endpoint → Daemon Endpoint → Processed Endpoint
  step (asks garbage find list answer doc logged) d =
      process_request code_number J S packet_size garbage find list answer d doc logged
  step (ends n garbage user answered) d = elim (take_out n d.transactions) [
    | none ↦ done d []
    | some (t, rest) ↦
        request_cb code_number S.chars garbage user answered t (record d { transactions = rest })
  ]

  -- `none` when a step is undefined behaviour.
  unfoldable pub run : List (Event J Endpoint) → Daemon Endpoint → Option (Daemon Endpoint)
  run [] d = some d
  run (e ∷ es) d = elim (step e d) [ fault ↦ none | done d' calls ↦ run es d' ]

  -- The end of a transaction is never undefined behaviour.
  ends-done :
      (n : ℕ) (garbage : MeshAddr) (user : ℕ) (answered : Bool) (d : Daemon Endpoint)
      → IsLocked code_number d
      → length garbage ≡ 6
      → (t : Transaction Endpoint) (rest : List (Transaction Endpoint))
      → take_out n d.transactions ≡ some (t, rest)
      → (d' : Daemon Endpoint) × (calls : List Call) × (step (ends n garbage user answered) d
          ≡ done d' calls)
        × IsLocked code_number d'
        × (d'.transactions ≡ rest)
  unfolding step request_cb Host
  ends-done n garbage user answered d h six t rest e =
      let after = ended code_number d n t rest h e in
      let read_ = after.0 garbage six in
      (
        record {
          requests =
              (remove d.requests (address code_number t) (code_number t.method)
                (number t.request)).1;
          transactions = rest;
        },
        callback_calls S.chars user answered (address code_number t) t,
        rw (e, step, read_, request_cb) refl,
        after.1,
        refl,
      )

  step-IsLocked :
      (e : Event J Endpoint) (d d' : Daemon Endpoint) (calls : List Call)
      → IsLocked code_number d
      → Valid e
      → step e d ≡ done d' calls
      → IsLocked code_number d'
  unfolding step Valid process_request state_of
  step-IsLocked (asks garbage find list answer doc logged) d d' calls h (six, keyed) e =
      elim (Read-cases (accept J S garbage find list doc logged)) [
        | inl (inl refused_) ↦
            let same : d ≡ d' = ground arith in subst (IsLocked code_number) same h
        | inl (inr broken_) ↦ absurd (ground arith)
        | inr (a, read_) ↦
            start-IsLocked code_number J S packet_size answer d doc a logged.id d' calls h
              (accept-IsFound J S garbage find list doc logged a six keyed read_) (ground arith)
      ]
  step-IsLocked (ends n garbage user answered) d d' calls h six e =
      elim (Option-cases (take_out n d.transactions)) [
        | inl none_ ↦ let same : d ≡ d' = ground arith in subst (IsLocked code_number) same h
        | inr ((t, rest), some_) ↦
            let (d₁, calls₁, e₁, h₁, rest_) =
              ends-done n garbage user answered d h six t rest some_ in
            let same : d₁ ≡ d' = ap (state_of d) (sym e₁ ∙ e) in
            subst (IsLocked code_number) same h₁
      ]

  run-done :
      (e : Event J Endpoint) (es : List (Event J Endpoint)) (d d' : Daemon Endpoint)
      (calls : List Call)
      → step e d ≡ done d' calls
      → run (e ∷ es) d ≡ run es d'
  unfolding run
  run-done e es d d' calls h = rw (h, run) refl

  run-keeps :
      (es : List (Event J Endpoint)) (d d' : Daemon Endpoint)
      → IsLocked code_number d
      → All Valid es
      → run es d ≡ some d'
      → IsLocked code_number d'
  unfolding run
  run-keeps [] d d' h valid e =
      let same : d ≡ d' = ground arith in subst (IsLocked code_number) same h
  run-keeps (event ∷ es) d d' h valid e = elim (Processed-cases (step event d)) [
    | inl fault_ ↦ absurd (ground arith)
    | inr (d₁, calls, done_) ↦
        run-keeps es d₁ d' (step-IsLocked event d d₁ calls h valid.0 done_) valid.1 (ground arith)
  ]

  none-IsLocked :
      IsLocked {Endpoint = Endpoint} code_number (record { requests = []; transactions = [] })
  unfolding has waits Distinct
  none-IsLocked = record { held = λ k. ground arith; distinct = tt; hosts = tt }

  -- With no request in progress and no transaction to begin with, after every sequence of requests of
  -- connections, answers of devices and timeouts that is not undefined behaviour, a request is in
  -- progress just when its type is not `custom` or `reset` and the engine has a transaction for its
  -- address, method and type that has not ended, and never two of them.
  pub run-IsLocked :
      (es : List (Event J Endpoint)) (d : Daemon Endpoint)
      → All Valid es
      → run es (record { requests = []; transactions = [] }) ≡ some d
      → IsLocked code_number d
  run-IsLocked es d valid e = run-keeps es _ d (none-IsLocked) valid e

  -- When the requests in progress are those of the transactions that have not ended, the end of all
  -- of them, each with an answer or a timeout, is never undefined behaviour, leaves no transaction, and
  -- no request in progress for any address, method and type.
  pub run-ends_all :
      (flags : List (ℕ × Bool)) (garbage : MeshAddr) (d : Daemon Endpoint)
      → IsLocked code_number d
      → length garbage ≡ 6
      → length flags ≡ length d.transactions
      → (d' : Daemon Endpoint) × (run (ends_all garbage flags) d ≡ some d')
        × (d'.transactions ≡ [])
        × ((k : Key) → holds d'.requests k ≡ false)
  unfolding run ends_all take_out waits
  run-ends_all [] garbage d h six size =
      let none_ = no_entries d.transactions size in
      (d, refl, none_, λ k. h.held k ∙ rw none_ (ground arith))
  run-ends_all ((user, answered) ∷ flags) garbage d h six size =
      let (t, rest, whole, size') = first_entry (length flags) d.transactions size in
      let first : take_out 0 d.transactions ≡ some (t, rest) = rw whole refl in
      let (d₁, calls, e₁, h₁, rest_) = ends-done 0 garbage user answered d h six t rest first in
      let (d₂, e₂, none_, free) =
        run-ends_all flags garbage d₁ h₁ six (size' ∙ ap length (sym rest_)) in
      (
        d₂,
        run-done (ends 0 garbage user answered) (ends_all garbage flags) d d₁ calls e₁ ∙ e₂,
        none_,
        free,
      )
