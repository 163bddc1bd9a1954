-- ===== src/Device/Request/Start.antt =====
-- A request that is started keeps the requests in progress those that the engine has not ended.
use agro_daemon.Base.{
  ℕ, ◌≡◌, refl, String, true, false, ◌&&◌, ◌||◌, Option, none, some, List, [], ◌==◌, nat_eq,
  string_eq, arith, Bool-cases, ◌⊎◌, Option-cases, inl, inr, subst, sym, ap, ◌∙◌,
}
use agro_daemon.Message.Json.{Json}
use agro_daemon.Device.Mac.{mesh_addr_of, null_addr}
use agro_daemon.Device.InProgress.{addr_eq, Requests, add, remove}
use agro_daemon.Device.InProgress.Laws.{Key, holds, same_key, same_key-eq, add-free, holds-remove}
use agro_daemon.Device.Request.{
  custom, number, Code, Surroundings, Error, Filled, failed, bad_access, filled,
}
use agro_daemon.Device.Request.Send.{
  SendError, Transaction, Sent, overrun, unsent, sent, send_request, transaction, engine_send,
}
use agro_daemon.Device.Request.Process.{Call, Daemon, done, Accepted, send_failed, finish, start}
use agro_daemon.Device.Request.Hosts.{Host, locks, IsFound}
use agro_daemon.Device.Request.Taken.{taken, taken_back, untaken}
use agro_daemon.Device.Request.Locks.{address, key_of, IsLocked, opened, dropped}

-- What a transaction says of the request that it is for.
record IsFor {Doc Endpoint : Type 0} (a : Accepted Doc Endpoint) (t : Transaction Endpoint)
    : Type 0 where
  host : t.host ≡ a.host
  method : t.method ≡ a.msg.method
  type_ : t.request ≡ a.type_

Filled-cases :
    (f : Filled)
    → (((e : Error) × (f ≡ failed e)) ⊎ (f ≡ bad_access)) ⊎ ((bytes : List ℕ) × (f ≡ filled bytes))
Filled-cases (failed e) = inl (inl (e, refl))
Filled-cases bad_access = inl (inr refl)
Filled-cases (filled bytes) = inr (bytes, refl)

module _ {Endpoint : Type 0} (J : Json) where
  engine_send-IsFor :
      (answer : Option SendError) (a : Accepted J.Value Endpoint) (bytes : List ℕ)
      (t : Transaction Endpoint)
      → engine_send J answer (transaction J a.dev a.host a.type_ a.msg bytes) ≡ sent t
      → IsFor a t
  engine_send-IsFor (some e) a bytes t h = absurd (ground arith)
  engine_send-IsFor none a bytes t h =
      let same : transaction J a.dev a.host a.type_ a.msg bytes ≡ t = ground arith in
      subst (IsFor a) same (record { host = refl; method = refl; type_ = refl })

  send_request-IsFor :
      (packet_size : ℕ) (answer : Option SendError) (a : Accepted J.Value Endpoint) (doc : J.Value)
      (t : Transaction Endpoint)
      → send_request J packet_size answer a.dev a.host a.type_ a.msg doc ≡ sent t
      → IsFor a t
  unfolding send_request
  send_request-IsFor packet_size answer a doc t e = elim (Option-cases a.msg.payload) [
    | inl none_ ↦ engine_send-IsFor answer a [] t (ground arith)
    | inr (f, some_) ↦ elim (Filled-cases (f packet_size doc)) [
      | inl (inl (err, failed_)) ↦ absurd (ground arith)
      | inl (inr bad) ↦ absurd (ground arith)
      | inr (bytes, filled_) ↦ engine_send-IsFor answer a bytes t (ground arith)
    ]
  ]

module _ {Endpoint : Type 0} (code_number : Code → ℕ) where
  request_key : {Doc : Type 0} → Accepted Doc Endpoint → Key
  request_key a = record {
    addr = a.dev.mac;
    method = code_number a.msg.method;
    request = number a.type_;
  }

  done-eq :
      {d d' : Daemon Endpoint} {calls calls' : List Call} → done d calls ≡ done d' calls' → d ≡ d'
  done-eq h = ground arith

  key_of-IsFor :
      {Doc : Type 0} (a : Accepted Doc Endpoint) (t : Transaction Endpoint)
      → IsFound a
      → IsFor a t
      → (address code_number t ≡ a.dev.mac) × (key_of code_number t ≡ request_key a)
  unfolding address key_of Host request_key
  key_of-IsFor a t found for_ =
      let host : mesh_addr_of null_addr t.host ≡ some (a.dev.mac, true) =
        rw for_.host (found.host null_addr refl) in
      let own : address code_number t ≡ a.dev.mac = rw (host, address) refl in
      (own, rw (own, for_.method, for_.type_) refl)

  finish-IsLocked :
      {Doc : Type 0} (chars : String → List ℕ) (d : Daemon Endpoint) (list : Requests)
      (a : Accepted Doc Endpoint) (user : ℕ) (out : Sent Endpoint) (d' : Daemon Endpoint)
      (calls : List Call)
      → IsLocked code_number d
      → IsFound a
      → ((t : Transaction Endpoint) → out ≡ sent t → IsFor a t)
      → ((k : Key)
          → holds list k ≡ (holds d.requests k || (locks k.request && same_key (request_key a) k)))
      → (number a.type_ == number custom ≡ true → list ≡ d.requests)
      → ((k : Key)
          → holds (remove list a.dev.mac (code_number a.msg.method) (number a.type_)).1 k
            ≡ holds d.requests k)
      → (locks (number a.type_) ≡ true → holds d.requests (request_key a) ≡ false)
      → finish code_number chars
          (record { requests = list; transactions = d.transactions })
          a
          user
          out
        ≡ done d' calls
      → IsLocked code_number d'
  unfolding finish send_failed
  finish-IsLocked chars d list a user overrun d' calls h found for_ grown whole restored free e =
      absurd (ground arith)
  finish-IsLocked chars d list a user (unsent err) d' calls h found for_ grown whole restored free
        e =
      elim (Bool-cases (number a.type_ == number custom)) [
        | inl c ↦
            subst (IsLocked code_number) (ground arith)
              (dropped code_number d list h (λ k. ap (λ l. holds l k) (whole c)))
        | inr c ↦ subst (IsLocked code_number) (ground arith) (dropped code_number d _ h restored)
      ]
  finish-IsLocked chars d list a user (sent t) d' calls h found for_ grown whole restored free e =
      let for_t = for_ t refl in
      let (own, key) = key_of-IsFor a t found for_t in
      let type_ : number t.request ≡ number a.type_ = ap number for_t.type_ in
      subst (IsLocked code_number) (done-eq e) (
        opened code_number d t list h
          (subst (λ x. Host x (address code_number t)) (sym for_t.host)
            (subst (Host a.host) (sym own) found.host))
          (λ k. rw key (grown k)) (λ l. rw key (free (subst (λ m. locks m ≡ true) type_ l))))

  -- A key of a type that is not locked is never in progress, so its end changes nothing.
  unlocked :
      (d : Daemon Endpoint) (k j : Key)
      → IsLocked code_number d
      → locks k.request ≡ false
      → holds (remove d.requests k.addr k.method k.request).1 j ≡ holds d.requests j
  unlocked d k j h l = elim (Bool-cases (same_key k j)) [
    | inl same ↦
        let eq = same_key-eq k j same in
        let l' : locks j.request ≡ false = subst (λ i. locks i.request ≡ false) eq l in
        holds-remove d.requests k j ∙ ground (arith, h.held j, same, l')
    | inr other ↦ holds-remove d.requests k j ∙ ground (arith, other)
  ]

  pub start-IsLocked :
      (J : Json) (S : Surroundings) (packet_size : ℕ) (answer : Option SendError)
      (d : Daemon Endpoint) (doc : J.Value) (a : Accepted J.Value Endpoint) (user : ℕ)
      (d' : Daemon Endpoint) (calls : List Call)
      → IsLocked code_number d
      → IsFound a
      → start code_number J S packet_size answer d doc a user ≡ done d' calls
      → IsLocked code_number d'
  unfolding start request_key locks
  start-IsLocked J S packet_size answer d doc a user d' calls h found e =
      let key = request_key a in
      let out = send_request J packet_size answer a.dev a.host a.type_ a.msg doc in
      let for_ = send_request-IsFor J packet_size answer a doc in
      elim (Bool-cases (locks (number a.type_))) [
        | inl l ↦ elim (Bool-cases (holds d.requests key)) [
          | inl busy ↦
              let same : d ≡ d' =
                ground (arith, found.lock, l, busy, add-free d.requests key user) in
              subst (IsLocked code_number) same h
          | inr free ↦
              finish-IsLocked S.chars d
                (add d.requests a.dev.mac (code_number a.msg.method) (number a.type_) user).1 a user
                out d' calls h found for_ (λ k. taken d.requests key k user free l)
                (λ c. absurd (ground arith)) (λ k. taken_back d.requests key k user free)
                (λ l'. free) (ground (arith, found.lock, l, free, add-free d.requests key user))
        ]
        | inr l ↦
            finish-IsLocked S.chars d d.requests a user out d' calls h found for_
              (λ k. untaken d.requests key k l) (λ c. refl) (λ k. unlocked d key k h l)
              (λ l'. absurd (ground arith)) (ground (arith, found.lock, l))
      ]
