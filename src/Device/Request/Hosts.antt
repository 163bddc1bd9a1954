-- ===== src/Device/Request/Hosts.antt =====
-- What `process_request` has found of the device and of the message before it starts a request.
use agro_daemon.Base.{
  ℕ, ◌≡◌, refl, Bool, true, false, not, ◌&&◌, ℕ_discrete, String, Option, none, some, List, [], ◌∷◌,
  ◌==◌, nat_eq, string_eq, if◌then◌else◌, length, All, arith, Bool-cases, Option-cases, ◌⊎◌, inl,
  inr, ==_iff, subst, ap, ◌∙◌,
}
use agro_daemon.Base.Dict
use agro_daemon.Message.Json.{Json}
use agro_daemon.Message.User.{
  Read, refused, broken, read, ◌>>=◌, checked, unchecked, require, object_at, text_at,
}
use agro_daemon.User.Account.{User, Logged}
use agro_daemon.Device.Mac.{MeshAddr, mesh_addr_of}
use agro_daemon.Device.Mac.Fresh.{mesh_addr_of-any}
use agro_daemon.Device.InProgress.{addr_eq}
use agro_daemon.Device.State.{Device}
use agro_daemon.Device.Lists.{DeviceList, find_text}
use agro_daemon.Device.Request.{custom, number, RequestMessage, Surroundings, reset}
use agro_daemon.Device.Request.Config.{RequestConfig, rconfig, named, get_requests_config}
use agro_daemon.Device.Request.Send.{
  is_confirmable, message_of, is_user_allowed, process_custom_request,
}
use agro_daemon.Device.Request.Process.{Accepted, has_lock, accept}

-- The address that the host of a request is, whatever it is read into.
unfoldable pub Host : List ℕ → MeshAddr → Type 0
Host text a = (g : MeshAddr) → length g ≡ 6 → mesh_addr_of g text ≡ some (a, true)

pub Read-cases :
    {A : Type 0} (m : Read A) → ((m ≡ refused) ⊎ (m ≡ broken)) ⊎ ((a : A) × (m ≡ read a))
Read-cases refused = inl (inl refl)
Read-cases broken = inl (inr refl)
Read-cases (read a) = inr (a, refl)

read-injective {ℓ} : {A : Type ℓ} {a b : A} → read a ≡ read b → a ≡ b
read-injective h = ground arith

bind_read {ℓ κ} :
    {A : Type ℓ} {B : Type κ} (m : Read A) (f : A → Read B) (b : B)
    → m >>= f ≡ read b
    → (a : A) × (m ≡ read a) × (f a ≡ read b)
bind_read refused f b h = absurd (ground arith)
bind_read broken f b h = absurd (ground arith)
bind_read (read a) f b h = (a, refl, h)

checked-read {ℓ} : {A : Type ℓ} (o : Option A) (a : A) → checked o ≡ read a → o ≡ some a
checked-read none a h = absurd (ground arith)
checked-read (some b) a h = ap some (read-injective h)

unchecked-read {ℓ} : {A : Type ℓ} (o : Option A) (a : A) → unchecked o ≡ read a → o ≡ some a
unchecked-read none a h = absurd (ground arith)
unchecked-read (some b) a h = ap some (read-injective h)

module _ {Endpoint : Type 0} where
  -- The devices stand under their own addresses.
  unfoldable pub Keyed : DeviceList Endpoint → Type 0
  Keyed list = All (λ e. e.1.mac ≡ e.0) list

  Keyed-at :
      (list : DeviceList Endpoint) (a : MeshAddr) (dev : Device Endpoint)
      → Keyed list
      → Dict.lookup a list ≡ some dev
      → dev.mac ≡ a
  unfolding Keyed Dict.lookup
  Keyed-at [] a dev h e = absurd (ground arith)
  Keyed-at ((b, d) ∷ list) a dev h e = elim (Bool-cases (b == a)) [
    | inl same ↦ ground (arith, (==_iff b a).0 same, h.0)
    | inr other ↦ Keyed-at list a dev h.1 (ground arith)
  ]

  find_text-Host :
      (list : DeviceList Endpoint) (garbage : MeshAddr) (text : List ℕ) (dev : Device Endpoint)
      → Keyed list
      → length garbage ≡ 6
      → find_text garbage list text ≡ some (some dev)
      → Host text dev.mac
  unfolding find_text Host
  find_text-Host list garbage text dev keyed six e =
      elim (Option-cases (mesh_addr_of garbage text)) [
        | inl none_ ↦ absurd (ground arith)
        | inr ((a, true), some_) ↦
            let at : Dict.lookup a list ≡ some dev = ground arith in
            rw (Keyed-at list a dev keyed at) (λ g l. mesh_addr_of-any text a garbage g six l some_)
        | inr ((a, false), some_) ↦ absurd (ground arith)
      ]

-- Which request types, by their numbers, are put on the list of those in progress.
unfoldable pub locks : ℕ → Bool
locks n = not (n == number custom) && not (n == number reset)

-- A message of the table is confirmable, but for the one of `reset`.
fits : {Doc : Type 0} → RequestConfig Doc → Bool
fits c = elim c.message [
  | none ↦ true
  | some m ↦
      if number c.type_ == number reset
      then not (is_confirmable m.mtype)
      else is_confirmable m.mtype
]

all_fit : {Doc : Type 0} → List (RequestConfig Doc) → Bool
all_fit [] = true
all_fit (c ∷ table) = fits c && all_fit table

named-fits :
    {Doc : Type 0} (name : String) (table : List (RequestConfig Doc)) (c : RequestConfig Doc)
    → all_fit table ≡ true
    → named name table ≡ some c
    → fits c ≡ true
unfolding named all_fit
named-fits name [] c h e = absurd (ground arith)
named-fits name (d ∷ table) c h e = elim (Bool-cases (name == d.name)) [
  | inl same ↦ ground arith
  | inr other ↦ named-fits name table c (ground arith) (ground arith)
]

module _ (J : Json) (S : Surroundings) where
  rconfig-fits : all_fit (rconfig J S) ≡ true
  unfolding fits all_fit ℕ_discrete
  rconfig-fits = refl

  has_lock-locks :
      (name : String) (c : RequestConfig J.Value) (doc : J.Value) (msg : RequestMessage J.Value)
      → get_requests_config J S name ≡ some c
      → message_of J c doc ≡ read msg
      → has_lock c.type_ msg.mtype ≡ locks (number c.type_)
  unfolding get_requests_config message_of locks fits process_custom_request
  has_lock-locks name c doc msg found e = elim (Bool-cases (number c.type_ == number custom)) [
    | inl custom_ ↦ rw custom_ refl
    | inr listed ↦
        let of_entry : c.message ≡ some msg = unchecked-read c.message msg (
          subst (λ b. (if b then process_custom_request J doc else unchecked c.message) ≡ read msg)
            listed e) in
        let fit = named-fits name (rconfig J S) c rconfig-fits found in
        let fit' : (if number c.type_ == number reset
              then not (is_confirmable msg.mtype)
              else is_confirmable msg.mtype)
            ≡ true =
          subst
            (λ o.
              elim o [
                | none ↦ true
                | some m ↦
                    if number c.type_ == number reset
                    then not (is_confirmable m.mtype)
                    else is_confirmable m.mtype
              ]
              ≡ true)
            of_entry fit in
        elim (Bool-cases (number c.type_ == number reset)) [
          | inl r ↦ ground arith
          | inr r ↦ ground arith
        ]
  ]

-- What `start` may rely on.
pub record IsFound {Doc Endpoint : Type 0} (a : Accepted Doc Endpoint) : Type 0 where
  pub host : Host a.host a.dev.mac
  pub lock : has_lock a.type_ a.msg.mtype ≡ locks (number a.type_)

pub accept-IsFound :
    {Endpoint : Type 0} (J : Json) (S : Surroundings) (garbage : MeshAddr) (find : ℕ → Option User)
    (list : DeviceList Endpoint) (doc : J.Value) (logged : Logged) (a : Accepted J.Value Endpoint)
    → length garbage ≡ 6
    → Keyed list
    → accept J S garbage find list doc logged ≡ read a
    → IsFound a
unfolding accept
accept-IsFound J S garbage find list doc logged a six keyed e =
    let (data_, e₁, f₁) = bind_read (object_at J doc "data") _ a e in
    let (request, e₂, f₂) = bind_read (text_at J data_ "request") _ a f₁ in
    let (config, e₃, f₃) = bind_read (checked (get_requests_config J S request)) _ a f₂ in
    let (device, e₄, f₄) = bind_read (text_at J data_ "device") _ a f₃ in
    let (found, e₅, f₅) = bind_read (unchecked (find_text garbage list (S.chars device))) _ a f₄ in
    let (dev, e₆, f₆) = bind_read (checked found) _ a f₅ in
    let (msg, e₇, f₇) = bind_read (message_of J config doc) _ a f₆ in
    let (allowed, e₈, f₈) = bind_read (unchecked (is_user_allowed find msg.method logged)) _ a f₇ in
    let (u, e₉, f₉) = bind_read (require allowed) _ a f₈ in
    subst IsFound (read-injective f₉) (record {
      host =
          find_text-Host list garbage (S.chars device) dev keyed six
            (unchecked-read _ _ e₅ ∙ ap some (checked-read _ _ e₆));
      lock = has_lock-locks J S request config doc msg (checked-read _ _ e₃) e₇;
    })
