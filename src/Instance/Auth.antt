-- ===== src/Instance/Auth.antt =====
-- Authentication of a connection: src/instance/authenticate.cpp. The document, the database and the
-- key derivation `PKCS5_PBKDF2_HMAC` are parameters; `now` is `time_epoch_seconds()`.
pub mod Sound
use agro_daemon.Base.{
  ℕ, zero, suc, ◌+◌, ◌*◌, String, Bool, true, false, not, ◌&&◌, Option, none, some, List, [], ◌∷◌,
  ◌==◌, nat_eq, string_eq, if◌then◌else◌, ltb, length, is_some,
}
use agro_daemon.Message.Json.{Json}
use agro_daemon.Message.Types.{
  MessageType, UserCommand, autheticate, auth_session_id, get_type_config, get_user_config,
}
use agro_daemon.User.Account.{User, Logged, Status, set_user, authenticate, authenticate_session}
use agro_daemon.Instance.Db.{Db}
use agro_daemon.Instance.Users.{
  Instance, check_user_session_id, get_user_by_name, get_user_password, update_user_session_id,
}

-- The values of `enum class Error` that authentication reports.
pub data Error : Type 0 where
  ill_formed invalid_value missing_field internal_error statement_error user_not_found : Error
  user_is_inactive user_is_suspended user_is_deleted password_not_match session_expired : Error

-- `fault` is undefined behaviour: a text read from a value that is none, a null pointer followed.
pub data Outcome {ℓ} (A : Type ℓ) : Type ℓ where
  ok : A → Outcome A
  err : Error → Outcome A
  fault : Outcome A

infixl 5 ◌>>=◌ ◌>>◌
abbrev pub ◌>>=◌ {ℓ κ} : {A : Type ℓ} {B : Type κ} → Outcome A → (A → Outcome B) → Outcome B
ok a >>= f = f a
err e >>= f = err e
fault >>= f = fault

abbrev pub ◌>>◌ {ℓ} : {B : Type ℓ} → Outcome (Unit {0}) → Outcome B → Outcome B
m >> k = m >>= λ _. k

abbrev pub or_fail {ℓ} : {A : Type ℓ} → Error → Option A → Outcome A
or_fail e none = err e
or_fail e (some a) = ok a

abbrev pub or_fault {ℓ} : {A : Type ℓ} → Option A → Outcome A
or_fault none = fault
or_fault (some a) = ok a

abbrev pub guard : Bool → Error → Outcome (Unit {0})
guard true e = ok tt
guard false e = err e

abbrev pub key_length : ℕ
key_length = 32

-- 12 hours.
abbrev pub session_time_seconds : ℕ
session_time_seconds = 12 * 60 * 60

-- `memcmp(a, b, n) == 0`
unfoldable pub same_bytes : ℕ → List ℕ → List ℕ → Bool
same_bytes zero xs ys = true
same_bytes (suc n) [] ys = false
same_bytes (suc n) (x ∷ xs) [] = false
same_bytes (suc n) (x ∷ xs) (y ∷ ys) = x == y && same_bytes n xs ys

-- `check_user_status`
unfoldable pub check_user_status : Status → Outcome (Unit {0})
check_user_status Status.active = ok tt
check_user_status Status.inactive = err user_is_inactive
check_user_status Status.suspended = err user_is_suspended
check_user_status Status.deleted = err user_is_deleted
check_user_status Status.invalid = err invalid_value

module _ (J : Json) where
  -- `v.HasMember(name) && v[name].IsString()`, with the text.
  abbrev pub text_of : J.Value → String → Option String
  text_of v name = elim (J.member v name) [ none ↦ none | some w ↦ J.text w ]

  -- `doc["data"]`, if it is an object.
  abbrev pub data_of : J.Value → Option J.Value
  data_of doc = elim (J.member doc "data") [
    | none ↦ none
    | some w ↦ if J.is_object w then some w else none
  ]

  unfoldable pub check_authentice_package : J.Value → Outcome (Unit {0})
  check_authentice_package payload =
      guard (is_some (text_of payload "user") && is_some (text_of payload "password")) ill_formed

  unfoldable pub check_auth_session_id_package : J.Value → Outcome (Unit {0})
  check_auth_session_id_package payload =
      guard
        (is_some (text_of payload "user")
          && (is_some (text_of payload "sessionid") && is_some (text_of payload "user_agent")))
        ill_formed

  -- The `switch` of `is_auth_package`.
  unfoldable pub check_package : UserCommand → J.Value → Outcome (Unit {0})
  check_package comm payload = elim comm [
    | autheticate ↦ check_authentice_package payload
    | auth_session_id ↦ check_auth_session_id_package payload
    | _ ↦ err invalid_value
  ]

  abbrev pub is_user : MessageType → Bool
  is_user t = elim t [ MessageType.user ↦ true | _ ↦ false ]

  -- The result is the output `comm`. The text of `type` is read with no test, and so is the entry of
  -- the table of commands.
  unfoldable pub is_auth_package : J.Value → Outcome UserCommand
  is_auth_package doc = do
    type ← or_fault (text_of doc "type")
    typec ← or_fail missing_field (get_type_config type)
    guard (is_user typec) invalid_value
    command ← or_fail invalid_value (text_of doc "command")
    payload ← or_fail ill_formed (data_of doc)
    comm ← or_fault (get_user_config command)
    check_package comm payload
    ok comm

module _ (J : Json) (D : Db) (pbkdf2 : String → List ℕ → Option (List ℕ)) where
  unfoldable pub check_password : Instance D → User → J.Value → Outcome (Unit {0})
  check_password i user payload = do
    password ← or_fault (text_of J payload "password")
    check_user_status user.info.status
    stored ← or_fail internal_error (get_user_password D i user.info.username)
    guard (length stored.1 == key_length) password_not_match
    key ← or_fail internal_error (pbkdf2 password stored.0)
    guard (same_bytes key_length key stored.1) password_not_match

  unfoldable pub check_session_id : ℕ → Instance D → User → J.Value → Outcome (Unit {0})
  check_session_id now i user payload = do
    sessionid ← or_fault (text_of J payload "sessionid")
    user_agent ← or_fault (text_of J payload "user_agent")
    check_user_status user.info.status
    let found = check_user_session_id D i user.id sessionid user_agent
    guard found.0 session_expired
    guard (not (ltb (found.1 + session_time_seconds) now)) session_expired

  -- The `switch` of `authenticate`.
  unfoldable pub check_credential :
      ℕ → UserCommand → Instance D → User → J.Value → Outcome (Unit {0})
  check_credential now comm i user payload = elim comm [
    | autheticate ↦ check_password i user payload
    | auth_session_id ↦ check_session_id now i user payload
    | _ ↦ err invalid_value
  ]

  -- The user and the payload of a well-formed package.
  unfoldable pub find_user : Instance D → J.Value → Outcome (UserCommand × User × J.Value)
  find_user i doc = do
    comm ← is_auth_package J doc
    payload ← or_fault (data_of J doc)
    username ← or_fault (text_of J payload "user")
    user ← or_fail user_not_found (get_user_by_name D i username)
    ok (comm, user, payload)

  -- The result, with the output `comm`, and the connection, which points to the user as soon as one
  -- is found.
  unfoldable pub authenticate_doc : ℕ → Instance D → Logged → J.Value → Outcome UserCommand × Logged
  authenticate_doc now i logged doc = elim (find_user i doc) [
    | fault ↦ (fault, logged)
    | err e ↦ (err e, logged)
    | ok (comm, user, payload) ↦ elim (check_credential now comm i user payload) [
      | fault ↦ (fault, set_user logged user)
      | err e ↦ (err e, set_user logged user)
      | ok _ ↦ (ok comm, authenticate (set_user logged user))
    ]
  ]

  -- `create_session_id`; `session_id` is the random text that it makes.
  unfoldable pub create_session_id :
      ℕ → String → Instance D → Logged → J.Value → Outcome (Unit {0}) × Logged × Instance D
  create_session_id now session_id i logged doc = elim (data_of J doc) [
    | none ↦ (fault, logged, i)
    | some payload ↦ elim (text_of J payload "user_agent") [
      | none ↦ (err missing_field, logged, i)
      | some user_agent ↦
          let row = update_user_session_id D now i logged.id session_id user_agent in
          if row.0
          then (ok tt, authenticate_session logged session_id user_agent, row.1)
          else (err statement_error, logged, row.1)
    ]
  ]
