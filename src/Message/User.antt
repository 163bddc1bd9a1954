-- ===== src/Message/User.antt =====
-- The commands that a connection sends about users: src/message/user.cpp. What is written to the log
-- is left out, but not the pointer to the user that it reads.
pub mod Commands
use agro_daemon.Base.{
  ℕ, String, Bool, true, false, not, ◌&&◌, ◌||◌, Option, none, some, List, [], ◌∷◌, ◌==◌, nat_eq,
  string_eq, if◌then◌else◌,
}
use agro_daemon.Message.Json.{Json}
use agro_daemon.Message.Types.{UserCommand, get_user_config}
use agro_daemon.User.Group.{Group}
use agro_daemon.User.Rule
use agro_daemon.User.Account.{User, Logged, can, set_user_agent}
use agro_daemon.Instance.Db.{Db}
use agro_daemon.Instance.Users as Daemon
use agro_daemon.Instance.Users.{Instance, get_user}
use agro_daemon.Instance.Push.{push_subscribe_user, push_unsubscribe_user}

-- What a handler reads before it acts: `refused` is an early return, `broken` is undefined behaviour.
pub data Read {ℓ} (A : Type ℓ) : Type ℓ where
  refused broken : Read A
  read : A → Read A

infixl 5 ◌>>=◌ ◌>>◌
abbrev pub ◌>>=◌ {ℓ κ} : {A : Type ℓ} {B : Type κ} → Read A → (A → Read B) → Read B
read a >>= f = f a
refused >>= f = refused
broken >>= f = broken

abbrev pub ◌>>◌ {ℓ} : {B : Type ℓ} → Read (Unit {0}) → Read B → Read B
m >> k = m >>= λ _. k

abbrev pub checked {ℓ} : {A : Type ℓ} → Option A → Read A
checked none = refused
checked (some a) = read a

abbrev pub unchecked {ℓ} : {A : Type ℓ} → Option A → Read A
unchecked none = broken
unchecked (some a) = read a

abbrev pub require : Bool → Read (Unit {0})
require true = read tt
require false = refused

-- The messages that a handler writes.
pub data Reply : Type 0 where
  subscribed : Bool → Reply
  all_users : Reply
  added_user : User → List ℕ → Reply
  edited_user : User → List ℕ → Reply
  deleted_user : ℕ → Reply
  added_group : Group → Reply
  deleted_group : ℕ → Reply

-- To this connection, to all that have the right `user_admin`, or the end of the connection.
pub data Event : Type 0 where
  write : Reply → Event
  write_all_admins : Reply → Event
  close : Event

module _ (D : Db) where
  pub data Handled : Type 0 where
    fault : Handled
    done : Instance D → Logged → List Event → Handled

  abbrev pub settle {ℓ} :
      {A : Type ℓ} → Instance D → Logged → Read A → (A → Instance D × List Event) → Handled
  settle i logged refused f = done i logged []
  settle i logged broken f = fault
  settle i logged (read a) f = done (f a).0 logged (f a).1

  -- `user.user()->...`
  unfoldable pub pointed : Instance D → Logged → Read User
  pointed i logged = unchecked (elim logged.user [ none ↦ none | some id ↦ get_user D i id ])

  unfoldable pub is_admin : Instance D → Logged → Read Bool
  is_admin i logged = unchecked (can (get_user D i) logged Rule.user_admin)

  -- The test that opens the handlers of administrators.
  unfoldable pub require_admin : Instance D → Logged → Read (Unit {0})
  require_admin i logged = is_admin i logged >>= λ admin. require admin

  -- `!can(user, user_admin) && id != user.id()` returns.
  unfoldable pub require_admin_or_self : Instance D → Logged → ℕ → Read (Unit {0})
  require_admin_or_self i logged id =
      is_admin i logged >>= λ admin. require (admin || id == logged.id)

pub record NewUser : Type 0 where
  pub username : String
  pub name : String
  pub password : String
  pub email : String
  pub telegram_chat_id : String
  pub groups : List ℕ

pub record EditedUser : Type 0 where
  pub id : ℕ
  pub username : String
  pub name : String
  pub email : String
  pub telegram_chat_id : String
  pub groups : List ℕ

pub record NewGroup : Type 0 where
  pub name : String
  pub description : String
  pub members : List ℕ

pub record Endpoint : Type 0 where
  pub endpoint : String
  pub p256dh : String
  pub auth : String
  -- The user agent that the document names, if it does.
  pub user_agent : Option String

module _ (J : Json) where
  abbrev pub object_at : J.Value → String → Read J.Value
  object_at v name =
      checked
        (elim (J.member v name) [ none ↦ none | some w ↦ if J.is_object w then some w else none ])

  abbrev pub text_at : J.Value → String → Read String
  text_at v name = checked (elim (J.member v name) [ none ↦ none | some w ↦ J.text w ])

  abbrev pub integer_at : J.Value → String → Read ℕ
  integer_at v name = checked (elim (J.member v name) [ none ↦ none | some w ↦ J.integer w ])

  abbrev pub items_at : J.Value → String → Option (List J.Value)
  items_at v name = elim (J.member v name) [ none ↦ none | some w ↦ J.items w ]

  -- `for(v : array) list.push_back(v.GetInt())`, with no test of the type.
  unfoldable pub integers : List J.Value → Read (List ℕ)
  integers [] = read []
  integers (v ∷ vs) =
      let rest = integers vs in unchecked (J.integer v) >>= λ n. rest >>= λ ns. read (n ∷ ns)

  unfoldable pub read_new_user : J.Value → Read NewUser
  read_new_user doc = do
    data_ ← object_at doc "data"
    username ← text_at data_ "username"
    name ← text_at data_ "name"
    password ← text_at data_ "password"
    email ← text_at data_ "email"
    telegram_chat_id ← text_at data_ "telegram_chat_id"
    require (not (username == "" || password == ""))
    groups ← elim (items_at data_ "groups") [ none ↦ read [] | some vs ↦ integers vs ]
    read (record {
      username = username;
      name = if name == "" then username else name;
      password = password;
      email = email;
      telegram_chat_id = telegram_chat_id;
      groups = groups;
    })

  -- The fields of an edit whose types are right, with the entries of `groups`.
  unfoldable pub edit_fields : J.Value → Read (EditedUser × List J.Value)
  edit_fields doc = do
    data_ ← object_at doc "data"
    id ← integer_at data_ "id"
    username ← text_at data_ "username"
    name ← text_at data_ "name"
    email ← text_at data_ "email"
    telegram_chat_id ← text_at data_ "telegram_chat_id"
    vs ← checked (items_at data_ "groups")
    read (
      record {
        id = id;
        username = username;
        name = if name == "" then username else name;
        email = email;
        telegram_chat_id = telegram_chat_id;
        groups = [];
      },
      vs,
    )

  -- `allowed` is the test of the rights, which comes before the groups and the texts are looked at.
  unfoldable pub read_edited_user : (ℕ → Read (Unit {0})) → J.Value → Read EditedUser
  read_edited_user allowed doc = do
    fields ← edit_fields doc
    allowed fields.0.id
    groups ← integers fields.1
    require (not (fields.0.username == ""))
    read (record fields.0 { groups = groups })

  -- The id of the document, if the rights allow it.
  unfoldable pub read_id : (ℕ → Read (Unit {0})) → J.Value → Read ℕ
  read_id allowed doc = do
    data_ ← object_at doc "data"
    id ← integer_at data_ "id"
    allowed id
    read id

  unfoldable pub read_new_group : J.Value → Read NewGroup
  read_new_group doc = do
    data_ ← object_at doc "data"
    name ← text_at data_ "name"
    description ← text_at data_ "description"
    vs ← checked (items_at data_ "members")
    require (not (name == ""))
    members ← integers vs
    read (record { name = name; description = description; members = members })

  unfoldable pub read_subscription : J.Value → Read Endpoint
  read_subscription doc = do
    data_ ← object_at doc "data"
    sub ← object_at data_ "subscription"
    endpoint ← text_at sub "endpoint"
    keys ← object_at sub "keys"
    p256dh ← text_at keys "p256dh"
    auth ← text_at keys "auth"
    read (record {
      endpoint = endpoint;
      p256dh = p256dh;
      auth = auth;
      user_agent = elim (J.member data_ "user_agent") [ none ↦ none | some w ↦ J.text w ];
    })
