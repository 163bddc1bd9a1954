-- ===== src/Tests/Documents.antt =====
-- A small document type, a small database and a daemon over them.
use agro_daemon.Base.{
  ℕ, String, refl, Bool, true, false, Option, none, some, List, [], ◌∷◌, ◌==◌, nat_eq, string_eq,
  if◌then◌else◌,
}
use agro_daemon.Message.Json.{Json}
use agro_daemon.User.Group.{Groups}
use agro_daemon.User.Group.Invariant.{IsValid}
use agro_daemon.User.Account.{User, Status}
use agro_daemon.Instance.Db.{Db}
use agro_daemon.Instance.Users.{Instance}

-- A document: a text, or an object as a chain of its members.
pub data Document : Type 0 where
  text : String → Document
  number : ℕ → Document
  end : Document
  field : String → Document → Document → Document

unfoldable pub member : Document → String → Option Document
unfolding string_eq
member (text s) name = none
member (number n) name = none
member end name = none
member (field n v rest) name = let found = member rest name in if n == name then some v else found

unfoldable pub as_text : Document → Option String
as_text (text s) = some s
as_text _ = none

unfoldable pub is_object : Document → Bool
is_object (text s) = false
is_object (number n) = false
is_object _ = true

unfoldable pub as_integer : Document → Option ℕ
as_integer (number n) = some n
as_integer _ = none

-- An array is a chain as well.
unfoldable pub entries : Document → Option (List Document)
entries (text s) = none
entries (number n) = none
entries end = some []
entries (field n v rest) =
    let others = entries rest in elim others [ none ↦ none | some vs ↦ some (v ∷ vs) ]

abbrev pub json : Json
json = record {
  Value = Document;
  member = member;
  text = as_text;
  integer = as_integer;
  unsigned = as_integer;
  is_object = is_object;
  items = entries;
}

-- A database that stores the passwords and accepts every change.
abbrev pub db : Db
db = record {
  State = String → Option (List ℕ × List ℕ);
  get_password = λ s name. s name;
  add_user = λ s username key salt name email chat. (true, 9, s);
  add_user_to_group = λ s uid gid. (true, s);
  set_user_to_groups = λ s uid gids. s;
  edit_user = λ s id username name email chat gids. (true, s);
  delete_user = λ s id. (true, s);
  delete_user_from_group = λ s id. (true, s);
  add_user_group = λ s name description. (true, 4, s);
  add_users_to_group = λ s gid uids. s;
  delete_group = λ s id. (true, s);
  update_user_session_id = λ s id sid agent. (true, s);
  clear_session_user_agent = λ s id agent. s;
  push_subscribe_user = λ s id agent endpoint p256dh auth. s;
  push_unsubscribe_user = λ s id agent. s;
}

-- A hash of every password that is not the stored one.
abbrev pub pbkdf2 : String → List ℕ → Option (List ℕ)
pbkdf2 password salt = some []

abbrev pub person : ℕ → String → User
person id name = record {
  id = id;
  policy = 2;
  info = record {
    username = name;
    name = "";
    status = Status.active;
    email = "";
    telegram_chat_id = "";
  };
  subscriptions = [];
  sessions =
      record {
        user_agent = "phone";
        session_id = "s1";
        logged = false;
        session_time = 100;
        session_time_login = 0;
        session_time_logout = 0;
      }
      ∷ [];
}

abbrev pub ana : User
ana = person 7 "ana"

abbrev pub groups : Groups
groups = record { id = 1; name = "farmers"; description = ""; users = 7 ∷ [] } ∷ []

pub groups-IsValid : IsValid groups
groups-IsValid = record {
  unique_ids = (refl, tt);
  unique_names = (refl, tt);
  unique_users = ((refl, tt), tt);
}

abbrev pub daemon : Instance db
daemon = record {
  db = λ name. some ([], 1 ∷ 2 ∷ []);
  root = person 0 "root";
  users = record { list = (7, ana) ∷ []; groups = groups; policy_rules = [] };
}

abbrev pub request : String → Document → Document
request command payload =
    field "type" (text "user") (field "command" (text command) (field "data" payload end))
