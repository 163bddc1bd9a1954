-- ===== src/User/Account.antt =====
-- `User::Info`, `User::User` and `User::Logged`: src/user/info.hpp, src/user/info.cpp,
-- src/user/user.hpp and src/user/user.cpp; `can` of src/user/policy.cpp.
-- The notification settings of a user are read by no code that is modelled here and are left out.
use agro_daemon.Base.{
  ℕ, ◌-◌, ◌^◌, String, Bool, true, false, Option, none, some, [], ◌==◌, nat_eq, if◌then◌else◌,
}
use agro_daemon.User.Policy.{shares_bit}
use agro_daemon.User.Session.{Sessions}
use agro_daemon.User.Subscription.{Subscriptions}

-- An `int` that is only compared stands as its 32-bit pattern: this is -1.
abbrev pub invalid_id : ℕ
invalid_id = 2 ^ 32 - 1

abbrev pub root_id : ℕ
root_id = 0

abbrev pub root_username : String
root_username = "root"

pub data Status : Type 0 where
  invalid active inactive suspended deleted : Status

pub record Info : Type 0 where
  pub username : String
  pub name : String
  pub status : Status
  pub email : String
  pub telegram_chat_id : String

-- `Info::is_valid`, which `operator bool` returns.
unfoldable pub is_valid : Info → Bool
is_valid info = elim info.status [ Status.invalid ↦ false | _ ↦ true ]

pub record User : Type 0 where
  pub id : ℕ
  pub policy : ℕ
  pub info : Info
  pub subscriptions : Subscriptions
  pub sessions : Sessions

-- `User(user_id, Info&&)`
unfoldable pub new_user : ℕ → Info → User
new_user id info = record { id = id; policy = 0; info = info; subscriptions = []; sessions = [] }

-- `can(User::User const&, rule)`
unfoldable pub can_user : User → ℕ → Bool
can_user user rule = if user.id == root_id then true else shares_bit user.policy rule

-- The state of a connection. `user` is the pointer `user_`: the id of the user that it points to.
pub record Logged : Type 0 where
  pub id : ℕ
  pub user_agent : String
  pub session_id : String
  pub authenticated : Bool
  pub user : Option ℕ

abbrev pub anonymous : Logged
anonymous = record {
  id = invalid_id;
  user_agent = "";
  session_id = "";
  authenticated = false;
  user = none;
}

-- `Logged::user(User*)`
unfoldable pub set_user : Logged → User → Logged
set_user logged user = record logged { id = user.id; user = some user.id }

-- `Logged::user_agent(std::string const&)`
unfoldable pub set_user_agent : Logged → String → Logged
set_user_agent logged uagent = record logged { user_agent = uagent }

-- `Logged::authenticate()`
unfoldable pub authenticate : Logged → Logged
authenticate logged = record logged { authenticated = true }

-- `Logged::authenticate(session_id, user_agent)`
unfoldable pub authenticate_session : Logged → String → String → Logged
authenticate_session logged session_id user_agent = record logged {
  session_id = session_id;
  user_agent = user_agent;
  authenticated = true;
}

-- `Logged::policy_rules`. `find` gives the live user at a pointer; `none` is a pointer to a user
-- that is gone.
unfoldable pub policy_rules : (ℕ → Option User) → Logged → Option ℕ
policy_rules find logged = elim logged.user [
  | none ↦ some 0
  | some id ↦ elim (find id) [ none ↦ none | some user ↦ some user.policy ]
]

-- `can(User::Logged const&, rule)`
unfoldable pub can : (ℕ → Option User) → Logged → ℕ → Option Bool
unfolding policy_rules
can find logged rule =
    if logged.id == root_id
    then some true
    else elim (policy_rules find logged) [ none ↦ none | some rules ↦ some (shares_bit rules rule) ]
