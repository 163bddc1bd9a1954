-- ===== src/Instance/Users.antt =====
-- The user interface of the daemon: src/instance/user.cpp. What a call returns comes with the state
-- after it. The database and the key derivation of OpenSSL are parameters.
pub mod Sessions
pub mod Membership
use agro_daemon.Base.{
  ℕ, String, Bool, true, false, Option, none, some, List, [], ◌==◌, nat_eq, string_eq,
  if◌then◌else◌,
}
use agro_daemon.Base.Dict
use agro_daemon.User.Group
use agro_daemon.User.Group.{Group}
use agro_daemon.User.Session
use agro_daemon.User.Subscription
use agro_daemon.User.Account.{User, Info, Status, root_id, root_username, invalid_id, new_user}
use agro_daemon.User.UserList
use agro_daemon.User.UserList.{UserList}
use agro_daemon.Instance.Db.{Db}

-- What a user's sessions become, and what a user's subscriptions become.
abbrev pub with_sessions : (Session.Sessions → Session.Sessions) → User → User
with_sessions f user = record user { sessions = f user.sessions }

abbrev pub with_subscriptions :
    (Subscription.Subscriptions → Subscription.Subscriptions) → User → User
with_subscriptions f user = record user { subscriptions = f user.subscriptions }

-- A change of the user with an id, through the pointer that the list returned.
unfoldable pub change_user : UserList → ℕ → (User → User) → UserList
change_user l id f = record l { list = Dict.adjust id f l.list }

-- `create_password` of src/user/password.cpp: the salt is random, and OpenSSL derives the key from
-- the password with it, which may fail.
unfoldable pub create_password :
    (String → List ℕ → Option (List ℕ)) → List ℕ → String → Option (List ℕ)
create_password pbkdf2 salt password = pbkdf2 password salt

module _ (D : Db) where
  pub record Instance : Type 0 where
    pub db : D.State
    pub root : User
    pub users : UserList

module _ (D : Db) where
  unfoldable pub check_user_session_id : Instance D → ℕ → String → String → Bool × ℕ
  check_user_session_id i id session_id user_agent = elim (UserList.get i.users id) [
    | none ↦ (false, 0)
    | some user ↦ Session.check_user_session_id user.sessions session_id user_agent
  ]

  -- `get_user(std::string const&)`
  unfoldable pub get_user_by_name : Instance D → String → Option User
  get_user_by_name i username =
      if username == root_username then some i.root else UserList.get_by_username i.users username

  -- `get_user(user_id)`
  unfoldable pub get_user : Instance D → ℕ → Option User
  get_user i id = if id == root_id then some i.root else UserList.get i.users id

  unfoldable pub get_user_password : Instance D → String → Option (List ℕ × List ℕ)
  get_user_password i username = D.get_password i.db username

  -- The second result is the output `id`. `salt` is what the random generator fills the salt with.
  unfoldable pub add_user :
      (String → List ℕ → Option (List ℕ))
      → List ℕ
      → Instance D
      → String
      → String
      → String
      → String
      → String
      → Bool × ℕ × Instance D
  add_user pbkdf2 salt i username name password email chat =
      elim (create_password pbkdf2 salt password) [
        | none ↦ (false, invalid_id, i)
        | some key ↦
            let row = D.add_user i.db username key salt name email chat in
            let info : Info = record {
              username = username;
              name = name;
              status = Status.active;
              email = email;
              telegram_chat_id = chat;
            } in
            let added = UserList.add i.users (new_user row.1 info) in
            if row.0
            then (added.0, row.1, record i { db = row.2; users = added.1 })
            else (false, row.1, record i { db = row.2 })
      ]

  unfoldable pub add_user_to_group : Instance D → ℕ → ℕ → Bool × Instance D
  add_user_to_group i uid gid =
      let row = D.add_user_to_group i.db uid gid in
      let added = UserList.add_user_to_group i.users uid gid in
      if row.0
      then (added.0, record i { db = row.1; users = added.1 })
      else (false, record i { db = row.1 })

  unfoldable pub set_user_to_groups : Instance D → ℕ → List ℕ → Instance D
  set_user_to_groups i uid gids = record i {
    db = D.set_user_to_groups i.db uid gids;
    users = UserList.add_user_to_groups i.users uid gids;
  }

  unfoldable pub edit_user :
      Instance D → ℕ → String → String → String → String → List ℕ → Bool × Instance D
  edit_user i id username name email chat groups =
      let row = D.edit_user i.db id username name email chat groups in
      let edited = UserList.edit_user i.users id username name email chat groups in
      if row.0
      then (edited.0, record i { db = row.1; users = edited.1 })
      else (false, record i { db = row.1 })

  -- The last two steps of `delete_user`, after the user left the list.
  unfoldable pub delete_memberships : Instance D → ℕ → Bool × Instance D
  delete_memberships i id =
      let row = D.delete_user_from_group i.db id in
      if row.0
      then (true, record i { db = row.1; users = UserList.remove_user_from_all_groups i.users id })
      else (false, record i { db = row.1 })

  unfoldable pub delete_user : Instance D → ℕ → Bool × Instance D
  delete_user i id =
      let row = D.delete_user i.db id in
      let removed = UserList.remove i.users id in
      let i' = record i { db = row.1; users = removed.1 } in
      if row.0
      then (if removed.0 then delete_memberships i' id else (false, i'))
      else (false, record i { db = row.1 })

  unfoldable pub get_group_info : Instance D → ℕ → Option Group
  get_group_info i id = Group.get i.users.groups id

  -- The id of the new group stands in the place of a user's id in the last call.
  unfoldable pub add_group : Instance D → String → String → List ℕ → Bool × ℕ × Instance D
  add_group i name description members =
      let row = D.add_user_group i.db name description in
      let added = UserList.add_group i.users (Group.new_group row.1 name description) in
      let i' = record i { db = row.2; users = added.1 } in
      if row.0
      then (if added.0
          then (
            true,
            row.1,
            record i' {
              db = D.add_users_to_group row.2 row.1 members;
              users = UserList.add_user_to_groups added.1 row.1 members;
            },
          )
          else (false, row.1, i'))
      else (false, row.1, record i { db = row.2 })

  -- The database is asked twice, and the second answer counts.
  unfoldable pub delete_group : Instance D → ℕ → Bool × Instance D
  delete_group i id =
      let first = D.delete_group i.db id in
      let row = D.delete_group first.1 id in
      let removed = UserList.remove_group i.users id in
      if row.0
      then (removed.0, record i { db = row.1; users = removed.1 })
      else (false, record i { db = row.1 })

  -- The sessions of the user are told `add_or_update(user_agent, session_id)`.
  unfoldable pub update_user_session_id : ℕ → Instance D → ℕ → String → String → Bool × Instance D
  update_user_session_id now i id session_id user_agent = elim (UserList.get i.users id) [
    | none ↦ (false, i)
    | some _ ↦
        let row = D.update_user_session_id i.db id session_id user_agent in
        (
          row.0,
          record i {
            db = row.1;
            users =
                change_user i.users id
                  (with_sessions (λ s. Session.add_or_update_id now s user_agent session_id));
          },
        )
  ]

  unfoldable pub clear_session_user_agent : Instance D → ℕ → String → Instance D
  clear_session_user_agent i id user_agent = elim (UserList.get i.users id) [
    | none ↦ i
    | some _ ↦ record i {
      db = D.clear_session_user_agent i.db id user_agent;
      users =
          change_user i.users id
            (with_subscriptions (λ s. Subscription.clear_subscription s user_agent));
    }
  ]
