-- ===== src/Message/User/Commands.antt =====
-- The handlers of src/message/user.cpp and `process_user`, which chooses one.
use agro_daemon.Base.{ℕ, String, true, false, Option, none, some, List, [], ◌∷◌, if◌then◌else◌}
use agro_daemon.Message.Json.{Json}
use agro_daemon.Message.Types.{UserCommand, get_user_config}
use agro_daemon.User.Account.{Logged, set_user_agent}
use agro_daemon.Instance.Db.{Db}
use agro_daemon.Instance.Users as Daemon
use agro_daemon.Instance.Users.{Instance, get_user}
use agro_daemon.Instance.Push.{push_subscribe_user, push_unsubscribe_user}
use agro_daemon.Message.User.{
  refused, broken, read, ◌>>◌, write, write_all_admins, close, subscribed, all_users, added_user,
  edited_user, deleted_user, added_group, deleted_group, Handled, fault, done, settle, pointed,
  require_admin, require_admin_or_self, text_at, read_new_user, read_edited_user, read_id,
  read_new_group, Endpoint, read_subscription,
}

-- The user agent that a subscription names replaces the one of the connection.
abbrev pub with_agent : Option String → Logged → Logged
with_agent none logged = logged
with_agent (some agent) logged = set_user_agent logged agent

module _ (J : Json) (D : Db) where
  unfoldable pub add_subscription : Instance D → Logged → Endpoint → Handled D
  add_subscription i logged e =
      let i' = push_subscribe_user D i logged.id logged.user_agent e.endpoint e.p256dh e.auth in
      settle D i logged (pointed D i' logged) (λ _. (i', write (subscribed true) ∷ []))

  unfoldable pub process_subscription : Instance D → Logged → J.Value → Handled D
  process_subscription i logged doc = elim (read_subscription J doc) [
    | refused ↦ done i logged []
    | broken ↦ fault
    | read e ↦ add_subscription i (with_agent e.user_agent logged) e
  ]

  unfoldable pub process_unsubscription : Instance D → Logged → Handled D
  process_unsubscription i logged =
      let i' = push_unsubscribe_user D i logged.id logged.user_agent in
      settle D i logged (pointed D i' logged) (λ _. (i', write (subscribed false) ∷ []))

  unfoldable pub logout : Instance D → Logged → Handled D
  logout i logged =
      settle D i logged (pointed D i logged)
        (λ _. (Daemon.clear_session_user_agent D i logged.id logged.user_agent, close ∷ []))

  unfoldable pub user_group_policies : Instance D → Logged → Handled D
  user_group_policies i logged =
      settle D i logged (require_admin D i logged >> pointed D i logged)
        (λ _. (i, write all_users ∷ []))

  unfoldable pub add_user :
      (String → List ℕ → Option (List ℕ)) → List ℕ → Instance D → Logged → J.Value → Handled D
  add_user pbkdf2 salt i logged doc =
      settle D i logged (require_admin D i logged >> read_new_user J doc) (λ u.
        let added =
          Daemon.add_user D pbkdf2 salt i u.username u.name u.password u.email u.telegram_chat_id in
        let i' = Daemon.set_user_to_groups D added.2 added.1 u.groups in
        if added.0
        then (
          i',
          elim (get_user D i' added.1) [
            | none ↦ []
            | some uuser ↦ write_all_admins (added_user uuser u.groups) ∷ []
          ],
        )
        else (added.2, []))

  unfoldable pub edit_user : Instance D → Logged → J.Value → Handled D
  edit_user i logged doc =
      settle D i logged (read_edited_user J (require_admin_or_self D i logged) doc) (λ u.
        let edited =
          Daemon.edit_user D i u.id u.username u.name u.email u.telegram_chat_id u.groups in
        if edited.0
        then (
          edited.1,
          elim (get_user D edited.1 u.id) [
            | none ↦ []
            | some uuser ↦ write_all_admins (edited_user uuser u.groups) ∷ []
          ],
        )
        else (edited.1, []))

  unfoldable pub delete_user : Instance D → Logged → J.Value → Handled D
  delete_user i logged doc =
      settle D i logged (read_id J (require_admin_or_self D i logged) doc) (λ id.
        let deleted = Daemon.delete_user D i id in
        (deleted.1, if deleted.0 then write_all_admins (deleted_user id) ∷ [] else []))

  unfoldable pub add_group : Instance D → Logged → J.Value → Handled D
  add_group i logged doc =
      settle D i logged (require_admin D i logged >> read_new_group J doc) (λ g.
        let added = Daemon.add_group D i g.name g.description g.members in
        if added.0
        then (
          added.2,
          elim (Daemon.get_group_info D added.2 added.1) [
            | none ↦ []
            | some group ↦ write_all_admins (added_group group) ∷ []
          ],
        )
        else (added.2, []))

  unfoldable pub delete_group : Instance D → Logged → J.Value → Handled D
  delete_group i logged doc =
      settle D i logged (require_admin D i logged >> read_id J (λ id. read tt) doc) (λ id.
        let deleted = Daemon.delete_group D i id in
        (deleted.1, if deleted.0 then write_all_admins (deleted_group id) ∷ [] else []))

  -- The `switch` of `process_user`.
  unfoldable pub run_command :
      UserCommand
      → (String → List ℕ → Option (List ℕ))
      → List ℕ
      → Instance D
      → Logged
      → J.Value
      → Handled D
  run_command comm pbkdf2 salt i logged doc = elim comm [
    | UserCommand.push_subscribe ↦ process_subscription i logged doc
    | UserCommand.push_unsubscribe ↦ process_unsubscription i logged
    | UserCommand.logout ↦ logout i logged
    | UserCommand.autheticate ↦ done i logged []
    | UserCommand.auth_session_id ↦ done i logged []
    | UserCommand.user_group_policies ↦ user_group_policies i logged
    | UserCommand.add_user ↦ add_user pbkdf2 salt i logged doc
    | UserCommand.add_group ↦ add_group i logged doc
    | UserCommand.edit_user ↦ edit_user i logged doc
    | UserCommand.delete_user ↦ delete_user i logged doc
    | UserCommand.delete_group ↦ delete_group i logged doc
  ]

  -- The command of the document, if there is one.
  unfoldable pub process_user :
      (String → List ℕ → Option (List ℕ)) → List ℕ → Instance D → Logged → J.Value → Handled D
  process_user pbkdf2 salt i logged doc = elim (text_at J doc "command") [
    | refused ↦ done i logged []
    | broken ↦ fault
    | read command ↦ elim (get_user_config command) [
      | none ↦ done i logged []
      | some comm ↦ run_command comm pbkdf2 salt i logged doc
    ]
  ]
