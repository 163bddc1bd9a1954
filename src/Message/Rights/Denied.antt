-- ===== src/Message/Rights/Denied.antt =====
-- The commands of src/message/user.cpp from a connection without the right `user_admin`.
use agro_daemon.Base.{
  ℕ, String, ◌≡◌, refl, ◌≢◌, false, Option, some, List, [], nat_eq, arith, Option-cases, inl, inr,
  ◌∙◌, subst, ==_iff, string_eq, sym,
}
use agro_daemon.Message.Json.{Json}
use agro_daemon.Message.Types.{UserCommand, get_user_config}
use agro_daemon.User.Group.Invariant.{IsValid}
use agro_daemon.User.Rule
use agro_daemon.User.Account.{Logged, can}
use agro_daemon.Instance.Db.{Db}
use agro_daemon.Instance.Users.{Instance, get_user}
use agro_daemon.Message.User.{
  refused, read, Event, done, pointed, is_admin, require_admin, require_admin_or_self, read_id,
  read_edited_user, edit_fields, EditedUser, read_subscription, integers, object_at, text_at,
  integer_at,
}
use agro_daemon.Message.User.Commands.{
  process_subscription, process_unsubscription, logout, user_group_policies, add_user, edit_user,
  delete_user, add_group, delete_group, run_command, process_user,
}
use agro_daemon.Message.Rights.{
  Leaves, Leaves-refl, edit_user-Leaves, delete_user-Leaves, unpush-Leaves, clear-Leaves,
}
use agro_daemon.Message.Rights.Contained.{
  Contained, Read-cases, read-before, settle-Contained, fault_Contained, add_subscription-Contained,
}

module _ (J : Json) (D : Db) (k : ℕ) (i : Instance D) (logged : Logged)
    (denied : can (get_user D i) logged Rule.user_admin ≡ some false) where
  not_admin : require_admin D i logged ≡ refused
  unfolding require_admin is_admin
  not_admin = rw denied refl

  only_self : (id : ℕ) → require_admin_or_self D i logged id ≡ read tt → id ≡ logged.id
  unfolding require_admin_or_self is_admin
  only_self id h = ground (arith, ==_iff id logged.id)

  read_id_self :
      (doc : J.Value) (id : ℕ)
      → read_id J (require_admin_or_self D i logged) doc ≡ read id
      → id ≡ logged.id
  unfolding read_id
  read_id_self doc id h =
      let (data_, e₁, h₁) = read-before (object_at J doc "data") _ _ h in
      let (id', e₂, h₂) = read-before (integer_at J data_ "id") _ _ h₁ in
      let (_, allowed, h₃) = read-before (require_admin_or_self D i logged id') _ _ h₂ in
      ground (arith, only_self id' allowed)

  read_edited_user_self :
      (doc : J.Value) (u : EditedUser)
      → read_edited_user J (require_admin_or_self D i logged) doc ≡ read u
      → u.id ≡ logged.id
  unfolding read_edited_user
  read_edited_user_self doc u h =
      let (fields, e₁, h₁) = read-before (edit_fields J doc) _ u h in
      let (_, allowed, h₂) = read-before (require_admin_or_self D i logged fields.0.id) _ u h₁ in
      let (groups, e₃, h₃) = read-before (integers J fields.1) _ u h₂ in
      ground (arith, only_self fields.0.id allowed)

  refused-Contained : Contained D k i logged (done i logged [])
  unfolding Contained
  refused-Contained = (Leaves-refl k i.users, refl)

  module _ (other : logged.id ≢ k) where
    logout-Contained : Contained D k i logged (logout J D i logged)
    unfolding logout
    logout-Contained =
        settle-Contained D k i logged (pointed D i logged) _
          (λ _ e. clear-Leaves D k i logged.id logged.user_agent other)

    policies-Contained : Contained D k i logged (user_group_policies J D i logged)
    unfolding user_group_policies
    policies-Contained = rw not_admin refused-Contained

    unsubscription-Contained : Contained D k i logged (process_unsubscription J D i logged)
    unfolding process_unsubscription
    unsubscription-Contained =
        settle-Contained D k i logged _ _
          (λ _ e. unpush-Leaves D k i logged.id logged.user_agent other)

    subscription-Contained :
        (doc : J.Value) → Contained D k i logged (process_subscription J D i logged doc)
    unfolding process_subscription
    subscription-Contained doc = elim (Read-cases (read_subscription J doc)) [
      | inr (inl skip) ↦ rw (skip, process_subscription) refused-Contained
      | inr (inr bad) ↦ rw (bad, process_subscription) (fault_Contained D k i logged)
      | inl (e, found) ↦
          rw (found, process_subscription) (add_subscription-Contained J D k i logged e other)
    ]

    edit_user-Contained :
        (doc : J.Value)
        → IsValid i.users.groups
        → Contained D k i logged (edit_user J D i logged doc)
    unfolding edit_user
    edit_user-Contained doc v = settle-Contained D k i logged _ _ (λ u e. ground (
      arith,
      edit_user-Leaves D k i u.id u.username u.name u.email u.telegram_chat_id u.groups
          (λ p. other (sym (read_edited_user_self doc u e) ∙ p)) v,
    ))

    delete_user-Contained :
        (doc : J.Value)
        → IsValid i.users.groups
        → Contained D k i logged (delete_user J D i logged doc)
    unfolding delete_user
    delete_user-Contained doc v =
        settle-Contained D k i logged _ _
          (λ id e. delete_user-Leaves D k i id (λ p. other (sym (read_id_self doc id e) ∙ p)) v)

    admins_only :
        (pbkdf2 : String → List ℕ → Option (List ℕ)) (salt : List ℕ) (doc : J.Value)
        → (add_user J D pbkdf2 salt i logged doc ≡ done i logged [])
          × (add_group J D i logged doc ≡ done i logged [])
          × (delete_group J D i logged doc ≡ done i logged [])
    unfolding add_user add_group delete_group
    admins_only pbkdf2 salt doc = rw not_admin (refl, refl, refl)

    command-Contained :
        (comm : UserCommand) (pbkdf2 : String → List ℕ → Option (List ℕ)) (salt : List ℕ)
        (doc : J.Value)
        → IsValid i.users.groups
        → Contained D k i logged (run_command J D comm pbkdf2 salt i logged doc)
    unfolding run_command
    command-Contained UserCommand.autheticate pbkdf2 salt doc v = refused-Contained
    command-Contained UserCommand.auth_session_id pbkdf2 salt doc v = refused-Contained
    command-Contained UserCommand.logout pbkdf2 salt doc v = logout-Contained
    command-Contained UserCommand.push_subscribe pbkdf2 salt doc v = subscription-Contained doc
    command-Contained UserCommand.push_unsubscribe pbkdf2 salt doc v = unsubscription-Contained
    command-Contained UserCommand.user_group_policies pbkdf2 salt doc v = policies-Contained
    command-Contained UserCommand.add_user pbkdf2 salt doc v =
        let (same, _, _) = admins_only pbkdf2 salt doc in rw same refused-Contained
    command-Contained UserCommand.edit_user pbkdf2 salt doc v = edit_user-Contained doc v
    command-Contained UserCommand.delete_user pbkdf2 salt doc v = delete_user-Contained doc v
    command-Contained UserCommand.add_group pbkdf2 salt doc v =
        let (_, same, _) = admins_only pbkdf2 salt doc in rw same refused-Contained
    command-Contained UserCommand.delete_group pbkdf2 salt doc v =
        let (_, _, same) = admins_only pbkdf2 salt doc in rw same refused-Contained

    process_user-Contained :
        (pbkdf2 : String → List ℕ → Option (List ℕ)) (salt : List ℕ) (doc : J.Value)
        → IsValid i.users.groups
        → Contained D k i logged (process_user J D pbkdf2 salt i logged doc)
    unfolding process_user
    process_user-Contained pbkdf2 salt doc v = elim (Read-cases (text_at J doc "command")) [
      | inr (inl skip) ↦ rw (skip, process_user) refused-Contained
      | inr (inr bad) ↦ rw (bad, process_user) (fault_Contained D k i logged)
      | inl (command, found) ↦ elim (Option-cases (get_user_config command)) [
        | inl unknown ↦ rw (found, process_user, unknown) refused-Contained
        | inr (comm, known) ↦
            rw (found, process_user, known) (command-Contained comm pbkdf2 salt doc v)
      ]
    ]

-- A command about users from a connection without the right `user_admin`, if its handler returns,
-- leaves every user but the one that the connection stands for as they were, with all their
-- memberships, and the connection stands for the same user.
pub process_user-Leaves :
    (J : Json) (D : Db) (pbkdf2 : String → List ℕ → Option (List ℕ)) (salt : List ℕ)
    (i after : Instance D) (logged logged' : Logged) (events : List Event) (doc : J.Value) (k : ℕ)
    → can (get_user D i) logged Rule.user_admin ≡ some false
    → logged.id ≢ k
    → IsValid i.users.groups
    → process_user J D pbkdf2 salt i logged doc ≡ done after logged' events
    → Leaves k i.users after.users × (logged'.id ≡ logged.id)
unfolding Contained
process_user-Leaves J D pbkdf2 salt i after logged logged' events doc k denied other v e =
    subst (Contained D k i logged) e
      (process_user-Contained J D k i logged denied other pbkdf2 salt doc v)
