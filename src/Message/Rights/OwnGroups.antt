-- ===== src/Message/Rights/OwnGroups.antt =====
-- The groups that the `edit_user` of src/message/user.cpp leaves.
use agro_daemon.Base.{
  ℕ, ◌≡◌, true, false, not, ◌&&◌, arith, is_some, some, List, nat_eq, ◌==◌, ==_iff, string_eq, ap,
  ◌∙◌,
}
use agro_daemon.Base.Lists
use agro_daemon.Message.Json.{Json}
use agro_daemon.User.Group.{contains_user, contains_id}
use agro_daemon.User.Group.Invariant.{IsValid}
use agro_daemon.User.Rule
use agro_daemon.User.Account.{Logged, can}
use agro_daemon.User.UserList
use agro_daemon.User.UserList.Edit.{edit_user-contains_user}
use agro_daemon.Instance.Db.{Db}
use agro_daemon.Instance.Users as Daemon
use agro_daemon.Instance.Users.{Instance, get_user}
use agro_daemon.Message.User.{
  Read, Event, done, read, is_admin, require_admin_or_self, read_edited_user, edit_fields,
  EditedUser, integers, require,
}
use agro_daemon.Message.User.Commands.{edit_user}
use agro_daemon.Message.Rights.Contained.{read-before}

self_allowed :
    (D : Db) (i : Instance D) (logged : Logged) (id : ℕ)
    → can (get_user D i) logged Rule.user_admin ≡ some false
    → id ≡ logged.id
    → require_admin_or_self D i logged id ≡ read tt
unfolding require_admin_or_self is_admin
self_allowed D i logged id denied self = rw denied (ground (arith, ==_iff id logged.id))

-- A document that is well-formed is read if the rights allow its id.
read_edited_user-allowed :
    (J : Json) (allowed : ℕ → Read (Unit {0})) (doc : J.Value) (u : EditedUser)
    → read_edited_user J (λ id. read tt) doc ≡ read u
    → allowed u.id ≡ read tt
    → read_edited_user J allowed doc ≡ read u
unfolding read_edited_user
read_edited_user-allowed J allowed doc u h ok =
    let (fields, e₁, h₁) = read-before (edit_fields J doc) _ u h in
    let (groups, e₂, h₂) = read-before (integers J fields.1) _ u h₁ in
    let (_, e₃, h₃) = read-before (require (not (fields.0.username == ""))) _ u h₂ in
    let same : fields.0.id ≡ u.id = ground arith in ground (arith, e₁, h₁, ap allowed same ∙ ok)

-- A user without the right `user_admin` that edits itself by a well-formed document, which the
-- database stores, becomes a member of exactly the groups that the document names, as far as they
-- exist, whatever rights those groups have.
pub edit_user-own_groups :
    (J : Json) (D : Db) (i after : Instance D) (logged logged' : Logged) (events : List Event)
    (doc : J.Value) (u : EditedUser) (gid : ℕ)
    → can (get_user D i) logged Rule.user_admin ≡ some false
    → read_edited_user J (λ id. read tt) doc ≡ read u
    → u.id ≡ logged.id
    → (D.edit_user i.db u.id u.username u.name u.email u.telegram_chat_id u.groups).0 ≡ true
    → is_some (UserList.get i.users u.id) ≡ true
    → IsValid i.users.groups
    → edit_user J D i logged doc ≡ done after logged' events
    → contains_user after.users.groups gid u.id
      ≡ (contains_id i.users.groups gid && Lists.contains u.groups gid)
unfolding edit_user Daemon.edit_user
edit_user-own_groups J D i after logged logged' events doc u gid denied r self stored listed v e =
    ground (
      arith,
      read_edited_user-allowed J (require_admin_or_self D i logged) doc u r
          (self_allowed D i logged u.id denied self),
      edit_user-contains_user i.users u.id u.username u.name u.email u.telegram_chat_id u.groups gid
          u.id listed v,
    )
