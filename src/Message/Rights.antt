-- ===== src/Message/Rights.antt =====
-- What a connection without the right `user_admin` can change.
pub mod Contained
pub mod Denied
pub mod OwnGroups
use agro_daemon.Base.{
  ℕ, String, ◌≡◌, refl, ◌≢◌, Bool, true, false, ◌&&◌, ◌||◌, Option, none, some, List, [], ◌∷◌, ◌==◌,
  nat_eq, if◌then◌else◌, arith, is_some, Bool-cases, Option-cases, inl, inr, ◌∙◌, ap, ℕ_discrete,
}
use agro_daemon.Base.Dict
use agro_daemon.Base.Dict.{lookup-adjust_ne, lookup-erase}
use agro_daemon.Message.Json.{Json}
use agro_daemon.Message.Types.{UserCommand, get_user_config}
use agro_daemon.User.Group.{contains_user, contains_id}
use agro_daemon.User.Group.Invariant.{IsValid}
use agro_daemon.User.Rule
use agro_daemon.User.Account.{User, Logged, can, set_user_agent}
use agro_daemon.User.UserList
use agro_daemon.User.UserList.{UserList}
use agro_daemon.User.UserList.Edit.{edit_user-get, edit_user-contains_user}
use agro_daemon.User.Group.Membership.{contains_user-remove_user_from_all}
use agro_daemon.Instance.Db.{Db}
use agro_daemon.Instance.Users as Daemon
use agro_daemon.Instance.Users.{Instance, get_user, change_user}
use agro_daemon.Instance.Push.{push_subscribe_user, push_unsubscribe_user}
use agro_daemon.Message.User.{
  Read, refused, broken, read, Event, Handled, fault, done, settle, pointed, is_admin,
  require_admin, require_admin_or_self, read_id, read_edited_user, EditedUser, NewUser,
  read_new_user, read_new_group, read_subscription, Endpoint, integers,
}
use agro_daemon.Message.User.Commands.{
  with_agent, process_subscription, process_unsubscription, logout, user_group_policies, add_user,
  edit_user, delete_user, add_group, delete_group, process_user,
}

-- The user `k`, and the groups it is in, are as before.
pub record Leaves (k : ℕ) (l l' : UserList) : Type 0 where
  pub user : UserList.get l' k ≡ UserList.get l k
  pub groups : (gid : ℕ) → contains_user l'.groups gid k ≡ contains_user l.groups gid k

pub Leaves-refl : (k : ℕ) (l : UserList) → Leaves k l l
Leaves-refl k l = record { user = refl; groups = λ gid. refl }

change_user-Leaves :
    (k id : ℕ) (l : UserList) (f : User → User) → id ≢ k → Leaves k l (change_user l id f)
unfolding change_user UserList.get
change_user-Leaves k id l f ne = record {
  user = lookup-adjust_ne k id f l.list ne;
  groups = λ gid. refl;
}

list_edit-Leaves :
    (k id : ℕ) (l : UserList) (username name email chat : String) (gids : List ℕ)
    → id ≢ k
    → IsValid l.groups
    → Leaves k l (UserList.edit_user l id username name email chat gids).1
unfolding UserList.edit_user
list_edit-Leaves k id l username name email chat gids ne v =
    elim (Option-cases (UserList.get l id)) [
      | inl missing ↦ rw (missing, UserList.edit_user) (Leaves-refl k l)
      | inr (u, found) ↦ record {
        user = ground (arith, edit_user-get l id username name email chat gids u k found);
        groups = λ gid. ground (
          arith,
          edit_user-contains_user l id username name email chat gids gid k (ap is_some found) v,
        );
      }
    ]

module _ (D : Db) (k : ℕ) where
  pub edit_user-Leaves :
      (i : Instance D) (u : ℕ) (username name email chat : String) (gids : List ℕ)
      → u ≢ k
      → IsValid i.users.groups
      → Leaves k i.users (Daemon.edit_user D i u username name email chat gids).1.users
  unfolding Daemon.edit_user
  edit_user-Leaves i u username name email chat gids ne v =
      elim (Bool-cases (D.edit_user i.db u username name email chat gids).0) [
        | inl ok ↦ rw ok (list_edit-Leaves k u i.users username name email chat gids ne v)
        | inr no_row ↦ rw no_row (Leaves-refl k i.users)
      ]

  pub delete_user-Leaves :
      (i : Instance D) (id : ℕ)
      → id ≢ k
      → IsValid i.users.groups
      → Leaves k i.users (Daemon.delete_user D i id).1.users
  unfolding Daemon.delete_user Daemon.delete_memberships UserList.remove UserList.get
      UserList.remove_user_from_all_groups
  delete_user-Leaves i id ne v = record {
    user = ground (arith, lookup-erase k id i.users.list);
    groups = λ gid.
        ground (arith, contains_user-remove_user_from_all i.users.groups id gid k v.unique_users);
  }

  pub push-Leaves :
      (i : Instance D) (id : ℕ) (agent e p a : String)
      → id ≢ k
      → Leaves k i.users (push_subscribe_user D i id agent e p a).users
  unfolding push_subscribe_user
  push-Leaves i id agent e p a ne = elim (Option-cases (UserList.get i.users id)) [
    | inl missing ↦ rw (missing, push_subscribe_user) (Leaves-refl k i.users)
    | inr (u, found) ↦ rw (found, push_subscribe_user) (change_user-Leaves k id i.users _ ne)
  ]

  pub unpush-Leaves :
      (i : Instance D) (id : ℕ) (agent : String)
      → id ≢ k
      → Leaves k i.users (push_unsubscribe_user D i id agent).users
  unfolding push_unsubscribe_user
  unpush-Leaves i id agent ne = elim (Option-cases (UserList.get i.users id)) [
    | inl missing ↦ rw (missing, push_unsubscribe_user) (Leaves-refl k i.users)
    | inr (u, found) ↦ rw (found, push_unsubscribe_user) (change_user-Leaves k id i.users _ ne)
  ]

  pub clear-Leaves :
      (i : Instance D) (id : ℕ) (agent : String)
      → id ≢ k
      → Leaves k i.users (Daemon.clear_session_user_agent D i id agent).users
  unfolding Daemon.clear_session_user_agent
  clear-Leaves i id agent ne = elim (Option-cases (UserList.get i.users id)) [
    | inl missing ↦ rw (missing, Daemon.clear_session_user_agent) (Leaves-refl k i.users)
    | inr (u, found) ↦
        rw (found, Daemon.clear_session_user_agent) (change_user-Leaves k id i.users _ ne)
  ]
