-- ===== src/Tests/Commands.antt =====
-- Commands about users from a user without rights.
use agro_daemon.Base.{
  ℕ, ◌≡◌, refl, ◌≢◌, true, false, some, [], ◌∷◌, ℕ_discrete, string_eq, arith, is_some,
}
use agro_daemon.Base.Dict
use agro_daemon.Message.Types.{get_user_config, get_config}
use agro_daemon.User.Group
use agro_daemon.User.Group.{contains_user, contains_id}
use agro_daemon.User.Group.Invariant.{IsValid}
use agro_daemon.User.Rule
use agro_daemon.User.Policy
use agro_daemon.User.Account.{User, Status, Logged, can, policy_rules}
use agro_daemon.User.UserList
use agro_daemon.Instance.Users as Daemon
use agro_daemon.Instance.Users.{Instance, get_user}
use agro_daemon.Message.User.{
  done, write_all_admins, deleted_user, edited_user, read, read_edited_user, edit_fields, integers,
  EditedUser, read_id, require_admin_or_self, is_admin,
}
use agro_daemon.Message.User.Commands as Commands
use agro_daemon.Message.User.Commands.{process_user, run_command}
use agro_daemon.Message.Rights.{Leaves}
use agro_daemon.Message.Rights.Denied.{process_user-Leaves}
use agro_daemon.Message.Rights.OwnGroups.{edit_user-own_groups}
use agro_daemon.Tests.Documents.{
  Document, text, number, end, field, member, as_text, as_integer, entries, is_object, json, db,
  pbkdf2, ana, daemon, request, groups-IsValid,
}

abbrev as_ana : Logged
as_ana = record {
  id = 7;
  user_agent = "phone";
  session_id = "s1";
  authenticated = true;
  user = some 7;
}

abbrev delete_ana : Document
delete_ana = request "delete_user" (field "id" (number 7) end)

abbrev without_ana : Instance db
without_ana = record daemon {
  users = record {
    list = [];
    groups = record { id = 1; name = "farmers"; description = ""; users = [] } ∷ [];
    policy_rules = [];
  };
}

no_admin : can (get_user db daemon) as_ana Rule.user_admin ≡ some false
unfolding can policy_rules get_user UserList.get Dict.lookup ℕ_discrete
no_admin = refl

run_delete :
    process_user json db pbkdf2 [] daemon as_ana delete_ana
    ≡ done without_ana as_ana (write_all_admins (deleted_user 7) ∷ [])
unfolding process_user run_command Commands.delete_user read_id require_admin_or_self is_admin can
    policy_rules get_user UserList.get Dict.lookup ℕ_discrete Daemon.delete_user
    Daemon.delete_memberships UserList.remove UserList.remove_user_from_all_groups Dict.erase
    Group.remove_user_from_all member as_text as_integer is_object get_user_config get_config
    string_eq
run_delete = refl

abbrev bob_id : ℕ
bob_id = 8

not_bob : as_ana.id ≢ bob_id
not_bob p = omega arith

process_user-Leaves_example : Leaves bob_id daemon.users without_ana.users × (as_ana.id ≡ as_ana.id)
process_user-Leaves_example =
    process_user-Leaves json db pbkdf2 [] daemon without_ana as_ana as_ana
      (write_all_admins (deleted_user 7) ∷ []) delete_ana bob_id no_admin not_bob groups-IsValid
      run_delete

-- The groups have a second one, which ana is not in.
abbrev two_groups : Instance db
two_groups = record daemon {
  users = record {
    list = (7, ana) ∷ [];
    groups =
        record { id = 1; name = "farmers"; description = ""; users = 7 ∷ [] }
        ∷ record { id = 2; name = "admins"; description = ""; users = [] }
        ∷ [];
    policy_rules = [];
  };
}

two_groups-IsValid : IsValid two_groups.users.groups
unfolding string_eq ℕ_discrete
two_groups-IsValid = record {
  unique_ids = (refl, (refl, tt));
  unique_names = (refl, (refl, tt));
  unique_users = ((refl, tt), (tt, tt));
}

abbrev edit : EditedUser
edit = record {
  id = 7;
  username = "ana";
  name = "Ana";
  email = "";
  telegram_chat_id = "";
  groups = 2 ∷ [];
}

abbrev join_admins : Document
join_admins = request "edit_user" (
    field "id" (number 7) (
      field "username" (text "ana") (
        field "name" (text "Ana") (
          field "email" (text "")
            (field "telegram_chat_id" (text "") (field "groups" (field "" (number 2) end) end))))))

abbrev edited_ana : User
edited_ana = record ana {
  policy = 0;
  info = record {
    username = "ana";
    name = "Ana";
    status = Status.active;
    email = "";
    telegram_chat_id = "";
  };
}

abbrev joined : Instance db
joined = record daemon {
  users = record {
    list = (7, edited_ana) ∷ [];
    groups =
        record { id = 1; name = "farmers"; description = ""; users = [] }
        ∷ record { id = 2; name = "admins"; description = ""; users = 7 ∷ [] }
        ∷ [];
    policy_rules = [];
  };
}

still_no_admin : can (get_user db two_groups) as_ana Rule.user_admin ≡ some false
unfolding can policy_rules get_user UserList.get Dict.lookup ℕ_discrete
still_no_admin = refl

well_formed : read_edited_user json (λ id. read tt) join_admins ≡ read edit
unfolding read_edited_user edit_fields integers member as_text as_integer is_object entries
    string_eq
well_formed = refl

listed : is_some (UserList.get two_groups.users 7) ≡ true
unfolding UserList.get Dict.lookup ℕ_discrete
listed = refl

run_edit :
    Commands.edit_user json db two_groups as_ana join_admins
    ≡ done joined as_ana (write_all_admins (edited_user edited_ana (2 ∷ [])) ∷ [])
unfolding Commands.edit_user read_edited_user edit_fields integers require_admin_or_self is_admin
    can policy_rules get_user UserList.get Dict.lookup Dict.adjust ℕ_discrete Daemon.edit_user
    UserList.edit_user UserList.edit_info UserList.set_user_to_groups UserList.update_user_policy
    UserList.with_policy Policy.get_policy Policy.get_group_policy Group.remove_user_from_all
    Group.add_user_to_groups Group.contains member as_text as_integer is_object entries string_eq
run_edit = refl

edit_user-own_groups_example : contains_user joined.users.groups 2 7 ≡ true
unfolding contains_id ℕ_discrete
edit_user-own_groups_example =
    edit_user-own_groups json db two_groups joined as_ana as_ana
      (write_all_admins (edited_user edited_ana (2 ∷ [])) ∷ []) join_admins edit 2 still_no_admin
      well_formed refl refl listed two_groups-IsValid run_edit
