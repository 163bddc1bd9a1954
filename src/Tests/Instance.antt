-- ===== src/Tests/Instance.antt =====
-- The user interface of the daemon over a small document type and a small database.
use agro_daemon.Base.{
  ℕ, ◌≡◌, refl, true, false, Option, none, some, [], ◌∷◌, ◌==◌, nat_eq, string_eq, if◌then◌else◌,
  ℕ_discrete,
}
use agro_daemon.Base.Dict
use agro_daemon.Message.Types.{
  auth_session_id, autheticate, get_type_config, get_user_config, get_config,
}
use agro_daemon.User.Group
use agro_daemon.User.Group.{Group, Groups, contains_id, contains_user}
use agro_daemon.User.Rule
use agro_daemon.User.Session.{Session}
use agro_daemon.User.Session
use agro_daemon.User.Account.{set_user, User, anonymous, can, can_user}
use agro_daemon.User.UserList
use agro_daemon.User.UserList.{UserList}
use agro_daemon.User.UserList.Calls.{after_group}
use agro_daemon.Instance.Users.{
  check_user_session_id, add_group, set_user_to_groups, delete_user, delete_memberships,
  get_user_by_name, get_user_password,
}
use agro_daemon.Instance.Users.Membership.{
  add_group-fails, set_user_to_groups-contains_user, delete_user-removes,
}
use agro_daemon.Instance.Auth.{
  ok, err, fault, Error, find_user, check_credential, authenticate_doc, is_auth_package,
  check_package, check_authentice_package, check_auth_session_id_package, check_password,
  check_session_id, check_user_status,
}
use agro_daemon.Instance.Auth.Sound.{Admitted, authenticate_doc-Admitted}
use agro_daemon.Tests.Documents.{
  Document, text, end, field, member, as_text, is_object, json, db, pbkdf2, ana, groups-IsValid,
  daemon, request,
}

abbrev by_session : Document
by_session = request "auth_session_id" (
    field "user" (text "ana")
      (field "sessionid" (text "s1") (field "user_agent" (text "phone") end)))

abbrev by_password : Document
by_password =
    request "authenticate" (field "user" (text "ana") (field "password" (text "guess") end))

abbrev unknown : Document
unknown = request "sudo" end

accepted : (authenticate_doc json db pbkdf2 200 daemon anonymous by_session).0 ≡ ok auth_session_id
unfolding authenticate_doc find_user is_auth_package get_type_config get_user_config member as_text
    is_object get_config check_package check_authentice_package check_auth_session_id_package
    get_user_by_name UserList.get_by_username UserList.find_username check_credential
    check_session_id check_user_status check_user_session_id UserList.get Dict.lookup
    Session.check_user_session_id string_eq ℕ_discrete Session.check
accepted = refl

authenticate_doc-Admitted_example :
    Admitted json db pbkdf2 200 daemon anonymous by_session auth_session_id
authenticate_doc-Admitted_example =
    authenticate_doc-Admitted json db pbkdf2 200 daemon anonymous by_session auth_session_id
      accepted

-- The password is wrong, and the connection stands for the user all the same.
found_user :
    find_user json db pbkdf2 daemon by_password
    ≡ ok (autheticate, ana, field "user" (text "ana") (field "password" (text "guess") end))
unfolding find_user is_auth_package get_type_config get_user_config member as_text is_object
    get_config check_package check_authentice_package get_user_by_name UserList.get_by_username
    UserList.find_username string_eq ℕ_discrete
found_user = refl

refused :
    check_credential json db pbkdf2 200 autheticate daemon ana
      (field "user" (text "ana") (field "password" (text "guess") end))
    ≡ err Error.password_not_match
unfolding check_credential check_password check_user_status get_user_password member as_text
    string_eq ℕ_discrete
refused = refl

abbrev find : ℕ → Option User
find id = if id == 7 then some ana else none

found_ana : find 7 ≡ some ana
unfolding ℕ_discrete
found_ana = refl

stands_for_ana :
    let after = authenticate_doc json db pbkdf2 200 daemon anonymous by_password in
    (after.0 ≡ err Error.password_not_match)
    × (after.1.authenticated ≡ false)
    × (can find after.1 Rule.view_device ≡ some (can_user ana Rule.view_device))
unfolding authenticate_doc can set_user ℕ_discrete can_user
stands_for_ana = rw (authenticate_doc, found_user, refused) (refl, refl, refl)

follows_null : (authenticate_doc json db pbkdf2 200 daemon anonymous unknown).0 ≡ fault
unfolding authenticate_doc find_user is_auth_package get_type_config get_user_config get_config
    member as_text is_object string_eq
follows_null = refl

add_group-fails_example :
    let after = add_group db daemon "staff" "" (7 ∷ []) in
    (after.0 ≡ false)
    × (after.2.users ≡ after_group daemon.users (Group.new_group 4 "staff" ""))
    × ((gid u : ℕ)
        → contains_user after.2.users.groups gid u ≡ contains_user daemon.users.groups gid u)
add_group-fails_example = add_group-fails db daemon "staff" "" (7 ∷ [])

keeps_membership : contains_user (set_user_to_groups db daemon 7 []).users.groups 1 7 ≡ true
unfolding ℕ_discrete contains_user Group.get Group.contains contains_id
keeps_membership = set_user_to_groups-contains_user db daemon 7 [] 1 7

deleted : (delete_user db daemon 7).0 ≡ true
unfolding delete_user delete_memberships UserList.remove Dict.lookup ℕ_discrete
deleted = refl

delete_user-removes_example :
    let after = (delete_user db daemon 7).1.users in
    (UserList.get after 7 ≡ none) × (contains_user after.groups 1 7 ≡ false)
unfolding ℕ_discrete
delete_user-removes_example = delete_user-removes db daemon 7 1 7 groups-IsValid deleted
