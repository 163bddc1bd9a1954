-- ===== src/Instance/Users/Membership.antt =====
-- What the calls of src/instance/user.cpp that add, edit and delete users and groups do to the
-- users' memberships, on every branch.
use agro_daemon.Base.{
  ℕ, String, ◌≡◌, true, false, ◌&&◌, ◌||◌, none, List, [], ◌∷◌, ◌++◌, ◌==◌, nat_eq, if◌then◌else◌,
  arith,
}
use agro_daemon.Base.Dict.{lookup-erase}
use agro_daemon.Base.Lists
use agro_daemon.User.Group
use agro_daemon.User.Group.{Groups, contains_user, contains_id}
use agro_daemon.User.Group.Invariant.{IsValid}
use agro_daemon.User.Group.Membership.{
  contains_user-add_user_to_groups, contains_user-remove_user_from_all,
}
use agro_daemon.User.UserList
use agro_daemon.User.UserList.{UserList}
use agro_daemon.User.UserList.Calls.{after_group, add_group_lem}
use agro_daemon.Instance.Db.{Db}
use agro_daemon.Instance.Users.{
  Instance, set_user_to_groups, delete_user, delete_memberships, add_group,
}

contains_user-append :
    (gs : Groups) (id : ℕ) (name description : String) (gid u : ℕ)
    → contains_user (gs ++ (Group.new_group id name description ∷ [])) gid u
      ≡ contains_user gs gid u
unfolding contains_user Group.new_group Group.contains
contains_user-append [] id name description gid u = ground arith
contains_user-append (g ∷ gs) id name description gid u =
    ground (arith, contains_user-append gs id name description gid u)

contains_user-after_group :
    (l : UserList) (id : ℕ) (name description : String) (gid u : ℕ)
    → contains_user (after_group l (Group.new_group id name description)).groups gid u
      ≡ contains_user l.groups gid u
unfolding UserList.update_all_policies Group.add_group after_group
contains_user-after_group l id name description gid u =
    ground (arith, contains_user-append l.groups id name description gid u)

-- Adding a group returns false always. When the database refuses the group, the users stay as they
-- are. Otherwise they are those that the first of the two calls on the list of groups leaves: with the
-- group and with every policy brought up to date, if no group of the list has its id or its name, and as
-- they were if one has. In no case does anyone become a member of a group, or cease to be one: the members
-- that the call names are never added.
pub add_group-fails :
    (D : Db) (i : Instance D) (name description : String) (members : List ℕ)
    → let after = add_group D i name description members in
      (after.0 ≡ false)
      × (after.2.users ≡ (
          let row = D.add_user_group i.db name description in
          if row.0 then after_group i.users (Group.new_group row.1 name description) else i.users))
      × ((gid u : ℕ)
          → contains_user after.2.users.groups gid u ≡ contains_user i.users.groups gid u)
unfolding add_group
add_group-fails D i name description members =
    let row = D.add_user_group i.db name description in
    let stored = add_group_lem i.users (Group.new_group row.1 name description) in
    (
      ground (arith, stored),
      ground (arith, stored),
      λ gid u.
          ground (arith, stored, contains_user-after_group i.users row.1 name description gid u),
    )

-- Setting the groups of a user adds the groups of the list to those that the user has: no membership
-- ends.
pub set_user_to_groups-contains_user :
    (D : Db) (i : Instance D) (uid : ℕ) (gids : List ℕ) (gid u : ℕ)
    → contains_user (set_user_to_groups D i uid gids).users.groups gid u ≡ (
        contains_user i.users.groups gid u
        || (uid == u && (contains_id i.users.groups gid && Lists.contains gids gid)))
unfolding set_user_to_groups UserList.add_user_to_groups UserList.update_user_policy
set_user_to_groups-contains_user D i uid gids gid u =
    contains_user-add_user_to_groups i.users.groups uid gids gid u

-- A delete that succeeds takes the user out of the list and out of every group, and leaves all other
-- users and their memberships as they were.
pub delete_user-removes :
    (D : Db) (i : Instance D) (id gid k : ℕ)
    → IsValid i.users.groups
    → (delete_user D i id).0 ≡ true
    → let after = (delete_user D i id).1.users in
      (UserList.get after k ≡ (if id == k then none else UserList.get i.users k))
      × (contains_user after.groups gid k
          ≡ (if id == k then false else contains_user i.users.groups gid k))
unfolding delete_user delete_memberships UserList.remove UserList.get
    UserList.remove_user_from_all_groups
delete_user-removes D i id gid k v h = ground (
  arith,
  lookup-erase k id i.users.list,
  contains_user-remove_user_from_all i.users.groups id gid k v.unique_users,
)
