-- ===== src/User/UserList.antt =====
-- `User::User_List`: src/user/list.hpp and src/user/list.cpp.
pub mod Sync
pub mod Calls
pub mod Edit
use agro_daemon.Base.{
  ℕ, String, Bool, true, false, Option, none, some, List, [], ◌∷◌, map, ◌==◌, nat_eq, string_eq,
  if◌then◌else◌, is_some,
}
use agro_daemon.Base.Dict
use agro_daemon.Base.Dict.{Dict}
use agro_daemon.User.Group
use agro_daemon.User.Group.{Group, Groups}
use agro_daemon.User.Policy.{Policies, get_policy}
use agro_daemon.User.Account.{User, Info}

pub record UserList : Type 0 where
  pub list : Dict ℕ User
  pub groups : Groups
  pub policy_rules : Policies

-- `add`: whether a pointer to a new user is returned.
unfoldable pub add : UserList → User → Bool × UserList
add l user = elim (Dict.lookup user.id l.list) [
  | some _ ↦ (false, l)
  | none ↦ (true, record l { list = Dict.emplace user.id user l.list })
]

unfoldable pub remove : UserList → ℕ → Bool × UserList
remove l id = elim (Dict.lookup id l.list) [
  | none ↦ (false, l)
  | some _ ↦ (true, record l { list = Dict.erase id l.list })
]

-- `get(user_id)` and `operator[](user_id)`, all four: the loop that compares the keys.
unfoldable pub get : UserList → ℕ → Option User
get l id = Dict.lookup id l.list

-- The loop of `get(std::string const&)`. The source's map is unordered: which of two users of one name
-- it finds is open there.
unfoldable pub find_username : Dict ℕ User → String → Option User
find_username [] username = none
find_username ((uid, user) ∷ users) username =
    if user.info.username == username then some user else find_username users username

-- `get(std::string const&)` and `operator[](std::string const&)`.
unfoldable pub get_by_username : UserList → String → Option User
get_by_username l username = find_username l.list username

-- `update_user_policy(User&)`
unfoldable pub with_policy : Policies → Groups → User → User
with_policy policies groups user = record user { policy = get_policy policies user.id groups }

-- `update_user_policy(user_id)`
unfoldable pub update_user_policy : UserList → ℕ → UserList
update_user_policy l id = record l {
  list = Dict.adjust id (with_policy l.policy_rules l.groups) l.list;
}

-- `update_user_policy()`
unfoldable pub update_all_policies : UserList → UserList
update_all_policies l = record l {
  list = map (λ (uid, u). (uid, with_policy l.policy_rules l.groups u)) l.list;
}

-- `groups_.add` is called twice, with the same group, and the second result is returned.
unfoldable pub add_group : UserList → Group → Bool × UserList
add_group l group =
    let first = Group.add_group l.groups group in
    let l' = record l { groups = first.1 } in
    let updated = if first.0 then update_all_policies l' else l' in
    let second = Group.add_group updated.groups group in
    (second.0, record updated { groups = second.1 })

unfoldable pub remove_group : UserList → ℕ → Bool × UserList
remove_group l gid =
    let ret = Group.remove_group l.groups gid in
    let l' = record l { groups = ret.1 } in (ret.0, if ret.0 then update_all_policies l' else l')

unfoldable pub add_user_to_group : UserList → ℕ → ℕ → Bool × UserList
add_user_to_group l uid gid =
    let ret = Group.add_user l.groups gid uid in
    let l' = record l { groups = ret.1 } in (ret.0, if ret.0 then update_user_policy l' uid else l')

unfoldable pub add_user_to_groups : UserList → ℕ → List ℕ → UserList
add_user_to_groups l uid gids =
    update_user_policy (record l { groups = Group.add_user_to_groups l.groups uid gids }) uid

unfoldable pub remove_user_from_all_groups : UserList → ℕ → UserList
remove_user_from_all_groups l uid = record l { groups = Group.remove_user_from_all l.groups uid }

unfoldable pub set_user_to_groups : UserList → ℕ → List ℕ → UserList
set_user_to_groups l uid gids = record l {
  groups = Group.add_user_to_groups (Group.remove_user_from_all l.groups uid) uid gids;
}

-- `Info::set` with the status that the user has.
unfoldable pub edit_info : String → String → String → String → User → User
edit_info username name email telegram_chat_id user = record user {
  info = record {
    username = username;
    name = name;
    status = user.info.status;
    email = email;
    telegram_chat_id = telegram_chat_id;
  };
}

unfoldable pub edit_user :
    UserList → ℕ → String → String → String → String → List ℕ → Bool × UserList
edit_user l id username name email telegram_chat_id groups = elim (get l id) [
  | none ↦ (false, l)
  | some _ ↦
      let info_set = Dict.adjust id (edit_info username name email telegram_chat_id) l.list in
      let grouped = set_user_to_groups (record l { list = info_set }) id groups in
      (true, update_user_policy grouped id)
]
