-- ===== src/User/Group.antt =====
-- `User::Group` and `User::Groups`: src/user/group.hpp and src/user/group.cpp.
-- Ids are `int`s that are only compared; they stand as natural numbers. A method that changes its
-- object returns the result with the new object.
pub mod Invariant
pub mod Membership
pub mod Refused
use agro_daemon.Base.{
  ℕ, String, Bool, true, false, ◌||◌, Option, none, some, List, [], ◌∷◌, ◌++◌, map, ◌==◌, nat_eq,
  string_eq, if◌then◌else◌, length, find_if, any, erase_first, at_first,
}
use agro_daemon.Base.Lists

pub record Group : Type 0 where
  pub id : ℕ
  pub name : String
  pub description : String
  pub users : List ℕ

abbrev pub Groups : Type 0
Groups = List Group

-- The constructor.
unfoldable pub new_group : ℕ → String → String → Group
new_group id name description = record {
  id = id;
  name = name;
  description = description;
  users = [];
}

unfoldable pub contains : Group → ℕ → Bool
contains g id = Lists.contains g.users id

unfoldable pub add : Group → ℕ → Bool × Group
unfolding contains
add g id = if contains g id then (false, g) else (true, record g { users = g.users ++ (id ∷ []) })

unfoldable pub remove : Group → ℕ → Bool × Group
remove g id =
    let loop = erase_first (λ u. u == id) g.users in
    if loop.0 then (true, record g { users = loop.1 }) else (false, g)

-- `Group::operator==`
unfoldable pub equals : Group → Group → Bool
equals g rhs = g.id == rhs.id

unfoldable pub size : Group → ℕ
size g = length g.users

-- `Groups::add`
unfoldable pub add_group : Groups → Group → Bool × Groups
add_group gs group =
    if any (λ g. (g.id == group.id) || (g.name == group.name)) gs
    then (false, gs)
    else (true, gs ++ (group ∷ []))

-- `Groups::remove`
unfoldable pub remove_group : Groups → ℕ → Bool × Groups
remove_group gs id = erase_first (λ u. u.id == id) gs

-- `Groups::get`, both overloads.
unfoldable pub get : Groups → ℕ → Option Group
get gs id = find_if (λ g. g.id == id) gs

-- `Groups::add_user(group_id, user_id)`
unfoldable pub add_user : Groups → ℕ → ℕ → Bool × Groups
unfolding add
add_user gs gid uid = at_first (λ g. g.id == gid) (λ g. add g uid) gs

-- The loop `for(auto uid : uid_list) group->add(uid);`
unfoldable pub add_all : Group → List ℕ → Group
unfolding add
add_all g [] = g
add_all g (uid ∷ uids) = add_all (add g uid).1 uids

-- `Groups::add_user(group_id, std::vector<user_id> const&)`
unfoldable pub add_users : Groups → ℕ → List ℕ → Groups
unfolding add_all
add_users gs gid uids = (at_first (λ g. g.id == gid) (λ g. (true, add_all g uids)) gs).1

unfoldable pub add_user_to_groups : Groups → ℕ → List ℕ → Groups
unfolding add
add_user_to_groups gs uid gids =
    map (λ group. if Lists.contains gids group.id then (add group uid).1 else group) gs

unfoldable pub remove_user_from_all : Groups → ℕ → Groups
unfolding remove
remove_user_from_all gs id = map (λ g. (remove g id).1) gs

-- `Groups::contains(group_id)`
unfoldable pub contains_id : Groups → ℕ → Bool
contains_id gs id = any (λ g. g.id == id) gs

-- `Groups::contains(std::string const&)`
unfoldable pub contains_name : Groups → String → Bool
contains_name gs name = any (λ g. g.name == name) gs

unfoldable pub contains_user : Groups → ℕ → ℕ → Bool
unfolding get contains
contains_user gs gid uid = elim (get gs gid) [ none ↦ false | some g ↦ contains g uid ]
