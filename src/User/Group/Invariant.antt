-- ===== src/User/Group/Invariant.antt =====
-- The invariant of `User::Groups`: ids and names are unique, and no group lists a user twice.
-- Every method of src/user/group.cpp that changes a group keeps it.
use agro_daemon.Base.{
  ℕ, String, ◌≡◌, refl, Bool, true, false, ◌||◌, List, [], ◌∷◌, ◌++◌, map, ◌==◌, nat_eq, string_eq,
  if◌then◌else◌, arith, subst, sym, ◌∙◌, All, NodupB, NodupB-append, any, any-or, NodupB-map_append,
  NodupB-erase_first, erase_first-NodupB, at_first, map-at_first, map-map_same, All-append,
  All-erase_first, All-at_first, All-map, Bool-cases, inl, inr,
}
use agro_daemon.Base.Lists
use agro_daemon.User.Group.{
  Group, Groups, new_group, contains, add, remove, add_all, add_group, remove_group, add_user,
  add_users, add_user_to_groups, remove_user_from_all,
}

abbrev ids : Groups → List ℕ
ids = map (λ g. g.id)

abbrev names : Groups → List String
names = map (λ g. g.name)

pub record IsValid (gs : Groups) : Type 0 where
  pub unique_ids : NodupB (ids gs)
  pub unique_names : NodupB (names gs)
  pub unique_users : All (λ g. NodupB g.users) gs

-- What a change of one group must leave alone.
record Keeps (f : Group → Group) : Type 0 where
  same_id : (g : Group) → (f g).id ≡ g.id
  same_name : (g : Group) → (f g).name ≡ g.name
  nodup : (g : Group) → NodupB g.users → NodupB (f g).users

add-Keeps : (u : ℕ) → Keeps (λ g. (add g u).1)
unfolding add contains
add-Keeps u = record {
  same_id = λ g. ground arith;
  same_name = λ g. ground arith;
  nodup = λ g h. ground (arith, NodupB-append g.users u h);
}

remove-Keeps : (u : ℕ) → Keeps (λ g. (remove g u).1)
unfolding remove
remove-Keeps u = record {
  same_id = λ g. ground arith;
  same_name = λ g. ground arith;
  nodup = λ g h. ground (arith, NodupB-erase_first (λ v. v == u) g.users h);
}

-- A change of one group that keeps its id, its name and its distinct members keeps the invariant,
-- made at the first group with an id or at all groups of a list.
module _ (f : Group → Group) (k : Keeps f) where
  at_first-IsValid :
      (p : Group → Bool) (b : Group → Bool) (gs : Groups)
      → IsValid gs
      → IsValid (at_first p (λ g. (b g, f g)) gs).1
  at_first-IsValid p b gs v = record {
    unique_ids = subst NodupB (sym (map-at_first (λ g. g.id) p _ gs k.same_id)) v.unique_ids;
    unique_names =
        subst NodupB (sym (map-at_first (λ g. g.name) p _ gs k.same_name)) v.unique_names;
    unique_users = All-at_first (λ g. NodupB g.users) p _ gs k.nodup v.unique_users;
  }

  map-IsValid : (gs : Groups) → IsValid gs → IsValid (map f gs)
  map-IsValid gs v = record {
    unique_ids = subst NodupB (sym (map-map_same (λ g. g.id) f gs k.same_id)) v.unique_ids;
    unique_names = subst NodupB (sym (map-map_same (λ g. g.name) f gs k.same_name)) v.unique_names;
    unique_users = All-map (λ g. NodupB g.users) f gs k.nodup v.unique_users;
  }

add_all-Keeps : (us : List ℕ) → Keeps (λ g. add_all g us)
unfolding add_all
add_all-Keeps [] = record { same_id = λ g. refl; same_name = λ g. refl; nodup = λ g h. h }
add_all-Keeps (u ∷ us) =
    let first = add-Keeps u in
    let rest = add_all-Keeps us in
    record {
      same_id = λ g. rest.same_id _ ∙ first.same_id g;
      same_name = λ g. rest.same_name _ ∙ first.same_name g;
      nodup = λ g h. rest.nodup _ (first.nodup g h);
    }

if-Keeps : (p : Group → Bool) (f : Group → Group) → Keeps f → Keeps (λ g. if p g then f g else g)
if-Keeps p f k = record {
  same_id = λ g. ground (arith, k.same_id g);
  same_name = λ g. ground (arith, k.same_name g);
  nodup = λ g h. ground (arith, k.nodup g h);
}

free_group-IsValid :
    (gs : Groups) (g : Group)
    → IsValid gs
    → NodupB g.users
    → any (λ o. (o.id == g.id) || (o.name == g.name)) gs ≡ false
    → IsValid (gs ++ (g ∷ []))
free_group-IsValid gs g v h free =
    let split = any-or (λ (o : Group). o.id == g.id) (λ o. o.name == g.name) gs in
    record {
      unique_ids = NodupB-map_append (λ o. o.id) gs g v.unique_ids (ground (arith, split));
      unique_names = NodupB-map_append (λ o. o.name) gs g v.unique_names (ground (arith, split));
      unique_users = All-append (λ o. NodupB o.users) gs g v.unique_users h;
    }

pub add_group-IsValid :
    (gs : Groups) (g : Group) → IsValid gs → NodupB g.users → IsValid (add_group gs g).1
unfolding add_group
add_group-IsValid gs g v h =
    elim (Bool-cases (any (λ o. (o.id == g.id) || (o.name == g.name)) gs)) [
      | inl taken ↦ rw taken v
      | inr free ↦ rw free (free_group-IsValid gs g v h free)
    ]

pub remove_group-IsValid : (gs : Groups) (id : ℕ) → IsValid gs → IsValid (remove_group gs id).1
unfolding remove_group
remove_group-IsValid gs id v = record {
  unique_ids = erase_first-NodupB (λ g. g.id) _ gs v.unique_ids;
  unique_names = erase_first-NodupB (λ g. g.name) _ gs v.unique_names;
  unique_users = All-erase_first (λ g. NodupB g.users) _ gs v.unique_users;
}

pub add_user-IsValid : (gs : Groups) (gid uid : ℕ) → IsValid gs → IsValid (add_user gs gid uid).1
unfolding add_user
add_user-IsValid gs gid uid =
    at_first-IsValid (λ g. (add g uid).1) (add-Keeps uid) (λ g. g.id == gid) (λ g. (add g uid).0) gs

pub add_users-IsValid :
    (gs : Groups) (gid : ℕ) (uids : List ℕ) → IsValid gs → IsValid (add_users gs gid uids)
unfolding add_users
add_users-IsValid gs gid uids =
    at_first-IsValid (λ g. add_all g uids) (add_all-Keeps uids) (λ g. g.id == gid) (λ _. true) gs

pub add_user_to_groups-IsValid :
    (gs : Groups) (uid : ℕ) (gids : List ℕ) → IsValid gs → IsValid (add_user_to_groups gs uid gids)
unfolding add_user_to_groups
add_user_to_groups-IsValid gs uid gids =
    map-IsValid _ (if-Keeps (λ g. Lists.contains gids g.id) _ (add-Keeps uid)) gs

pub remove_user_from_all-IsValid :
    (gs : Groups) (id : ℕ) → IsValid gs → IsValid (remove_user_from_all gs id)
unfolding remove_user_from_all
remove_user_from_all-IsValid gs id = map-IsValid _ (remove-Keeps id) gs

-- The calls that change the list of groups. A new group has no members.
pub data Op : Type 0 where
  adds : ℕ → String → String → Op
  removes : ℕ → Op
  adds_user : ℕ → ℕ → Op
  adds_users : ℕ → List ℕ → Op
  adds_user_to_groups : ℕ → List ℕ → Op
  removes_user_from_all : ℕ → Op

pub step : Groups → Op → Groups
step gs (adds id name description) = (add_group gs (new_group id name description)).1
step gs (removes id) = (remove_group gs id).1
step gs (adds_user gid uid) = (add_user gs gid uid).1
step gs (adds_users gid uids) = add_users gs gid uids
step gs (adds_user_to_groups uid gids) = add_user_to_groups gs uid gids
step gs (removes_user_from_all id) = remove_user_from_all gs id

pub run : Groups → List Op → Groups
run gs [] = gs
run gs (op ∷ ops) = run (step gs op) ops

step-IsValid : (gs : Groups) (op : Op) → IsValid gs → IsValid (step gs op)
unfolding step new_group
step-IsValid gs (adds id name description) v = add_group-IsValid gs _ v tt
step-IsValid gs (removes id) v = remove_group-IsValid gs id v
step-IsValid gs (adds_user gid uid) v = add_user-IsValid gs gid uid v
step-IsValid gs (adds_users gid uids) v = add_users-IsValid gs gid uids v
step-IsValid gs (adds_user_to_groups uid gids) v = add_user_to_groups-IsValid gs uid gids v
step-IsValid gs (removes_user_from_all id) v = remove_user_from_all-IsValid gs id v

-- From a list of groups with unique ids and names, none of which lists a user twice, every sequence
-- of the methods that change groups leads to such a list again, if new groups begin without members.
pub run-IsValid : (gs : Groups) (ops : List Op) → IsValid gs → IsValid (run gs ops)
unfolding run
run-IsValid gs [] v = v
run-IsValid gs (op ∷ ops) v = run-IsValid (step gs op) ops (step-IsValid gs op v)
