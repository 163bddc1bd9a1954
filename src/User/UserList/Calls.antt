-- ===== src/User/UserList/Calls.antt =====
-- The methods of src/user/list.cpp that keep the stored policies up to date.
use agro_daemon.Base.{
  ℕ, String, ◌≡◌, false, List, [], ◌∷◌, nat_eq, if◌then◌else◌, subst, NodupB, Bool-cases,
  Option-cases, inl, inr, sym,
}
use agro_daemon.Base.Dict
use agro_daemon.Base.Dict.{Dict}
use agro_daemon.User.Group
use agro_daemon.User.Group.{Group, Groups}
use agro_daemon.User.Group.Membership.{
  view-add_user_ne, view-add_user_to_groups_ne, view-set_groups_ne,
}
use agro_daemon.User.Group.Refused.{
  add_user-refused, remove_group-refused, add_group-refused, add_group-twice,
}
use agro_daemon.User.UserList.{
  UserList, get, remove, update_all_policies, add_group, remove_group, add_user_to_group,
  add_user_to_groups, set_user_to_groups, edit_user,
}
use agro_daemon.User.UserList.Sync.{
  InSync, keyed, keys-adjust, resync, update_all_policies-InSync, edit-IsSynced, erase-IsSynced,
  erase-NodupB,
}

-- The calls that change the list of users and keep the policies up to date.
pub data Op : Type 0 where
  adds_group : Group → Op
  removes_group : ℕ → Op
  adds_user_to_group : ℕ → ℕ → Op
  adds_user_to_groups : ℕ → List ℕ → Op
  edits_user : ℕ → String → String → String → String → List ℕ → Op
  removes : ℕ → Op

pub step : UserList → Op → UserList
step l (adds_group group) = (add_group l group).1
step l (removes_group gid) = (remove_group l gid).1
step l (adds_user_to_group uid gid) = (add_user_to_group l uid gid).1
step l (adds_user_to_groups uid gids) = add_user_to_groups l uid gids
step l (edits_user id username name email chat gids) =
    (edit_user l id username name email chat gids).1
step l (removes id) = (remove l id).1

add_user_to_groups-InSync :
    (l : UserList) (uid : ℕ) (gids : List ℕ) → InSync l → InSync (add_user_to_groups l uid gids)
unfolding add_user_to_groups
add_user_to_groups-InSync l uid gids v =
    resync l.policy_rules l.groups _ uid (λ u ne. view-add_user_to_groups_ne l.groups uid gids u ne)
      l.list v

add_user_to_group-InSync :
    (l : UserList) (uid gid : ℕ) → InSync l → InSync (add_user_to_group l uid gid).1
unfolding add_user_to_group
add_user_to_group-InSync l uid gid v = elim (Bool-cases (Group.add_user l.groups gid uid).0) [
  | inl added ↦
      rw (added, add_user_to_group)
        (resync l.policy_rules l.groups _ uid (λ u ne. view-add_user_ne l.groups gid uid u ne)
          l.list v)
  | inr refused ↦ rw (refused, add_user_to_group) (rw (add_user-refused l.groups gid uid refused) v)
]

remove_group-InSync : (l : UserList) (gid : ℕ) → InSync l → InSync (remove_group l gid).1
unfolding remove_group
remove_group-InSync l gid v = elim (Bool-cases (Group.remove_group l.groups gid).0) [
  | inl removed ↦
      rw (removed, remove_group)
        (update_all_policies-InSync _ (keyed l.policy_rules l.groups l.list v.synced) v.unique_keys)
  | inr refused ↦ rw (refused, remove_group) (rw (remove_group-refused l.groups gid refused) v)
]

-- What `add_group` leaves.
unfoldable pub after_group : UserList → Group → UserList
after_group l g =
    let first = Group.add_group l.groups g in
    let l' = record l { groups = first.1 } in if first.0 then update_all_policies l' else l'

-- A call of `add_group` stores the group if its id and its name are free, and brings every policy up
-- to date then; it returns false always.
pub add_group_lem : (l : UserList) (g : Group) → add_group l g ≡ (false, after_group l g)
unfolding add_group after_group update_all_policies
add_group_lem l g = elim (Bool-cases (Group.add_group l.groups g).0) [
  | inl added ↦ rw (added, add_group, after_group) (rw add_group-twice)
  | inr refused ↦ rw (refused, add_group, after_group) (rw add_group-twice)
]

after_group-InSync : (l : UserList) (g : Group) → InSync l → InSync (after_group l g)
unfolding after_group
after_group-InSync l g v = elim (Bool-cases (Group.add_group l.groups g).0) [
  | inl added ↦
      rw added
        (update_all_policies-InSync _ (keyed l.policy_rules l.groups l.list v.synced) v.unique_keys)
  | inr refused ↦ rw (refused, add_group-refused l.groups g refused) v
]

add_group-InSync : (l : UserList) (g : Group) → InSync l → InSync (add_group l g).1
add_group-InSync l g v = rw (add_group_lem l g) (after_group-InSync l g v)

edit_user-InSync :
    (l : UserList) (id : ℕ) (username name email chat : String) (gids : List ℕ)
    → InSync l
    → InSync (edit_user l id username name email chat gids).1
unfolding edit_user set_user_to_groups
edit_user-InSync l id username name email chat gids v = elim (Option-cases (get l id)) [
  | inl missing ↦ rw (missing, edit_user) v
  | inr (u, found) ↦
      rw (found, edit_user)
        (resync l.policy_rules l.groups _ id (λ w ne. view-set_groups_ne l.groups id gids w ne) _
          (record {
            synced =
                edit-IsSynced l.policy_rules l.groups id username name email chat l.list v.synced;
            unique_keys = subst NodupB (sym (keys-adjust id _ l.list)) v.unique_keys;
          }))
]

remove-InSync : (l : UserList) (id : ℕ) → InSync l → InSync (remove l id).1
unfolding remove
remove-InSync l id v = elim (Option-cases (Dict.lookup id l.list)) [
  | inl missing ↦ rw (missing, remove) v
  | inr (u, found) ↦
      rw (found, remove)
        (record {
          synced = erase-IsSynced l.policy_rules l.groups id l.list v.synced;
          unique_keys = erase-NodupB id l.list v.unique_keys;
        })
]

step-InSync : (l : UserList) (op : Op) → InSync l → InSync (step l op)
unfolding step
step-InSync l (adds_group group) v = add_group-InSync l group v
step-InSync l (removes_group gid) v = remove_group-InSync l gid v
step-InSync l (adds_user_to_group uid gid) v = add_user_to_group-InSync l uid gid v
step-InSync l (adds_user_to_groups uid gids) v = add_user_to_groups-InSync l uid gids v
step-InSync l (edits_user id username name email chat gids) v =
    edit_user-InSync l id username name email chat gids v
step-InSync l (removes id) v = remove-InSync l id v

pub run : UserList → List Op → UserList
run l [] = l
run l (op ∷ ops) = run (step l op) ops

-- Each of the calls that add or remove a group, add a user to groups, edit a user or remove one
-- keeps the policy of every user up to date, and every user under its own id. Setting or clearing
-- the groups of a user without an edit is not among them.
pub run-InSync : (l : UserList) (ops : List Op) → InSync l → InSync (run l ops)
unfolding run
run-InSync l [] v = v
run-InSync l (op ∷ ops) v = run-InSync (step l op) ops (step-InSync l op v)
