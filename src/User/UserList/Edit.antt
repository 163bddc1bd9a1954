-- ===== src/User/UserList/Edit.antt =====
-- What an edit of a user does: src/user/list.cpp, `User_List::edit_user`.
use agro_daemon.Base.{
  ℕ, String, ◌≡◌, refl, true, ◌&&◌, some, List, ◌==◌, nat_eq, ℕ_discrete, subst, if◌then◌else◌,
  arith, is_some, Option-cases, inl, inr, ◌∙◌,
}
use agro_daemon.Base.Dict
use agro_daemon.Base.Dict.{lookup-adjust_self, lookup-adjust_ne}
use agro_daemon.Base.Lists
use mathlib.Core.Logic.{if_pos, if_neg}
use agro_daemon.User.Group
use agro_daemon.User.Group.{Group, Groups, contains_user, contains_id}
use agro_daemon.User.Group.Invariant.{IsValid}
use agro_daemon.User.Group.Membership.{set_groups-membership}
use agro_daemon.User.Policy.{get_policy}
use agro_daemon.User.Account.{User}
use agro_daemon.User.UserList.{
  UserList, get, with_policy, update_user_policy, set_user_to_groups, edit_info, edit_user,
}

-- The groups after an edit.
abbrev pub groups_after : UserList → ℕ → List ℕ → Groups
groups_after l id gids = Group.add_user_to_groups (Group.remove_user_from_all l.groups id) id gids

edit_user_lem :
    (l : UserList) (id : ℕ) (username name email chat : String) (gids : List ℕ) (u : User)
    → get l id ≡ some u
    → edit_user l id username name email chat gids ≡ (
      true,
      update_user_policy
          (set_user_to_groups
            (record l { list = Dict.adjust id (edit_info username name email chat) l.list })
            id
            gids)
          id,
    )
unfolding edit_user
edit_user_lem l id username name email chat gids u found = rw (found, edit_user)

-- An edit of a user that is in the list succeeds. The user then has the new texts, the old status,
-- and the policy that the new groups give; every other user is as before.
pub edit_user-get :
    (l : UserList) (id : ℕ) (username name email chat : String) (gids : List ℕ) (u : User) (k : ℕ)
    → get l id ≡ some u
    → let after = edit_user l id username name email chat gids in
      (after.0 ≡ true)
      × (get after.1 k ≡ (
          if id == k
          then some (record (edit_info username name email chat u) {
            policy = get_policy l.policy_rules u.id (groups_after l id gids);
          })
          else get l k))
unfolding set_user_to_groups update_user_policy get with_policy edit_info
edit_user-get l id username name email chat gids u k found =
    rw (edit_user_lem l id username name email chat gids u found) (
      refl,
      elim (ℕ_discrete id k) [
        | yes same ↦ rw (if_pos _ same) (
            subst (λ j. Dict.lookup j twice ≡ some edited) same
              (lookup-adjust_self id _ _ _ (lookup-adjust_self id _ _ u found)))
        | no other ↦
            rw (if_neg _ other)
              (lookup-adjust_ne k id _ _ other ∙ lookup-adjust_ne k id _ l.list other)
      ],
    )
  where
    edited : User
    edited =
        with_policy l.policy_rules (groups_after l id gids) (edit_info username name email chat u)

    twice : Dict.Dict ℕ User
    twice =
        Dict.adjust id (with_policy l.policy_rules (groups_after l id gids))
          (Dict.adjust id (edit_info username name email chat) l.list)

-- The groups of an edited user are exactly those that the edit names, as far as they exist; the
-- memberships of all other users are as before.
pub edit_user-contains_user :
    (l : UserList) (id : ℕ) (username name email chat : String) (gids : List ℕ) (gid k : ℕ)
    → is_some (get l id) ≡ true
    → IsValid l.groups
    → contains_user (edit_user l id username name email chat gids).1.groups gid k ≡ (
        if id == k
        then contains_id l.groups gid && Lists.contains gids gid
        else contains_user l.groups gid k)
unfolding set_user_to_groups update_user_policy
edit_user-contains_user l id username name email chat gids gid k found v =
    elim (Option-cases (get l id)) [
      | inl missing ↦ ground arith
      | inr (u, e) ↦
          rw (edit_user_lem l id username name email chat gids u e)
            (set_groups-membership l.groups id gids gid k v)
    ]
