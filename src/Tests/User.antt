-- ===== src/Tests/User.antt =====
-- Groups, policies, sessions, subscriptions and the list of users at small data.
use agro_daemon.Base.{
  String, ◌≡◌, refl, ◌≢◌, ◌↔◌, true, false, some, List, [], ◌∷◌, ◌==◌, nat_eq, string_eq, bit_and,
  All, NodupB, is_some, arith, ℕ_discrete,
}
use agro_daemon.Base.Lists
use agro_daemon.Base.Dict
use agro_daemon.User.Group
use agro_daemon.User.Group.{
  Group, Groups, add_user_to_groups, remove_user_from_all, contains_id, contains_user,
}
use agro_daemon.User.Group.Invariant as Invariant
use agro_daemon.User.Group.Invariant.{IsValid, run-IsValid}
use agro_daemon.User.Policy.{Policies, get_group_policy, get_policy}
use agro_daemon.User.Policy
use agro_daemon.User.Policy.Grants.{GivesNone, get_policy_iff}
use agro_daemon.User.Rule
use agro_daemon.User.Session.{Session, Sessions}
use agro_daemon.User.Session.Laws.{agents}
use agro_daemon.User.Subscription.{Subscriptions}
use agro_daemon.User.Subscription.Laws as Laws
use agro_daemon.User.Subscription.Laws.{run-effects}
use agro_daemon.User.Account.{User, Status}
use agro_daemon.User.UserList.{UserList, get, edit_info, edit_user}
use agro_daemon.User.UserList.Sync.{InSync}
use agro_daemon.User.UserList.Calls as Calls
use agro_daemon.User.UserList.Calls.{after_group, add_group_lem, run-InSync}
use agro_daemon.User.UserList.Edit.{groups_after, edit_user-get, edit_user-contains_user}

abbrev farmers : Group
farmers = record { id = 1; name = "farmers"; description = ""; users = 7 ∷ [] }

abbrev guests : Group
guests = record { id = 2; name = "guests"; description = ""; users = [] }

abbrev groups : Groups
groups = farmers ∷ guests ∷ []

groups-IsValid : IsValid groups
unfolding string_eq ℕ_discrete
groups-IsValid = record {
  unique_ids = (refl, (refl, tt));
  unique_names = (refl, (refl, tt));
  unique_users = ((refl, tt), (tt, tt));
}

abbrev group_ops : List Invariant.Op
group_ops =
    Invariant.adds 3 "guests" ""
    ∷ Invariant.adds 3 "staff" ""
    ∷ Invariant.adds_user 3 7
    ∷ Invariant.adds_users 2 (7 ∷ 7 ∷ 8 ∷ [])
    ∷ Invariant.removes 1
    ∷ []

run-IsValid_example : IsValid (Invariant.run groups group_ops)
run-IsValid_example = run-IsValid groups group_ops groups-IsValid

abbrev policies : Policies
policies =
    record { id = 1; gid = 1; rules = Rule.view_device }
    ∷ record { id = 2; gid = 2; rules = Rule.edit_device }
    ∷ []

policy_of_7 : get_policy policies 7 groups ≡ 2
unfolding get_policy Policy.group_rules Group.contains get_group_policy ℕ_discrete
policy_of_7 = refl

get_policy_iff_example :
    (bit_and (get_policy policies 7 groups) Rule.edit_device ≡ 0)
    ↔ All (λ g. All (GivesNone Rule.edit_device 7 g) policies) groups
get_policy_iff_example = get_policy_iff policies 7 Rule.edit_device groups

abbrev on_phone : Session
on_phone = record {
  user_agent = "phone";
  session_id = "s1";
  logged = false;
  session_time = 10;
  session_time_login = 0;
  session_time_logout = 0;
}

abbrev sessions : Sessions
sessions = on_phone ∷ []

no_desk : Lists.contains (agents sessions) "desk" ≡ false
unfolding string_eq ℕ_discrete
no_desk = refl

abbrev Differ : String → String → Type 0
Differ s t = s ≢ t

differ : (s t : String) → (s == t) ≡ false → Differ s t
differ s t h p = ground arith

s2-ne-desk : Differ "s2" "desk"
unfolding string_eq
s2-ne-desk = differ "s2" "desk" refl

abbrev ops : List Laws.Op
ops = Laws.adds "phone" "e2" "p2" "a2" ∷ Laws.adds "desk" "e" "p" "a" ∷ Laws.removes "phone" ∷ []

abbrev subscriptions : Subscriptions
subscriptions = record { user_agent = "phone"; endpoint = "e1"; p256dh = "p1"; auth = "a1" } ∷ []

run-effects_example :
    (Laws.find (Laws.run subscriptions ops) "desk"
      ≡ Laws.effects ops "desk" (Laws.find subscriptions "desk"))
    × NodupB (Laws.agents (Laws.run subscriptions ops))
run-effects_example = run-effects subscriptions ops "desk" (refl, tt)

abbrev ana : User
ana = record {
  id = 7;
  policy = 2;
  info = record {
    username = "ana";
    name = "Ana";
    status = Status.active;
    email = "";
    telegram_chat_id = "";
  };
  subscriptions = [];
  sessions = [];
}

abbrev users : UserList
users = record { list = (7, ana) ∷ []; groups = groups; policy_rules = policies }

users-InSync : InSync users
unfolding get_policy Policy.group_rules Group.contains get_group_policy ℕ_discrete
users-InSync = record {
  synced = (record { key = refl; policy = refl }, tt);
  unique_keys = (refl, tt);
}

abbrev calls : List Calls.Op
calls =
    Calls.adds_user_to_group 7 2
    ∷ Calls.removes_group 1
    ∷ Calls.edits_user 7 "ana" "Ana" "a@b" "" (2 ∷ [])
    ∷ []

run-InSync_example : InSync (Calls.run users calls)
run-InSync_example = run-InSync users calls users-InSync

found_ana : get users 7 ≡ some ana
unfolding get Dict.lookup ℕ_discrete
found_ana = refl

edit_user-get_example :
    let after = edit_user users 7 "ana" "Ana" "a@b" "" (2 ∷ []) in
    (after.0 ≡ true)
    × (get after.1 7
        ≡ some (record (edit_info "ana" "Ana" "a@b" "" ana) {
          policy = get_policy users.policy_rules 7 (groups_after users 7 (2 ∷ []));
        }))
unfolding ℕ_discrete
edit_user-get_example = edit_user-get users 7 "ana" "Ana" "a@b" "" (2 ∷ []) ana 7 found_ana

has_ana : is_some (get users 7) ≡ true
unfolding get Dict.lookup ℕ_discrete
has_ana = refl

edit_user-contains_user_example :
    contains_user (edit_user users 7 "ana" "Ana" "a@b" "" (2 ∷ [])).1.groups 1 7 ≡ false
unfolding ℕ_discrete contains_id
edit_user-contains_user_example =
    edit_user-contains_user users 7 "ana" "Ana" "a@b" "" (2 ∷ []) 1 7 has_ana groups-IsValid
