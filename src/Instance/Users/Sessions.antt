-- ===== src/Instance/Users/Sessions.antt =====
-- What a new session id changes: `update_user_session_id` of src/instance/user.cpp, with the list of
-- sessions of src/user/user.cpp below it.
use agro_daemon.Base.{
  ℕ, String, ◌≡◌, false, ◌&&◌, ◌||◌, some, [], ◌∷◌, ◌==◌, nat_eq, string_eq, arith, ◌∙◌, ap, sym,
}
use agro_daemon.Base.Dict.{lookup-adjust_self}
use agro_daemon.Base.Lists
use agro_daemon.User.Session
use agro_daemon.User.Session.{new_session}
use agro_daemon.User.Session.Laws.{accepts, agents, add_or_update_id-appends, accepts-append}
use agro_daemon.User.Account.{User}
use agro_daemon.User.UserList
use agro_daemon.Instance.Db.{Db}
use agro_daemon.Instance.Users.{
  Instance, check_user_session_id, update_user_session_id, change_user, with_sessions,
}

get-change_user :
    (l : UserList.UserList) (id : ℕ) (f : User → User) (u : User)
    → UserList.get l id ≡ some u
    → UserList.get (change_user l id f) id ≡ some (f u)
unfolding UserList.get change_user
get-change_user l id f u found = lookup-adjust_self id f l.list u found

check_user_session_id-found :
    (D : Db) (i : Instance D) (id : ℕ) (u : User) (s a : String)
    → UserList.get i.users id ≡ some u
    → (check_user_session_id D i id s a).0 ≡ accepts u.sessions s a
unfolding check_user_session_id
check_user_session_id-found D i id u s a found = rw (found, check_user_session_id)

-- The sessions that an update leaves to a user in the list.
sessions_after :
    (D : Db) (now : ℕ) (i : Instance D) (id : ℕ) (u : User) (sid agent : String)
    → UserList.get i.users id ≡ some u
    → UserList.get (update_user_session_id D now i id sid agent).1.users id
      ≡ some (with_sessions (λ s. Session.add_or_update_id now s agent sid) u)
unfolding update_user_session_id
sessions_after D now i id u sid agent found =
    rw (found, update_user_session_id) (get-change_user i.users id _ u found)

accepts-new_session :
    (now : ℕ) (sid agent s a : String)
    → accepts (new_session now agent sid ∷ []) s a ≡ (sid == s && agent == a)
unfolding new_session Session.check_user_session_id
accepts-new_session now sid agent s a = ground arith

-- If the user is in the list and no session of the user has the new session id for its user agent,
-- then after an update a session id is accepted for a user agent exactly if it was before or the two
-- are those of the update. No earlier session of the user agent is dropped.
pub update_user_session_id-accepts :
    (D : Db) (now : ℕ) (i : Instance D) (id : ℕ) (u : User) (sid agent s a : String)
    → UserList.get i.users id ≡ some u
    → Lists.contains (agents u.sessions) sid ≡ false
    → (check_user_session_id D (update_user_session_id D now i id sid agent).1 id s a).0
      ≡ ((check_user_session_id D i id s a).0 || (sid == s && agent == a))
update_user_session_id-accepts D now i id u sid agent s a found fresh =
    check_user_session_id-found D _ id _ s a (sessions_after D now i id u sid agent found)
    ∙ ap (λ list. accepts list s a) (add_or_update_id-appends now u.sessions sid agent fresh)
    ∙ accepts-append u.sessions (new_session now agent sid ∷ []) s a
    ∙ ap (λ b. accepts u.sessions s a || b) (accepts-new_session now sid agent s a)
    ∙ ap (λ b. b || (sid == s && agent == a)) (sym (check_user_session_id-found D i id u s a found))
