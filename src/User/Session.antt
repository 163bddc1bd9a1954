-- ===== src/User/Session.antt =====
-- `User::Session` and `User::Session_List`: src/user/user.hpp and src/user/user.cpp.
-- `time_epoch_seconds()` is the argument `now`; times are seconds since the epoch.
pub mod Laws
use agro_daemon.Base.{
  ℕ, ◌+◌, String, Bool, true, false, ◌&&◌, List, [], ◌∷◌, ◌==◌, string_eq, if◌then◌else◌, ltb,
  length, erase_first, update_or_append,
}

pub record Session : Type 0 where
  pub user_agent : String
  pub session_id : String
  pub logged : Bool
  pub session_time : ℕ
  pub session_time_login : ℕ
  pub session_time_logout : ℕ

-- `Session(user_agent, session_id, session_time)`
unfoldable pub session_at : String → String → ℕ → Session
session_at user_agent session_id session_time = record {
  user_agent = user_agent;
  session_id = session_id;
  logged = false;
  session_time = session_time;
  session_time_login = 0;
  session_time_logout = 0;
}

-- `Session(user_agent, session_id)`
unfoldable pub new_session : ℕ → String → String → Session
unfolding session_at
new_session now user_agent session_id = session_at user_agent session_id now

unfoldable pub check : Session → String → String → Bool
check s session_id user_agent = s.session_id == session_id && s.user_agent == user_agent

unfoldable pub check_time : ℕ → Session → ℕ → Bool
check_time now s session_time = ltb (s.session_time + session_time) now

unfoldable pub login : ℕ → Session → String → Session
login now s session_id = record s {
  session_id = session_id;
  session_time_login = now;
  logged = true;
}

unfoldable pub logout : ℕ → Session → Session
logout now s = record s { session_time_logout = now; logged = false }

unfoldable pub update : Session → String → Session
update s session_id = record s { session_id = session_id }

abbrev pub Sessions : Type 0
Sessions = List Session

-- `Session_List::add_or_update(Session&&)`
unfoldable pub add_or_update : Sessions → Session → Sessions
unfolding update
add_or_update list session =
    update_or_append (λ l. l.user_agent == session.user_agent) (λ l. update l session.session_id)
      session list

-- `Session_List::add_or_update(session_id, user_agent)`. The new entry is
-- `list_.emplace_back(session_id, user_agent)`, which is `Session(user_agent, session_id)` with its
-- arguments the other way round.
unfoldable pub add_or_update_id : ℕ → Sessions → String → String → Sessions
unfolding update new_session
add_or_update_id now list session_id user_agent =
    update_or_append (λ l. l.user_agent == user_agent) (λ l. update l session_id)
      (new_session now session_id user_agent) list

unfoldable pub remove : Sessions → String → Bool × Sessions
remove list session_id = erase_first (λ l. l.session_id == session_id) list

-- The result and `session_time`, which is an output.
unfoldable pub check_user_session_id : Sessions → String → String → Bool × ℕ
unfolding check
check_user_session_id [] session_id user_agent = (false, 0)
check_user_session_id (l ∷ list) session_id user_agent =
    if check l session_id user_agent
    then (true, l.session_time)
    else check_user_session_id list session_id user_agent

unfoldable pub size : Sessions → ℕ
size list = length list
