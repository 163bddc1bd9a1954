-- ===== src/User/Session/Laws.antt =====
-- Which sessions a list accepts after it is told of a new one.
use agro_daemon.Base.{
  ℕ, String, ◌≡◌, refl, ◌≢◌, Bool, true, false, ◌||◌, List, [], ◌∷◌, ◌++◌, map, ◌==◌, string_eq,
  if◌then◌else◌, arith, NodupB,
}
use agro_daemon.Base.Lists
use agro_daemon.User.Session.{
  Session, Sessions, add_or_update, add_or_update_id, check_user_session_id, new_session,
}

abbrev pub accepts : Sessions → String → String → Bool
accepts list session_id user_agent = (check_user_session_id list session_id user_agent).0

-- A session that is added or updated is accepted.
pub accepts-add_or_update :
    (list : Sessions) (s : Session)
    → accepts (add_or_update list s) s.session_id s.user_agent ≡ true
unfolding add_or_update check_user_session_id
accepts-add_or_update [] s = ground arith
accepts-add_or_update (l ∷ list) s = ground (arith, accepts-add_or_update list s)

-- One session for each user agent: the invariant of the list.
abbrev pub agents : Sessions → List String
agents = map (λ s. s.user_agent)

pub contains-add_or_update :
    (list : Sessions) (s : Session) (a : String)
    → Lists.contains (agents (add_or_update list s)) a
      ≡ (Lists.contains (agents list) a || (s.user_agent == a))
unfolding add_or_update
contains-add_or_update [] s a = ground arith
contains-add_or_update (l ∷ list) s a = ground (arith, contains-add_or_update list s a)

pub add_or_update-NodupB :
    (list : Sessions) (s : Session) → NodupB (agents list) → NodupB (agents (add_or_update list s))
unfolding add_or_update
add_or_update-NodupB [] s u = (refl, tt)
add_or_update-NodupB (l ∷ list) s u =
    ground (arith, add_or_update-NodupB list s u.1, contains-add_or_update list s l.user_agent)

accepts-absent :
    (list : Sessions) (sid agent : String)
    → Lists.contains (agents list) agent ≡ false
    → accepts list sid agent ≡ false
unfolding check_user_session_id
accepts-absent [] sid agent h = refl
accepts-absent (l ∷ list) sid agent h = ground (arith, accepts-absent list sid agent)

-- In a list with one session for each user agent, a session that is added replaces the one of its
-- user agent: of that user agent the new session id is accepted and no other, and the sessions of
-- the other user agents are accepted as before.
pub add_or_update-replaces :
    (list : Sessions) (s : Session) (sid agent : String)
    → NodupB (agents list)
    → accepts (add_or_update list s) sid agent
      ≡ (if s.user_agent == agent then s.session_id == sid else accepts list sid agent)
unfolding add_or_update check_user_session_id
add_or_update-replaces [] s sid agent u = ground arith
add_or_update-replaces (l ∷ list) s sid agent u =
    ground (arith, add_or_update-replaces list s sid agent u.1, accepts-absent list sid agent)

-- The overload that takes two texts stores a new session under swapped names: for a user agent that
-- is not in the list and differs from the session id, the session is not accepted.
pub add_or_update_id-swaps :
    (now : ℕ) (list : Sessions) (sid agent : String)
    → Lists.contains (agents list) agent ≡ false
    → sid ≢ agent
    → accepts (add_or_update_id now list sid agent) sid agent ≡ false
unfolding add_or_update_id check_user_session_id
add_or_update_id-swaps now [] sid agent h ne = ground arith
add_or_update_id-swaps now (l ∷ list) sid agent h ne =
    ground (arith, add_or_update_id-swaps now list sid agent)

-- What it does if its arguments are handed over the other way round, as the one caller does.
pub add_or_update_id-appends :
    (now : ℕ) (list : Sessions) (sid agent : String)
    → Lists.contains (agents list) sid ≡ false
    → add_or_update_id now list agent sid ≡ list ++ (new_session now agent sid ∷ [])
unfolding add_or_update_id
add_or_update_id-appends now [] sid agent h = refl
add_or_update_id-appends now (l ∷ list) sid agent h =
    ground (arith, add_or_update_id-appends now list sid agent)

pub accepts-append :
    (list more : Sessions) (sid agent : String)
    → accepts (list ++ more) sid agent ≡ (accepts list sid agent || accepts more sid agent)
unfolding check_user_session_id
accepts-append [] more sid agent = refl
accepts-append (l ∷ list) more sid agent = ground (arith, accepts-append list more sid agent)
