-- ===== src/User/Subscription/Laws.antt =====
-- The list of subscriptions as a map from user agents.
use agro_daemon.Base.{
  String, ◌≡◌, refl, false, ◌||◌, Option, none, some, List, [], ◌∷◌, map, ◌==◌, string_eq,
  if◌then◌else◌, arith, find_if, erase_first-NodupB, ◌∙◌, ap, NodupB,
}
use agro_daemon.Base.Lists
use agro_daemon.User.Subscription.{
  Subscription, Subscriptions, add_or_update, remove, clear_subscription,
}

-- The subscription that a notification to a user agent would use.
abbrev pub find : Subscriptions → String → Option Subscription
find list agent = find_if (λ s. s.user_agent == agent) list

abbrev pub agents : Subscriptions → List String
agents = map (λ s. s.user_agent)

-- The operations on a list, each with its arguments.
pub data Op : Type 0 where
  adds : String → String → String → String → Op
  removes : String → Op
  clears : String → Op

pub step : Subscriptions → Op → Subscriptions
step list (adds agent endpoint p256dh auth) = add_or_update list agent endpoint p256dh auth
step list (removes agent) = (remove list agent).1
step list (clears agent) = clear_subscription list agent

-- What each operation leaves at a user agent.
pub effect : Op → String → Option Subscription → Option Subscription
effect (adds agent endpoint p256dh auth) a old =
    if agent == a
    then some (record { user_agent = agent; endpoint = endpoint; p256dh = p256dh; auth = auth })
    else old
effect (removes agent) a old = if agent == a then none else old
effect (clears agent) a old = if agent == a then none else old

contains-adds :
    (list : Subscriptions) (agent e p h a : String)
    → Lists.contains (agents (add_or_update list agent e p h)) a
      ≡ (Lists.contains (agents list) a || (agent == a))
unfolding add_or_update
contains-adds [] agent e p h a = ground arith
contains-adds (l ∷ list) agent e p h a = ground (arith, contains-adds list agent e p h a)

find-adds :
    (list : Subscriptions) (agent e p h a : String)
    → find (add_or_update list agent e p h) a ≡ effect (adds agent e p h) a (find list a)
unfolding add_or_update effect
find-adds [] agent e p h a = refl
find-adds (l ∷ list) agent e p h a = ground (arith, find-adds list agent e p h a)

find-clears :
    (list : Subscriptions) (agent a : String)
    → find (clear_subscription list agent) a ≡ effect (clears agent) a (find list a)
unfolding clear_subscription effect
find-clears [] agent a = ground arith
find-clears (l ∷ list) agent a = ground (arith, find-clears list agent a)

find-absent :
    (list : Subscriptions) (a : String)
    → Lists.contains (agents list) a ≡ false
    → find list a ≡ none
find-absent [] a h = refl
find-absent (l ∷ list) a h = ground (arith, find-absent list a)

find-removes :
    (list : Subscriptions) (agent a : String)
    → NodupB (agents list)
    → find (remove list agent).1 a ≡ effect (removes agent) a (find list a)
unfolding remove effect
find-removes [] agent a u = ground arith
find-removes (l ∷ list) agent a u =
    ground (arith, find-removes list agent a u.1, find-absent list a)

adds-NodupB :
    (list : Subscriptions) (agent e p h : String)
    → NodupB (agents list)
    → NodupB (agents (add_or_update list agent e p h))
unfolding add_or_update
adds-NodupB [] agent e p h u = (refl, tt)
adds-NodupB (l ∷ list) agent e p h u =
    ground (arith, adds-NodupB list agent e p h u.1, contains-adds list agent e p h l.user_agent)

contains-clears :
    (list : Subscriptions) (agent a : String)
    → Lists.contains (agents list) a ≡ false
    → Lists.contains (agents (clear_subscription list agent)) a ≡ false
unfolding clear_subscription
contains-clears [] agent a h = refl
contains-clears (l ∷ list) agent a h = ground (arith, contains-clears list agent a)

clears-NodupB :
    (list : Subscriptions) (agent : String)
    → NodupB (agents list)
    → NodupB (agents (clear_subscription list agent))
unfolding clear_subscription
clears-NodupB [] agent u = tt
clears-NodupB (l ∷ list) agent u =
    ground (arith, clears-NodupB list agent u.1, contains-clears list agent l.user_agent)

step-NodupB :
    (list : Subscriptions) (op : Op) → NodupB (agents list) → NodupB (agents (step list op))
unfolding step remove
step-NodupB list (adds agent e p h) u = adds-NodupB list agent e p h u
step-NodupB list (removes agent) u = erase_first-NodupB (λ s. s.user_agent) _ list u
step-NodupB list (clears agent) u = clears-NodupB list agent u

find-step :
    (list : Subscriptions) (op : Op) (a : String)
    → NodupB (agents list)
    → find (step list op) a ≡ effect op a (find list a)
unfolding step
find-step list (adds agent e p h) a u = find-adds list agent e p h a
find-step list (removes agent) a u = find-removes list agent a u
find-step list (clears agent) a u = find-clears list agent a

pub run : Subscriptions → List Op → Subscriptions
run list [] = list
run list (op ∷ ops) = run (step list op) ops

pub effects : List Op → String → Option Subscription → Option Subscription
effects [] a old = old
effects (op ∷ ops) a old = effects ops a (effect op a old)

-- From a list with one subscription for each user agent, every sequence of the list's operations
-- acts on each user agent as on a map: an added subscription is found with the data that it was last
-- given, a removed or cleared one is gone, and every other user agent keeps what it had. The list
-- still has one subscription for each user agent.
pub run-effects :
    (list : Subscriptions) (ops : List Op) (a : String)
    → NodupB (agents list)
    → (find (run list ops) a ≡ effects ops a (find list a)) × NodupB (agents (run list ops))
unfolding run effects
run-effects list [] a u = (refl, u)
run-effects list (op ∷ ops) a u =
    let rest = run-effects (step list op) ops a (step-NodupB list op u) in
    (rest.0 ∙ ap (effects ops a) (find-step list op a u), rest.1)
