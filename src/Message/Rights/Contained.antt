-- ===== src/Message/Rights/Contained.antt =====
-- What it means that a handler of src/message/user.cpp leaves a user alone.
use agro_daemon.Base.{
  ℕ, String, ◌≡◌, refl, ◌≢◌, ◌⊎◌, Option, none, some, List, nat_eq, inl, inr, ◌∙◌, string_eq, sym,
}
use agro_daemon.Message.Json.{Json}
use agro_daemon.User.Account.{Logged, set_user_agent}
use agro_daemon.Instance.Db.{Db}
use agro_daemon.Instance.Users.{Instance}
use agro_daemon.Message.User.{
  Read, refused, broken, read, Event, Handled, fault, done, settle, Endpoint, ◌>>=◌,
}
use agro_daemon.Message.User.Commands.{with_agent, add_subscription}
use agro_daemon.Message.Rights.{Leaves, Leaves-refl, push-Leaves}

-- A handler that returns leaves the user `k` alone, and the connection stands for the same user.
unfoldable pub Contained : (D : Db) → ℕ → Instance D → Logged → Handled D → Type 0
Contained D k i logged fault = Unit
Contained D k i logged (done i' logged' events) =
    Leaves k i.users i'.users × (logged'.id ≡ logged.id)

pub Read-cases {ℓ} :
    {A : Type ℓ} (r : Read A) → ((a : A) × (r ≡ read a)) ⊎ ((r ≡ refused) ⊎ (r ≡ broken))
Read-cases (read a) = inl (a, refl)
Read-cases refused = inr (inl refl)
Read-cases broken = inr (inr refl)

-- What was read first when all could be read.
pub read-before {ℓ κ} :
    {A : Type ℓ} {B : Type κ} (m : Read A) (f : A → Read B) (b : B)
    → (m >>= f) ≡ read b
    → (a : A) × (m ≡ read a) × (f a ≡ read b)
read-before (read a) f b h = (a, refl, h)
read-before refused f b h = cc
read-before broken f b h = cc

pub settle-Contained {ℓ} :
    (D : Db) (k : ℕ) (i : Instance D) (logged : Logged) {A : Type ℓ} (r : Read A)
    (f : A → Instance D × List Event)
    → ((a : A) → r ≡ read a → Leaves k i.users (f a).0.users)
    → Contained D k i logged (settle D i logged r f)
unfolding Contained
settle-Contained D k i logged refused f h = (Leaves-refl k i.users, refl)
settle-Contained D k i logged broken f h = tt
settle-Contained D k i logged (read a) f h = (h a refl, refl)

pub fault_Contained :
    (D : Db) (k : ℕ) (i : Instance D) (logged : Logged) → Contained D k i logged fault
unfolding Contained
fault_Contained D k i logged = tt

Contained-subst :
    (D : Db) (k : ℕ) (i : Instance D) (logged other : Logged) (h : Handled D)
    → other.id ≡ logged.id
    → Contained D k i other h
    → Contained D k i logged h
unfolding Contained
Contained-subst D k i logged other fault e c = tt
Contained-subst D k i logged other (done i' logged' events) e c = (c.0, c.1 ∙ e)

with_agent_id : (agent : Option String) (logged : Logged) → (with_agent agent logged).id ≡ logged.id
unfolding set_user_agent
with_agent_id none logged = refl
with_agent_id (some a) logged = refl

pub add_subscription-Contained :
    (J : Json) (D : Db) (k : ℕ) (i : Instance D) (logged : Logged) (e : Endpoint)
    → logged.id ≢ k
    → Contained D k i logged (add_subscription J D i (with_agent e.user_agent logged) e)
unfolding add_subscription
add_subscription-Contained J D k i logged e other =
    let named = with_agent e.user_agent logged in
    let same = with_agent_id e.user_agent logged in
    Contained-subst D k i logged named _ same (
      settle-Contained D k i named _ _ (λ _ r.
        push-Leaves D k i named.id named.user_agent e.endpoint e.p256dh e.auth
          (λ p. other (sym same ∙ p))))
