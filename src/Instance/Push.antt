-- ===== src/Instance/Push.antt =====
-- The subscriptions of a user to push notifications: `push_subscribe_user` and
-- `push_unsubscribe_user` of src/instance/notify.cpp.
use agro_daemon.Base.{ℕ, String, none, some}
use agro_daemon.User.Subscription
use agro_daemon.User.UserList
use agro_daemon.Instance.Db.{Db}
use agro_daemon.Instance.Users.{Instance, change_user, with_subscriptions}

module _ (D : Db) where
  unfoldable pub push_subscribe_user :
      Instance D → ℕ → String → String → String → String → Instance D
  push_subscribe_user i id user_agent endpoint p256dh auth = elim (UserList.get i.users id) [
    | none ↦ i
    | some _ ↦ record i {
      db = D.push_subscribe_user i.db id user_agent endpoint p256dh auth;
      users =
          change_user i.users id (
            with_subscriptions (λ s. Subscription.add_or_update s user_agent endpoint p256dh auth));
    }
  ]

  unfoldable pub push_unsubscribe_user : Instance D → ℕ → String → Instance D
  push_unsubscribe_user i id user_agent = elim (UserList.get i.users id) [
    | none ↦ i
    | some _ ↦ record i {
      db = D.push_unsubscribe_user i.db id user_agent;
      users =
          change_user i.users id (with_subscriptions (λ s. (Subscription.remove s user_agent).1));
    }
  ]
