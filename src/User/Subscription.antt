-- ===== src/User/Subscription.antt =====
-- `User::Subscription` and `User::Subscription_List`: src/user/user.hpp and src/user/user.cpp.
pub mod Laws
use agro_daemon.Base.{
  ℕ, String, Bool, List, ◌==◌, string_eq, length, erase_first, remove_if, update_or_append,
}

pub record Subscription : Type 0 where
  pub user_agent : String
  pub endpoint : String
  pub p256dh : String
  pub auth : String

unfoldable pub update : Subscription → String → String → String → Subscription
update s endpoint p256dh auth = record s { endpoint = endpoint; p256dh = p256dh; auth = auth }

abbrev pub Subscriptions : Type 0
Subscriptions = List Subscription

unfoldable pub add_or_update : Subscriptions → String → String → String → String → Subscriptions
unfolding update
add_or_update list user_agent endpoint p256dh auth =
    update_or_append (λ l. l.user_agent == user_agent) (λ l. update l endpoint p256dh auth)
      (record { user_agent = user_agent; endpoint = endpoint; p256dh = p256dh; auth = auth }) list

unfoldable pub remove : Subscriptions → String → Bool × Subscriptions
remove list user_agent = erase_first (λ l. l.user_agent == user_agent) list

unfoldable pub clear_subscription : Subscriptions → String → Subscriptions
clear_subscription list user_agent = remove_if (λ sub. sub.user_agent == user_agent) list

unfoldable pub size : Subscriptions → ℕ
size list = length list
