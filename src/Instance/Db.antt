-- ===== src/Instance/Db.antt =====
-- The calls of the database that the user interface of the daemon makes: `class DB` of
-- src/db/db.hpp, which runs SQL. Each returns whether SQLite reported `SQLITE_DONE` (or the call's
-- own `bool`), with the state after it.
use agro_daemon.Base.{ℕ, String, Bool, Option, List}

pub record Db : Type 1 where
  pub State : Type 0
  -- The salt and the password hash that are stored for a user name.
  pub get_password : State → String → Option (List ℕ × List ℕ)
  -- The key, the salt, the name, the e-mail and the chat follow the user name. The id is an output.
  pub add_user : State → String → List ℕ → List ℕ → String → String → String → Bool × ℕ × State
  pub add_user_to_group : State → ℕ → ℕ → Bool × State
  pub set_user_to_groups : State → ℕ → List ℕ → State
  pub edit_user : State → ℕ → String → String → String → String → List ℕ → Bool × State
  pub delete_user : State → ℕ → Bool × State
  pub delete_user_from_group : State → ℕ → Bool × State
  pub add_user_group : State → String → String → Bool × ℕ × State
  pub add_users_to_group : State → ℕ → List ℕ → State
  pub delete_group : State → ℕ → Bool × State
  pub update_user_session_id : State → ℕ → String → String → Bool × State
  pub clear_session_user_agent : State → ℕ → String → State
  -- The endpoint and the keys of a subscription follow the user agent.
  pub push_subscribe_user : State → ℕ → String → String → String → String → State
  pub push_unsubscribe_user : State → ℕ → String → State
