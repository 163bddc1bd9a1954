-- ===== src/Message/Json.antt =====
-- What the daemon asks of a parsed document of RapidJSON.
use agro_daemon.Base.{ℕ, String, Bool, Option, List}

pub record Json : Type 1 where
  pub Value : Type 0
  -- `HasMember` with `operator[]`.
  pub member : Value → String → Option Value
  -- `IsString` with `GetString`.
  pub text : Value → Option String
  -- `IsInt` with `GetInt`, as a 32-bit pattern.
  pub integer : Value → Option ℕ
  -- `IsUint` with `GetUint`.
  pub unsigned : Value → Option ℕ
  pub is_object : Value → Bool
  -- `IsArray` with `GetArray`.
  pub items : Value → Option (List Value)
