-- ===== src/Message/Types.antt =====
-- The tables of message types and of user commands: src/message/types.hpp,
-- src/message/user_types.hpp, and the searches of src/helper/utility.hpp.
use agro_daemon.Base.{String, Option, none, some, List, [], ◌∷◌, ◌==◌, string_eq, if◌then◌else◌}

-- `get_config(const char*, config)`: the first entry of that name.
unfoldable pub get_config {ℓ} : {A : Type ℓ} → String → List (A × String) → Option A
get_config name [] = none
get_config name ((type, n) ∷ config) = if name == n then some type else get_config name config

pub data MessageType : Type 0 where
  device image app user report sensor notify : MessageType

abbrev pub tconfig : List (MessageType × String)
tconfig =
    (device, "device")
    ∷ (image, "image")
    ∷ (app, "app")
    ∷ (user, "user")
    ∷ (report, "report")
    ∷ (sensor, "sensor")
    ∷ (notify, "notify")
    ∷ []

unfoldable pub get_type_config : String → Option MessageType
unfolding get_config
get_type_config name = get_config name tconfig

-- The source spells the first command `autheticate`.
pub data UserCommand : Type 0 where
  autheticate auth_session_id logout push_subscribe push_unsubscribe : UserCommand
  user_group_policies add_user edit_user delete_user add_group delete_group : UserCommand

abbrev pub user_config : List (UserCommand × String)
user_config =
    (autheticate, "authenticate")
    ∷ (auth_session_id, "auth_session_id")
    ∷ (logout, "logout")
    ∷ (push_subscribe, "push_subscribe")
    ∷ (push_unsubscribe, "push_unsubscribe")
    ∷ (user_group_policies, "user_group_policies")
    ∷ (add_user, "add_user")
    ∷ (edit_user, "edit_user")
    ∷ (delete_user, "delete_user")
    ∷ (add_group, "add_group")
    ∷ (delete_group, "delete_group")
    ∷ []

unfoldable pub get_user_config : String → Option UserCommand
unfolding get_config
get_user_config name = get_config name user_config
