-- ===== src/User/Rule.antt =====
-- `enum class rule` of src/user/policy.hpp: a bit for each right, and names for some sets of them.
use agro_daemon.Base.{ℕ, ◌^◌, bit_or}

abbrev pub none : ℕ
none = 0

abbrev pub user_admin : ℕ
user_admin = 2 ^ 0

abbrev pub view_device : ℕ
view_device = 2 ^ 1

abbrev pub edit_device : ℕ
edit_device = 2 ^ 2

abbrev pub get_resource : ℕ
get_resource = 2 ^ 3

abbrev pub post_resource : ℕ
post_resource = 2 ^ 4

abbrev pub put_resource : ℕ
put_resource = 2 ^ 5

abbrev pub delete_resource : ℕ
delete_resource = 2 ^ 6

abbrev pub view_image : ℕ
view_image = 2 ^ 7

abbrev pub upload_image : ℕ
upload_image = 2 ^ 8

abbrev pub install_image : ℕ
install_image = 2 ^ 9

abbrev pub view_app : ℕ
view_app = 2 ^ 10

abbrev pub upload_app : ℕ
upload_app = 2 ^ 11

abbrev pub install_app : ℕ
install_app = 2 ^ 12

abbrev pub all_device : ℕ
all_device = bit_or view_device edit_device

abbrev pub all_resources : ℕ
all_resources = bit_or (bit_or (bit_or get_resource put_resource) post_resource) delete_resource

abbrev pub all_image : ℕ
all_image = bit_or (bit_or view_image upload_image) install_image

abbrev pub all_app : ℕ
all_app = bit_or (bit_or view_app upload_app) install_app

abbrev pub all : ℕ
all = bit_or (bit_or (bit_or all_device all_resources) all_image) all_app
