-- ===== src/Device/InProgress.antt =====
-- `Request_in_Pogress_List`, the requests that wait for the answer of a device:
-- src/device/request/in_progress.hpp and src/device/request/in_progress.cpp. The CoAP method and the
-- request type are the numbers of their enumerators.
pub mod Laws
use agro_daemon.Base.{
  ℕ, Bool, true, false, ◌&&◌, List, [], ◌∷◌, ◌++◌, Eq, ◌==◌, nat_eq, length, if◌then◌else◌, any,
  remove_if,
}
use mathlib.Core.List.{List-discrete}
use agro_daemon.Base.{ℕ_discrete}
use agro_daemon.Device.Mac.{MeshAddr}

-- `mesh_addr_t::operator==`: the bytes are equal.
instance abbrev pub addr_eq : Eq MeshAddr
addr_eq = record { dec = List-discrete ℕ_discrete }

pub record InProgress : Type 0 where
  pub addr : MeshAddr
  pub method : ℕ
  pub request : ℕ
  pub id : ℕ

unfoldable pub is_equal : InProgress → MeshAddr → ℕ → ℕ → Bool
is_equal r address code req = r.addr == address && r.method == code && r.request == req

abbrev pub Requests : Type 0
Requests = List InProgress

unfoldable pub has : Requests → MeshAddr → ℕ → ℕ → Bool
has list address method req = any (λ r. is_equal r address method req) list

unfoldable pub add : Requests → MeshAddr → ℕ → ℕ → ℕ → Bool × Requests
add list address method req uid =
    if has list address method req
    then (false, list)
    else (true, list ++ (record { addr = address; method = method; request = req; id = uid } ∷ []))

-- The erase takes place, and the result is true, if the partition moved an element.
unfoldable pub remove : Requests → MeshAddr → ℕ → ℕ → Bool × Requests
remove list address method req =
    let kept = remove_if (λ rp. is_equal rp address method req) list in
    if length kept == length list then (false, list) else (true, kept)
