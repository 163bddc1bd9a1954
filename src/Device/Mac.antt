-- ===== src/Device/Mac.antt =====
-- `mesh_addr_t` and its text form: src/device/types.hpp, src/device/types.cpp and `string_to_mac` of
-- src/device/helper.cpp. An address is the list of its bytes.
pub mod RoundTrip
pub mod Overrun
pub mod Fresh
use Prim.Native.Nat.{compare, Ordering}
use agro_daemon.Base.{
  ℕ, zero, suc, ◌+◌, ◌-◌, ◌*◌, ◌/◌, ◌%◌, ◌^◌, Bool, true, false, ◌&&◌, ◌||◌, Option, none, some,
  List, [], ◌∷◌, ◌++◌, ◌==◌, nat_eq, bit_or, if◌then◌else◌, ltb, leb, length,
}

abbrev pub MeshAddr : Type 0
MeshAddr = List ℕ

-- `mesh_addr_t()`
abbrev pub null_addr : MeshAddr
null_addr = 0 ∷ 0 ∷ 0 ∷ 0 ∷ 0 ∷ 0 ∷ []

-- A write of `addr.addr[i]`; `none` is a write past the end of the array.
unfoldable pub store : MeshAddr → ℕ → ℕ → Option MeshAddr
store [] i v = none
store (x ∷ xs) zero v = some (v ∷ xs)
store (x ∷ xs) (suc i) v = elim (store xs i v) [ none ↦ none | some ys ↦ some (x ∷ ys) ]

-- The value of a character, if it is a hexadecimal digit.
unfoldable pub digit : ℕ → Option ℕ
digit c =
    if leb b'0' c && leb c b'9'
    then some (c - b'0')
    else if leb b'a' c && leb c b'f'
    then some (c - b'a' + 10)
    else if leb b'A' c && leb c b'F'
    then some (c - b'A' + 10)
    else none

-- `(uint8_t)(d | (value << (count_part * 4)))`
unfoldable pub shift_in : ℕ → ℕ → ℕ → ℕ
shift_in d value count_part = bit_or d (value * 2 ^ (count_part * 4)) % 2 ^ 8

-- What `string_to_mac_impl` returns, with the address that it leaves, or undefined behaviour.
pub data Scan : Type 0 where
  fault : Scan
  done : ℕ → MeshAddr → Scan

-- What a colon, or the end of the text, stores. A part of three digits does not come up: `none` is
-- the `else return count` for it.
unfoldable pub cell : ℕ → ℕ → Option ℕ
cell count_part value =
    if count_part == 0
    then some 0
    else if count_part == 1 || count_part == 2
    then some value
    else none

-- The loop over the characters that are left, with `count`, `count_part`, `value` and the address.
unfoldable pub scan : List ℕ → ℕ → ℕ → ℕ → MeshAddr → Scan
scan [] count count_part value addr = elim (cell count_part value) [
  | none ↦ done count addr
  | some v ↦ elim (store addr count v) [ none ↦ fault | some addr' ↦ done (count + 1) addr' ]
]
scan (c ∷ str) count count_part value addr = elim (c == b':') [
  | true ↦ elim (cell count_part value) [
    | none ↦ done count addr
    | some v ↦ elim (store addr count v) [
      | none ↦ fault
      | some addr' ↦ scan str (count + 1) 0 0 addr'
    ]
  ]
  | false ↦ elim (leb 2 count_part) [
    | true ↦ done count addr
    | false ↦ elim (digit c) [
      | none ↦ done count addr
      | some d ↦ scan str count (count_part + 1) (shift_in d value count_part) addr
    ]
  ]
]

unfoldable pub string_to_mac_impl : List ℕ → MeshAddr → Scan
string_to_mac_impl str addr = scan str 0 0 0 addr

-- `string_to_mac` and `mesh_addr_t::set`: the result with the address; `none` is undefined behaviour.
unfoldable pub string_to_mac : List ℕ → MeshAddr → Option (Bool × MeshAddr)
string_to_mac str addr = elim (string_to_mac_impl str addr) [
  | fault ↦ none
  | done count addr' ↦ some (count == 6, addr')
]

-- `mesh_addr_t(const char*, unsigned, std::error_code&)`: the address, which is cleared on an error,
-- and whether it was set. The bytes of a new object are arbitrary: they are `garbage`.
unfoldable pub mesh_addr_of : MeshAddr → List ℕ → Option (MeshAddr × Bool)
mesh_addr_of garbage str = elim (string_to_mac str garbage) [
  | none ↦ none
  | some (set, addr) ↦ some (if set then addr else null_addr, set)
]

-- A digit of `%02x`.
unfoldable pub hex : ℕ → ℕ
hex n = if ltb n 10 then b'0' + n else b'a' + (n - 10)

unfoldable pub hex_byte : ℕ → List ℕ → List ℕ
hex_byte b rest = hex (b / 16) ∷ hex (b % 16) ∷ rest

-- `mesh_addr_t::to_string`: the bytes in two digits each, with colons between them.
unfoldable pub to_string : MeshAddr → List ℕ
to_string [] = []
to_string (b ∷ []) = hex_byte b []
to_string (b ∷ c ∷ addr) = hex_byte b (b':' ∷ to_string (c ∷ addr))

-- `mac_ap_to_addr`: the last byte less one, which wraps.
unfoldable pub mac_ap_to_addr : MeshAddr → MeshAddr
mac_ap_to_addr [] = []
mac_ap_to_addr (b ∷ []) = (b + 2 ^ 8 - 1) % 2 ^ 8 ∷ []
mac_ap_to_addr (b ∷ c ∷ addr) = b ∷ mac_ap_to_addr (c ∷ addr)

-- `operator<`: `memcmp` of the bytes is negative.
unfoldable pub lt_addr : MeshAddr → MeshAddr → Bool
lt_addr [] ys = false
lt_addr (x ∷ xs) [] = false
lt_addr (x ∷ xs) (y ∷ ys) =
    let rest = lt_addr xs ys in
    elim (compare x y) [ Ordering.lt ↦ true | Ordering.eq ↦ rest | Ordering.gt ↦ false ]
