-- ===== src/Sensor/Values.antt =====
-- `Value` and `Value_List`: src/sensor/value.hpp and src/sensor/impl/value_impl.hpp. The clock that
-- `get_time` reads is the argument `now`; a number is the bits of the value.
pub mod Window
use agro_daemon.Base.{
  ℕ, suc, Bool, true, false, List, [], ◌∷◌, ◌++◌, Option, none, some, ◌==◌, nat_eq, length, ltb,
  if◌then◌else◌,
}

pub record Value : Type 0 where
  pub time : ℕ
  pub value : ℕ

-- `Value::update`
unfoldable pub update : Value → ℕ → ℕ → Value
update v t val = record v { time = t; value = val }

-- `list_.erase(list_.begin())`
abbrev pub erase_begin : List Value → List Value
erase_begin [] = []
erase_begin (v ∷ list) = list

-- `list_.back()`
abbrev pub back : List Value → Option Value
back [] = none
back (v ∷ []) = some v
back (v ∷ w ∷ list) = back (w ∷ list)

module _ (max : ℕ) where
  unfoldable pub add : List Value → ℕ → ℕ → List Value
  add list time value =
      let list' = list ++ (record { time = time; value = value } ∷ []) in
      if ltb max (length list') then erase_begin list' else list'

  unfoldable pub add_now : ℕ → List Value → ℕ → List Value
  add_now now list value =
      let list' = list ++ (record { time = now; value = value } ∷ []) in
      if ltb max (length list') then erase_begin list' else list'

  unfoldable pub add_change : List Value → ℕ → ℕ → Bool × List Value
  add_change list time value = elim (back list) [
    | none ↦ (true, add list time value)
    | some v ↦ if v.value == value then (false, list) else (true, add list time value)
  ]

  unfoldable pub add_change_now : ℕ → List Value → ℕ → Bool × List Value
  add_change_now now list value = elim (back list) [
    | none ↦ (true, add_now now list value)
    | some v ↦ if v.value == value then (false, list) else (true, add_now now list value)
  ]

unfoldable pub size : List Value → ℕ
size list = length list
