-- ===== src/Device/State/Load.antt =====
-- The bits of the output pins that `update_ac_load` writes.
use Prim.Native.Nat.{min, max as maximum}
use agro_daemon.Base.{
  ℕ, zero, suc, ◌+◌, ◌-◌, ◌/◌, ◌%◌, ◌^◌, ◌<◌, ◌≤◌, ◌≡◌, refl, Bool, true, false, List, [], Option,
  ltb, none, some, ◌==◌, nat_eq, ℕ_discrete, if◌then◌else◌, bit_and, bit_or, arith, ◌∙◌, ap,
  Option-cases, inl, inr,
}
use agro_daemon.Base.Bits.{bit_and-halves, bit_or-halves}
use agro_daemon.Base.Check.{keeps_below, keeps_below-at}
use agro_daemon.Base.Dict
use agro_daemon.Sensor.Series.{Key, SensorList, max, get_or_add, key_eq}
use agro_daemon.Sensor.Values.Window.{back-add_now}
use agro_daemon.Sensor.Values.{Value, back, add_now}
use agro_daemon.Device.State.{Device, put_bit, gpios_value, values_of, gpios_array, update_ac_load}

-- A bit of a number.
pub bit_at : ℕ → ℕ → ℕ
bit_at zero x = x % 2
bit_at (suc k) x = bit_at k (x / 2)

bit_at-bit_and : (k x y : ℕ) → bit_at k (bit_and x y) ≡ min (bit_at k x) (bit_at k y)
unfolding bit_at
bit_at-bit_and zero x y = omega (arith, bit_and-halves x y)
bit_at-bit_and (suc k) x y =
    let half : bit_and x y / 2 ≡ bit_and (x / 2) (y / 2) = omega (arith, bit_and-halves x y) in
    ap (bit_at k) half ∙ bit_at-bit_and k (x / 2) (y / 2)

bit_at-bit_or : (k x y : ℕ) → bit_at k (bit_or x y) ≡ maximum (bit_at k x) (bit_at k y)
unfolding bit_at
bit_at-bit_or zero x y = omega (arith, bit_or-halves x y)
bit_at-bit_or (suc k) x y =
    let half : bit_or x y / 2 ≡ bit_or (x / 2) (y / 2) = omega (arith, bit_or-halves x y) in
    ap (bit_at k) half ∙ bit_at-bit_or k (x / 2) (y / 2)

bit_at-lt : (k x : ℕ) → bit_at k x < 2
unfolding bit_at
bit_at-lt zero x = omega arith
bit_at-lt (suc k) x = bit_at-lt k (x / 2)

bit_at-zero : (k : ℕ) → bit_at k 0 ≡ 0
unfolding bit_at
bit_at-zero zero = refl
bit_at-zero (suc k) = bit_at-zero k

pub bit_of : Bool → ℕ
bit_of true = 1
bit_of false = 0

-- The mask of one pin and what is left without it, for the three pins.
pin_bit : ℕ → ℕ → ℕ
pin_bit n k = if bit_at k (2 ^ n) == (if k == n then 1 else 0) then k else suc k

others_bit : ℕ → ℕ → ℕ
others_bit n k = if bit_at k (2 ^ 32 - 1 - 2 ^ n) == (if k == n then 0 else 1) then k else suc k

tables :
    (index : ℕ)
    → index ≤ 2
    → (keeps_below (pin_bit (index + 8)) 32 ≡ true)
      × (keeps_below (others_bit (index + 8)) 32 ≡ true)
unfolding keeps_below pin_bit others_bit bit_at ℕ_discrete
tables zero h = (refl, refl)
tables (suc zero) h = (refl, refl)
tables (suc (suc zero)) h = (refl, refl)
tables (suc (suc (suc n))) h = absurd (omega arith)

pin_bits :
    (index k : ℕ)
    → index ≤ 2
    → k < 32
    → (bit_at k (2 ^ (index + 8)) ≡ (if k == index + 8 then 1 else 0))
      × (bit_at k (2 ^ 32 - 1 - 2 ^ (index + 8)) ≡ (if k == index + 8 then 0 else 1))
unfolding pin_bit others_bit
pin_bits index k h lt =
    let (pin, others) = tables index h in
    (
      ground (arith, keeps_below-at (pin_bit (index + 8)) 32 k lt pin),
      ground (arith, keeps_below-at (others_bit (index + 8)) 32 k lt others),
    )

-- The last value of the output pins, which are 0 before the first.
pub last_gpios : Option Value → ℕ
last_gpios none = 0
last_gpios (some v) = v.value

gpios_value-bits :
    (o : Option Value) (index k : ℕ) (value : Bool)
    → index ≤ 2
    → k < 32
    → bit_at k (gpios_value o (index + 8) value)
      ≡ (if k == index + 8 then bit_of value else bit_at k (last_gpios o))
unfolding gpios_value last_gpios put_bit bit_of
gpios_value-bits none index k true h lt = ground (arith, pin_bits index k h lt, bit_at-zero k)
gpios_value-bits none index k false h lt = ground (arith, bit_at-zero k)
gpios_value-bits (some v) index k true h lt =
    let mask = 2 ^ 32 - 1 - 2 ^ (index + 8) in
    rw (bit_at-bit_or, bit_at-bit_and) (ground (arith, pin_bits index k h lt, bit_at-lt k v.value))
gpios_value-bits (some v) index k false h lt =
    rw (bit_at-bit_or, bit_at-bit_and)
      (ground (arith, pin_bits index k h lt, bit_at-lt k v.value, bit_at-zero k))

-- The list of the pins is there, with the values that it had.
gpios_there :
    (slist : SensorList)
    → Dict.lookup gpios_array (get_or_add slist gpios_array.0 gpios_array.1)
      ≡ some (values_of slist gpios_array)
unfolding get_or_add ℕ_discrete
gpios_there slist = elim (Option-cases (Dict.lookup gpios_array slist)) [
  | inl missing ↦
      rw (missing, get_or_add, values_of) (Dict.lookup-emplace_self gpios_array [] slist missing)
  | inr (vs, found) ↦ rw (found, get_or_add, values_of) found
]

values_of-found :
    (slist : SensorList) (k : Key) (vs : List Value)
    → Dict.lookup k slist ≡ some vs
    → values_of slist k ≡ vs
values_of-found slist k vs found = rw (found, values_of) refl

-- Switching one of the three loads sets the bit of its pin in the result and leaves every other bit
-- as it was in the last value of the pins; the result is stored as their last value.
pub update_ac_load-bits :
    {Endpoint : Type 0} (now : ℕ) (d : Device Endpoint) (index k : ℕ) (value : Bool)
    → index ≤ 2
    → k < 32
    → let after = update_ac_load now d index value in
      (bit_at k after.0 ≡ (
        if k == index + 8
        then bit_of value
        else bit_at k (last_gpios (back (values_of d.slist gpios_array)))))
      × (last_gpios (back (values_of after.1.slist gpios_array)) ≡ after.0)
unfolding update_ac_load last_gpios
update_ac_load-bits now d index k value h lt =
    let vs = values_of d.slist gpios_array in
    let slist = get_or_add d.slist gpios_array.0 gpios_array.1 in
    let there = gpios_there d.slist in
    let nvalue = gpios_value (back vs) (index + 8) value in
    let stored =
      Dict.lookup-adjust_self gpios_array (λ ws. add_now max now ws nvalue) slist vs there in
    let in_range : ltb 2 index ≡ false = ground arith in
    rw (in_range, values_of-found slist gpios_array vs there)
      (
        gpios_value-bits (back vs) index k value h lt,
        ap (λ ws. last_gpios (back ws)) (values_of-found _ gpios_array _ stored)
            ∙ ap last_gpios (back-add_now 19 now vs nvalue),
      )
