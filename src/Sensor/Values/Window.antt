-- ===== src/Sensor/Values/Window.antt =====
-- A list of values keeps the last readings.
use agro_daemon.Base.{
  false, ℕ, zero, suc, ◌+◌, ◌-◌, ◌≤◌, ◌<◌, ◌≡◌, refl, sym, ap, ◌∙◌, List, [], ◌∷◌, ◌++◌, Option,
  none, some, ◌==◌, nat_eq, length, ltb, if◌then◌else◌, arith, length-append, Option-cases,
  Bool-cases, inl, inr,
}
use agro_daemon.Sensor.Values.{Value, erase_begin, back, add, add_now, add_change}

pub drop : ℕ → List Value → List Value
drop zero list = list
drop (suc n) [] = []
drop (suc n) (v ∷ list) = drop n list

-- The last `max` values.
pub last_of : ℕ → List Value → List Value
last_of max list = drop (length list - max) list

length-drop : (n : ℕ) (list : List Value) → length (drop n list) ≡ length list - n
unfolding drop
length-drop zero list = omega arith
length-drop (suc n) [] = omega arith
length-drop (suc n) (v ∷ list) = ground (arith, length-drop n list)

drop-append :
    (n : ℕ) (list rest : List Value) → n ≤ length list → drop n (list ++ rest) ≡ drop n list ++ rest
unfolding drop
drop-append zero list rest h = refl
drop-append (suc n) [] rest h = ground arith
drop-append (suc n) (v ∷ list) rest h = ground (arith, drop-append n list rest)

erase_begin-drop : (n : ℕ) (list : List Value) → erase_begin (drop n list) ≡ drop (suc n) list
unfolding drop
erase_begin-drop zero [] = refl
erase_begin-drop zero (v ∷ list) = refl
erase_begin-drop (suc n) [] = refl
erase_begin-drop (suc n) (v ∷ list) = erase_begin-drop n list

append_nil : (list : List Value) → list ++ [] ≡ list
append_nil [] = refl
append_nil (v ∷ list) = ap (λ vs. v ∷ vs) (append_nil list)

append_assoc : (a b c : List Value) → (a ++ b) ++ c ≡ a ++ (b ++ c)
append_assoc [] b c = refl
append_assoc (v ∷ a) b c = ap (λ vs. v ∷ vs) (append_assoc a b c)

back-append : (list : List Value) (v : Value) → back (list ++ (v ∷ [])) ≡ some v
back-append [] v = refl
back-append (w ∷ []) v = refl
back-append (w ∷ x ∷ list) v = back-append (x ∷ list) v

-- The last of a list with one place at least is the value that was added.
pub back-add_now :
    (m now : ℕ) (list : List Value) (value : ℕ)
    → back (add_now (suc m) now list value) ≡ some (record { time = now; value = value })
unfolding add_now
back-add_now m now [] value = let stays : ltb (suc m) 1 ≡ false = ground arith in rw stays refl
back-add_now m now (w ∷ list) value =
    let r : Value = record { time = now; value = value } in
    ground (arith, back-append list r, back-append (w ∷ list) r)

back-drop : (n : ℕ) (list : List Value) → n < length list → back (drop n list) ≡ back list
unfolding drop
back-drop zero list h = refl
back-drop (suc n) [] h = absurd (omega arith)
back-drop (suc n) (v ∷ []) h = absurd (omega arith)
back-drop (suc n) (v ∷ w ∷ list) h = back-drop n (w ∷ list) (omega arith)

pub back-last_of : (max : ℕ) (list : List Value) → 0 < max → back (last_of max list) ≡ back list
unfolding last_of drop
back-last_of max [] h = ground arith
back-last_of max (v ∷ list) h = back-drop (length (v ∷ list) - max) (v ∷ list) (omega arith)

window-append :
    (max : ℕ) (list : List Value) (v : Value)
    → last_of max list ++ (v ∷ []) ≡ drop (length list - max) (list ++ (v ∷ []))
unfolding last_of
window-append max list v = sym (drop-append (length list - max) list (v ∷ []) (omega arith))

-- The window over one reading more starts one later when it is full.
shift :
    (max n : ℕ) (list : List Value)
    → (if ltb max (n + 1 - (n - max)) then drop (suc (n - max)) list else drop (n - max) list)
      ≡ drop (n + 1 - max) list
shift max n list = elim (Bool-cases (ltb max (n + 1 - (n - max)))) [
  | inl full ↦ let e : suc (n - max) ≡ n + 1 - max = ground arith in rw (full, e) refl
  | inr room ↦ let e : n - max ≡ n + 1 - max = ground arith in rw (room, e) refl
]

-- One reading more moves the window by one.
pub add-last_of :
    (max : ℕ) (list : List Value) (v : Value)
    → add max (last_of max list) v.time v.value ≡ last_of max (list ++ (v ∷ []))
unfolding add last_of
add-last_of max list v =
    rw (window-append max list v, length-drop, length-append, erase_begin-drop)
      (shift max (length list) (list ++ (v ∷ [])))

last_of-nil : (max : ℕ) → last_of max [] ≡ []
unfolding last_of drop
last_of-nil max = let none_left : 0 - max ≡ 0 = omega arith in rw none_left refl

pub adds : ℕ → List Value → List Value → List Value
adds max list [] = list
adds max list (r ∷ rs) = adds max (add max list r.time r.value) rs

adds-window :
    (max : ℕ) (list rs : List Value) → adds max (last_of max list) rs ≡ last_of max (list ++ rs)
unfolding adds
adds-window max list [] = rw (append_nil list) refl
adds-window max list (r ∷ rs) =
    rw (add-last_of max list r)
      (adds-window max (list ++ (r ∷ [])) rs ∙ ap (last_of max) (append_assoc list (r ∷ []) rs))

-- A list that readings are added to, from empty, holds the last `max` of them in their order, or all
-- of them when they are not more.
pub adds-last_of : (max : ℕ) (rs : List Value) → adds max [] rs ≡ last_of max rs
adds-last_of max rs = ap (λ vs. adds max vs rs) (sym (last_of-nil max)) ∙ adds-window max [] rs

-- The readings of which none has the value of the one before it; `last` is the one before all.
pub compress : Option Value → List Value → List Value
compress last [] = []
compress last (r ∷ rs) =
    let skip = compress last rs in
    let keep = r ∷ compress (some r) rs in
    elim last [ none ↦ keep | some v ↦ if v.value == r.value then skip else keep ]

pub add_changes : ℕ → List Value → List Value → List Value
add_changes max list [] = list
add_changes max list (r ∷ rs) = add_changes max (add_change max list r.time r.value).1 rs

-- What `add_change` leaves of a window, by the last value.
changed : ℕ → List Value → Value → Option Value → List Value
changed max list r none = last_of max (list ++ (r ∷ []))
changed max list r (some v) =
    if v.value == r.value then last_of max list else last_of max (list ++ (r ∷ []))

add_change-last_of :
    (max : ℕ) (list : List Value) (r : Value)
    → 0 < max
    → (add_change max (last_of max list) r.time r.value).1 ≡ changed max list r (back list)
unfolding add_change changed
add_change-last_of max list r h = elim (Option-cases (back list)) [
  | inl empty ↦
      rw (back-last_of max list h ∙ empty, add_change, empty, changed) (add-last_of max list r)
  | inr (v, found) ↦ elim (Bool-cases (v.value == r.value)) [
    | inl same ↦ rw (back-last_of max list h ∙ found, add_change, found, changed, same) refl
    | inr differ ↦
        rw (back-last_of max list h ∙ found, add_change, found, changed, differ)
          (add-last_of max list r)
  ]
]

add_changes-window :
    (max : ℕ) (list rs : List Value)
    → 0 < max
    → add_changes max (last_of max list) rs ≡ last_of max (list ++ compress (back list) rs)
unfolding add_changes compress changed
add_changes-window max list [] h = rw (append_nil list) refl
add_changes-window max list (r ∷ rs) h =
    let kept =
      add_changes-window max (list ++ (r ∷ [])) rs h
      ∙ ap (last_of max) (
          ap (λ o. (list ++ (r ∷ [])) ++ compress o rs) (back-append list r)
          ∙ append_assoc list (r ∷ []) (compress (some r) rs)) in
    let skipped = add_changes-window max list rs h in
    rw (add_change-last_of max list r h) (elim (Option-cases (back list)) [
      | inl empty ↦ rw empty kept
      | inr (v, found) ↦ ground (arith, found, kept, skipped)
    ])

-- With `add_change`, a list of at least one place holds the last `max` of the readings that differ
-- in value from the one kept before them.
pub add_changes-last_of :
    (max : ℕ) (rs : List Value) → 0 < max → add_changes max [] rs ≡ last_of max (compress none rs)
add_changes-last_of max rs h =
    ap (λ vs. add_changes max vs rs) (sym (last_of-nil max)) ∙ add_changes-window max [] rs h
