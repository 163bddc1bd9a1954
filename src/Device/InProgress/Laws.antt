-- ===== src/Device/InProgress/Laws.antt =====
-- The list of requests in progress as a set of locks, one for each address, method and request type.
use agro_daemon.Base.{
  ℕ, ◌≤◌, ◌<◌, ◌≡◌, refl, Bool, true, false, not, ◌&&◌, ◌||◌, List, [], ◌∷◌, ◌++◌, ◌==◌, nat_eq,
  length, any, remove_if, arith, Bool-cases, inl, inr, subst, sym, ap,
}
use mathlib.Core.Path.{fun_ext}
use agro_daemon.Device.Mac.{MeshAddr}
use agro_daemon.Device.InProgress.{addr_eq, InProgress, Requests, is_equal, has, add, remove}

-- What identifies a request.
pub record Key : Type 0 where
  pub addr : MeshAddr
  pub method : ℕ
  pub request : ℕ

abbrev pub holds : Requests → Key → Bool
holds list k = has list k.addr k.method k.request

unfoldable pub same_key : Key → Key → Bool
same_key j k = j.addr == k.addr && j.method == k.method && j.request == k.request

pub data Op : Type 0 where
  adds : Key → ℕ → Op
  removes : Key → Op

pub step : Requests → Op → Bool × Requests
step list (adds k uid) = add list k.addr k.method k.request uid
step list (removes k) = remove list k.addr k.method k.request

-- The set of locks: the result of an operation, and whether a lock is held behind it.
pub result : Op → (Key → Bool) → Bool
result (adds k uid) locks = not (locks k)
result (removes k) locks = locks k

pub locked : Op → (Key → Bool) → Key → Bool
locked (adds k uid) locks j = locks j || same_key k j
locked (removes k) locks j = locks j && not (same_key k j)

module _ (p : InProgress → Bool) where
  remove_if-le : (list : Requests) → length (remove_if p list) ≤ length list
  remove_if-le [] = omega arith
  remove_if-le (r ∷ list) = ground (arith, remove_if-le list)

  remove_if-lt : (list : Requests) → any p list ≡ true → length (remove_if p list) < length list
  remove_if-lt [] h = ground arith
  remove_if-lt (r ∷ list) h = ground (arith, remove_if-lt list, remove_if-le list)

  remove_if-none : (list : Requests) → any p list ≡ false → remove_if p list ≡ list
  remove_if-none [] h = refl
  remove_if-none (r ∷ list) h = ground (arith, remove_if-none list)

-- Two keys that fit one request are the same.
is_equal-same_key :
    (r : InProgress) (k j : Key)
    → is_equal r k.addr k.method k.request ≡ true
    → is_equal r j.addr j.method j.request ≡ same_key k j
unfolding is_equal same_key
is_equal-same_key r k j h = ground arith

is_equal-other :
    (r : InProgress) (k j : Key)
    → is_equal r k.addr k.method k.request ≡ false
    → is_equal r j.addr j.method j.request ≡ true
    → same_key k j ≡ false
unfolding is_equal same_key
is_equal-other r k j h e = ground arith

has-append :
    (list : Requests) (k j : Key) (uid : ℕ)
    → holds
        (list ++ (record { addr = k.addr; method = k.method; request = k.request; id = uid } ∷ []))
        j
      ≡ (holds list j || same_key k j)
unfolding has same_key is_equal
has-append [] k j uid = ground arith
has-append (r ∷ list) k j uid = ground (arith, has-append list k j uid)

pub same_key_refl : (k : Key) → same_key k k ≡ true
unfolding same_key
same_key_refl k = ground arith

pub same_key-eq : (k j : Key) → same_key k j ≡ true → k ≡ j
unfolding same_key
same_key-eq k j h = ground arith

held_twice :
    (list : Requests) (k j : Key)
    → holds list k ≡ true
    → (holds list j || same_key k j) ≡ holds list j
held_twice list k j held = elim (Bool-cases (same_key k j)) [
  | inl same ↦
      rw same
        (let e = same_key-eq k j same in ground (arith, subst (λ i. holds list i ≡ true) e held))
  | inr differ ↦ ground arith
]

add_lem :
    (list : Requests) (k j : Key) (uid : ℕ)
    → ((step list (adds k uid)).0 ≡ not (holds list k))
      × (holds (step list (adds k uid)).1 j ≡ locked (adds k uid) (holds list) j)
unfolding step add locked
add_lem list k j uid = elim (Bool-cases (holds list k)) [
  | inl held ↦ rw (held, add) (refl, sym (held_twice list k j held))
  | inr free ↦ rw (free, add) (refl, has-append list k j uid)
]

removed :
    (list : Requests) (k j : Key)
    → any
        (λ r. is_equal r j.addr j.method j.request)
        (remove_if (λ r. is_equal r k.addr k.method k.request) list)
      ≡ (holds list j && not (same_key k j))
unfolding has
removed [] k j = refl
removed (r ∷ list) k j = elim (Bool-cases (is_equal r k.addr k.method k.request)) [
  | inl fits ↦ ground (arith, removed list k j, is_equal-same_key r k j fits)
  | inr other ↦ ground (arith, removed list k j, is_equal-other r k j other)
]

remove_lem :
    (list : Requests) (k j : Key)
    → ((step list (removes k)).0 ≡ holds list k)
      × (holds (step list (removes k)).1 j ≡ locked (removes k) (holds list) j)
unfolding step remove locked has
remove_lem list k j = elim (Bool-cases (holds list k)) [
  | inl held ↦
      ground
        (arith, removed list k j, remove_if-lt (λ r. is_equal r k.addr k.method k.request) list)
  | inr free ↦
      ground
        (arith, removed list k j, remove_if-none (λ r. is_equal r k.addr k.method k.request) list)
]

-- The list behind an add and behind a remove, as locks.
pub holds-add :
    (list : Requests) (k j : Key) (uid : ℕ)
    → holds list k ≡ false
    → holds (add list k.addr k.method k.request uid).1 j ≡ (holds list j || same_key k j)
unfolding add has
holds-add list k j uid free = rw (free, add) (has-append list k j uid)

pub add-free :
    (list : Requests) (k : Key) (uid : ℕ)
    → (add list k.addr k.method k.request uid).0 ≡ not (holds list k)
unfolding step
add-free list k uid = (add_lem list k k uid).0

pub holds-remove :
    (list : Requests) (k j : Key)
    → holds (remove list k.addr k.method k.request).1 j ≡ (holds list j && not (same_key k j))
unfolding step locked
holds-remove list k j = (remove_lem list k j).1

-- The results and the locks of a sequence of operations.
pub run : Requests → List Op → List Bool × Requests
run list [] = ([], list)
run list (op ∷ ops) =
    let after = step list op in let rest = run after.1 ops in (after.0 ∷ rest.0, rest.1)

pub results : List Op → (Key → Bool) → List Bool
results [] locks = []
results (op ∷ ops) locks = result op locks ∷ results ops (locked op locks)

pub all_locked : List Op → (Key → Bool) → Key → Bool
all_locked [] locks = locks
all_locked (op ∷ ops) locks = all_locked ops (locked op locks)

step-set :
    (list : Requests) (op : Op)
    → ((step list op).0 ≡ result op (holds list))
      × (holds (step list op).1 ≡ locked op (holds list))
unfolding result
step-set list (adds k uid) = ((add_lem list k k uid).0, fun_ext (λ j. (add_lem list k j uid).1))
step-set list (removes k) = ((remove_lem list k k).0, fun_ext (λ j. (remove_lem list k j).1))

-- Every sequence of adds and removes acts on the list as on a set of locks: an add succeeds just
-- when its request is not in progress and takes the lock, a remove succeeds just when it is and frees
-- the lock, and no operation changes the lock of another address, method or request type.
pub run-locks :
    (list : Requests) (ops : List Op)
    → ((run list ops).0 ≡ results ops (holds list))
      × (holds (run list ops).1 ≡ all_locked ops (holds list))
unfolding run results all_locked
run-locks list [] = (refl, refl)
run-locks list (op ∷ ops) =
    let s = step-set list op in
    let rest = run-locks (step list op).1 ops in
    rw (sym s.0, sym s.1) (ap (λ rs. (step list op).0 ∷ rs) rest.0, rest.1)
