-- ===== src/Device/Request/Taken.antt =====
-- Locks that a request takes and gives back, for the types that are locked.
use agro_daemon.Base.{ℕ, ◌≡◌, true, false, ◌&&◌, ◌||◌, arith, Bool-cases, inl, inr, subst, ◌∙◌}
use agro_daemon.Device.InProgress.{Requests, add, remove}
use agro_daemon.Device.InProgress.Laws.{Key, holds, same_key, same_key-eq, holds-add, holds-remove}
use agro_daemon.Device.Request.Hosts.{locks}

-- A lock that was free is taken, and free again behind the end of it.
pub taken_back :
    (list : Requests) (k j : Key) (user : ℕ)
    → holds list k ≡ false
    → holds (remove (add list k.addr k.method k.request user).1 k.addr k.method k.request).1 j
      ≡ holds list j
taken_back list k j user free =
    let added = holds-add list k j user free in
    let removed = holds-remove (add list k.addr k.method k.request user).1 k j in
    elim (Bool-cases (same_key k j)) [
      | inl same ↦
          let eq = same_key-eq k j same in
          let free' : holds list j ≡ false = subst (λ i. holds list i ≡ false) eq free in
          removed ∙ ground (arith, same, free')
      | inr other ↦ removed ∙ ground (arith, other, added)
    ]

pub taken :
    (list : Requests) (k j : Key) (user : ℕ)
    → holds list k ≡ false
    → locks k.request ≡ true
    → holds (add list k.addr k.method k.request user).1 j
      ≡ (holds list j || (locks j.request && same_key k j))
taken list k j user free l = elim (Bool-cases (same_key k j)) [
  | inl same ↦
      let l' : locks j.request ≡ true =
        subst (λ i. locks i.request ≡ true) (same_key-eq k j same) l in
      holds-add list k j user free ∙ ground (arith, l')
  | inr other ↦ holds-add list k j user free ∙ ground (arith, other)
]

pub untaken :
    (list : Requests) (k j : Key)
    → locks k.request ≡ false
    → holds list j ≡ (holds list j || (locks j.request && same_key k j))
untaken list k j l = elim (Bool-cases (same_key k j)) [
  | inl same ↦
      let l' : locks j.request ≡ false =
        subst (λ i. locks i.request ≡ false) (same_key-eq k j same) l in
      ground (arith, l')
  | inr other ↦ ground (arith, other)
]
