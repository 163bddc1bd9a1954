-- ===== src/Device/Request/Locks.antt =====
-- The requests in progress are those that the engine has not ended.
use agro_daemon.Base.{
  ℕ, zero, suc, ◌≡◌, Bool, true, false, ◌&&◌, ◌||◌, Option, none, some, List, [], ◌∷◌, nat_eq, any,
  All, arith, Bool-cases, Option-cases, inl, inr, subst, sym, ap, ◌∙◌,
}
use agro_daemon.Device.Mac.{MeshAddr, mesh_addr_of, null_addr}
use agro_daemon.Device.InProgress.{addr_eq, Requests, remove}
use agro_daemon.Device.InProgress.Laws.{
  Key, holds, same_key, same_key-eq, same_key_refl, holds-remove,
}
use agro_daemon.Device.Request.{number, Code}
use agro_daemon.Device.Request.Send.{Transaction}
use agro_daemon.Device.Request.Process.{Daemon}
use agro_daemon.Device.Request.Hosts.{Host, locks}

-- An entry of a list and the others.
unfoldable pub take_out {ℓ} : {A : Type ℓ} → ℕ → List A → Option (A × List A)
take_out n [] = none
take_out zero (x ∷ xs) = some (x, xs)
take_out (suc n) (x ∷ xs) = elim (take_out n xs) [ none ↦ none | some (y, ys) ↦ some (y, x ∷ ys) ]

module _ {Endpoint : Type 0} (code_number : Code → ℕ) where
  -- The address that a transaction goes to.
  unfoldable pub address : Transaction Endpoint → MeshAddr
  address t = elim (mesh_addr_of null_addr t.host) [ none ↦ null_addr | some (a, set) ↦ a ]

  unfoldable pub key_of : Transaction Endpoint → Key
  key_of t = record { addr = address t; method = code_number t.method; request = number t.request }

  -- Whether one of the transactions is for the key.
  unfoldable pub waits : List (Transaction Endpoint) → Key → Bool
  waits ts k = any (λ t. same_key (key_of t) k) ts

  -- No two transactions of a type that is locked have the same key.
  unfoldable pub Distinct : List (Transaction Endpoint) → Type 0
  Distinct [] = Unit
  Distinct (t ∷ ts) = (locks (number t.request) ≡ true → waits ts (key_of t) ≡ false) × Distinct ts

  -- What is in progress is what the engine has, for the types that are locked.
  pub record IsLocked (d : Daemon Endpoint) : Type 0 where
    pub held : (k : Key) → holds d.requests k ≡ (locks k.request && waits d.transactions k)
    pub distinct : Distinct d.transactions
    pub hosts : All (λ t. Host t.host (address t)) d.transactions

  -- A transaction for a key that is free.
  pub opened :
      (d : Daemon Endpoint) (t : Transaction Endpoint) (list : Requests)
      → IsLocked d
      → Host t.host (address t)
      → ((k : Key)
          → holds list k ≡ (holds d.requests k || (locks k.request && same_key (key_of t) k)))
      → (locks (number t.request) ≡ true → holds d.requests (key_of t) ≡ false)
      → IsLocked (record { requests = list; transactions = t ∷ d.transactions })
  unfolding waits Distinct key_of
  opened d t list h host grown free = record {
    held = λ k. ground (arith, grown k, h.held k);
    distinct = (λ l. ground (arith, free l, h.held (key_of t), l), h.distinct);
    hosts = (host, h.hosts);
  }

  -- The end of a request that is not one of the engine's, with the list as it was.
  pub dropped :
      (d : Daemon Endpoint) (list : Requests)
      → IsLocked d
      → ((j : Key) → holds list j ≡ holds d.requests j)
      → IsLocked (record { requests = list; transactions = d.transactions })
  dropped d list h same = record {
    held = λ j. same j ∙ h.held j;
    distinct = h.distinct;
    hosts = h.hosts;
  }

  All-take_out :
      (P : Transaction Endpoint → Type 0) (n : ℕ) (ts rest : List (Transaction Endpoint))
      (t : Transaction Endpoint)
      → All P ts
      → take_out n ts ≡ some (t, rest)
      → All P (t ∷ rest)
  unfolding take_out
  All-take_out P n [] rest t h e = absurd (ground arith)
  All-take_out P zero (x ∷ xs) rest t h e =
      let whole : x ∷ xs ≡ t ∷ rest = ground arith in subst (All P) whole h
  All-take_out P (suc n) (x ∷ xs) rest t h e = elim (Option-cases (take_out n xs)) [
    | inl none_ ↦ absurd (ground arith)
    | inr ((y, ys), some_) ↦
        let behind = All-take_out P n xs ys y h.1 some_ in
        let whole : y ∷ x ∷ ys ≡ t ∷ rest = ground arith in
        subst (All P) whole (behind.0, (h.0, behind.1))
  ]

  waits-take_out :
      (n : ℕ) (ts rest : List (Transaction Endpoint)) (t : Transaction Endpoint) (k : Key)
      → take_out n ts ≡ some (t, rest)
      → waits ts k ≡ (same_key (key_of t) k || waits rest k)
  unfolding take_out waits
  waits-take_out n [] rest t k e = absurd (ground arith)
  waits-take_out zero (x ∷ xs) rest t k e = ground arith
  waits-take_out (suc n) (x ∷ xs) rest t k e = elim (Option-cases (take_out n xs)) [
    | inl none_ ↦ absurd (ground arith)
    | inr ((y, ys), some_) ↦ ground (arith, waits-take_out n xs ys y k some_)
  ]

  Distinct-take_out :
      (n : ℕ) (ts rest : List (Transaction Endpoint)) (t : Transaction Endpoint)
      → Distinct ts
      → take_out n ts ≡ some (t, rest)
      → Distinct (t ∷ rest)
  unfolding take_out Distinct waits key_of
  Distinct-take_out n [] rest t h e = absurd (ground arith)
  Distinct-take_out zero (x ∷ xs) rest t h e =
      let whole : x ∷ xs ≡ t ∷ rest = ground arith in subst Distinct whole h
  Distinct-take_out (suc n) (x ∷ xs) rest t h e = elim (Option-cases (take_out n xs)) [
    | inl none_ ↦ absurd (ground arith)
    | inr ((y, ys), some_) ↦
        let behind = Distinct-take_out n xs ys y h.1 some_ in
        let at = waits-take_out n xs ys y (key_of x) some_ in
        let first : locks (number x.request) ≡ true → waits ys (key_of x) ≡ false =
          λ l. ground (arith, h.0 l, at) in
        let apart : locks (number y.request) ≡ true → waits (x ∷ ys) (key_of y) ≡ false = λ l.
          elim (Bool-cases (same_key (key_of x) (key_of y))) [
            | inl same ↦
                let eq = same_key-eq (key_of x) (key_of y) same in
                let back : same_key (key_of y) (key_of x) ≡ true =
                  subst (λ k. same_key k (key_of x) ≡ true) eq (same_key_refl (key_of x)) in
                let type_ : number x.request ≡ number y.request = ap (λ k. k.request) eq in
                let l' : locks (number x.request) ≡ true =
                  subst (λ m. locks m ≡ true) (sym type_) l in
                let none_ = h.0 l' in absurd (ground arith)
            | inr other ↦ ground (arith, behind.0 l, other)
          ] in
        let whole : y ∷ x ∷ ys ≡ t ∷ rest = ground arith in
        subst Distinct whole (apart, (first, behind.1))
  ]

  -- The end of a transaction and of its request in progress.
  pub ended :
      (d : Daemon Endpoint) (n : ℕ) (t : Transaction Endpoint) (rest : List (Transaction Endpoint))
      → IsLocked d
      → take_out n d.transactions ≡ some (t, rest)
      → Host t.host (address t)
        × IsLocked (record {
          requests = (remove d.requests (address t) (code_number t.method) (number t.request)).1;
          transactions = rest;
        })
  unfolding key_of Distinct
  ended d n t rest h e =
      let distinct_ = Distinct-take_out n d.transactions rest t h.distinct e in
      let hosts_ = All-take_out (λ u. Host u.host (address u)) n d.transactions rest t h.hosts e in
      let removed = holds-remove d.requests (key_of t) in
      (
        hosts_.0,
        record {
          held = λ k. elim (Bool-cases (same_key (key_of t) k)) [
            | inl same ↦
                let eq = same_key-eq (key_of t) k same in
                let last : locks k.request ≡ true → waits rest k ≡ false =
                  subst (λ j. locks j.request ≡ true → waits rest j ≡ false) eq distinct_.0 in
                removed k ∙ ground (arith, same, last)
            | inr other ↦
                removed k
                ∙ ground (arith, other, h.held k, waits-take_out n d.transactions rest t k e)
          ];
          distinct = distinct_.1;
          hosts = hosts_.1;
        },
      )
