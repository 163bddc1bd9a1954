-- ===== src/Device/Mac/Fresh.antt =====
-- What a text is read into does not matter for the address that is read.
use agro_daemon.Base.{
  ℕ, zero, suc, ◌+◌, ◌≡◌, refl, none, some, List, [], ◌∷◌, ◌==◌, nat_eq, arith, length, true, ◌⊎◌,
  Option-cases, Bool-cases, inl, inr, ◌∙◌, subst, leb, sym,
}
use agro_daemon.Device.Mac.{
  MeshAddr, fault, done, Scan, store, digit, shift_in, cell, scan, string_to_mac_impl,
  string_to_mac, mesh_addr_of,
}

-- Two lists of the same length with the same first `n` entries.
Agree : ℕ → List ℕ → List ℕ → Type 0
Agree zero xs ys = length xs ≡ length ys
Agree (suc n) (x ∷ xs) (y ∷ ys) = (x ≡ y) × Agree n xs ys
Agree (suc n) [] ys = length ys ≡ 0
Agree (suc n) (x ∷ xs) [] = suc n ≡ 0

Agree-all : (xs ys : List ℕ) → Agree (length xs) xs ys → xs ≡ ys
unfolding Agree
Agree-all [] [] h = refl
Agree-all [] (y ∷ ys) h = absurd (omega (arith, h))
Agree-all (x ∷ xs) [] h = absurd (omega (arith, h))
Agree-all (x ∷ xs) (y ∷ ys) h = rw (h.0, Agree-all xs ys h.1) refl

store-Agree :
    (xs ys : MeshAddr) (c v : ℕ) (xs' : MeshAddr)
    → Agree c xs ys
    → store xs c v ≡ some xs'
    → (ys' : MeshAddr) × (store ys c v ≡ some ys')
      × Agree (suc c) xs' ys'
      × (length xs' ≡ length xs)
unfolding Agree store
store-Agree [] ys c v xs' h e = absurd (ground arith)
store-Agree (x ∷ xs) [] zero v xs' h e = absurd (omega (arith, h))
store-Agree (x ∷ xs) (y ∷ ys) zero v xs' h e =
    let here : v ∷ xs ≡ xs' = ground arith in
    subst
      (λ ws.
        (ys' : MeshAddr) × (store (y ∷ ys) 0 v ≡ some ys')
        × Agree 1 ws ys'
        × (length ws ≡ suc (length xs)))
      here (v ∷ ys, refl, (refl, omega (arith, h)), refl)
store-Agree (x ∷ xs) [] (suc c) v xs' h e = absurd (omega (arith, h))
store-Agree (x ∷ xs) (y ∷ ys) (suc c) v xs' h e = elim (Option-cases (store xs c v)) [
  | inl none_ ↦ absurd (ground arith)
  | inr (zs, some_) ↦
      let (zs', st, agree, l) = store-Agree xs ys c v zs h.1 some_ in
      let here : x ∷ zs ≡ xs' = ground arith in
      subst
        (λ ws.
          (ys' : MeshAddr) × (store (y ∷ ys) (suc c) v ≡ some ys')
          × Agree (suc (suc c)) ws ys'
          × (length ws ≡ suc (length xs)))
        here (y ∷ zs', ground arith, (h.0, agree), omega arith)
]

-- Two scans that end alike, in addresses that agree as far as they are read.
Alike : MeshAddr → Scan → Scan → Type 0
Alike xs s s' =
    (n : ℕ) (a : MeshAddr)
    → s ≡ done n a
    → (b : MeshAddr) × (s' ≡ done n b) × Agree n a b × (length a ≡ length xs)

done-Alike : (n : ℕ) (xs ys : MeshAddr) → Agree n xs ys → Alike xs (done n xs) (done n ys)
unfolding Alike
done-Alike n xs ys agree m a e =
    let same_number : n ≡ m = ground arith in
    let same_address : xs ≡ a = ground arith in
    subst (λ k. (b : MeshAddr) × (done n ys ≡ done k b) × Agree k a b × (length a ≡ length xs))
      same_number
      (subst (λ w. (b : MeshAddr) × (done n ys ≡ done n b) × Agree n w b × (length w ≡ length xs))
        same_address (ys, refl, agree, refl))

stored-Alike :
    (c c' v : ℕ) (xs ys : MeshAddr) (k : MeshAddr → Scan)
    → c' ≡ suc c
    → Agree c xs ys
    → ((xs' ys' : MeshAddr) → Agree c' xs' ys' → Alike xs' (k xs') (k ys'))
    → Alike xs
        (elim (store xs c v) [ none ↦ fault | some a ↦ k a ])
        (elim (store ys c v) [ none ↦ fault | some a ↦ k a ])
unfolding Alike
stored-Alike c c' v xs ys k next agree rest n a e = elim (Option-cases (store xs c v)) [
  | inl none_ ↦ absurd (ground arith)
  | inr (xs', some_) ↦
      let (ys', st, agree', l) = store-Agree xs ys c v xs' agree some_ in
      let e' : k xs' ≡ done n a = ground arith in
      let (b, eb, ab, lb) = rest xs' ys' (subst (λ m. Agree m xs' ys') (sym next) agree') n a e' in
      (b, rw st eb, ab, lb ∙ l)
]

scan-Alike :
    (str : List ℕ) (c p v : ℕ) (xs ys : MeshAddr)
    → Agree c xs ys
    → Alike xs (scan str c p v xs) (scan str c p v ys)
unfolding scan
scan-Alike [] c p v xs ys agree = elim (Option-cases (cell p v)) [
  | inl none_ ↦ rw (none_, scan) (done-Alike c xs ys agree)
  | inr (w, some_) ↦
      rw (some_, scan)
        (stored-Alike c (c + 1) w xs ys (done (c + 1)) (omega arith) agree
          (λ xs' ys' more. done-Alike (c + 1) xs' ys' more))
]
scan-Alike (ch ∷ str) c p v xs ys agree = elim (Bool-cases (ch == b':')) [
  | inl colon ↦
      rw (colon, scan)
        (elim (Option-cases (cell p v)) [
          | inl none_ ↦ rw (none_, scan) (done-Alike c xs ys agree)
          | inr (w, some_) ↦
              rw (some_, scan)
                (stored-Alike c (c + 1) w xs ys (scan str (c + 1) 0 0) (omega arith) agree
                  (λ xs' ys' more. scan-Alike str (c + 1) 0 0 xs' ys' more))
        ])
  | inr other ↦
      rw (other, scan)
        (elim (Bool-cases (leb 2 p)) [
          | inl long ↦ rw (long, scan) (done-Alike c xs ys agree)
          | inr short ↦
              rw (short, scan)
                (elim (Option-cases (digit ch)) [
                  | inl none_ ↦ rw (none_, scan) (done-Alike c xs ys agree)
                  | inr (d, some_) ↦
                      rw (some_, scan) (scan-Alike str c (p + 1) (shift_in d v p) xs ys agree)
                ])
        ])
]

Scan-cases : (s : Scan) → (s ≡ fault) ⊎ ((n : ℕ) × (a : MeshAddr) × (s ≡ done n a))
Scan-cases fault = inl refl
Scan-cases (done n a) = inr (n, a, refl)

-- Whatever the new address holds, the same address is read from a text that is one.
pub mesh_addr_of-any :
    (str a g h : MeshAddr)
    → length g ≡ 6
    → length h ≡ 6
    → mesh_addr_of g str ≡ some (a, true)
    → mesh_addr_of h str ≡ some (a, true)
unfolding mesh_addr_of string_to_mac string_to_mac_impl Alike Agree
mesh_addr_of-any str a g h lg lh e = elim (Scan-cases (scan str 0 0 0 g)) [
  | inl bad ↦ absurd (ground arith)
  | inr (n, x, read) ↦
      let (y, read', agree, l) = scan-Alike str 0 0 0 g h (lg ∙ sym lh) n x read in
      let six : n ≡ 6 = ground arith in
      let same = Agree-all x y (subst (λ k. Agree k x y) (six ∙ sym (l ∙ lg)) agree) in
      ground (arith, sym same)
]
