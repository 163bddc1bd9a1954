-- ===== src/Device/Mac/Overrun.antt =====
-- Which texts make `string_to_mac` write past the six bytes of an address.
use agro_daemon.Base.{
  ℕ, zero, suc, ◌+◌, ◌<◌, ◌≡◌, refl, ◌≢◌, none, some, List, [], ◌∷◌, ◌++◌, ◌==◌, nat_eq, arith,
  length, All, if◌then◌else◌, ℕ_discrete, ◌≤◌, Option-cases, inl, inr, ◌∙◌, subst,
}
use agro_daemon.Device.Mac.{
  MeshAddr, fault, store, digit, shift_in, cell, scan, string_to_mac_impl, string_to_mac, hex_byte,
  to_string,
}
use agro_daemon.Device.Mac.RoundTrip.{scan-colons, length-Six}

unfoldable pub colons : List ℕ → ℕ
colons [] = 0
colons (c ∷ str) = if c == b':' then suc (colons str) else colons str

store-some :
    (addr : MeshAddr) (i v : ℕ)
    → i < length addr
    → (addr' : MeshAddr) × (store addr i v ≡ some addr') × (length addr' ≡ length addr)
unfolding store
store-some [] i v h = absurd (omega arith)
store-some (x ∷ addr) zero v h = (v ∷ addr, refl, refl)
store-some (x ∷ addr) (suc i) v h =
    let (addr', e, l) = store-some addr i v (omega arith) in (x ∷ addr', ground arith, omega arith)

end_step :
    (count part value : ℕ) (addr : MeshAddr)
    → count < length addr
    → scan [] count part value addr ≢ fault
unfolding scan
end_step count part value addr h bad = elim (Option-cases (cell part value)) [
  | inl none_ ↦ ground arith
  | inr (v, some_) ↦ let (addr', st, l) = store-some addr count v h in ground arith
]

-- One step of the scan at a colon and at another character, from the law for the rest of the text.
colon_step :
    (c : ℕ) (str : List ℕ) (count part value : ℕ) (addr : MeshAddr)
    → c ≡ b':'
    → count < length addr
    → ((addr' : MeshAddr) → length addr' ≡ length addr → scan str (count + 1) 0 0 addr' ≢ fault)
    → scan (c ∷ str) count part value addr ≢ fault
unfolding scan
colon_step c str count part value addr e h rest bad = elim (Option-cases (cell part value)) [
  | inl none_ ↦ ground arith
  | inr (v, some_) ↦ let (addr', st, l) = store-some addr count v h in ground (arith, rest addr' l)
]

digit_step :
    (c : ℕ) (str : List ℕ) (count part value : ℕ) (addr : MeshAddr)
    → c ≢ b':'
    → ((p v : ℕ) → scan str count p v addr ≢ fault)
    → scan (c ∷ str) count part value addr ≢ fault
unfolding scan
digit_step c str count part value addr ne rest bad = elim (Option-cases (digit c)) [
  | inl none_ ↦ ground arith
  | inr (d, some_) ↦ ground (arith, rest (part + 1) (shift_in d value part))
]

scan-safe :
    (str : List ℕ) (count part value : ℕ) (addr : MeshAddr)
    → count + colons str < length addr
    → scan str count part value addr ≢ fault
unfolding colons
scan-safe [] count part value addr h bad = end_step count part value addr (omega arith) bad
scan-safe (c ∷ str) count part value addr h bad = elim (ℕ_discrete c b':') [
  | yes e ↦
      colon_step c str count part value addr e (ground arith)
        (λ addr' l. scan-safe str (count + 1) 0 0 addr' (ground arith)) bad
  | no ne ↦
      digit_step c str count part value addr ne (λ p v. scan-safe str count p v addr (ground arith))
        bad
]

-- With the address full, the end of the text writes past it.
full_fault : (b₀ b₁ b₂ b₃ b₄ b₅ : ℕ) → scan [] 6 0 0 (b₀ ∷ b₁ ∷ b₂ ∷ b₃ ∷ b₄ ∷ b₅ ∷ []) ≡ fault
unfolding scan cell store ℕ_discrete
full_fault b₀ b₁ b₂ b₃ b₄ b₅ = refl

scan-overrun :
    (b₀ b₁ b₂ b₃ b₄ b₅ x₀ x₁ x₂ x₃ x₄ x₅ : ℕ)
    → All (λ b. b < 256) (b₀ ∷ b₁ ∷ b₂ ∷ b₃ ∷ b₄ ∷ b₅ ∷ [])
    → scan
        (to_string (b₀ ∷ b₁ ∷ b₂ ∷ b₃ ∷ b₄ ∷ b₅ ∷ []) ++ (b':' ∷ []))
        0
        0
        0
        (x₀ ∷ x₁ ∷ x₂ ∷ x₃ ∷ x₄ ∷ x₅ ∷ [])
      ≡ fault
unfolding to_string hex_byte
scan-overrun b₀ b₁ b₂ b₃ b₄ b₅ x₀ x₁ x₂ x₃ x₄ x₅ h =
    scan-colons b₀ b₁ b₂ b₃ b₄ b₅ x₀ x₁ x₂ x₃ x₄ x₅ [] h ∙ full_fault b₀ b₁ b₂ b₃ b₄ b₅

-- A text with at most five colons is scanned within the six bytes of the address.
pub string_to_mac-safe :
    (str : List ℕ) (old : MeshAddr) → length old ≡ 6 → colons str ≤ 5 → string_to_mac str old ≢ none
unfolding string_to_mac string_to_mac_impl
string_to_mac-safe str old l h bad = ground (arith, scan-safe str 0 0 0 old (omega arith))

-- The text of an address with one more colon behind it makes the scan write past the address.
pub string_to_mac-overrun :
    (a old : MeshAddr)
    → length a ≡ 6
    → All (λ b. b < 256) a
    → length old ≡ 6
    → string_to_mac (to_string a ++ (b':' ∷ [])) old ≡ none
unfolding string_to_mac string_to_mac_impl
string_to_mac-overrun a old ha bytes ho =
    let (b₀, b₁, b₂, b₃, b₄, b₅, ea) = length-Six a ha in
    let (x₀, x₁, x₂, x₃, x₄, x₅, eo) = length-Six old ho in
    let read =
      scan-overrun b₀ b₁ b₂ b₃ b₄ b₅ x₀ x₁ x₂ x₃ x₄ x₅ (subst (All (λ b. b < 256)) ea bytes) in
    rw (ea, eo) (ground (arith, read))
