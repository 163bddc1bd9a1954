-- ===== src/Device/Mac/RoundTrip.antt =====
-- The text form of an address is read back as the address.
use agro_daemon.Base.{
  ℕ, ◌+◌, ◌/◌, ◌%◌, ◌<◌, ◌≡◌, refl, true, false, some, List, [], ◌∷◌, ◌==◌, nat_eq, arith, ◌∙◌, All,
  length, ℕ_discrete, subst,
}
use agro_daemon.Base.Check.{keeps_below, keeps_below-at}
use agro_daemon.Device.Mac.{
  MeshAddr, done, store, digit, shift_in, scan, string_to_mac_impl, string_to_mac, hex, hex_byte,
  to_string, cell,
}

-- The value that two hexadecimal digits of a byte leave.
digits_value : ℕ → ℕ
digits_value b = shift_in (b % 16) (shift_in (b / 16) 0 0) 1

bytes_kept : keeps_below digits_value 256 ≡ true
unfolding keeps_below digits_value shift_in ℕ_discrete
bytes_kept = refl

digits_value-byte : (b : ℕ) → b < 256 → digits_value b ≡ b
digits_value-byte b h = keeps_below-at digits_value 256 b h bytes_kept

digit-hex : (n : ℕ) → n < 16 → digit (hex n) ≡ some n
unfolding digit hex
digit-hex n h = ground arith

hex-ne-colon : (n : ℕ) → n < 16 → (hex n == b':') ≡ false
unfolding hex
hex-ne-colon n h = ground arith

-- Two digits take the scan to the next character, with the byte as the value.
scan-hex_byte :
    (b : ℕ) (rest : List ℕ) (count : ℕ) (addr : MeshAddr)
    → b < 256
    → scan (hex_byte b rest) count 0 0 addr ≡ scan rest count 2 b addr
unfolding scan hex_byte digits_value
scan-hex_byte b rest count addr h = ground (
  arith,
  hex-ne-colon (b / 16),
  hex-ne-colon (b % 16),
  digit-hex (b / 16),
  digit-hex (b % 16),
  digits_value-byte b h,
)

-- What a colon, or the end of the text, after two digits does.
scan-colon :
    (b : ℕ) (rest : List ℕ) (count : ℕ) (addr addr' : MeshAddr)
    → b < 256
    → store addr count b ≡ some addr'
    → scan (hex_byte b (b':' ∷ rest)) count 0 0 addr ≡ scan rest (count + 1) 0 0 addr'
unfolding scan cell
scan-colon b rest count addr addr' h e = scan-hex_byte b _ count addr h ∙ ground arith

-- Six bytes with a colon behind each fill the address.
pub scan-colons :
    (b₀ b₁ b₂ b₃ b₄ b₅ x₀ x₁ x₂ x₃ x₄ x₅ : ℕ) (rest : List ℕ)
    → All (λ b. b < 256) (b₀ ∷ b₁ ∷ b₂ ∷ b₃ ∷ b₄ ∷ b₅ ∷ [])
    → scan
        (hex_byte b₀ (
          b':'
          ∷ hex_byte b₁ (
              b':'
              ∷ hex_byte b₂
                  (b':' ∷ hex_byte b₃ (b':' ∷ hex_byte b₄ (b':' ∷ hex_byte b₅ (b':' ∷ rest)))))))
        0
        0
        0
        (x₀ ∷ x₁ ∷ x₂ ∷ x₃ ∷ x₄ ∷ x₅ ∷ [])
      ≡ scan rest 6 0 0 (b₀ ∷ b₁ ∷ b₂ ∷ b₃ ∷ b₄ ∷ b₅ ∷ [])
unfolding store
scan-colons b₀ b₁ b₂ b₃ b₄ b₅ x₀ x₁ x₂ x₃ x₄ x₅ rest h =
    scan-colon b₀ _ 0 _ _ h.0 refl
    ∙ scan-colon b₁ _ 1 _ _ h.1.0 refl
    ∙ scan-colon b₂ _ 2 _ _ h.1.1.0 refl
    ∙ scan-colon b₃ _ 3 _ _ h.1.1.1.0 refl
    ∙ scan-colon b₄ _ 4 _ _ h.1.1.1.1.0 refl
    ∙ scan-colon b₅ _ 5 _ _ h.1.1.1.1.1.0 refl

scan-end :
    (b : ℕ) (count : ℕ) (addr addr' : MeshAddr)
    → b < 256
    → store addr count b ≡ some addr'
    → scan (hex_byte b []) count 0 0 addr ≡ done (count + 1) addr'
unfolding scan cell
scan-end b count addr addr' h e = scan-hex_byte b _ count addr h ∙ ground arith

scan-to_string :
    (b₀ b₁ b₂ b₃ b₄ b₅ x₀ x₁ x₂ x₃ x₄ x₅ : ℕ)
    → All (λ b. b < 256) (b₀ ∷ b₁ ∷ b₂ ∷ b₃ ∷ b₄ ∷ b₅ ∷ [])
    → scan (to_string (b₀ ∷ b₁ ∷ b₂ ∷ b₃ ∷ b₄ ∷ b₅ ∷ [])) 0 0 0 (x₀ ∷ x₁ ∷ x₂ ∷ x₃ ∷ x₄ ∷ x₅ ∷ [])
      ≡ done 6 (b₀ ∷ b₁ ∷ b₂ ∷ b₃ ∷ b₄ ∷ b₅ ∷ [])
unfolding to_string store
scan-to_string b₀ b₁ b₂ b₃ b₄ b₅ x₀ x₁ x₂ x₃ x₄ x₅ h =
    scan-colon b₀ _ 0 _ _ h.0 refl
    ∙ scan-colon b₁ _ 1 _ _ h.1.0 refl
    ∙ scan-colon b₂ _ 2 _ _ h.1.1.0 refl
    ∙ scan-colon b₃ _ 3 _ _ h.1.1.1.0 refl
    ∙ scan-colon b₄ _ 4 _ _ h.1.1.1.1.0 refl
    ∙ scan-end b₅ 5 _ _ h.1.1.1.1.1.0 refl

-- Six bytes as a list.
abbrev pub Six : List ℕ → Type 0
Six a =
    (b₀ : ℕ) × (b₁ : ℕ) × (b₂ : ℕ) × (b₃ : ℕ) × (b₄ : ℕ) × (b₅ : ℕ) × (a
      ≡ b₀ ∷ b₁ ∷ b₂ ∷ b₃ ∷ b₄ ∷ b₅ ∷ [])

pub length-Six : (a : List ℕ) → length a ≡ 6 → Six a
length-Six (b₀ ∷ b₁ ∷ b₂ ∷ b₃ ∷ b₄ ∷ b₅ ∷ []) h = (b₀, b₁, b₂, b₃, b₄, b₅, refl)
length-Six _ h = absurd (omega arith)

-- The text of an address of six bytes is read back as that address, whatever the address held that
-- it is read into.
pub string_to_mac-to_string :
    (a old : MeshAddr)
    → length a ≡ 6
    → All (λ b. b < 256) a
    → length old ≡ 6
    → string_to_mac (to_string a) old ≡ some (true, a)
unfolding string_to_mac string_to_mac_impl
string_to_mac-to_string a old ha bytes ho =
    let (b₀, b₁, b₂, b₃, b₄, b₅, ea) = length-Six a ha in
    let (x₀, x₁, x₂, x₃, x₄, x₅, eo) = length-Six old ho in
    let read =
      scan-to_string b₀ b₁ b₂ b₃ b₄ b₅ x₀ x₁ x₂ x₃ x₄ x₅ (subst (All (λ b. b < 256)) ea bytes) in
    rw (ea, eo) (ground (arith, read))
