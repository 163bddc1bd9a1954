-- ===== src/Device/Packets/Padded.antt =====
-- Names in arrays of bytes of a fixed size, filled up with zeros.
use agro_daemon.Base.{
  ℕ, zero, suc, ◌+◌, ◌<◌, ◌≡◌, refl, ◌≢◌, some, List, [], ◌∷◌, nat_eq, length, All, arith,
}
use agro_daemon.Device.Packets.{c_string, skip}

-- A name in an array of `n` bytes, filled up with zeros, in front of other bytes.
pub padded : ℕ → List ℕ → List ℕ → List ℕ
padded zero name rest = rest
padded (suc n) [] rest = 0 ∷ padded n [] rest
padded (suc n) (c ∷ name) rest = c ∷ padded n name rest

pub c_string-padded :
    (n : ℕ) (name rest : List ℕ)
    → length name < n
    → All (λ c. c ≢ 0) name
    → c_string n (padded n name rest) ≡ some name
unfolding c_string padded
c_string-padded zero name rest h a = absurd (omega arith)
c_string-padded (suc n) [] rest h a = ground arith
c_string-padded (suc n) (c ∷ name) rest h a =
    ground (arith, c_string-padded n name rest (omega arith) a.1, a.0)

pub skip-padded : (n : ℕ) (name rest : List ℕ) → skip n (padded n name rest) ≡ rest
unfolding skip padded
skip-padded zero name rest = refl
skip-padded (suc n) [] rest = skip-padded n [] rest
skip-padded (suc n) (c ∷ name) rest = skip-padded n name rest

pub length-padded : (n : ℕ) (name rest : List ℕ) → length (padded n name rest) ≡ n + length rest
unfolding padded
length-padded zero name rest = omega arith
length-padded (suc n) [] rest = omega (arith, length-padded n [] rest)
length-padded (suc n) (c ∷ name) rest = omega (arith, length-padded n name rest)
