-- ===== src/Base/Bits.antt =====
-- Bit masks: what `&` finds in an `|` of masks.
use Prim.Native.Nat.{
  ℕ, zero, suc, ◌+◌, ◌*◌, ◌/◌, ◌%◌, ◌≤◌, min, max, bit_and, bit_or, digits, bit_and-bitwise,
  bit_or-bitwise,
}
use mathlib.Core.Path.{◌≡◌, refl, ap, ◌∙◌}
use mathlib.Core.Logic.{◌↔◌}
use native.Mathlib.Omega.{arith}
use native.Mathlib.Decide.{ℕ_discrete}

-- The native operations count down from their first number, which is more than its digits need.
module _ (rest : ℕ → ℕ) (digit : ℕ → ℕ → ℕ) where
  one_more :
      (x y count : ℕ) → x ≤ count → digits rest digit (suc count) x y ≡ digits rest digit count x y
  one_more zero y zero h = refl
  one_more zero y (suc count) h = refl
  one_more (suc x) y zero h = absurd (omega arith)
  one_more (suc x) y (suc count) h = omega (arith, one_more (suc x / 2) (y / 2) count (omega arith))

  surplus :
      (count less x y : ℕ)
      → x ≤ less
      → less ≤ count
      → digits rest digit count x y ≡ digits rest digit less x y
  surplus zero less x y h k = let none_left : less ≡ 0 = omega arith in rw none_left refl
  surplus (suc count) less x y h k = elim (ℕ_discrete less (suc count)) [
    | yes same ↦ rw same refl
    | no fewer ↦ one_more x y count (omega arith) ∙ surplus count less x y h (omega arith)
  ]

pub zero-bit_and : (b : ℕ) → bit_and 0 b ≡ 0
zero-bit_and b = bit_and-bitwise 0 b

zero-bit_or : (b : ℕ) → bit_or 0 b ≡ b
zero-bit_or b = bit_or-bitwise 0 b

-- Both operations from those of the halves.
pub bit_and-halves : (x y : ℕ) → bit_and x y ≡ min (x % 2) (y % 2) + 2 * bit_and (x / 2) (y / 2)
bit_and-halves zero y = omega (arith, zero-bit_and y, zero-bit_and (y / 2))
bit_and-halves (suc x) y =
    let fewer =
      surplus (λ _. zero) min x (suc x / 2) (suc x / 2) (y / 2) (omega arith) (omega arith) in
    omega (arith, bit_and-bitwise (suc x) y, bit_and-bitwise (suc x / 2) (y / 2), fewer)

pub bit_or-halves : (x y : ℕ) → bit_or x y ≡ max (x % 2) (y % 2) + 2 * bit_or (x / 2) (y / 2)
bit_or-halves zero y = omega (arith, zero-bit_or y, zero-bit_or (y / 2))
bit_or-halves (suc x) y =
    let fewer =
      surplus (λ d. d) max x (suc x / 2) (suc x / 2) (y / 2) (omega arith) (omega arith) in
    omega (arith, bit_or-bitwise (suc x) y, bit_or-bitwise (suc x / 2) (y / 2), fewer)

bit_or_half : (a b : ℕ) → bit_or a b / 2 ≡ bit_or (a / 2) (b / 2)
bit_or_half a b = omega (arith, bit_or-halves a b)

bit_or_low : (a b : ℕ) → bit_or a b % 2 ≡ max (a % 2) (b % 2)
bit_or_low a b = omega (arith, bit_or-halves a b)

bit_and_or_step :
    (a b m : ℕ)
    → bit_and (bit_or a b) m
      ≡ bit_and (bit_or (a / 2) (b / 2)) (m / 2) * 2 + min (max (a % 2) (b % 2)) (m % 2)
bit_and_or_step a b m = omega (
  arith,
  bit_and-halves (bit_or a b) m,
  ap (λ (t : ℕ). bit_and t (m / 2)) (bit_or_half a b),
  bit_or_low a b,
)

-- The law for two numbers, from the law for their halves.
module _ (a b m : ℕ)
    (ih : (bit_and (bit_or (a / 2) (b / 2)) (m / 2) ≡ 0)
      ↔ ((bit_and (a / 2) (m / 2) ≡ 0) × (bit_and (b / 2) (m / 2) ≡ 0))) where
  bit_and_or_halves : (bit_and (bit_or a b) m ≡ 0) ↔ ((bit_and a m ≡ 0) × (bit_and b m ≡ 0))
  bit_and_or_halves = (
    λ e. split (ih.0 (omega (arith, bit_and_or_step a b m))) e,
    λ e. join (ih.1 (omega (arith, bit_and-halves a m), omega (arith, bit_and-halves b m))) e,
  )
    where
      split :
          (bit_and (a / 2) (m / 2) ≡ 0) × (bit_and (b / 2) (m / 2) ≡ 0)
          → bit_and (bit_or a b) m ≡ 0
          → (bit_and a m ≡ 0) × (bit_and b m ≡ 0)
      split h e = (
        omega (arith, bit_and_or_step a b m, bit_and-halves a m),
        omega (arith, bit_and_or_step a b m, bit_and-halves b m),
      )

      join :
          bit_and (bit_or (a / 2) (b / 2)) (m / 2) ≡ 0
          → (bit_and a m ≡ 0) × (bit_and b m ≡ 0)
          → bit_and (bit_or a b) m ≡ 0
      join h e = omega (arith, bit_and_or_step a b m, bit_and-halves a m, bit_and-halves b m)

bit_and_or_fuel :
    (n a b m : ℕ)
    → a + b ≤ n
    → (bit_and (bit_or a b) m ≡ 0) ↔ ((bit_and a m ≡ 0) × (bit_and b m ≡ 0))
bit_and_or_fuel zero zero zero m h = (λ e. (e, e), λ e. e.0)
bit_and_or_fuel zero zero (suc b) m h = absurd (omega arith)
bit_and_or_fuel zero (suc a) b m h = absurd (omega arith)
bit_and_or_fuel (suc n) zero zero m h = (λ e. (e, e), λ e. e.0)
bit_and_or_fuel (suc n) zero (suc b) m h =
    bit_and_or_halves zero (suc b) m (bit_and_or_fuel n (0 / 2) (suc b / 2) (m / 2) (omega arith))
bit_and_or_fuel (suc n) (suc a) b m h =
    bit_and_or_halves (suc a) b m (bit_and_or_fuel n (suc a / 2) (b / 2) (m / 2) (omega arith))

-- `(a | b) & m` is zero exactly when both `a & m` and `b & m` are.
pub bit_and_or :
    (a b m : ℕ) → (bit_and (bit_or a b) m ≡ 0) ↔ ((bit_and a m ≡ 0) × (bit_and b m ≡ 0))
bit_and_or a b m = bit_and_or_fuel (a + b) a b m (omega arith)
