-- ===== src/Base/Check.antt =====
-- Facts about the numbers below a limit, by evaluation.
use Prim.Native.Nat.{ℕ, zero, suc, ◌<◌}
use mathlib.Core.Path.{◌≡◌}
use mathlib.Core.Bool.{Bool, true, false}
use native.Mathlib.Omega.{arith}
use agro_daemon.Base.Equality.{if◌then◌else◌, ◌==◌, nat_eq}

-- Whether a function leaves every number below a limit as it is.
unfoldable pub keeps_below : (ℕ → ℕ) → ℕ → Bool
keeps_below f zero = true
keeps_below f (suc limit) =
    let rest = keeps_below f limit in if f limit == limit then rest else false

pub keeps_below-at : (f : ℕ → ℕ) (limit x : ℕ) → x < limit → keeps_below f limit ≡ true → f x ≡ x
unfolding keeps_below
keeps_below-at f (suc limit) x below kept = ground (arith, keeps_below-at f limit x)
keeps_below-at f zero x below kept = absurd (omega arith)
