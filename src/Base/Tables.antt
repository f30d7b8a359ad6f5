-- ===== src/Base/Tables.antt =====
-- Facts about bytes that hold because every value was tried.
use ngim.Base.Tests.{if◌then◌else◌, le-cases, ◌==◌, ==_iff}
use mathlib.Core.Bool.{Bool, true, false}
use mathlib.Core.Logic.{inl, inr}
use Prim.Native.Nat.{◌<◌, ◌+◌, ◌*◌, bit_or, ℕ, suc, zero}
use native.Mathlib.Omega.{arith}
use mathlib.Core.Path.{refl, ◌≡◌}

-- Whether every number below a bound passes a test, the greatest one tried first.
unfoldable pub passes_below : ℕ → (ℕ → Bool) → Bool
passes_below zero test = true
passes_below (suc bound) test =
    let smaller = passes_below bound test in if test bound then smaller else false

pub passes_below_at :
    (bound : ℕ) (test : ℕ → Bool) (k : ℕ)
    → passes_below bound test ≡ true
    → k < bound
    → test k ≡ true
unfolding passes_below
passes_below_at zero test k tried less = absurd (omega arith)
passes_below_at (suc bound) test k tried less =
    let smaller : passes_below bound test ≡ true = ground arith in
    elim (le-cases k bound (omega arith)) [
      | inl below ↦ passes_below_at bound test k smaller below
      | inr last ↦ rw last (ground arith)
    ]

nibble_row : ℕ → Bool
nibble_row hi = passes_below 16 (λ lo. bit_or (hi * 16) lo == hi * 16 + lo)

nibble_table : passes_below 16 nibble_row ≡ true
unfolding passes_below nibble_row
nibble_table = refl

-- `(hi << 4) | lo` of two nibbles is their sum.
pub bit_or-nibbles : (hi lo : ℕ) → hi < 16 → lo < 16 → bit_or (hi * 16) lo ≡ hi * 16 + lo
unfolding nibble_row
bit_or-nibbles hi lo h l = (==_iff _ (hi * 16 + lo)).0 (
    passes_below_at 16 (λ k. bit_or (hi * 16) k == hi * 16 + k) lo
      (passes_below_at 16 nibble_row hi nibble_table h) l)
