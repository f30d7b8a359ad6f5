-- ===== src/Tai/Diff.antt =====
-- The comparison and the difference of labels in libbase/lib/tai.c.
use ngim.Base.{ℕ, ◌+◌, ◌*◌, ◌≤◌, ◌<◌, ◌≡◌, ◌↔◌, true, none, some, arith}
use ngim.Tai.{Tain, IsLabel, tain_less, tain_diff}

-- Nanoseconds since the origin of the labels.
abbrev pub nanoseconds : Tain → ℕ
nanoseconds t = t.sec.x * 1000000000 + t.nano

-- On valid labels ngim_tain_less is the order of the instants that they name.
tain_less_iff :
    (t u : Tain) → IsLabel t → IsLabel u → (tain_less t u ≡ true) ↔ (nanoseconds t < nanoseconds u)
unfolding tain_less
tain_less_iff t u ht hu = ground arith

-- On valid labels ngim_tain_diff returns zero exactly when the first is not the earlier one.
pub tain_diff-none_iff :
    (t u : Tain) → IsLabel t → IsLabel u → (tain_diff t u ≡ none) ↔ (nanoseconds u ≤ nanoseconds t)
unfolding tain_diff tain_less
tain_diff-none_iff t u ht hu = ground arith

-- On valid labels what ngim_tain_diff writes is less than a second above the true difference and
-- less than half a millisecond below it.
pub tain_diff_bounds :
    (t u : Tain) (d : ℕ)
    → IsLabel t
    → IsLabel u
    → tain_diff t u ≡ some d
    → (d * 1000000000 + nanoseconds t < nanoseconds u + 1000000000)
      × (nanoseconds u < d * 1000000000 + nanoseconds t + 500000)
unfolding tain_diff tain_less
tain_diff_bounds t u d ht hu h = ground arith

-- Two labels of one second that are half a millisecond or more apart are a whole second apart for
-- ngim_tain_diff.
pub tain_diff_half_millisecond :
    (t u : Tain)
    → IsLabel t
    → IsLabel u
    → t.sec.x ≡ u.sec.x
    → t.nano + 500000 ≤ u.nano
    → tain_diff t u ≡ some 1
unfolding tain_diff tain_less
tain_diff_half_millisecond t u ht hu h k = ground arith
