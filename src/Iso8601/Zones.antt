-- ===== src/Iso8601/Zones.antt =====
-- The time zones west of UTC in libbase/lib/iso8601.c.
use ngim.Base.{
  ◌%◌, refl, ◌∙◌, ℕ, zero, suc, ◌+◌, ◌-◌, ◌<◌, ◌/◌, ◌≡◌, false, [], ◌∷◌, negsuc, if_false, arith,
}
use ngim.Iso8601.{
  negative_digit, negate, quot, rem, is_positive, char_of, format_minutes, format_offset,
  format_zone,
}

negate-is_positive : (m : ℕ) → is_positive (negate m) ≡ false
negate-is_positive zero = ground arith
negate-is_positive (suc m) = refl

char_of-negate : (m : ℕ) → char_of (negate m) ≡ negative_digit m
char_of-negate zero = ground arith
char_of-negate (suc m) = refl

tens-negate : (m : ℕ) → char_of (quot (negate m) 10) ≡ negative_digit (m / 10)
tens-negate zero = ground arith
tens-negate (suc m) = char_of-negate (suc m / 10)

ones-negate : (m : ℕ) → char_of (rem (negate m) 10) ≡ negative_digit (m % 10)
ones-negate zero = ground arith
ones-negate (suc m) = char_of-negate (suc m % 10)

-- "if (tmp > 0)" is never so.
format_minutes-negate : (m : ℕ) → format_minutes (quot (negate m) 60) ≡ []
unfolding format_minutes
format_minutes-negate zero = refl
format_minutes-negate (suc m) = if_false _ _ (negate-is_positive (suc m / 60))

-- The text of an offset of less than 100 hours behind UTC is a minus and two characters for the hours,
-- each of them the character 0 less the digit, and never has minutes.
pub format_zone_behind :
    (n : ℕ)
    → suc n < 360000
    → (c : ℕ) × ((d : ℕ) × ((format_zone (negsuc n) ≡ b'-' ∷ c ∷ d ∷ [])
          × ((c + suc n / 3600 / 10 ≡ b'0') × (d + suc n / 3600 % 10 ≡ b'0'))))
unfolding format_zone format_offset
format_zone_behind n h =
    let q : ℕ = suc n / 3600 in
    let tens : negative_digit (q / 10) ≡ b'0' - q / 10 = omega arith in
    let ones : negative_digit (q % 10) ≡ b'0' - q % 10 = omega arith in
    (
      b'0' - q / 10,
      (
        b'0' - q % 10,
        (
          rw (tens-negate q ∙ tens, ones-negate q ∙ ones, format_minutes-negate (suc n % 3600))
              refl,
          (omega arith, omega arith),
        ),
      ),
    )
