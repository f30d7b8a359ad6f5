-- ===== src/Iso8601.antt =====
-- libbase/lib/iso8601.c: dates and times as text. The terminating NUL is left out. A char is a byte.
pub mod Bounds
pub mod Reader
pub mod Zones
mod Examples
use ngim.Base.{
  ℤ, pos, negsuc, ℕ, zero, suc, ◌+◌, ◌-◌, ◌/◌, ◌%◌, Bool, false, List, [], ◌∷◌, ◌++◌, ltb,
  if◌then◌else◌,
}

-- apr_time_exp_t, as far as the format reads it. Of the fields only `gmtoff` is ever negative.
pub record TimeExp : Type 0 where
  pub year : ℕ
  pub mon : ℕ
  pub mday : ℕ
  pub hour : ℕ
  pub min : ℕ
  pub sec : ℕ
  pub usec : ℕ
  pub gmtoff : ℤ

-- `n + '0'`, as a char.
abbrev pub digit : ℕ → ℕ
digit n = (n + b'0') % 256

-- `-n + '0'`, as a char.
abbrev pub negative_digit : ℕ → ℕ
negative_digit n = (b'0' + 256 - n % 256) % 256

abbrev pub two_digits : ℕ → List ℕ
two_digits n = digit (n / 10) ∷ digit (n % 10) ∷ []

-- "Year"
unfoldable pub format_year : ℕ → List ℕ
format_year y =
    (if ltb 9999 y
      then digit (y / 10000) ∷ digit (y % 10000 / 1000) ∷ []
      else digit (y / 1000) ∷ [])
    ++ (digit (y % 1000 / 100) ∷ digit (y % 100 / 10) ∷ digit (y % 10) ∷ [])

-- "Microseconds"
unfoldable pub format_usec : ℕ → List ℕ
format_usec u =
    if ltb 0 u
    then b'.'
      ∷ digit (u / 100000)
      ∷ digit (u % 100000 / 10000)
      ∷ digit (u % 10000 / 1000)
      ∷ digit (u % 1000 / 100)
      ∷ digit (u % 100 / 10)
      ∷ digit (u % 10)
      ∷ []
    else []

abbrev pub negate : ℕ → ℤ
negate zero = pos 0
negate (suc n) = negsuc n

-- `z / d` and `z % d` of ints, which round towards 0.
abbrev pub quot : ℤ → ℕ → ℤ
quot (pos n) d = pos (n / d)
quot (negsuc n) d = negate (suc n / d)

abbrev pub rem : ℤ → ℕ → ℤ
rem (pos n) d = pos (n % d)
rem (negsuc n) d = negate (suc n % d)

abbrev pub is_positive : ℤ → Bool
is_positive (pos n) = ltb 0 n
is_positive (negsuc n) = false

-- `z + '0'`, as a char.
abbrev pub char_of : ℤ → ℕ
char_of (pos n) = digit n
char_of (negsuc n) = negative_digit (suc n)

abbrev pub two_chars : ℤ → List ℕ
two_chars z = char_of (quot z 10) ∷ char_of (rem z 10) ∷ []

-- "Minutes" of the offset.
unfoldable pub format_minutes : ℤ → List ℕ
format_minutes m = if is_positive m then two_chars m else []

-- "Hours" and "Minutes".
unfoldable pub format_offset : ℤ → List ℕ
unfolding format_minutes
format_offset z = two_chars (quot z 3600) ++ format_minutes (quot (rem z 3600) 60)

-- "Time zone offset"
unfoldable pub format_zone : ℤ → List ℕ
unfolding format_offset
format_zone (pos zero) = b'Z' ∷ []
format_zone (pos (suc n)) = b'+' ∷ format_offset (pos (suc n))
format_zone (negsuc n) = b'-' ∷ format_offset (negsuc n)

-- format_iso8601
unfoldable pub format_iso8601 : TimeExp → List ℕ
format_iso8601 e =
    format_year (e.year + 1900)
    ++ (b'-'
        ∷ (two_digits (e.mon + 1)
            ++ (b'-'
                ∷ (two_digits e.mday
                    ++ (b' '
                        ∷ (two_digits e.hour
                            ++ (b':'
                                ∷ (two_digits e.min
                                    ++ (b':'
                                        ∷ (two_digits e.sec
                                            ++ (format_usec e.usec
                                                ++ format_zone e.gmtoff)))))))))))

-- APR's calendar: a time in UTC and in the local time zone.
pub record Calendar {ℓ} (Time : Type ℓ) : Type ℓ where
  pub exp_gmt : Time → TimeExp
  pub exp_lt : Time → TimeExp

module _ {ℓ} {Time : Type ℓ} (calendar : Calendar Time) where
  open calendar use {exp_gmt, exp_lt}

  -- ngim_iso8601_utc_format, where APR does not fail.
  unfoldable pub iso8601_utc_format : Time → List ℕ
  iso8601_utc_format t = format_iso8601 (exp_gmt t)

  -- ngim_iso8601_local_format, where APR does not fail.
  unfoldable pub iso8601_local_format : Time → List ℕ
  iso8601_local_format t = format_iso8601 (exp_lt t)
