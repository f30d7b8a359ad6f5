-- ===== src/Iso8601/Examples.antt =====
-- libbase/lib/iso8601.c at one time in three time zones.
use ngim.Base.{ℕ, ◌+◌, ◌≤◌, ◌≡◌, ◌/◌, ◌%◌, refl, [], ◌∷◌, length, arith}
use ngim.Base.{ℤ, pos, negsuc}
use ngim.Iso8601.{TimeExp, format_iso8601, format_zone}
use ngim.Iso8601.Bounds.{length-format_iso8601}
use ngim.Iso8601.Reader.{read_iso8601, read_iso8601-format_iso8601, IsCivil}
use ngim.Iso8601.Zones.{format_zone_behind}

-- 2006-02-05 21:04:59.000123 in a zone with this offset.
abbrev evening : ℤ → TimeExp
evening z = record {
  year = 106;
  mon = 1;
  mday = 5;
  hour = 21;
  min = 4;
  sec = 59;
  usec = 123;
  gmtoff = z;
}

evening-IsCivil : IsCivil (evening (pos 19800))
evening-IsCivil = record {
  year_below = omega arith;
  mon_below = omega arith;
  mday_below = omega arith;
  hour_below = omega arith;
  min_below = omega arith;
  sec_below = omega arith;
  usec_below = omega arith;
  minutes = 330;
  offset = refl;
  minutes_below = omega arith;
}

read_iso8601-format_iso8601_example :
    read_iso8601 (format_iso8601 (evening (pos 19800))) ≡ evening (pos 19800)
read_iso8601-format_iso8601_example =
    read_iso8601-format_iso8601 (evening (pos 19800)) evening-IsCivil

length-format_iso8601_example : length (format_iso8601 (evening (negsuc 17999))) + 1 ≤ 33
length-format_iso8601_example = length-format_iso8601 (evening (negsuc 17999))

format_zone_behind_example :
    (c : ℕ) × ((d : ℕ) × ((format_zone (negsuc 17999) ≡ b'-' ∷ c ∷ d ∷ [])
        × ((c + 18000 / 3600 / 10 ≡ b'0') × (d + 18000 / 3600 % 10 ≡ b'0'))))
format_zone_behind_example = format_zone_behind 17999 (omega arith)
