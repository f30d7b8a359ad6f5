-- ===== src/Iso8601/Bounds.antt =====
-- How long the text of libbase/lib/iso8601.c gets, next to NGIM_ISO8601_FORMAT.
use ngim.Base.{ℕ, zero, suc, ◌+◌, ◌≤◌, length, length-append, arith}
use ngim.Base.{ℤ, pos, negsuc}
use ngim.Iso8601.{TimeExp, format_year, format_usec, format_minutes, format_zone, format_iso8601}

length-format_year : (y : ℕ) → length (format_year y) ≤ 5
unfolding format_year
length-format_year y = ground arith

length-format_usec : (u : ℕ) → length (format_usec u) ≤ 7
unfolding format_usec
length-format_usec u = ground arith

length-format_zone : (z : ℤ) → length (format_zone z) ≤ 5
unfolding format_zone format_minutes
length-format_zone (pos zero) = ground arith
length-format_zone (pos (suc n)) = ground arith
length-format_zone (negsuc n) = ground arith

-- Whatever the fields, the text with its terminating NUL fits into an array of NGIM_ISO8601_FORMAT
-- bytes, 33.
pub length-format_iso8601 : (e : TimeExp) → length (format_iso8601 e) + 1 ≤ 33
unfolding format_iso8601
length-format_iso8601 e =
    let tail = length-append (format_usec e.usec) (format_zone e.gmtoff) in
    let y = length-format_year (e.year + 1900) in
    let u = length-format_usec e.usec in
    let z = length-format_zone e.gmtoff in rw length-append (grind arith)
