-- ===== src/Iso8601/Reader.antt =====
-- A reader of the text of libbase/lib/iso8601.c, which finds every field again.
use ngim.Base.{
  take, drop, ℕ, zero, suc, ◌+◌, ◌-◌, ◌*◌, ◌/◌, ◌%◌, ◌<◌, ◌≡◌, refl, List, [], ◌∷◌, ◌++◌, ltb, ◌==◌,
  if◌then◌else◌, arith, if-ind, ap, ◌∙◌, false,
}
use mathlib.Core.Path.{ap₂}
use ngim.Base.{ℤ, pos}
use ngim.Iso8601.{
  TimeExp, digit, two_digits, format_year, format_usec, format_minutes, format_zone, format_iso8601,
}

-- The number that digits stand for.
abbrev pub value_from : ℕ → List ℕ → ℕ
value_from n [] = n
value_from n (c ∷ cs) = value_from (n * 10 + (c - b'0')) cs

abbrev pub value : List ℕ → ℕ
value cs = value_from 0 cs

abbrev pub first : List ℕ → ℕ
first [] = 0
first (c ∷ cs) = c

-- The two digits that stand after `n` chars.
abbrev pub two_at : ℕ → List ℕ → ℕ
two_at n s = value (take 2 (drop n s))

-- The offset, at the end of the text.
abbrev pub read_zone : List ℕ → ℤ
read_zone s = if first s == b'Z' then pos 0 else pos (two_at 1 s * 3600 + two_at 3 s * 60)

-- The microseconds after the seconds, if there are any, and what follows them.
abbrev pub read_usec : List ℕ → ℕ
read_usec s = if first s == b'.' then value (take 6 (drop 1 s)) else 0

abbrev pub after_usec : List ℕ → List ℕ
after_usec s = if first s == b'.' then drop 7 s else s

-- The fields after the year.
abbrev pub read_fields : ℕ → List ℕ → TimeExp
read_fields y s = record {
  year = y - 1900;
  mon = two_at 1 s - 1;
  mday = two_at 4 s;
  hour = two_at 7 s;
  min = two_at 10 s;
  sec = two_at 13 s;
  usec = read_usec (drop 15 s);
  gmtoff = read_zone (after_usec (drop 15 s));
}

-- The year has four digits or five.
abbrev pub read_iso8601 : List ℕ → TimeExp
read_iso8601 s =
    if first (drop 4 s) == b'-'
    then read_fields (value (take 4 s)) (drop 4 s)
    else read_fields (value (take 5 s)) (drop 5 s)

-- The fields of a calendar, up to the year 99999, with an offset of whole minutes that is not
-- negative.
pub record IsCivil (e : TimeExp) : Type 0 where
  pub year_below : e.year + 1900 < 100000
  pub mon_below : e.mon < 12
  pub mday_below : e.mday < 32
  pub hour_below : e.hour < 24
  pub min_below : e.min < 60
  pub sec_below : e.sec < 62
  pub usec_below : e.usec < 1000000
  pub minutes : ℕ
  pub offset : e.gmtoff ≡ pos (minutes * 60)
  pub minutes_below : minutes < 1440

value-two_digits : (n : ℕ) → n < 100 → value (two_digits n) ≡ n
value-two_digits n h = omega arith

read_zone-format_zone : (o k : ℕ) → o ≡ k * 60 → k < 1440 → read_zone (format_zone (pos o)) ≡ pos o
unfolding format_zone format_minutes
read_zone-format_zone zero k e h = refl
read_zone-format_zone (suc n) k e h =
    let hours : ℕ = suc n / 3600 in
    let minutes : ℕ = suc n % 3600 / 60 in
    let hs : value (two_digits hours) ≡ hours = value-two_digits hours (omega arith) in
    let ms : value (two_digits minutes) ≡ minutes = value-two_digits minutes (omega arith) in
    if-ind (λ m. read_zone (b'+' ∷ (two_digits hours ++ m)) ≡ pos (suc n)) (ltb 0 minutes)
      (λ t. ap pos (ap₂ (λ a b. a * 3600 + b * 60) hs ms ∙ omega arith))
      (λ t. ap pos (ap (λ a. a * 3600 + 0) hs ∙ ground arith))

six_digits :
    (u : ℕ)
    → u < 1000000
    → value (
        digit (u / 100000)
        ∷ digit (u % 100000 / 10000)
        ∷ digit (u % 10000 / 1000)
        ∷ digit (u % 1000 / 100)
        ∷ digit (u % 100 / 10)
        ∷ digit (u % 10)
        ∷ [])
      ≡ u
six_digits u h = omega arith

no_usec :
    (o : ℕ)
    → (read_usec (format_zone (pos o)) ≡ 0)
      × (after_usec (format_zone (pos o)) ≡ format_zone (pos o))
unfolding format_zone
no_usec zero = (refl, refl)
no_usec (suc n) = (refl, refl)

read_usec-format_usec :
    (u o : ℕ)
    → u < 1000000
    → (read_usec (format_usec u ++ format_zone (pos o)) ≡ u)
      × (after_usec (format_usec u ++ format_zone (pos o)) ≡ format_zone (pos o))
unfolding format_usec
read_usec-format_usec u o h =
    let z : List ℕ = format_zone (pos o) in
    if-ind (λ us. (read_usec (us ++ z) ≡ u) × (after_usec (us ++ z) ≡ z)) (ltb 0 u)
      (λ t. (six_digits u h, refl))
      (λ t. let none_left : 0 ≡ u = ground arith in ((no_usec o).0 ∙ none_left, (no_usec o).1))

read_year :
    (y : ℕ) (rest : List ℕ)
    → y < 100000
    → read_iso8601 (format_year y ++ (b'-' ∷ rest)) ≡ read_fields y (b'-' ∷ rest)
unfolding format_year
read_year y rest h =
    let s : List ℕ = b'-' ∷ rest in
    let low : List ℕ = digit (y % 1000 / 100) ∷ digit (y % 100 / 10) ∷ digit (y % 10) ∷ [] in
    if-ind (λ front. read_iso8601 ((front ++ low) ++ s) ≡ read_fields y s) (ltb 9999 y)
      (λ t.
        let v : value (digit (y / 10000) ∷ digit (y % 10000 / 1000) ∷ low) ≡ y = omega arith in
        let c : (digit (y % 10) == b'-') ≡ false = ground arith in
        rw c (ap (λ k. read_fields k s) v))
      (λ t.
        let v : value (digit (y / 1000) ∷ low) ≡ y = ground arith in ap (λ k. read_fields k s) v)

TimeExp-eq :
    (d e : TimeExp)
    → d.year ≡ e.year
    → d.mon ≡ e.mon
    → d.mday ≡ e.mday
    → d.hour ≡ e.hour
    → d.min ≡ e.min
    → d.sec ≡ e.sec
    → d.usec ≡ e.usec
    → d.gmtoff ≡ e.gmtoff
    → d ≡ e
TimeExp-eq d e y mo md h mi s u z = ground arith

-- The text after the year and its dash.
abbrev after_year : TimeExp → List ℕ
after_year e =
    two_digits (e.mon + 1)
    ++ (b'-'
        ∷ (two_digits e.mday
            ++ (b' '
                ∷ (two_digits e.hour
                    ++ (b':'
                        ∷ (two_digits e.min
                            ++ (b':'
                                ∷ (two_digits e.sec
                                    ++ (format_usec e.usec ++ format_zone e.gmtoff)))))))))

-- Where the fields are those of a calendar, up to the year 99999, and the offset is of whole minutes
-- and not negative, the reader finds every field again in the text: no two such times look the same.
pub read_iso8601-format_iso8601 : (e : TimeExp) → IsCivil e → read_iso8601 (format_iso8601 e) ≡ e
unfolding format_iso8601
read_iso8601-format_iso8601 e h =
    let (u, left) = read_usec-format_usec e.usec (h.minutes * 60) h.usec_below in
    let z = read_zone-format_zone (h.minutes * 60) h.minutes refl h.minutes_below in
    let s : List ℕ = b'-' ∷ after_year e in
    let y : (e.year + 1900) - 1900 ≡ e.year = omega arith in
    let mo : value (two_digits (e.mon + 1)) - 1 ≡ e.mon = omega (arith, h.mon_below) in
    let us : read_usec (format_usec e.usec ++ format_zone e.gmtoff) ≡ e.usec = rw h.offset u in
    let zone : read_zone (after_usec (format_usec e.usec ++ format_zone e.gmtoff)) ≡ e.gmtoff =
      rw h.offset (ap read_zone left ∙ z) in
    read_year (e.year + 1900) (after_year e) h.year_below
    ∙ TimeExp-eq (read_fields (e.year + 1900) s) e y mo
        (value-two_digits e.mday (omega (arith, h.mday_below)))
        (value-two_digits e.hour (omega (arith, h.hour_below)))
        (value-two_digits e.min (omega (arith, h.min_below)))
        (value-two_digits e.sec (omega (arith, h.sec_below))) us zone
