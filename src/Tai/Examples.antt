-- ===== src/Tai/Examples.antt =====
-- Labels of libbase/lib/tai.c at concrete values: the stamp of the repository's taiconv tests.
use ngim.Base.{ℕ, ◌+◌, ◌*◌, ◌/◌, ◌%◌, ◌≡◌, refl, true, [], ◌∷◌, ◌++◌, arith}
use ngim.Tai.{Tain, tain_less}
use ngim.Tai.Bytes.{tain_pack, tai_pack, pack_bytes}
use ngim.Tai.Text.{tain_format, tain_unformat, format_textual, format_digits, nibble_to_hex}
use ngim.Tai.RoundTrip.{tain_unformat-tain_format}
use ngim.Tai.Order.{lex_less, lex_less-tain_format}
use ngim.Tai.Apr.{AprTime, tain_to_apr, tain_from_apr, microseconds}
use ngim.Tai.Apr.Rounding.{tain_to_apr-tain_from_apr}

-- @4000000042ac17352a3248c4
abbrev stamp : Tain
stamp = record { sec = record { x = 0x4000000042ac1735 }; nano = 0x2a3248c4 }

abbrev later_stamp : Tain
later_stamp = record { sec = record { x = 0x4000000042ac1736 }; nano = 5 }

abbrev zero_label : Tain
zero_label = record { sec = record { x = 0 }; nano = 0 }

stamp_text :
    tain_format stamp
    ≡ b'@' ∷ b'4' ∷ b'0' ∷ b'0' ∷ b'0' ∷ b'0' ∷ b'0' ∷ b'0' ∷ b'0' ∷ b'4' ∷ b'2' ∷ b'a' ∷ b'c'
      ∷ b'1' ∷ b'7' ∷ b'3' ∷ b'5' ∷ b'2' ∷ b'a' ∷ b'3' ∷ b'2' ∷ b'4' ∷ b'8' ∷ b'c' ∷ b'4' ∷ []
unfolding tain_format tain_pack tai_pack pack_bytes format_textual format_digits nibble_to_hex
stamp_text = refl

tain_unformat-tain_format_example :
    tain_unformat (tain_format stamp ++ b'!' ∷ []) zero_label ≡ (stamp, true)
tain_unformat-tain_format_example =
    tain_unformat-tain_format stamp zero_label (b'!' ∷ []) (omega arith)

lex_less-tain_format_example :
    lex_less (tain_format stamp) (tain_format later_stamp) ≡ tain_less stamp later_stamp
lex_less-tain_format_example = lex_less-tain_format stamp later_stamp (omega arith) (omega arith)

-- Times from the epoch on, as a count of microseconds.
abbrev counted : AprTime
counted = record {
  Time = ℕ;
  time_sec = λ a. a / 1000000;
  time_usec = λ a. a % 1000000;
  time_from_sec = λ s. s * 1000000;
  time_make = λ s u. s * 1000000 + u;
  time_sec-time_make = λ s u hs hu. omega arith;
  time_usec-time_make = λ s u hs hu. omega arith;
  time_from_sec-time_make = λ s hs. omega arith;
}

tain_to_apr-tain_from_apr_example :
    microseconds counted (tain_to_apr counted (tain_from_apr counted 1999999))
    ≡ microseconds counted 1999999 + 1
tain_to_apr-tain_from_apr_example =
    tain_to_apr-tain_from_apr counted 1999999 (omega arith) (omega arith)
