-- ===== src/Taiconv.antt =====
-- srvctl/src/taiconv.c: the label in a buffer. The two ways to walk the input are in Read and Mmap.
pub mod Read
pub mod Mmap
pub mod Main
pub mod Converted
mod Convert
pub mod Total
pub mod SameAll
pub mod SameLines
pub mod Stamps
mod Examples
use ngim.Base.{
  ℕ, Bool, true, false, Option, none, some, List, [], ◌∷◌, ◌&&◌, ◌||◌, leb, length, drop,
  if◌then◌else◌,
}
use ngim.Tai.{Tai, Tain, tai_format_size, tain_format_size}
use ngim.Tai.Text.{tai_unformat, tain_unformat}
use ngim.Tai.Apr.{AprTime, tai_to_apr, tain_to_apr}

-- The macro is_hex_nibble.
unfoldable pub is_hex_nibble : ℕ → Bool
is_hex_nibble c = (leb b'0' c && leb c b'9') || (leb b'a' c && leb c b'f')

-- The locals t_tain and t_tai before they are written. Their value is never read.
abbrev pub blank : Tain
blank = record { sec = record { x = 0 }; nano = 0 }

-- What the program relies on: APR's times, and `arg_func_format`, the conversion of a time to a
-- string that validate_cmdline chose.
pub record Clock : Type 1 where
  pub apr : AprTime
  pub format : AprTime.Time apr → List ℕ

module _ (clock : Clock) where
  open clock use {apr, format}

  -- What the tests of the two unformat functions come to: the result with the unused bytes.
  unfoldable pub tain_result : List ℕ → Tain × Bool → Option (List ℕ × List ℕ)
  tain_result textual (t, true) = some (format (tain_to_apr apr t), drop tain_format_size textual)
  tain_result textual (t, false) = none

  unfoldable pub tai_result : List ℕ → Tai × Bool → Option (List ℕ × List ℕ)
  tai_result textual (t, true) = some (format (tai_to_apr apr t), drop tai_format_size textual)
  tai_result textual (t, false) = none

  -- convert_buffer, of the `len` bytes in `textual`: `result` and the unused bytes, or `none` for
  -- the return value 0.
  unfoldable pub convert_buffer : List ℕ → Option (List ℕ × List ℕ)
  convert_buffer textual =
      if leb tain_format_size (length textual)
      then tain_result textual (tain_unformat textual blank)
      else if leb tai_format_size (length textual)
      then tai_result textual (tai_unformat textual blank.sec)
      else none
