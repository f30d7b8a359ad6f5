-- ===== src/Tai/Text.antt =====
-- The external textual formats of tai.c: `@` and two hexadecimal digits for each byte.
-- A `char` is its byte, and `char` is signed, as on the usual platforms: a byte from 128 is negative.
use ngim.Base.{
  ℕ, suc, ◌+◌, ◌-◌, ◌*◌, ◌/◌, ◌%◌, Bool, false, Option, none, some, List, [], ◌∷◌, ◌&&◌, bit_or,
  get_or, ltb, leb, ◌==◌, if◌then◌else◌,
}
use ngim.Tai.{Tai, Tain, tai_pack_size, tain_pack_size}
use ngim.Tai.Bytes.{tai_pack, tai_unpack, tain_pack, tain_unpack}

abbrev pub hex_digits : List ℕ
hex_digits =
    b'0' ∷ b'1' ∷ b'2' ∷ b'3' ∷ b'4' ∷ b'5' ∷ b'6' ∷ b'7' ∷ b'8' ∷ b'9' ∷ b'a' ∷ b'b' ∷ b'c' ∷ b'd'
    ∷ b'e' ∷ b'f' ∷ []

-- The array `nibble_to_hex`.
unfoldable pub nibble_to_hex : ℕ → ℕ
nibble_to_hex n = get_or hex_digits n 0

unfoldable pub format_digits : List ℕ → List ℕ
format_digits [] = []
format_digits (b ∷ p) = nibble_to_hex (b / 16 % 16) ∷ nibble_to_hex (b % 16) ∷ format_digits p

-- format_textual: the loop writes each digit to its own place, here from the first on.
unfoldable pub format_textual : List ℕ → List ℕ
format_textual p = b'@' ∷ format_digits p

-- The macro, with its cast to unsigned char.
unfoldable pub hex_to_nibble : ℕ → ℕ
hex_to_nibble c = if leb b'a' c && ltb c 128 then (c - b'a' + 10) % 256 else (c + 256 - b'0') % 256

unfoldable pub unformat_byte : ℕ → ℕ → ℕ
unformat_byte h l = bit_or (hex_to_nibble h * 16) (hex_to_nibble l % 16) % 256

-- The loop over `plen` bytes. Callers pass the digits of that many bytes at least.
unfoldable pub unformat_digits : ℕ → List ℕ → List ℕ
unformat_digits (suc n) (h ∷ l ∷ s) = unformat_byte h l ∷ unformat_digits n s
unformat_digits _ _ = []

-- unformat_textual: `none` is the return value 0, where `p` is not written.
unfoldable pub unformat_textual : List ℕ → ℕ → Option (List ℕ)
unformat_textual [] n = none
unformat_textual (c ∷ s) n = if c == b'@' then some (unformat_digits n s) else none

-- ngim_tai_format
unfoldable pub tai_format : Tai → List ℕ
tai_format t = format_textual (tai_pack t)

-- ngim_tain_format
unfoldable pub tain_format : Tain → List ℕ
tain_format t = format_textual (tain_pack t)

unfoldable pub tai_unpack_or : Tai → Option (List ℕ) → Tai × Bool
tai_unpack_or t none = (t, false)
tai_unpack_or t (some p) = tai_unpack p

unfoldable pub tain_unpack_or : Tain → Option (List ℕ) → Tain × Bool
tain_unpack_or t none = (t, false)
tain_unpack_or t (some p) = tain_unpack p t

-- ngim_tai_unformat, from the old value of `*t`.
unfoldable pub tai_unformat : List ℕ → Tai → Tai × Bool
tai_unformat s t = tai_unpack_or t (unformat_textual s tai_pack_size)

-- ngim_tain_unformat, from the old value of `*t`.
unfoldable pub tain_unformat : List ℕ → Tain → Tain × Bool
tain_unformat s t = tain_unpack_or t (unformat_textual s tain_pack_size)
