-- ===== src/Tai/RoundTrip.antt =====
-- The external formats of tai.c lose nothing: what the pack and format functions write, the unpack
-- and unformat functions read back.
use native.Mathlib.Nat.{pow-suc, mod-eq_of_lt}
use ngim.Base.{
  ℕ, zero, suc, ◌+◌, ◌*◌, ◌/◌, ◌%◌, ◌^◌, ◌<◌, ◌≡◌, refl, ◌∙◌, ap, Bool, true, some, List, [], ◌∷◌,
  ◌++◌, append-nil, append_assoc, length, take, drop, leb, ◌==◌, length-append, arith, ==_iff,
  le→leb, All, All-append,
}
use ngim.Base.Tables.{passes_below, passes_below_at, bit_or-nibbles}
use ngim.Tai.{Tai, Tain, IsLabel, tai_max_sec, tai_max_na}
use ngim.Tai.Bytes.{
  pack_bytes, unpack_bytes, tai_pack, tai_unpack, tain_pack, tain_unpack, unpack_nano,
}
use ngim.Tai.Text.{
  nibble_to_hex, format_digits, format_textual, hex_to_nibble, unformat_byte, unformat_digits,
  unformat_textual, tai_format, tain_format, tai_unformat, tain_unformat, tai_unpack_or,
  tain_unpack_or,
}

unpack_bytes-append :
    (w x : ℕ) (xs ys : List ℕ)
    → unpack_bytes w x (xs ++ ys) ≡ unpack_bytes w (unpack_bytes w x xs) ys
unfolding unpack_bytes
unpack_bytes-append w x [] ys = refl
unpack_bytes-append w x (b ∷ xs) ys = unpack_bytes-append w ((x * 256 % w + b) % w) xs ys

-- One load of the unpack functions, where the word does not overflow.
load_byte : (w y b : ℕ) → y * 256 + b < w → (y * 256 % w + b) % w ≡ y * 256 + b
load_byte w y b h =
    let fits : y * 256 % w ≡ y * 256 = mod-eq_of_lt (omega arith) in rw (fits, mod-eq_of_lt h)

pow_step : (a n : ℕ) → a * 256 ^ suc n ≡ a * 256 ^ n * 256
pow_step a n = rw (pow-suc 256 n) (omega arith)

unpack_bytes-pack_bytes_from :
    (n w a x : ℕ)
    → x < 256 ^ n
    → a * 256 ^ n + x < w
    → unpack_bytes w a (pack_bytes n x) ≡ a * 256 ^ n + x
unfolding unpack_bytes pack_bytes
unpack_bytes-pack_bytes_from zero w a x h l = omega arith
unpack_bytes-pack_bytes_from (suc n) w a x h l =
    let e = pow_step a n in
    unpack_bytes-append w a (pack_bytes n (x / 256)) (x % 256 ∷ [])
    ∙ rw
        (unpack_bytes-pack_bytes_from n w a (x / 256) (omega (arith, pow-suc 256 n))
          (omega (arith, e)))
        (load_byte w (a * 256 ^ n + x / 256) (x % 256) (omega (arith, e)) ∙ omega (arith, e))

pub unpack_bytes-pack_bytes :
    (n w x : ℕ) → x < 256 ^ n → x < w → unpack_bytes w 0 (pack_bytes n x) ≡ x
unpack_bytes-pack_bytes n w x h l =
    unpack_bytes-pack_bytes_from n w 0 x h (omega arith) ∙ omega arith

pub length-pack_bytes : (n x : ℕ) → length (pack_bytes n x) ≡ n
unfolding pack_bytes
length-pack_bytes zero x = refl
length-pack_bytes (suc n) x =
    length-append (pack_bytes n (x / 256)) (x % 256 ∷ [])
    ∙ omega (arith, length-pack_bytes n (x / 256))

take_exact {ℓ} : {A : Type ℓ} (xs ys : List A) → take (length xs) (xs ++ ys) ≡ xs
take_exact [] ys = refl
take_exact (x ∷ xs) ys = ap (λ l. x ∷ l) (take_exact xs ys)

drop_exact {ℓ} : {A : Type ℓ} (xs ys : List A) → drop (length xs) (xs ++ ys) ≡ ys
drop_exact [] ys = refl
drop_exact (x ∷ xs) ys = drop_exact xs ys

take-pack_bytes : (n x : ℕ) (s : List ℕ) → take n (pack_bytes n x ++ s) ≡ pack_bytes n x
take-pack_bytes n x s = rw (length-pack_bytes n x) at (take_exact (pack_bytes n x) s)

drop-pack_bytes : (n x : ℕ) (s : List ℕ) → drop n (pack_bytes n x ++ s) ≡ s
drop-pack_bytes n x s = rw (length-pack_bytes n x) at (drop_exact (pack_bytes n x) s)

-- Unpacking what tai_pack wrote, with any bytes after it, gives the label back; the flag says
-- exactly whether the label is valid.
pub tai_unpack-tai_pack :
    (t : Tai) (s : List ℕ) → t.x < 2 ^ 64 → tai_unpack (tai_pack t ++ s) ≡ (t, leb t.x tai_max_sec)
unfolding tai_unpack tai_pack
tai_unpack-tai_pack t s h = rw (take-pack_bytes 8 t.x s, unpack_bytes-pack_bytes 8 (2 ^ 64) t.x h h)

-- Unpacking what tain_pack wrote, with any bytes after it, gives a valid label back.
pub tain_unpack-tain_pack :
    (t old : Tain) (s : List ℕ) → IsLabel t → tain_unpack (tain_pack t ++ s) old ≡ (t, true)
unfolding tain_unpack tain_pack unpack_nano tai_pack
tain_unpack-tain_pack t old s (sec_valid, nano_valid) =
    rw (append_assoc (pack_bytes 8 t.sec.x) (pack_bytes 4 t.nano) s) (
      rw (
        tai_unpack-tai_pack t.sec (pack_bytes 4 t.nano ++ s) (omega arith),
        drop-pack_bytes 8 t.sec.x (pack_bytes 4 t.nano ++ s),
        le→leb t.sec.x tai_max_sec sec_valid,
        take-pack_bytes 4 t.nano s,
        unpack_bytes-pack_bytes 4 (2 ^ 32) t.nano (omega arith) (omega arith),
        le→leb t.nano tai_max_na nano_valid,
      ))

nibble_inverse : ℕ → Bool
nibble_inverse n = hex_to_nibble (nibble_to_hex n) == n

nibble_inverse_table : passes_below 16 nibble_inverse ≡ true
unfolding passes_below nibble_inverse hex_to_nibble nibble_to_hex
nibble_inverse_table = refl

hex_to_nibble-nibble_to_hex : (n : ℕ) → n < 16 → hex_to_nibble (nibble_to_hex n) ≡ n
unfolding nibble_inverse
hex_to_nibble-nibble_to_hex n h =
    (==_iff _ n).0 (passes_below_at 16 nibble_inverse n nibble_inverse_table h)

-- The two digits of a byte stand for it.
unformat_byte-nibbles :
    (b : ℕ) → b < 256 → unformat_byte (nibble_to_hex (b / 16 % 16)) (nibble_to_hex (b % 16)) ≡ b
unfolding unformat_byte
unformat_byte-nibbles b h =
    rw
      (
        hex_to_nibble-nibble_to_hex (b / 16 % 16) (omega arith),
        hex_to_nibble-nibble_to_hex (b % 16) (omega arith),
        bit_or-nibbles (b / 16 % 16) (b % 16 % 16) (omega arith) (omega arith),
      )
      (omega arith)

unformat_digits-format_digits :
    (p s : List ℕ) → All (λ b. b < 256) p → unformat_digits (length p) (format_digits p ++ s) ≡ p
unfolding unformat_digits format_digits
unformat_digits-format_digits [] s h = refl
unformat_digits-format_digits (b ∷ p) s (hb, h) =
    rw (unformat_byte-nibbles b hb, unformat_digits-format_digits p s h)

pub All-pack_bytes : (n x : ℕ) → All (λ b. b < 256) (pack_bytes n x)
unfolding pack_bytes
All-pack_bytes zero x = tt
All-pack_bytes (suc n) x =
    All-append (λ b. b < 256) (pack_bytes n (x / 256)) (x % 256 ∷ []) (All-pack_bytes n (x / 256))
      (omega arith)

-- unformat_textual reads back the bytes that format_textual wrote, whatever stands behind them.
pub unformat_textual-format_textual :
    (p s : List ℕ)
    → All (λ b. b < 256) p
    → unformat_textual (format_textual p ++ s) (length p) ≡ some p
unfolding unformat_textual format_textual
unformat_textual-format_textual p s h = rw (unformat_digits-format_digits p s h)

pub length-tain_pack : (t : Tain) → length (tain_pack t) ≡ 12
unfolding tain_pack tai_pack
length-tain_pack t = rw (
  length-append (pack_bytes 8 t.sec.x) (pack_bytes 4 t.nano),
  length-pack_bytes 8 t.sec.x,
  length-pack_bytes 4 t.nano,
)

pub All-tain_pack : (t : Tain) → All (λ b. b < 256) (tain_pack t)
unfolding tain_pack tai_pack
All-tain_pack t =
    All-append (λ b. b < 256) (pack_bytes 8 t.sec.x) (pack_bytes 4 t.nano)
      (All-pack_bytes 8 t.sec.x) (All-pack_bytes 4 t.nano)

-- ngim_tain_unformat reads a valid label back from the text that ngim_tain_format wrote, whatever
-- text follows and whatever `*t` held before.
pub tain_unformat-tain_format :
    (t old : Tain) (s : List ℕ) → IsLabel t → tain_unformat (tain_format t ++ s) old ≡ (t, true)
unfolding tain_unformat tain_format tain_unpack_or
tain_unformat-tain_format t old s h =
    rw
      (rw (length-tain_pack t) at
        (unformat_textual-format_textual (tain_pack t) s (All-tain_pack t)))
      (rw append-nil at (tain_unpack-tain_pack t old [] h))

-- ngim_tai_unformat reads a label back from the text that ngim_tai_format wrote, whatever text
-- follows and whatever `*t` held before, and says exactly whether it is valid.
pub tai_unformat-tai_format :
    (t old : Tai) (s : List ℕ)
    → t.x < 2 ^ 64
    → tai_unformat (tai_format t ++ s) old ≡ (t, leb t.x tai_max_sec)
unfolding tai_unformat tai_format tai_unpack_or tai_pack
tai_unformat-tai_format t old s h =
    rw
      (rw (length-pack_bytes 8 t.x) at
        (unformat_textual-format_textual (pack_bytes 8 t.x) s (All-pack_bytes 8 t.x)))
      (rw append-nil at (tai_unpack-tai_pack t [] h))
