-- ===== src/Tai/Order.antt =====
-- Labels in their external formats compare byte by byte as their times do. flush_archive of
-- srvctl/src/tainlog.c relies on this when it picks the oldest file by name.
use native.Mathlib.Nat.{pow-suc}
use ngim.Base.{
  ℕ, zero, suc, ◌/◌, ◌%◌, ◌^◌, ◌<◌, ◌≡◌, refl, ◌∙◌, Bool, true, false, List, [], ◌∷◌, ◌++◌,
  append-nil, append_assoc, ltb, if◌then◌else◌, arith, All,
}
use ngim.Base.Tables.{passes_below, passes_below_at}
use ngim.Tai.{Tain, IsWord, tain_less}
use ngim.Tai.Bytes.{pack_bytes, tai_pack, tain_pack}
use ngim.Tai.Text.{nibble_to_hex, format_digits, format_textual, tain_format}
use ngim.Tai.RoundTrip.{All-tain_pack}

-- `x < y`, then `y < x`, then what is left to compare.
abbrev pub by_first : ℕ → ℕ → Bool → Bool
by_first x y rest = if ltb x y then true else if ltb y x then false else rest

-- The order of byte strings that strcmp tells by a negative result.
unfoldable pub lex_less : List ℕ → List ℕ → Bool
lex_less [] [] = false
lex_less [] (y ∷ ys) = true
lex_less (x ∷ xs) [] = false
lex_less (x ∷ xs) (y ∷ ys) = by_first x y (lex_less xs ys)

by_first-div :
    (x y : ℕ) (r : Bool)
    → by_first (x / 256) (y / 256) (by_first (x % 256) (y % 256) r) ≡ by_first x y r
by_first-div x y r = ground arith

lex_less-pack_bytes :
    (n x y : ℕ) (xs ys : List ℕ)
    → x < 256 ^ n
    → y < 256 ^ n
    → lex_less (pack_bytes n x ++ xs) (pack_bytes n y ++ ys) ≡ by_first x y (lex_less xs ys)
unfolding lex_less pack_bytes
lex_less-pack_bytes zero x y xs ys hx hy = ground arith
lex_less-pack_bytes (suc n) x y xs ys hx hy =
    rw
      (
        append_assoc (pack_bytes n (x / 256)) (x % 256 ∷ []) xs,
        append_assoc (pack_bytes n (y / 256)) (y % 256 ∷ []) ys,
      )
      (lex_less-pack_bytes n (x / 256) (y / 256) (x % 256 ∷ xs) (y % 256 ∷ ys)
          (omega (arith, pow-suc 256 n)) (omega (arith, pow-suc 256 n))
        ∙ by_first-div x y (lex_less xs ys))

lex_less-pack_bytes_only :
    (n x y : ℕ) → x < 256 ^ n → y < 256 ^ n → lex_less (pack_bytes n x) (pack_bytes n y) ≡ ltb x y
unfolding lex_less
lex_less-pack_bytes_only n x y hx hy =
    (rw (append-nil, append-nil) at (lex_less-pack_bytes n x y [] [] hx hy)) ∙ ground arith

-- The packed form of a label sorts as the label does.
pub lex_less-tain_pack :
    (t u : Tain) → IsWord t → IsWord u → lex_less (tain_pack t) (tain_pack u) ≡ tain_less t u
unfolding tain_pack tai_pack tain_less
lex_less-tain_pack t u ht hu = rw (
  lex_less-pack_bytes 8 t.sec.x u.sec.x (pack_bytes 4 t.nano) (pack_bytes 4 u.nano) (omega arith)
      (omega arith),
  lex_less-pack_bytes_only 4 t.nano u.nano (omega arith) (omega arith),
)

nibble_order : ℕ → ℕ → Bool
nibble_order a b = if ltb a b then ltb (nibble_to_hex a) (nibble_to_hex b) else true

nibble_order_table : passes_below 16 (λ a. passes_below 16 (nibble_order a)) ≡ true
unfolding passes_below nibble_order nibble_to_hex
nibble_order_table = refl

nibble_to_hex_mono : (a b : ℕ) → b < 16 → a < b → nibble_to_hex a < nibble_to_hex b
unfolding nibble_order
nibble_to_hex_mono a b hb h =
    let row =
      passes_below_at 16 (λ k. passes_below 16 (nibble_order k)) a nibble_order_table
        (omega arith) in
    let entry = passes_below_at 16 (nibble_order a) b row hb in ground (arith, entry)

by_first-nibble_to_hex :
    (a b : ℕ) (r : Bool)
    → a < 16
    → b < 16
    → by_first (nibble_to_hex a) (nibble_to_hex b) r ≡ by_first a b r
by_first-nibble_to_hex a b r ha hb = ground (arith, nibble_to_hex_mono a b, nibble_to_hex_mono b a)

by_first-nibbles :
    (a b : ℕ) (r : Bool)
    → a < 256
    → b < 256
    → by_first (a / 16 % 16) (b / 16 % 16) (by_first (a % 16) (b % 16) r) ≡ by_first a b r
by_first-nibbles a b r ha hb = ground arith

lex_less-format_digits :
    (p q : List ℕ)
    → All (λ b. b < 256) p
    → All (λ b. b < 256) q
    → lex_less (format_digits p) (format_digits q) ≡ lex_less p q
unfolding lex_less format_digits
lex_less-format_digits [] [] hp hq = refl
lex_less-format_digits [] (b ∷ q) hp hq = refl
lex_less-format_digits (a ∷ p) [] hp hq = refl
lex_less-format_digits (a ∷ p) (b ∷ q) (ha, hp) (hb, hq) =
    rw
      (
        lex_less-format_digits p q hp hq,
        by_first-nibble_to_hex (a % 16) (b % 16) (lex_less p q) (omega arith) (omega arith),
        by_first-nibble_to_hex (a / 16 % 16) (b / 16 % 16)
            (by_first (a % 16) (b % 16) (lex_less p q)) (omega arith) (omega arith),
      )
      (by_first-nibbles a b (lex_less p q) ha hb)

-- The text of a label, as ngim_tain_format writes it, comes before the text of another in the
-- order of strcmp exactly when ngim_tain_less says that the label is smaller.
pub lex_less-tain_format :
    (t u : Tain) → IsWord t → IsWord u → lex_less (tain_format t) (tain_format u) ≡ tain_less t u
unfolding tain_format format_textual lex_less
lex_less-tain_format t u ht hu =
    lex_less-format_digits (tain_pack t) (tain_pack u) (All-tain_pack t) (All-tain_pack u)
    ∙ lex_less-tain_pack t u ht hu
