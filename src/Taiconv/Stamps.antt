-- ===== src/Taiconv/Stamps.antt =====
-- What convert_read_all of srvctl/src/taiconv.c does to a label in the middle of a text.
use mathlib.Core.Option
use ngim.Base.{
  ℕ, zero, suc, ◌+◌, ◌/◌, ◌%◌, ◌≤◌, ◌<◌, ◌≡◌, inl, inr, refl, ◌∙◌, true, false, some, List, [], ◌∷◌,
  ◌++◌, append-nil, append_assoc, ◌==◌, leb, length, arith, le→leb, Bool-cases, Option-cases, All,
  ==_iff, lt→==_false, length-append, drop,
}
use ngim.Base.Tables.{passes_below, passes_below_at}
use ngim.Tai.{Tain, IsLabel, tain_format_size}
use ngim.Tai.Bytes.{tain_pack}
use ngim.Tai.Text.{nibble_to_hex, format_digits, format_textual, tain_format}
use ngim.Tai.RoundTrip.{tain_unformat-tain_format, length-tain_pack}
use ngim.Tai.Apr.{tain_to_apr}
use ngim.Taiconv.{Clock, convert_buffer, tain_result, is_hex_nibble, blank}
use ngim.Taiconv.SameAll.{hex_ne_at}
use ngim.Taiconv.Read.{
  flush_rest, convert_or_copy, too_long, after_too_long, flush_sequence, read_all_step,
  read_all_loop, convert_read_all,
}

nibble_to_hex-is_hex_nibble_table : passes_below 16 (λ n. is_hex_nibble (nibble_to_hex n)) ≡ true
unfolding passes_below is_hex_nibble nibble_to_hex
nibble_to_hex-is_hex_nibble_table = refl

is_hex_nibble-nibble_to_hex : (n : ℕ) → n < 16 → is_hex_nibble (nibble_to_hex n) ≡ true
is_hex_nibble-nibble_to_hex n h =
    passes_below_at 16 (λ k. is_hex_nibble (nibble_to_hex k)) n nibble_to_hex-is_hex_nibble_table h

abbrev IsHex : List ℕ → Type 0
IsHex s = All (λ c. is_hex_nibble c ≡ true) s

format_digits-IsHex : (p : List ℕ) → IsHex (format_digits p)
unfolding format_digits
format_digits-IsHex [] = tt
format_digits-IsHex (b ∷ p) = (
  is_hex_nibble-nibble_to_hex (b / 16 % 16) (omega arith),
  (is_hex_nibble-nibble_to_hex (b % 16) (omega arith), format_digits-IsHex p),
)

pub length-format_digits : (p : List ℕ) → length (format_digits p) ≡ length p + length p
unfolding format_digits
length-format_digits [] = refl
length-format_digits (b ∷ p) = omega (arith, length-format_digits p)

drop_all {ℓ} : {A : Type ℓ} (n : ℕ) (s : List A) → length s ≡ n → drop n s ≡ []
drop_all zero [] h = refl
drop_all zero (c ∷ s) h = absurd (omega arith)
drop_all (suc n) [] h = refl
drop_all (suc n) (c ∷ s) h = drop_all n s (omega arith)

-- A text with no `@` in it.
abbrev pub IsPlain : List ℕ → Type 0
IsPlain s = All (λ c. (c == b'@') ≡ false) s

module _ (clock : Clock) where
  open clock use {apr, format}

  -- The text printed before makes no difference to what follows.
  read_all_loop-append :
      (s o out textual : List ℕ)
      → read_all_loop clock (o ++ out) textual s
        ≡ Option.map (λ r. o ++ r) (read_all_loop clock out textual s)
  unfolding read_all_loop
  read_all_loop-append [] o out textual =
      elim (Bool-cases (leb (length textual) tain_format_size)) [
        | inl e ↦ rw (e, append_assoc o out (flush_rest clock textual))
        | inr e ↦ rw e
      ]
  read_all_loop-append (c ∷ s) o out textual =
      elim (Bool-cases (leb (length textual) tain_format_size)) [
        | inr e ↦ rw e
        | inl e ↦ elim (Option-cases (read_all_step clock textual c)) [
          | inl stop ↦ rw (e, stop)
          | inr ((printed, textual'), next) ↦
              rw (e, next, append_assoc o out printed)
                (read_all_loop-append s o (out ++ printed) textual')
        ]
      ]

  read_all_loop-IsPlain :
      (s rest out : List ℕ)
      → IsPlain s
      → read_all_loop clock out [] (s ++ rest) ≡ read_all_loop clock (out ++ s) [] rest
  unfolding read_all_loop read_all_step
  read_all_loop-IsPlain [] rest out h = rw append-nil
  read_all_loop-IsPlain (c ∷ s) rest out (hc, h) =
      rw hc (read_all_loop-IsPlain s rest (out ++ (c ∷ [])) h ∙ rw (append_assoc out (c ∷ []) s))

  read_all_loop-IsHex :
      (s rest out ds : List ℕ)
      → IsHex s
      → suc (length ds) + length s ≤ tain_format_size
      → read_all_loop clock out (b'@' ∷ ds) (s ++ rest)
        ≡ read_all_loop clock out (b'@' ∷ (ds ++ s)) rest
  unfolding read_all_loop read_all_step
  read_all_loop-IsHex [] rest out ds hex h = rw append-nil
  read_all_loop-IsHex (c ∷ s) rest out ds (hc, hex) h =
      rw
        (
          le→leb (suc (length ds)) tain_format_size (omega arith),
          hc,
          lt→==_false (suc (length ds)) tain_format_size (omega arith),
          append-nil,
        )
        (read_all_loop-IsHex s rest out (ds ++ (c ∷ [])) hex
            (omega (arith, length-append ds (c ∷ [])))
          ∙ rw (append_assoc ds (c ∷ []) s))

  length-tain_format : (t : Tain) → length (tain_format t) ≡ tain_format_size
  unfolding tain_format format_textual
  length-tain_format t = omega (arith, length-format_digits (tain_pack t), length-tain_pack t)

  convert_buffer-tain_format :
      (t : Tain)
      → IsLabel t
      → convert_buffer clock (tain_format t) ≡ some (format (tain_to_apr apr t), [])
  unfolding convert_buffer tain_result
  convert_buffer-tain_format t h = rw (
    length-tain_format t,
    rw append-nil at (tain_unformat-tain_format t blank [] h),
    drop_all tain_format_size (tain_format t) (length-tain_format t),
  )

  -- The round after a full buffer that was converted: the byte goes the way it would have gone.
  after_full :
      (s out ds r : List ℕ)
      → suc (length ds) ≡ tain_format_size
      → convert_buffer clock (b'@' ∷ ds) ≡ some (r, [])
      → read_all_loop clock out (b'@' ∷ ds) s ≡ read_all_loop clock (out ++ r) [] s
  unfolding read_all_loop read_all_step flush_rest convert_or_copy too_long after_too_long
      flush_sequence
  after_full [] out ds r full e = rw (
    le→leb (suc (length ds)) tain_format_size (omega arith),
    e,
    convert_or_copy,
    append-nil,
    append-nil,
  )
  after_full (c ∷ s) out ds r full e = elim (Bool-cases (is_hex_nibble c)) [
    | inl hex ↦ rw (
      le→leb (suc (length ds)) tain_format_size (omega arith),
      hex,
      (==_iff (suc (length ds)) tain_format_size).1 full,
      e,
      too_long,
      hex_ne_at c hex,
      append_assoc out r (c ∷ []),
    )
    | inr other ↦ elim (Bool-cases (c == b'@')) [
      | inl at_sign ↦ rw (
        le→leb (suc (length ds)) tain_format_size (omega arith),
        other,
        e,
        flush_sequence,
        at_sign,
        (==_iff c b'@').0 at_sign,
        append-nil,
        append-nil,
      )
      | inr copied ↦ rw (
        le→leb (suc (length ds)) tain_format_size (omega arith),
        other,
        e,
        flush_sequence,
        copied,
        append_assoc out r (c ∷ []),
      )
    ]
  ]

  enter_label :
      (t : Tain) (out after : List ℕ)
      → read_all_loop clock out [] (tain_format t ++ after)
        ≡ read_all_loop clock out (b'@' ∷ []) (format_digits (tain_pack t) ++ after)
  unfolding read_all_loop read_all_step tain_format format_textual
  enter_label t out after = rw append-nil

  read_label :
      (t : Tain) (out after : List ℕ)
      → IsLabel t
      → read_all_loop clock out (b'@' ∷ []) (format_digits (tain_pack t) ++ after)
        ≡ read_all_loop clock (out ++ format (tain_to_apr apr t)) [] after
  unfolding tain_format format_textual
  read_label t out after h =
      read_all_loop-IsHex (format_digits (tain_pack t)) after out []
        (format_digits-IsHex (tain_pack t))
        (omega (arith, length-format_digits (tain_pack t), length-tain_pack t))
      ∙ after_full after out (format_digits (tain_pack t)) (format (tain_to_apr apr t))
          (length-tain_format t) (convert_buffer-tain_format t h)

  -- With --all a valid TAI64N label is replaced by its time, the text without `@` before it is
  -- copied, and what follows the label, whatever it is, is converted as it would be on its own.
  pub convert_read_all-tain_format :
      (t : Tain) (before after : List ℕ)
      → IsLabel t
      → IsPlain before
      → convert_read_all clock (before ++ (tain_format t ++ after))
        ≡ Option.map
            (λ out. before ++ (format (tain_to_apr apr t) ++ out))
            (convert_read_all clock after)
  unfolding convert_read_all
  convert_read_all-tain_format t before after h plain =
      let time = format (tain_to_apr apr t) in
      read_all_loop-IsPlain before (tain_format t ++ after) [] plain
      ∙ enter_label t before after
      ∙ read_label t before after h
      ∙ (rw append-nil at (read_all_loop-append after (before ++ time) [] []))
      ∙ simp append_assoc
