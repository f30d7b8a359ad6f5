-- ===== src/Taiconv/Total.antt =====
-- The buffer of convert_read_all and convert_read_nrm of srvctl/src/taiconv.c never overflows, and
-- their assertions hold, whatever the input is.
use ngim.Base.{
  ℕ, suc, ◌≤◌, ◌≡◌, inl, inr, refl, Bool, true, false, Option, some, List, [], ◌∷◌, ◌++◌, ◌==◌,
  length, arith, le→leb, Bool-cases, Option-cases, ==_iff, length-append, length-take,
}
use ngim.Tai.{tain_format_size}
use ngim.Taiconv.{Clock, convert_buffer, is_hex_nibble}
use ngim.Taiconv.Convert.{full_unused}
use ngim.Taiconv.Read.{
  too_long, after_too_long, flush_sequence, read_all_step, read_all_loop, read_nrm_step,
  read_nrm_loop, convert_read_all, convert_read_nrm,
}

module _ (clock : Clock) where
  -- A round returns, and leaves a buffer that still has room for a byte.
  abbrev Continues : Option (List ℕ × List ℕ) → Type 0
  Continues r = (p : List ℕ × List ℕ) × (r ≡ some p) × (length p.1 ≤ tain_format_size)

  flush_sequence_small : (textual : List ℕ) (c : ℕ) → length (flush_sequence clock textual c).1 ≤ 1
  unfolding flush_sequence
  flush_sequence_small textual c = ground (arith, length-take 1 textual)

  too_long-Continues :
      (textual : List ℕ) (c : ℕ)
      → length textual ≡ tain_format_size
      → Continues (after_too_long clock (too_long clock textual c))
  unfolding after_too_long too_long
  too_long-Continues textual c h = elim (Option-cases (convert_buffer clock textual)) [
    | inl e ↦ rw (e, too_long) (_, refl, omega arith)
    | inr ((r, u), e) ↦ rw (e, too_long, full_unused clock textual r u h e) (_, refl, omega arith)
  ]

  read_all_step-Continues :
      (textual : List ℕ) (c : ℕ)
      → length textual ≤ tain_format_size
      → Continues (read_all_step clock textual c)
  unfolding read_all_step
  read_all_step-Continues [] c h = elim (Bool-cases (c == b'@')) [
    | inl e ↦ rw e (_, refl, omega arith)
    | inr e ↦ rw e (_, refl, omega arith)
  ]
  read_all_step-Continues (a ∷ l) c h = elim (Bool-cases (is_hex_nibble c)) [
    | inl hex ↦ elim (Bool-cases (suc (length l) == tain_format_size)) [
      | inl full ↦
          rw (hex, full)
            (too_long-Continues (a ∷ l) c ((==_iff (suc (length l)) tain_format_size).0 full))
      | inr more ↦ rw (hex, more) (_, refl, ground (arith, length-append l (c ∷ [])))
    ]
    | inr other ↦ rw other (_, refl, omega (arith, flush_sequence_small (a ∷ l) c))
  ]

  read_all_loop_total :
      (s out textual : List ℕ)
      → length textual ≤ tain_format_size
      → (printed : List ℕ) × (read_all_loop clock out textual s ≡ some printed)
  unfolding read_all_loop
  read_all_loop_total [] out textual h = rw (le→leb (length textual) tain_format_size h) (_, refl)
  read_all_loop_total (c ∷ s) out textual h =
      let ((printed, textual'), e, h') = read_all_step-Continues textual c h in
      rw (le→leb (length textual) tain_format_size h, e)
        (read_all_loop_total s (out ++ printed) textual' h')

  -- convert_read_all returns on every input: no assertion on the buffer fails.
  pub convert_read_all_total : (s : List ℕ) → (out : List ℕ) × (convert_read_all clock s ≡ some out)
  unfolding convert_read_all
  convert_read_all_total s = read_all_loop_total s [] [] (omega arith)

  -- Between two rounds of convert_read_nrm: `start` is set only at an empty buffer.
  abbrev Fits : Bool → List ℕ → Type 0
  Fits true textual = length textual ≡ 0
  Fits false textual = length textual ≤ tain_format_size

  Fits-le :
      (start : Bool) (textual : List ℕ) → Fits start textual → length textual ≤ tain_format_size
  Fits-le true textual h = omega arith
  Fits-le false textual h = h

  read_nrm_step-Fits :
      (start : Bool) (textual : List ℕ) (c : ℕ)
      → Fits start textual
      → Fits (read_nrm_step clock start textual c).1 (read_nrm_step clock start textual c).2
  unfolding read_nrm_step
  read_nrm_step-Fits true [] c h = ground arith
  read_nrm_step-Fits true (a ∷ l) c h = absurd (omega arith)
  read_nrm_step-Fits false [] c h = ground arith
  read_nrm_step-Fits false (a ∷ l) c h = ground (arith, length-append l (c ∷ []))

  read_nrm_loop_total :
      (s out : List ℕ) (start : Bool) (textual : List ℕ)
      → Fits start textual
      → (printed : List ℕ) × (read_nrm_loop clock out start textual s ≡ some printed)
  unfolding read_nrm_loop
  read_nrm_loop_total [] out start textual h =
      rw (le→leb (length textual) tain_format_size (Fits-le start textual h)) (_, refl)
  read_nrm_loop_total (c ∷ s) out start textual h =
      rw (le→leb (length textual) tain_format_size (Fits-le start textual h)) (
        read_nrm_loop_total s (out ++ (read_nrm_step clock start textual c).0)
          (read_nrm_step clock start textual c).1 (read_nrm_step clock start textual c).2
          (read_nrm_step-Fits start textual c h))

  -- convert_read_nrm returns on every input: no assertion on the buffer fails.
  pub convert_read_nrm_total : (s : List ℕ) → (out : List ℕ) × (convert_read_nrm clock s ≡ some out)
  unfolding convert_read_nrm
  convert_read_nrm_total s = read_nrm_loop_total s [] true [] (omega arith)
