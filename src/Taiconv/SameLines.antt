-- ===== src/Taiconv/SameLines.antt =====
-- convert_read_nrm and convert_mmap_nrm of srvctl/src/taiconv.c print the same.
use ngim.Base.{
  ℕ, zero, suc, ◌≤◌, ◌<◌, ◌≡◌, inl, inr, refl, sym, ap, ◌∙◌, true, false, Option, some, List, [],
  ◌∷◌, ◌++◌, append-nil, append_assoc, ◌==◌, length, arith, le→leb, Bool-cases, Option-cases,
  ==_iff, lt→==_false, le-cases, length-append,
}
use ngim.Tai.{tain_format_size}
use ngim.Taiconv.{Clock, convert_buffer, is_hex_nibble}
use ngim.Taiconv.Convert.{full_unused, longer_some, longer_none}
use ngim.Taiconv.Total.{convert_read_nrm_total}
use ngim.Taiconv.Read.{
  is_empty, newline, convert_or_copy, flush_rest, end_of_stamp, read_nrm_step, read_nrm_loop,
  convert_read_nrm,
}
use ngim.Taiconv.Mmap.{
  convert_pending, stamp_length, next_line, line_stamp, mmap_nrm_loop, convert_mmap_nrm,
}

-- A newline is no hexadecimal digit.
hex_ne_newline : (c : ℕ) → is_hex_nibble c ≡ true → (c == newline) ≡ false
unfolding is_hex_nibble
hex_ne_newline c h = ground arith

module _ (clock : Clock) where
  -- Up to the next line both copy.
  next_line_agrees :
      (s out pending : List ℕ)
      → read_nrm_loop clock (out ++ pending) false [] s
        ≡ read_nrm_loop clock
            (out ++ (next_line clock pending s).0)
            true
            []
            (next_line clock pending s).1
  unfolding read_nrm_loop next_line read_nrm_step
  next_line_agrees [] out pending = refl
  next_line_agrees (c ∷ s) out pending = elim (Bool-cases (c == newline)) [
    | inl e ↦ rw (e, append_assoc out pending (c ∷ []))
    | inr e ↦
        rw (e, append_assoc out pending (c ∷ [])) (next_line_agrees s out (pending ++ (c ∷ [])))
  ]

  end_of_stamp_lem :
      (textual : List ℕ) (c : ℕ)
      → end_of_stamp clock textual c ≡ convert_or_copy clock textual ++ (c ∷ [])
  unfolding end_of_stamp convert_or_copy
  end_of_stamp_lem textual c = elim (Option-cases (convert_buffer clock textual)) [
    | inl e ↦ rw (e, end_of_stamp, convert_or_copy)
    | inr ((r, u), e) ↦ rw (e, end_of_stamp, convert_or_copy, append_assoc r u (c ∷ []))
  ]

  -- A 26th byte, which only convert_mmap_nrm takes into the sequence, makes no difference.
  end_of_stamp_full :
      (textual : List ℕ) (c : ℕ)
      → length textual ≡ tain_format_size
      → end_of_stamp clock textual c ≡ convert_or_copy clock (textual ++ (c ∷ []))
  unfolding end_of_stamp convert_or_copy
  end_of_stamp_full textual c h = elim (Option-cases (convert_buffer clock textual)) [
    | inl e ↦ rw (e, end_of_stamp, convert_or_copy, longer_none clock textual (c ∷ []) h e)
    | inr ((r, u), e) ↦ rw (
      e,
      end_of_stamp,
      convert_or_copy,
      longer_some clock textual (c ∷ []) r u h e,
      full_unused clock textual r u h e,
    )
  ]

  stamp_length_stop :
      (pending s : List ℕ)
      → tain_format_size < length pending
      → stamp_length clock pending s ≡ (pending, s)
  unfolding stamp_length
  stamp_length_stop pending [] h = refl
  stamp_length_stop pending (c ∷ s) h = ground (arith)

  stamp_agrees :
      (s out ds : List ℕ)
      → suc (length ds) ≤ tain_format_size
      → read_nrm_loop clock out false (b'@' ∷ ds) s
        ≡ read_nrm_loop clock
            (out ++ convert_or_copy clock (stamp_length clock (b'@' ∷ ds) s).0)
            false
            []
            (stamp_length clock (b'@' ∷ ds) s).1
  unfolding read_nrm_loop stamp_length read_nrm_step flush_rest
  stamp_agrees [] out ds h = rw (le→leb (suc (length ds)) tain_format_size h, append-nil)
  stamp_agrees (c ∷ s) out ds h = elim (Bool-cases (is_hex_nibble c)) [
    | inr other ↦ rw (
      le→leb (suc (length ds)) tain_format_size h,
      other,
      end_of_stamp_lem (b'@' ∷ ds) c,
      append_assoc out (convert_or_copy clock (b'@' ∷ ds)) (c ∷ []),
    )
    | inl hex ↦ elim (le-cases (suc (length ds)) tain_format_size h) [
      | inl more ↦
          rw
            (
              le→leb (suc (length ds)) tain_format_size h,
              hex,
              lt→==_false (suc (length ds)) tain_format_size more,
              append-nil,
            )
            (stamp_agrees s out (ds ++ (c ∷ [])) (omega (arith, length-append ds (c ∷ []))))
      | inr full ↦ rw (
        le→leb (suc (length ds)) tain_format_size h,
        hex,
        (==_iff (suc (length ds)) tain_format_size).1 full,
        hex_ne_newline c hex,
        end_of_stamp_full (b'@' ∷ ds) c full,
        stamp_length_stop (b'@' ∷ (ds ++ (c ∷ []))) s (omega (arith, length-append ds (c ∷ []))),
      )
    ]
  ]

  next_line_shorter : (pending s : List ℕ) → length (next_line clock pending s).1 ≤ length s
  unfolding next_line
  next_line_shorter pending [] = omega arith
  next_line_shorter pending (c ∷ s) = ground (arith, next_line_shorter (pending ++ (c ∷ [])) s)

  next_line_shorter_cons :
      (pending : List ℕ) (c : ℕ) (s : List ℕ)
      → length (next_line clock pending (c ∷ s)).1 ≤ length s
  unfolding next_line
  next_line_shorter_cons pending c s = ground (arith, next_line_shorter (pending ++ (c ∷ [])) s)

  stamp_length_shorter : (pending s : List ℕ) → length (stamp_length clock pending s).1 ≤ length s
  unfolding stamp_length
  stamp_length_shorter pending [] = omega arith
  stamp_length_shorter pending (c ∷ s) =
      ground (arith, stamp_length_shorter (pending ++ (c ∷ [])) s)

  convert_pending_lem :
      (out pending : List ℕ)
      → (convert_pending clock out pending).0 ++ (convert_pending clock out pending).1
        ≡ out ++ convert_or_copy clock pending
  unfolding convert_pending convert_or_copy
  convert_pending_lem out pending = elim (Option-cases (convert_buffer clock pending)) [
    | inl e ↦ rw (e, convert_pending, convert_or_copy)
    | inr ((r, u), e) ↦ rw (e, convert_pending, convert_or_copy, append_assoc out r u)
  ]

  -- At the start of a line that begins with `@`.
  line_at_sign :
      (s out pending : List ℕ)
      → read_nrm_loop clock (out ++ pending) true [] (b'@' ∷ s)
        ≡ read_nrm_loop clock (out ++ pending) false (b'@' ∷ []) s
  unfolding read_nrm_loop read_nrm_step
  line_at_sign s out pending = rw append-nil

  line_other :
      (c : ℕ) (s out : List ℕ)
      → (c == b'@') ≡ false
      → read_nrm_loop clock out true [] (c ∷ s) ≡ read_nrm_loop clock out false [] (c ∷ s)
  unfolding read_nrm_loop read_nrm_step
  line_other c s out h = rw h

  -- What a round leaves to the later ones.
  abbrev later_lines : ℕ → List ℕ × List ℕ × List ℕ → Option (List ℕ)
  later_lines fuel (out, pending, rest) =
      mmap_nrm_loop clock fuel out (next_line clock pending rest).0 (next_line clock pending rest).1

  mmap_nrm_loop_lem :
      (fuel : ℕ) (c : ℕ) (s out pending : List ℕ)
      → mmap_nrm_loop clock (suc fuel) out pending (c ∷ s)
        ≡ later_lines fuel (line_stamp clock out pending c s)
  unfolding mmap_nrm_loop
  mmap_nrm_loop_lem fuel c s out pending = refl

  lines_agree :
      (fuel : ℕ) (s out pending : List ℕ)
      → length s ≤ fuel
      → mmap_nrm_loop clock fuel out pending s ≡ read_nrm_loop clock (out ++ pending) true [] s
  unfolding mmap_nrm_loop line_stamp
  lines_agree zero [] out pending h = unfold read_nrm_loop flush_rest in rw append-nil
  lines_agree (suc fuel) [] out pending h = unfold read_nrm_loop flush_rest in rw append-nil
  lines_agree zero (c ∷ s) out pending h = absurd (omega arith)
  lines_agree (suc fuel) (c ∷ s) out pending h = elim (Bool-cases (c == b'@')) [
    | inr other ↦
        rw (mmap_nrm_loop_lem fuel c s out pending, line_stamp, other)
          (lines_agree fuel (next_line clock pending (c ∷ s)).1 out
              (next_line clock pending (c ∷ s)).0
              (omega (arith, next_line_shorter_cons pending c s))
            ∙ sym (next_line_agrees (c ∷ s) out pending)
            ∙ sym (line_other c s (out ++ pending) other))
    | inl at_sign ↦
        let (stamp, rest) = stamp_length clock (b'@' ∷ []) s in
        let (out', pending') = convert_pending clock (out ++ pending) stamp in
        rw (mmap_nrm_loop_lem fuel c s out pending, line_stamp, at_sign, (==_iff c b'@').0 at_sign)
          (lines_agree fuel (next_line clock pending' rest).1 out' (next_line clock pending' rest).0
              (omega (arith, next_line_shorter pending' rest, stamp_length_shorter (b'@' ∷ []) s))
            ∙ sym (next_line_agrees rest out' pending')
            ∙ ap (λ o. read_nrm_loop clock o false [] rest)
                (convert_pending_lem (out ++ pending) stamp)
            ∙ sym (stamp_agrees s (out ++ pending) [] (omega arith))
            ∙ sym (line_at_sign s out pending))
  ]

  mmap_nrm-eq-read_nrm :
      (s : List ℕ) → is_empty s ≡ false → convert_mmap_nrm clock s ≡ convert_read_nrm clock s
  unfolding convert_mmap_nrm convert_read_nrm
  mmap_nrm-eq-read_nrm s h = rw h (lines_agree (length s) s [] [] (omega arith))

  -- Without --all an input that is not empty is converted to the same bytes whether it is mapped or
  -- read, no assertion fails, and the rounds given to convert_mmap_nrm are enough.
  pub convert_mmap_nrm-convert_read_nrm :
      (s : List ℕ)
      → is_empty s ≡ false
      → (out : List ℕ) × (convert_read_nrm clock s ≡ some out)
        × (convert_mmap_nrm clock s ≡ some out)
  convert_mmap_nrm-convert_read_nrm s h =
      let (out, e) = convert_read_nrm_total clock s in (out, e, mmap_nrm-eq-read_nrm s h ∙ e)
