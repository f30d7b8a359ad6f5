-- ===== src/Taiconv/SameAll.antt =====
-- convert_read_all and convert_mmap_all of srvctl/src/taiconv.c print the same.
use ngim.Base.{
  ℕ, suc, ◌≤◌, ◌≡◌, ◌⊎◌, inl, inr, refl, ◌∙◌, Bool, true, false, Option, some, List, [], ◌∷◌, ◌++◌,
  append-nil, append_assoc, ◌==◌, length, arith, le→leb, Bool-cases, Option-cases, ==_iff,
  if◌then◌else◌, lt→==_false, le-cases, length-append, ◌<◌,
}
use ngim.Tai.{tain_format_size}
use ngim.Taiconv.{Clock, convert_buffer, is_hex_nibble}
use ngim.Taiconv.Convert.{full_unused}
use ngim.Taiconv.Total.{convert_read_all_total}
use ngim.Taiconv.Read.{
  is_empty, convert_or_copy, flush_rest, too_long, after_too_long, flush_sequence, read_all_step,
  read_all_loop, convert_read_all,
}
use ngim.Taiconv.Mmap.{
  convert_pending, outside_step, mmap_all_step, flush_remains, mmap_all_loop, convert_mmap_all,
}

-- `@` is no hexadecimal digit.
pub hex_ne_at : (c : ℕ) → is_hex_nibble c ≡ true → (c == b'@') ≡ false
unfolding is_hex_nibble
hex_ne_at c h = ground arith

module _ (clock : Clock) where
  -- What is to be shown of the rest of the input: inside of a stamp the buffer of the one is what
  -- is pending for the other; outside the pending bytes are printed already.
  abbrev Agrees : List ℕ → Type 0
  Agrees s =
      ((out ds : List ℕ)
        → suc (length ds) ≤ tain_format_size
        → mmap_all_loop clock out (b'@' ∷ ds) true s ≡ read_all_loop clock out (b'@' ∷ ds) s)
      × ((out pending : List ℕ)
          → (is_empty pending ≡ false) ⊎ (is_empty s ≡ false)
          → mmap_all_loop clock out pending false s ≡ read_all_loop clock (out ++ pending) [] s)

  inside_end :
      (out ds : List ℕ)
      → suc (length ds) ≤ tain_format_size
      → mmap_all_loop clock out (b'@' ∷ ds) true [] ≡ read_all_loop clock out (b'@' ∷ ds) []
  unfolding mmap_all_loop read_all_loop flush_remains flush_rest convert_or_copy
  inside_end out ds h =
      rw (le→leb (suc (length ds)) tain_format_size h)
        (elim (Option-cases (convert_buffer clock (b'@' ∷ ds))) [
          | inl e ↦ rw (e, flush_remains, flush_rest, convert_or_copy)
          | inr (p, e) ↦ rw (e, flush_remains, flush_rest, convert_or_copy)
        ])

  outside_end :
      (out pending : List ℕ)
      → (is_empty pending ≡ false) ⊎ (is_empty [] ≡ false)
      → mmap_all_loop clock out pending false [] ≡ read_all_loop clock (out ++ pending) [] []
  unfolding mmap_all_loop read_all_loop flush_remains flush_rest
  outside_end out pending (inl h) = rw (h, append-nil)
  outside_end out pending (inr h) = cc

  is_empty-snoc : (l : List ℕ) (c : ℕ) → is_empty (l ++ (c ∷ [])) ≡ false
  is_empty-snoc [] c = refl
  is_empty-snoc (x ∷ l) c = refl

  outside-Agrees :
      (c : ℕ) (s out pending : List ℕ)
      → Agrees s
      → mmap_all_loop clock out pending false (c ∷ s)
        ≡ read_all_loop clock (out ++ pending) [] (c ∷ s)
  unfolding mmap_all_loop read_all_loop mmap_all_step read_all_step outside_step
  outside-Agrees c s out pending ih = elim (Bool-cases (c == b'@')) [
    | inl at_sign ↦
        rw (at_sign, append-nil, (==_iff c b'@').0 at_sign) (ih.0 (out ++ pending) [] (omega arith))
    | inr other ↦
        rw (other, append_assoc out pending (c ∷ []))
          (ih.1 out (pending ++ (c ∷ [])) (inl (is_empty-snoc pending c)))
  ]

  abbrev resume_mmap : List ℕ × List ℕ × Bool → List ℕ → Option (List ℕ)
  resume_mmap (out, pending, inside) s = mmap_all_loop clock out pending inside s

  abbrev resume_read : List ℕ → List ℕ × List ℕ → List ℕ → Option (List ℕ)
  resume_read out (printed, textual) s = read_all_loop clock (out ++ printed) textual s

  -- After a sequence that was not converted.
  after_copy :
      (c : ℕ) (s out ds : List ℕ)
      → Agrees s
      → resume_mmap (outside_step clock (out, b'@' ∷ ds) c) s
        ≡ resume_read out
            (if c == b'@' then (b'@' ∷ ds, b'@' ∷ []) else ((b'@' ∷ ds) ++ (c ∷ []), []))
            s
  unfolding outside_step
  after_copy c s out ds ih = elim (Bool-cases (c == b'@')) [
    | inl at_sign ↦
        rw (at_sign, (==_iff c b'@').0 at_sign) (ih.0 (out ++ (b'@' ∷ ds)) [] (omega arith))
    | inr other ↦ rw other (ih.1 out ((b'@' ∷ ds) ++ (c ∷ [])) (inl refl))
  ]

  -- After a sequence that was converted to `r`, with `u` unused.
  after_conversion :
      (c : ℕ) (s out r u ds : List ℕ)
      → Agrees s
      → resume_mmap (outside_step clock (out ++ r, u) c) s
        ≡ resume_read out (if c == b'@' then (r ++ u, b'@' ∷ []) else (r ++ (u ++ (c ∷ [])), [])) s
  unfolding outside_step
  after_conversion c s out r u ds ih = elim (Bool-cases (c == b'@')) [
    | inl at_sign ↦
        rw (at_sign, (==_iff c b'@').0 at_sign, ← append_assoc out r u)
          (ih.0 ((out ++ r) ++ u) [] (omega arith))
    | inr other ↦
        rw (other, ← append_assoc out r (u ++ (c ∷ [])))
          (ih.1 (out ++ r) (u ++ (c ∷ [])) (inl (is_empty-snoc u c)))
  ]

  inside_stamp :
      (c : ℕ) (s out ds : List ℕ)
      → Agrees s
      → is_hex_nibble c ≡ false
      → suc (length ds) ≤ tain_format_size
      → mmap_all_loop clock out (b'@' ∷ ds) true (c ∷ s)
        ≡ read_all_loop clock out (b'@' ∷ ds) (c ∷ s)
  unfolding mmap_all_loop read_all_loop mmap_all_step read_all_step convert_pending flush_sequence
  inside_stamp c s out ds ih hex h =
      rw (le→leb (suc (length ds)) tain_format_size h, hex)
        (elim (Option-cases (convert_buffer clock (b'@' ∷ ds))) [
          | inl e ↦ rw (e, convert_pending, flush_sequence) (after_copy c s out ds ih)
          | inr ((r, u), e) ↦
              rw (e, convert_pending, flush_sequence) (after_conversion c s out r u ds ih)
        ])

  -- A hexadecimal digit after a full buffer: it is no `@`, and is copied behind what is printed.
  inside_full :
      (c : ℕ) (s out ds : List ℕ)
      → Agrees s
      → is_hex_nibble c ≡ true
      → suc (length ds) ≡ tain_format_size
      → mmap_all_loop clock out (b'@' ∷ ds) true (c ∷ s)
        ≡ read_all_loop clock out (b'@' ∷ ds) (c ∷ s)
  unfolding mmap_all_loop read_all_loop mmap_all_step read_all_step convert_pending too_long
      after_too_long outside_step
  inside_full c s out ds ih hex full =
      let no_at = hex_ne_at c hex in
      rw
        (
          le→leb (suc (length ds)) tain_format_size (omega arith),
          hex,
          (==_iff (suc (length ds)) tain_format_size).1 full,
        )
        (elim (Option-cases (convert_buffer clock (b'@' ∷ ds))) [
          | inl e ↦
              rw (e, convert_pending, too_long, no_at)
                (ih.1 out ((b'@' ∷ ds) ++ (c ∷ [])) (inl refl))
          | inr ((r, u), e) ↦
              rw
                (
                  e,
                  convert_pending,
                  too_long,
                  full_unused clock (b'@' ∷ ds) r u full e,
                  no_at,
                  ← append_assoc out r (c ∷ []),
                )
                (ih.1 (out ++ r) (c ∷ []) (inl refl))
        ])

  inside_more :
      (c : ℕ) (s out ds : List ℕ)
      → Agrees s
      → is_hex_nibble c ≡ true
      → suc (length ds) < tain_format_size
      → mmap_all_loop clock out (b'@' ∷ ds) true (c ∷ s)
        ≡ read_all_loop clock out (b'@' ∷ ds) (c ∷ s)
  unfolding mmap_all_loop read_all_loop mmap_all_step read_all_step
  inside_more c s out ds ih hex h =
      rw
        (
          le→leb (suc (length ds)) tain_format_size (omega arith),
          hex,
          lt→==_false (suc (length ds)) tain_format_size h,
          append-nil,
        )
        (ih.0 out (ds ++ (c ∷ [])) (omega (arith, length-append ds (c ∷ []))))

  agrees : (s : List ℕ) → Agrees s
  agrees [] = (inside_end, outside_end)
  agrees (c ∷ s) =
      let ih = agrees s in
      (
        λ out ds h. elim (Bool-cases (is_hex_nibble c)) [
          | inl hex ↦ elim (le-cases (suc (length ds)) tain_format_size h) [
            | inl more ↦ inside_more c s out ds ih hex more
            | inr full ↦ inside_full c s out ds ih hex full
          ]
          | inr other ↦ inside_stamp c s out ds ih other h
        ],
        λ out pending h. outside-Agrees c s out pending ih,
      )

  mmap_all-eq-read_all :
      (s : List ℕ) → is_empty s ≡ false → convert_mmap_all clock s ≡ convert_read_all clock s
  unfolding convert_mmap_all convert_read_all
  mmap_all-eq-read_all s h = rw h ((agrees s).1 [] [] (inr h))

  -- With --all an input that is not empty is converted to the same bytes whether it is mapped or
  -- read, and neither of the two functions dies by an assertion.
  pub convert_mmap_all-convert_read_all :
      (s : List ℕ)
      → is_empty s ≡ false
      → (out : List ℕ) × (convert_read_all clock s ≡ some out)
        × (convert_mmap_all clock s ≡ some out)
  convert_mmap_all-convert_read_all s h =
      let (out, e) = convert_read_all_total clock s in (out, e, mmap_all-eq-read_all s h ∙ e)
