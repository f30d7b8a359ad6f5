-- ===== src/Taiconv/Read.antt =====
-- convert_read_all and convert_read_nrm of srvctl/src/taiconv.c: the input comes byte by byte, and
-- `textual` with `index` is the list of the bytes kept so far. What the functions print is the list
-- of the bytes that they flush, or `none` where they die by an assertion. The end of the input and
-- a failed read print the same; after a failed read the program dies.
use ngim.Base.{
  ℕ, Bool, true, false, Option, none, some, List, [], ◌∷◌, ◌++◌, ◌&&◌, ◌||◌, not, ◌==◌, length,
  take, leb, if◌then◌else◌,
}
use ngim.Tai.{tain_format_size}
use ngim.Taiconv.{Clock, convert_buffer, is_hex_nibble}

abbrev pub is_empty : List ℕ → Bool
is_empty [] = true
is_empty (x ∷ xs) = false

abbrev pub newline : ℕ
newline = 10

module _ (clock : Clock) where
  -- The code that converts a sequence or gives it back: what it prints.
  unfoldable pub convert_or_copy : List ℕ → List ℕ
  convert_or_copy textual = elim (convert_buffer clock textual) [
    | some (result, remain) ↦ result ++ remain
    | none ↦ textual
  ]

  -- The code after a failed read: "If there was anything in the buffer, flush it".
  unfoldable pub flush_rest : List ℕ → List ℕ
  flush_rest textual = if is_empty textual then [] else convert_or_copy textual

  -- The branch "the sequence is too long, convert what we have".
  -- It asserts that no byte is unused.
  unfoldable pub too_long : List ℕ → ℕ → Option (List ℕ)
  too_long textual c = elim (convert_buffer clock textual) [
    | some (result, remain) ↦ if is_empty remain then some (result ++ (c ∷ [])) else none
    | none ↦ some (textual ++ (c ∷ []))
  ]

  unfoldable pub after_too_long : Option (List ℕ) → Option (List ℕ × List ℕ)
  after_too_long none = none
  after_too_long (some printed) = some (printed, [])

  -- The branch "flush the sequence": what is printed, and what is left in the buffer.
  unfoldable pub flush_sequence : List ℕ → ℕ → List ℕ × List ℕ
  flush_sequence textual c = elim (convert_buffer clock textual) [
    | some (result, remain) ↦
        if c == b'@'
        then (result ++ remain, take 1 textual)
        else (result ++ (remain ++ (c ∷ [])), [])
    | none ↦ if c == b'@' then (textual, take 1 textual) else (textual ++ (c ∷ []), [])
  ]

  -- A round of convert_read_all that read the byte `c`.
  unfoldable pub read_all_step : List ℕ → ℕ → Option (List ℕ × List ℕ)
  read_all_step textual c =
      if is_empty textual
      then (if c == b'@' then some ([], c ∷ []) else some (c ∷ [], []))
      else if is_hex_nibble c
      then (if length textual == tain_format_size
          then after_too_long (too_long textual c)
          else some ([], textual ++ (c ∷ [])))
      else some (flush_sequence textual c)

  -- The loop, with the assertion on `index` at its head.
  unfoldable pub read_all_loop : List ℕ → List ℕ → List ℕ → Option (List ℕ)
  read_all_loop out textual [] =
      if leb (length textual) tain_format_size then some (out ++ flush_rest textual) else none
  read_all_loop out textual (c ∷ s) =
      let next : Option (List ℕ) = elim (read_all_step textual c) [
        | some (printed, textual') ↦ read_all_loop (out ++ printed) textual' s
        | none ↦ none
      ] in
      if leb (length textual) tain_format_size then next else none

  -- convert_read_all
  unfoldable pub convert_read_all : List ℕ → Option (List ℕ)
  convert_read_all s = read_all_loop [] [] s

  -- "End of stamp or sequence too long" in convert_read_nrm: what is printed.
  unfoldable pub end_of_stamp : List ℕ → ℕ → List ℕ
  end_of_stamp textual c = elim (convert_buffer clock textual) [
    | some (result, remain) ↦ result ++ (remain ++ (c ∷ []))
    | none ↦ textual ++ (c ∷ [])
  ]

  -- A round of convert_read_nrm: what is printed, `start`, and the buffer.
  unfoldable pub read_nrm_step : Bool → List ℕ → ℕ → List ℕ × Bool × List ℕ
  read_nrm_step start textual c =
      if start && c == b'@'
      then ([], false, textual ++ (c ∷ []))
      else if not (is_empty textual)
      then (if not (is_hex_nibble c) || length textual == tain_format_size
          then (end_of_stamp textual c, c == newline, [])
          else ([], start, textual ++ (c ∷ [])))
      else (c ∷ [], c == newline, [])

  -- The loop, with the assertion on `index` at its head.
  unfoldable pub read_nrm_loop : List ℕ → Bool → List ℕ → List ℕ → Option (List ℕ)
  read_nrm_loop out start textual [] =
      if leb (length textual) tain_format_size then some (out ++ flush_rest textual) else none
  read_nrm_loop out start textual (c ∷ s) =
      let (printed, start', textual') = read_nrm_step start textual c in
      let next = read_nrm_loop (out ++ printed) start' textual' s in
      if leb (length textual) tain_format_size then next else none

  -- convert_read_nrm
  unfoldable pub convert_read_nrm : List ℕ → Option (List ℕ)
  convert_read_nrm s = read_nrm_loop [] true [] s
