-- ===== src/Taiconv/Mmap.antt =====
-- convert_mmap_all and convert_mmap_nrm of srvctl/src/taiconv.c: the input is one array. The indices
-- `start` and `index` are the lists `pending`, the bytes from `start` up to `index`, and `rest`,
-- the bytes from `index` on, so `index - start` is the length of `pending`.
use ngim.Base.{
  ℕ, zero, suc, Bool, true, false, Option, none, some, List, [], ◌∷◌, ◌++◌, not, ◌||◌, ◌&&◌, ◌==◌,
  leb, length, if◌then◌else◌,
}
use ngim.Tai.{tain_format_size}
use ngim.Taiconv.{Clock, convert_buffer, is_hex_nibble}
use ngim.Taiconv.Read.{newline, is_empty}

module _ (clock : Clock) where
  -- `if (convert_buffer(...)) { flush_string(result); start = index - unused; }`: the bytes printed
  -- so far and the pending ones.
  unfoldable pub convert_pending : List ℕ → List ℕ → List ℕ × List ℕ
  convert_pending out pending = elim (convert_buffer clock pending) [
    | some (result, remain) ↦ (out ++ result, remain)
    | none ↦ (out, pending)
  ]

  -- A round of convert_mmap_all with `inside` 0, up to `++index`.
  unfoldable pub outside_step : List ℕ × List ℕ → ℕ → List ℕ × List ℕ × Bool
  outside_step (out, pending) c =
      if c == b'@' then (out ++ pending, c ∷ [], true) else (out, pending ++ (c ∷ []), false)

  -- The rounds of convert_mmap_all for one `index`: the one that ends a stamp goes on to a second
  -- round for the same byte with `inside` 0.
  unfoldable pub mmap_all_step : List ℕ → List ℕ → Bool → ℕ → List ℕ × List ℕ × Bool
  mmap_all_step out pending inside c =
      if inside
      then (if not (is_hex_nibble c) || length pending == tain_format_size
          then outside_step (convert_pending out pending) c
          else (out, pending ++ (c ∷ []), true))
      else outside_step (out, pending) c

  -- "Flush the remains". `none` is the failed assertion `start < index`.
  unfoldable pub flush_remains : List ℕ → List ℕ → Bool → Option (List ℕ)
  flush_remains out pending inside =
      let copy = if is_empty pending then none else some (out ++ pending) in
      if inside
      then elim (convert_buffer clock pending) [
        | some (result, remain) ↦ some (out ++ (result ++ remain))
        | none ↦ copy
      ]
      else copy

  unfoldable pub mmap_all_loop : List ℕ → List ℕ → Bool → List ℕ → Option (List ℕ)
  mmap_all_loop out pending inside [] = flush_remains out pending inside
  mmap_all_loop out pending inside (c ∷ rest) =
      let (out', pending', inside') = mmap_all_step out pending inside c in
      mmap_all_loop out' pending' inside' rest

  -- convert_mmap_all: what it prints, or `none` if it dies by an assertion.
  unfoldable pub convert_mmap_all : List ℕ → Option (List ℕ)
  convert_mmap_all textual = if is_empty textual then none else mmap_all_loop [] [] false textual

  -- "Calculate stamp length": the test of the loop after `++index`.
  unfoldable pub stamp_length : List ℕ → List ℕ → List ℕ × List ℕ
  stamp_length pending [] = (pending, [])
  stamp_length pending (c ∷ rest) =
      let longer = stamp_length (pending ++ (c ∷ [])) rest in
      if is_hex_nibble c && leb (length pending) tain_format_size
      then longer
      else (pending, c ∷ rest)

  -- "Move to the beginning of the next line".
  unfoldable pub next_line : List ℕ → List ℕ → List ℕ × List ℕ
  next_line pending [] = (pending, [])
  next_line pending (c ∷ rest) =
      let further = next_line (pending ++ (c ∷ [])) rest in
      if c == newline then (pending ++ (c ∷ []), rest) else further

  -- What a round does at `@`: the bytes printed, the pending ones and the rest.
  unfoldable pub line_stamp : List ℕ → List ℕ → ℕ → List ℕ → List ℕ × List ℕ × List ℕ
  line_stamp out pending c rest =
      if c == b'@'
      then (let (pending', rest') = stamp_length (c ∷ []) rest in
          let (out', pending'') = convert_pending (out ++ pending) pending' in
          (out', pending'', rest'))
      else (out, pending, c ∷ rest)

  -- The outer loop of convert_mmap_nrm and the flush after it; `none` means that the fuel ran out.
  unfoldable pub mmap_nrm_loop : ℕ → List ℕ → List ℕ → List ℕ → Option (List ℕ)
  mmap_nrm_loop fuel out pending [] = some (out ++ pending)
  mmap_nrm_loop zero out pending (c ∷ rest) = none
  mmap_nrm_loop (suc fuel) out pending (c ∷ rest) =
      let (out', pending', rest') = line_stamp out pending c rest in
      let (pending'', rest'') = next_line pending' rest' in mmap_nrm_loop fuel out' pending'' rest''

  -- convert_mmap_nrm. Every round passes a byte at least, so the size is fuel enough.
  unfoldable pub convert_mmap_nrm : List ℕ → Option (List ℕ)
  convert_mmap_nrm textual =
      if is_empty textual then none else mmap_nrm_loop (length textual) [] [] textual
