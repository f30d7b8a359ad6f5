-- ===== src/Tainlog.antt =====
-- The lines of srvctl/src/tainlog.c: readline, format_tainlog and the loop of tainlog. What is
-- appended to the log is a list of buffers; the files behind it are in the module Files.
pub mod Lossless
pub mod Options
pub mod Files
pub mod Oldest
pub mod Archive
pub mod Rotation
pub mod Main
pub mod Kept
mod Examples
mod MainExamples
use mathlib.Core.Option
use ngim.Base.{
  ℕ, zero, suc, ◌+◌, ◌-◌, Bool, true, false, Option, none, some, List, [], ◌∷◌, ◌++◌, not, ◌==◌,
  if◌then◌else◌,
}
use ngim.Tai.{Tain, tain_format_size}
use ngim.Tai.Text.{tain_format}

-- What apr_file_getc comes to before the end of the input: a char, with the time of its reading, or
-- a failure.
pub data Input : Type 0 where
  char : Tain → ℕ → Input
  failed : Input

-- What readline leaves: the bytes from `start` up to `*pos`, what is left of the input, and
-- `flag_eof`.
pub record Read : Type 0 where
  pub line : List ℕ
  pub left : List Input
  pub eof : Bool

abbrev pub newline : ℕ
newline = 10

abbrev pub prepend : ℕ → Read → Read
prepend c r = record r { line = c ∷ r.line }

-- The loop of readline, where `more` chars fit into the buffer after the next one.
unfoldable pub read_loop : ℕ → List Input → Read
read_loop more [] = record { line = []; left = []; eof = true }
read_loop more (failed ∷ input) = read_loop more input
read_loop zero (char now c ∷ input) = record { line = c ∷ []; left = input; eof = false }
read_loop (suc more) (char now c ∷ input) =
    let further = read_loop more input in
    if c == newline then record { line = c ∷ []; left = input; eof = false } else prepend c further

-- The `*stamp` that readline leaves.
unfoldable pub read_stamp : Tain → List Input → Tain
read_stamp stamp [] = stamp
read_stamp stamp (failed ∷ input) = read_stamp stamp input
read_stamp stamp (char now c ∷ input) = now

abbrev pub buffer_start : ℕ
buffer_start = 26

-- readline(buffer, &len, BUFFER_START, bufsize - 1, &stamp). The sizes that validate_cmdline accepts
-- are 60 at least, so the assertion `start < len` holds.
unfoldable pub readline : ℕ → List Input → Read
readline bufsize input = read_loop (bufsize - 1 - buffer_start - 1) input

abbrev pub ends_line : List ℕ → Bool
ends_line [] = false
ends_line (c ∷ []) = c == newline
ends_line (c ∷ d ∷ cs) = ends_line (d ∷ cs)

-- format_tainlog, for the line after BUFFER_START: the buffer, and the new `*wrapped`.
unfoldable pub format_tainlog : Tain → Bool → List ℕ → List ℕ × Bool
format_tainlog stamp wrapped line = (
  tain_format stamp
      ++ ((if wrapped then b'\t' else b' ')
          ∷ (line ++ (if ends_line line then [] else newline ∷ []))),
  not (ends_line line),
)

abbrev pub log_line : Tain → Bool → List ℕ → List (List ℕ) × Bool
log_line stamp wrapped [] = ([], wrapped)
log_line stamp wrapped (c ∷ cs) =
    let (buffer, wrapped') = format_tainlog stamp wrapped (c ∷ cs) in (buffer ∷ [], wrapped')

-- The loop of tainlog: the buffers that it appends, and `wrapped` at the end. `none` means that the
-- fuel ran out.
unfoldable pub tainlog_loop : ℕ → ℕ → Tain → Bool → List Input → Option (List (List ℕ) × Bool)
tainlog_loop zero bufsize stamp wrapped input = none
tainlog_loop (suc fuel) bufsize stamp wrapped input =
    let r = readline bufsize input in
    let stamp' = read_stamp stamp input in
    let (out, wrapped') = log_line stamp' wrapped r.line in
    let rest = tainlog_loop fuel bufsize stamp' wrapped' r.left in
    if r.eof then some (out, wrapped') else Option.map (λ p. (out ++ p.0, p.1)) rest
