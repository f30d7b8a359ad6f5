-- ===== src/Tainlog/Lossless.antt =====
-- The log of srvctl/src/tainlog.c holds every byte of the input, and tells where it broke a line.
use mathlib.Core.Option
use ngim.Base.{
  ℕ, zero, suc, ◌-◌, ◌<◌, ◌≡◌, refl, sym, ap, ◌∙◌, Bool, true, false, Option, some, List, [], ◌∷◌,
  ◌++◌, not, ◌==◌, if◌then◌else◌, length, append-nil, append_assoc, arith, if-ind, if_true,
  if_false, drop, get_or, Bool-cases, inl, inr,
}
use ngim.Tai.{Tain}
use ngim.Tai.Text.{tain_format, format_textual}
use ngim.Tai.Bytes.{tain_pack}
use ngim.Tai.RoundTrip.{length-tain_pack}
use ngim.Taiconv.Stamps.{length-format_digits}
use ngim.Tainlog.{
  Input, char, failed, Read, newline, read_loop, read_stamp, readline, buffer_start, ends_line,
  format_tainlog, log_line, tainlog_loop,
}

-- The bytes of the input.
abbrev pub bytes : List Input → List ℕ
bytes [] = []
bytes (failed ∷ input) = bytes input
bytes (char now c ∷ input) = c ∷ bytes input

abbrev pub without_last : List ℕ → List ℕ
without_last [] = []
without_last (c ∷ []) = []
without_last (c ∷ d ∷ cs) = c ∷ without_last (d ∷ cs)

-- Reads a log again, after the bytes `before`: a tab in a line says that the newline before it was
-- not in the input.
abbrev pub unlog : List ℕ → List (List ℕ) → List ℕ
unlog before [] = before
unlog before (l ∷ ls) =
    unlog ((if get_or l 25 0 == b'\t' then without_last before else before) ++ drop buffer_start l)
      ls

-- The newline that a wrapped line was given.
abbrev pub added : Bool → List ℕ
added wrapped = if wrapped then newline ∷ [] else []

read_loop-bytes :
    (more : ℕ) (input : List Input)
    → bytes input ≡ (read_loop more input).line ++ bytes (read_loop more input).left
unfolding read_loop
read_loop-bytes more [] = refl
read_loop-bytes more (failed ∷ input) = read_loop-bytes more input
read_loop-bytes zero (char now c ∷ input) = refl
read_loop-bytes (suc more) (char now c ∷ input) =
    if-ind {A = Read} (λ r. c ∷ bytes input ≡ r.line ++ bytes r.left) (c == newline) (λ _. refl)
      (λ _. ap (λ cs. c ∷ cs) (read_loop-bytes more input))

-- Without the end of the input, what is left is shorter.
pub read_loop_shorter :
    (more : ℕ) (input : List Input)
    → (read_loop more input).eof ≡ false
    → length (read_loop more input).left < length input
unfolding read_loop
read_loop_shorter more [] h = absurd (ground arith)
read_loop_shorter more (failed ∷ input) h = omega (arith, read_loop_shorter more input h)
read_loop_shorter zero (char now c ∷ input) h = omega arith
read_loop_shorter (suc more) (char now c ∷ input) h =
    if-ind {A = Read} (λ r. r.eof ≡ false → length r.left < suc (length input)) (c == newline)
      (λ _ e. omega arith) (λ _ e. omega (arith, read_loop_shorter more input e)) h

-- At the end of the input nothing is left.
read_loop_end :
    (more : ℕ) (input : List Input)
    → (read_loop more input).eof ≡ true
    → (read_loop more input).left ≡ []
unfolding read_loop
read_loop_end more [] h = refl
read_loop_end more (failed ∷ input) h = read_loop_end more input h
read_loop_end zero (char now c ∷ input) h = absurd (ground arith)
read_loop_end (suc more) (char now c ∷ input) h =
    if-ind {A = Read} (λ r. r.eof ≡ true → r.left ≡ []) (c == newline)
      (λ _ e. absurd (ground arith)) (λ _ e. read_loop_end more input e) h

without_last-append : (before : List ℕ) (c : ℕ) → without_last (before ++ (c ∷ [])) ≡ before
without_last-append [] c = refl
without_last-append (d ∷ []) c = refl
without_last-append (d ∷ e ∷ ds) c = ap (λ x. d ∷ x) (without_last-append (e ∷ ds) c)

pub length-tain_format : (t : Tain) → length (tain_format t) ≡ 25
unfolding tain_format format_textual
length-tain_format t = omega (arith, length-format_digits (tain_pack t), length-tain_pack t)

get_or-append : (s x : List ℕ) (c n : ℕ) → length s ≡ n → get_or (s ++ (c ∷ x)) n 0 ≡ c
get_or-append [] x c zero h = refl
get_or-append [] x c (suc n) h = absurd (omega arith)
get_or-append (d ∷ s) x c zero h = absurd (omega arith)
get_or-append (d ∷ s) x c (suc n) h = get_or-append s x c n (omega arith)

drop_after : (s x : List ℕ) (c n : ℕ) → length s ≡ n → drop (suc n) (s ++ (c ∷ x)) ≡ x
drop_after [] x c zero h = refl
drop_after [] x c (suc n) h = absurd (omega arith)
drop_after (d ∷ s) x c zero h = absurd (omega arith)
drop_after (d ∷ s) x c (suc n) h = drop_after s x c n (omega arith)

-- The newline that the line before was given is taken off again.
without_added :
    (acc : List ℕ) (w : Bool)
    → (if (if w then b'\t' else b' ') == b'\t'
        then without_last (acc ++ added w)
        else acc ++ added w)
      ≡ acc
without_added acc true = without_last-append acc newline
without_added acc false = append-nil acc

-- One buffer, read again.
buffer_body :
    (stamp : Tain) (w : Bool) (acc body : List ℕ)
    → (if get_or (tain_format stamp ++ ((if w then b'\t' else b' ') ∷ body)) 25 0 == b'\t'
          then without_last (acc ++ added w)
          else acc ++ added w)
        ++ drop buffer_start (tain_format stamp ++ ((if w then b'\t' else b' ') ∷ body))
      ≡ acc ++ body
buffer_body stamp w acc body =
    let sep : ℕ = if w then b'\t' else b' ' in
    rw
      (
        get_or-append (tain_format stamp) body sep 25 (length-tain_format stamp),
        drop_after (tain_format stamp) body sep 25 (length-tain_format stamp),
      )
      (ap (λ x. x ++ body) (without_added acc w))

added_line :
    (line : List ℕ) → (if ends_line line then [] else newline ∷ []) ≡ added (not (ends_line line))
added_line line = elim (Bool-cases (ends_line line)) [ inl e ↦ rw e refl | inr e ↦ rw e refl ]

unlog-log_line :
    (stamp : Tain) (w : Bool) (acc line : List ℕ) (ls : List (List ℕ))
    → unlog (acc ++ added w) ((log_line stamp w line).0 ++ ls)
      ≡ unlog ((acc ++ line) ++ added (log_line stamp w line).1) ls
unfolding format_tainlog
unlog-log_line stamp w acc [] ls = ap (λ x. unlog (x ++ added w) ls) (sym (append-nil acc))
unlog-log_line stamp w acc (c ∷ cs) ls =
    let line : List ℕ = c ∷ cs in
    let ending : List ℕ = if ends_line line then [] else newline ∷ [] in
    ap (λ x. unlog x ls)
      (buffer_body stamp w acc (line ++ ending)
        ∙ (sym (append_assoc acc line ending) ∙ ap (λ e. (acc ++ line) ++ e) (added_line line)))

-- What holds of a run of the loop.
abbrev Logs : ℕ → ℕ → Tain → Bool → List Input → Type 0
Logs fuel bufsize stamp w input =
    (ls : List (List ℕ)) × ((w' : Bool) × ((tainlog_loop fuel bufsize stamp w input ≡ some (ls, w'))
        × ((acc : List ℕ) → unlog (acc ++ added w) ls ≡ (acc ++ bytes input) ++ added w')))

tainlog_loop-Logs :
    (fuel bufsize : ℕ) (stamp : Tain) (w : Bool) (input : List Input)
    → length input < fuel
    → Logs fuel bufsize stamp w input
unfolding tainlog_loop readline
tainlog_loop-Logs zero bufsize stamp w input h = absurd (omega arith)
tainlog_loop-Logs (suc fuel) bufsize stamp w input h =
    let r : Read = read_loop (bufsize - 1 - buffer_start - 1) input in
    let read : bytes input ≡ r.line ++ bytes r.left =
      read_loop-bytes (bufsize - 1 - buffer_start - 1) input in
    let stamp' : Tain = read_stamp stamp input in
    let out : List (List ℕ) = (log_line stamp' w r.line).0 in
    let w1 : Bool = (log_line stamp' w r.line).1 in
    let last : Option (List (List ℕ) × Bool) = some (out, w1) in
    let further : Option (List (List ℕ) × Bool) =
      Option.map (λ p. (out ++ p.0, p.1)) (tainlog_loop fuel bufsize stamp' w1 r.left) in
    elim (Bool-cases r.eof) [
      | inl e ↦
          let all : bytes input ≡ r.line =
            read
            ∙ (ap (λ x. r.line ++ bytes x) (read_loop_end (bufsize - 1 - buffer_start - 1) input e)
                ∙ append-nil r.line) in
          (
            out,
            (
              w1,
              (
                if_true last further e,
                λ acc.
                    ap (unlog (acc ++ added w)) (sym (append-nil out))
                    ∙ (unlog-log_line stamp' w acc r.line []
                        ∙ ap (λ x. (acc ++ x) ++ added w1) (sym all)),
              ),
            ),
          )
      | inr e ↦
          let shorter = read_loop_shorter (bufsize - 1 - buffer_start - 1) input e in
          let (ls, (w', (run, again))) =
            tainlog_loop-Logs fuel bufsize stamp' w1 r.left (omega arith) in
          (
            out ++ ls,
            (
              w',
              (
                if_false last further e ∙ ap (Option.map (λ p. (out ++ p.0, p.1))) run,
                λ acc.
                    unlog-log_line stamp' w acc r.line ls
                    ∙ (again (acc ++ r.line)
                        ∙ ap (λ x. x ++ added w')
                            (append_assoc acc r.line (bytes r.left)
                              ∙ ap (λ x. acc ++ x) (sym read))),
              ),
            ),
          )
    ]

-- On every input, the loop of tainlog comes to the end of it, and the log that it wrote, read again
-- with the newline before a line that has a tab dropped, is the input, with a newline at the end
-- where the last line was given one.
pub unlog-tainlog_loop :
    (bufsize : ℕ) (stamp : Tain) (input : List Input)
    → (ls : List (List ℕ)) × ((w : Bool) × ((tainlog_loop
              (suc (length input))
              bufsize
              stamp
              false
              input
            ≡ some (ls, w))
          × (unlog [] ls ≡ bytes input ++ added w)))
unlog-tainlog_loop bufsize stamp input =
    let (ls, (w, (run, again))) =
      tainlog_loop-Logs (suc (length input)) bufsize stamp false input (omega arith) in
    (ls, (w, (run, again [])))
