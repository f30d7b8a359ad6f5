-- ===== src/Tainlog/Kept.antt =====
-- The loop of tainlog in srvctl/src/tainlog.c with its files: what they hold after the input has ended.
use mathlib.Core.Option
use ngim.Base.{
  ℕ, zero, suc, ◌+◌, ◌-◌, ◌<◌, ◌≤◌, ◌≡◌, ◌≢◌, refl, sym, ap, ◌∙◌, Bool, false, Option, none, some,
  List, [], ◌∷◌, ◌++◌, In, ◌==◌, if◌then◌else◌, length, length-append, append-nil, append_assoc,
  arith, if-ind, if_true, if_false, Bool-cases, inl, inr,
}
use ngim.Tai.{Tain}
use ngim.Tai.Text.{tain_format}
use ngim.Tainlog.{
  Input, char, failed, Read, newline, read_loop, read_stamp, readline, buffer_start, ends_line,
  format_tainlog, log_line, tainlog_loop,
}
use ngim.Tainlog.Files.{Entry, Log, Answers}
use ngim.Tainlog.Lossless.{
  bytes, unlog, added, unlog-tainlog_loop, length-tain_format, read_loop_shorter,
}
use ngim.Tainlog.Main.{append_line, append_loop}
use ngim.Tainlog.Options.{Options}
use ngim.Tainlog.Rotation.{Works, IsReady, logged, append_tainlog-IsReady}

-- The bytes of the buffers, one after another.
abbrev pub joined : List (List ℕ) → List ℕ
joined [] = []
joined (l ∷ ls) = l ++ joined ls

joined-append : (ls ms : List (List ℕ)) → joined (ls ++ ms) ≡ joined ls ++ joined ms
joined-append [] ms = refl
joined-append (l ∷ ls) ms = rw (joined-append ls ms) (sym (append_assoc l (joined ls) (joined ms)))

length-read_loop : (more : ℕ) (input : List Input) → length (read_loop more input).line ≤ suc more
unfolding read_loop
length-read_loop more [] = omega arith
length-read_loop more (failed ∷ input) = length-read_loop more input
length-read_loop zero (char now c ∷ input) = omega arith
length-read_loop (suc more) (char now c ∷ input) =
    if-ind {A = Read} (λ r. length r.line ≤ suc (suc more)) (c == newline) (λ _. omega arith)
      (λ _. omega (arith, length-read_loop more input))

length-ending : (line : List ℕ) → length (if ends_line line then [] else newline ∷ []) ≤ 1
length-ending line =
    if-ind (λ (s : List ℕ). length s ≤ 1) (ends_line line) (λ _. omega arith) (λ _. omega arith)

-- A buffer of a line is no longer than the line buffer.
length-format_tainlog :
    (stamp : Tain) (w : Bool) (line : List ℕ)
    → length (format_tainlog stamp w line).0 ≤ length line + 27
unfolding format_tainlog
length-format_tainlog stamp w line =
    let ending : List ℕ = if ends_line line then [] else newline ∷ [] in
    let sep : ℕ = if w then b'\t' else b' ' in
    omega (
      arith,
      length-append (tain_format stamp) (sep ∷ (line ++ ending)),
      length-append line ending,
      length-tain_format stamp,
      length-ending line,
    )

module _ (o : Options) (keeps_all : o.keepnum ≡ none) where
  -- What holds after a line: the files are ready, and its buffer was added to them.
  abbrev Appends : Option (Log × Bool) → Log → List (List ℕ) × Bool → Type 0
  Appends r l out =
      (l' : Log) × ((r ≡ some (l', out.1))
        × (IsReady o.filesize l' × (logged l' ≡ logged l ++ joined out.0)))

  append_line-Appends :
      (a : Answers)
      → Works a
      → (stamp : Tain) (w : Bool) (line : List ℕ) (l : Log) → length line + 27 ≤ o.filesize
      → IsReady o.filesize l
      → ((e : Entry) → In e l.entries → e.name ≢ tain_format stamp)
      → Appends (append_line a o stamp w line l) l (log_line stamp w line)
  unfolding append_line
  append_line-Appends a works stamp w [] l fits r fresh =
      (l, (refl, (r, sym (append-nil (logged l)))))
  append_line-Appends a works stamp w (c ∷ cs) l fits r fresh =
      let out : List ℕ × Bool = format_tainlog stamp w (c ∷ cs) in
      let (l', (e, (r', added_up))) =
        append_tainlog-IsReady a works o.filesize out.0
          (omega (arith, length-format_tainlog stamp w (c ∷ cs))) stamp l r fresh in
      (
        l',
        (
          rw keeps_all (ap (Option.map (λ x. (x, out.1))) e),
          (r', added_up ∙ ap (λ x. logged l ++ x) (sym (append-nil out.0))),
        ),
      )

-- When a line comes whose label is `stamp`, no archived file has the name of that label; this is said
-- of every line of the input, with the files as they are then.
abbrev pub Unused : ℕ → (ℕ → Answers) → Options → Tain → Bool → List Input → Log → Type 0
Unused zero an o stamp wrapped input l = Unit
Unused (suc fuel) an o stamp wrapped input l =
    let r = readline o.bufsize input in
    let stamp' = read_stamp stamp input in
    ((e : Entry) → In e l.entries → e.name ≢ tain_format stamp')
    × ((l' : Log) (wrapped' : Bool)
        → append_line (an fuel) o stamp' wrapped r.line l ≡ some (l', wrapped')
        → r.eof ≡ false
        → Unused fuel an o stamp' wrapped' r.left l')

module _ (an : ℕ → Answers) (works : (i : ℕ) → Works (an i)) (o : Options)
    (keeps_all : o.keepnum ≡ none) (long_enough : 28 ≤ o.bufsize)
    (fits : o.bufsize ≤ o.filesize) where
  -- What holds of the loop and of the list of buffers that it appends.
  abbrev Keeps : ℕ → Tain → Bool → List Input → Log → Type 0
  Keeps fuel stamp w input l =
      (l' : Log) × ((ls : List (List ℕ)) × ((w' : Bool) × ((append_loop fuel an o stamp w input l
              ≡ some l')
            × ((tainlog_loop fuel o.bufsize stamp w input ≡ some (ls, w'))
                × (IsReady o.filesize l' × (logged l' ≡ logged l ++ joined ls))))))

  line_fits : (input : List Input) → length (readline o.bufsize input).line + 27 ≤ o.filesize
  unfolding readline
  line_fits input = omega (arith, length-read_loop (o.bufsize - 1 - buffer_start - 1) input)

  read_shorter :
      {fuel : ℕ} (input : List Input)
      → (readline o.bufsize input).eof ≡ false
      → length input < suc fuel
      → length (readline o.bufsize input).left < fuel
  unfolding readline
  read_shorter input on h =
      omega (arith, read_loop_shorter (o.bufsize - 1 - buffer_start - 1) input on)

  -- A round of the loop whose line was appended.
  append_loop-round :
      (fuel : ℕ) (stamp : Tain) (w : Bool) (input : List Input) (l l1 : Log) (w1 : Bool)
      → append_line (an fuel) o (read_stamp stamp input) w (readline o.bufsize input).line l
        ≡ some (l1, w1)
      → append_loop (suc fuel) an o stamp w input l ≡ (
          if (readline o.bufsize input).eof
          then some l1
          else append_loop fuel an o (read_stamp stamp input) w1 (readline o.bufsize input).left l1)
  unfolding append_loop
  append_loop-round fuel stamp w input l l1 w1 e = rw e refl

  append_loop-Keeps :
      (fuel : ℕ) (stamp : Tain) (w : Bool) (input : List Input) (l : Log)
      → length input < fuel
      → IsReady o.filesize l
      → Unused fuel an o stamp w input l
      → Keeps fuel stamp w input l
  unfolding tainlog_loop
  append_loop-Keeps zero stamp w input l h r unused = absurd (omega arith)
  append_loop-Keeps (suc fuel) stamp w input l h r (fresh, later) =
      let read : Read = readline o.bufsize input in
      let stamp' : Tain = read_stamp stamp input in
      let out : List (List ℕ) = (log_line stamp' w read.line).0 in
      let w1 : Bool = (log_line stamp' w read.line).1 in
      let (l1, (e, (r1, grown))) =
        append_line-Appends o keeps_all (an fuel) (works fuel) stamp' w read.line l
          (line_fits input) r fresh in
      let went = append_loop-round fuel stamp w input l l1 w1 e in
      elim (Bool-cases read.eof) [
        | inl end ↦ (l1, (out, (w1, (went ∙ if_true _ _ end, (if_true _ _ end, (r1, grown))))))
        | inr on ↦
            let (l', (ls, (w', (run, (logs, (r', more)))))) =
              append_loop-Keeps fuel stamp' w1 read.left l1 (read_shorter input on h) r1
                (later l1 w1 e on) in
            (
              l',
              (
                out ++ ls,
                (
                  w',
                  (
                    went ∙ (if_false _ _ on ∙ run),
                    (
                      if_false _ _ on ∙ ap (Option.map (λ p. (out ++ p.0, p.1))) logs,
                      (
                        r',
                        more
                            ∙ (ap (λ x. x ++ joined ls) grown
                                ∙ (append_assoc (logged l) (joined out) (joined ls)
                                    ∙ ap (λ x. logged l ++ x) (sym (joined-append out ls)))),
                      ),
                    ),
                  ),
                ),
              ),
            )
      ]

-- What tainlog writes is its input: where every call of APR succeeds, all files are kept, the line
-- buffer has room for more than the label and fits into a file, the current file is open, and no
-- archived file has the name of the label of a line, the loop comes to the end of the input; the files
-- hold what they held and then buffers; and these, read again with the newline before a line that
-- has a tab dropped, are the input, with a newline at the end where the last line was given one.
pub append_loop-unlog :
    (an : ℕ → Answers)
    → ((i : ℕ) → Works (an i))
    → (o : Options) → o.keepnum ≡ none
    → 28 ≤ o.bufsize
    → o.bufsize ≤ o.filesize
    → (stamp : Tain) (input : List Input) (l : Log) → IsReady o.filesize l
    → Unused (suc (length input)) an o stamp false input l
    → (l' : Log) × ((ls : List (List ℕ)) × ((w : Bool) × ((append_loop
                (suc (length input))
                an
                o
                stamp
                false
                input
                l
              ≡ some l')
            × (IsReady o.filesize l'
                × ((logged l' ≡ logged l ++ joined ls) × (unlog [] ls ≡ bytes input ++ added w))))))
append_loop-unlog an works o keeps_all long_enough fits stamp input l r unused =
    let (l', (ls, (w, (run, (logs, (r', kept)))))) =
      append_loop-Keeps an works o keeps_all long_enough fits (suc (length input)) stamp false input
        l (omega arith) r unused in
    let (ms, (v, (logs', back))) = unlog-tainlog_loop o.bufsize stamp input in
    let same : some (ms, v) ≡ some (ls, w) = sym logs' ∙ logs in
    let lists : ms ≡ ls = cc in
    let flags : v ≡ w = cc in (l', (ls, (w, (run, (r', (kept, rw flags at (rw lists at back)))))))
