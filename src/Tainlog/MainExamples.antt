-- ===== src/Tainlog/MainExamples.antt =====
-- The loop of srvctl/src/tainlog.c on a line of input and a log directory with one file.
use mathlib.Core.Path.{subst}
use ngim.Base.{
  ℕ, ap, ◌≡◌, refl, sym, ◌++◌, Bool, true, false, Option, none, some, List, [], ◌∷◌, In, codes,
  arith,
}
use ngim.Tai.{Tain}
use ngim.Tai.Bytes.{tain_pack, tai_pack, pack_bytes}
use ngim.Tai.Text.{tain_format, format_textual, format_digits}
use ngim.Tainlog.{Input, char, readline, read_loop, read_stamp}
use ngim.Tainlog.Files.{Entry, Log, Answers, append_tainlog}
use ngim.Tainlog.Kept.{Unused, joined, append_loop-unlog}
use ngim.Tainlog.Lossless.{bytes, unlog, added}
use ngim.Tainlog.Main.{append_line, append_loop}
use ngim.Tainlog.Options.{Options}
use ngim.Tainlog.Rotation.{Works, IsReady, logged}

abbrev willing : ℕ → Answers
willing i = record {
  can_stat = true;
  can_open = true;
  can_lock = true;
  can_rename = true;
  written = none;
  can_open_dir = λ i. true;
  can_remove = λ i. true;
}

willing-Works : (i : ℕ) → Works (willing i)
willing-Works i = record { stats = refl; opens = refl; locks = refl; renames = refl; writes = refl }

abbrev keep_all : Options
keep_all = record { keepnum = none; logdir = codes "tainlog"; filesize = 1000; bufsize = 60 }

abbrev second : ℕ → Tain
second t = record { sec = record { x = t }; nano = 0 }

abbrev line : List Input
line = char (second 5) b'h' ∷ char (second 6) b'i' ∷ char (second 7) 10 ∷ []

abbrev empty_log : Log
empty_log = record {
  opened = true;
  size = 0;
  current = some (record { regular = true; content = [] });
  entries = [];
}

empty_log-IsReady : IsReady 1000 empty_log
empty_log-IsReady = record {
  is_open = refl;
  file = record { regular = true; content = [] };
  is_current = refl;
  sized = refl;
  bounded = omega arith;
}

abbrev entries_of : Option (Log × Bool) → List Entry
entries_of none = []
entries_of (some (l, wrapped)) = l.entries

-- The files of the directory after a line that fits into the current file.
after_line-entries :
    (l' : Log) (w' : Bool)
    → append_line (willing 3) keep_all (second 5) false (b'h' ∷ b'i' ∷ 10 ∷ []) empty_log
      ≡ some (l', w')
    → [] ≡ l'.entries
unfolding append_line append_tainlog tain_format format_textual format_digits tain_pack tai_pack
    pack_bytes
after_line-entries l' w' e = ap entries_of e

line-Unused : Unused 4 willing keep_all (second 0) false line empty_log
unfolding readline read_stamp read_loop
line-Unused = (
  λ e m. absurd m,
  λ l' w' e on. (
    λ d m. absurd (subst (In d) (sym (after_line-entries l' w' e)) m),
    λ l'' w'' e' on'. absurd (cc),
  ),
)

append_loop-unlog_example :
    (l' : Log) × ((ls : List (List ℕ)) × ((w : Bool) × ((append_loop 4 willing keep_all
              (second 0)
              false
              line
              empty_log
            ≡ some l')
          × (IsReady 1000 l' × ((logged l' ≡ joined ls) × (unlog [] ls ≡ bytes line ++ added w))))))
append_loop-unlog_example =
    append_loop-unlog willing willing-Works keep_all refl (omega arith) (omega arith) (second 0)
      line empty_log empty_log-IsReady line-Unused
