-- ===== src/Tainlog/Examples.antt =====
-- The log of srvctl/src/tainlog.c on a short input, and its files in small directories.
use ngim.Base.{
  ℕ, ◌≡◌, ◌≢◌, refl, sym, ap, ◌∙◌, ◌-◌, true, false, none, some, List, [], ◌∷◌, replicate, inl, inr,
  ℤ, pos, negsuc, ◌==◌, if◌then◌else◌, arith,
}
use ngim.Cmdline.{Str, char_at}
use ngim.Tainlog.Options.{
  Arguments, AreInRange, dir_tainlog, validate_cmdline, validate_cmdline-AreInRange,
}
use ngim.Tainlog.Files.{Entry, Log, Answers, flush_archive, append_tainlog}
use ngim.Tainlog.Oldest.{AreNamed}
use ngim.Tainlog.Archive.{Pruned, flush_archive-Pruned}
use ngim.Tainlog.Rotation.{Works, IsReady, logged, append_tainlog-IsReady}
use ngim.Tai.{Tain}
use ngim.Tainlog.{Input, char, failed, read_loop}

abbrev second : ℕ → Tain
second t = record { sec = record { x = t }; nano = 0 }

-- A line, and the start of another one after a failed read.
abbrev typed : List Input
typed = char (second 1) b'a' ∷ char (second 1) 10 ∷ failed ∷ char (second 2) b'b' ∷ []

-- A line that does not fit into the buffer is read in two parts.
abbrev letters : List Input
letters = char (second 1) b'a' ∷ char (second 1) b'b' ∷ char (second 2) b'c' ∷ []

read_two :
    read_loop 1 letters
    ≡ record { line = b'a' ∷ b'b' ∷ []; left = char (second 2) b'c' ∷ []; eof = false }
unfolding read_loop
read_two = refl

-- A command line with every number out of range.
abbrev wild : Arguments
wild = record {
  root = some (b'/' ∷ []);
  keep = b'-' ∷ b'5' ∷ [];
  logdir = [];
  file = b'1' ∷ [];
  buffer = b'9' ∷ [];
}

-- A reader of numbers of one digit.
abbrev atoi : Str → ℤ
atoi [] = pos 0
atoi (c ∷ s) = if c == b'-' then negsuc 4 else pos (c - b'0')

validate_cmdline-AreInRange_example :
    AreInRange (record { keepnum = none; logdir = dir_tainlog; filesize = 1000; bufsize = 60 })
unfolding validate_cmdline
validate_cmdline-AreInRange_example = validate_cmdline-AreInRange atoi 194 wild refl

abbrev willing : Answers
willing = record {
  can_stat = true;
  can_open = true;
  can_lock = true;
  can_rename = true;
  written = none;
  can_open_dir = λ i. true;
  can_remove = λ i. true;
}

-- An archived file, whose name has the digit `c` first.
abbrev log : ℕ → Entry
log c = record {
  name = b'@' ∷ c ∷ replicate 23 b'0';
  file = record { regular = true; content = [] };
}

-- Two archived files, the newer one first.
abbrev archive : List Entry
archive = log b'2' ∷ log b'1' ∷ []

abbrev digit : Entry → ℕ
digit e = char_at e.name 1

digits_differ : ◌≢◌ {A = ℕ} b'1' b'2'
digits_differ e = omega arith

archive-AreNamed : AreNamed archive
archive-AreNamed d e (inl p) (inl q) same = sym p ∙ q
archive-AreNamed d e (inl p) (inr (inl q)) same =
    absurd (digits_differ (sym (ap digit p ∙ (ap (λ n. char_at n 1) same ∙ sym (ap digit q)))))
archive-AreNamed d e (inl p) (inr (inr m)) same = absurd m
archive-AreNamed d e (inr (inl p)) (inl q) same =
    absurd (digits_differ (ap digit p ∙ (ap (λ n. char_at n 1) same ∙ sym (ap digit q))))
archive-AreNamed d e (inr (inl p)) (inr (inl q)) same = sym p ∙ q
archive-AreNamed d e (inr (inl p)) (inr (inr m)) same = absurd m
archive-AreNamed d e (inr (inr m)) me same = absurd m

flush_archive-Pruned_example :
    (es : List Entry) × ((flush_archive willing (some 1) archive ≡ some es) × Pruned 1 archive es)
flush_archive-Pruned_example =
    flush_archive-Pruned willing (λ i. refl) (λ i. refl) 1 archive archive-AreNamed

willing-Works : Works willing
willing-Works = record { stats = refl; opens = refl; locks = refl; renames = refl; writes = refl }

-- The buffer does not fit into the current file any more.
abbrev ready_log : Log
ready_log = record {
  opened = true;
  size = 2;
  current = some (record { regular = true; content = b'a' ∷ b'b' ∷ [] });
  entries = [];
}

ready_log-IsReady : IsReady 3 ready_log
ready_log-IsReady = record {
  is_open = refl;
  file = record { regular = true; content = b'a' ∷ b'b' ∷ [] };
  is_current = refl;
  sized = refl;
  bounded = omega arith;
}

append_tainlog-IsReady_example :
    (l : Log) × ((append_tainlog willing 3 none (second 1) (b'c' ∷ b'd' ∷ []) ready_log ≡ some l)
      × (IsReady 3 l × (logged l ≡ b'a' ∷ b'b' ∷ b'c' ∷ b'd' ∷ [])))
append_tainlog-IsReady_example =
    append_tainlog-IsReady willing willing-Works 3 (b'c' ∷ b'd' ∷ []) (omega arith) (second 1)
      ready_log ready_log-IsReady (λ e m. absurd m)
