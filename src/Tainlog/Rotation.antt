-- ===== src/Tainlog/Rotation.antt =====
-- What append_tainlog of srvctl/src/tainlog.c promises while every call of APR succeeds: the files,
-- the archived ones first, are one string of bytes, to which the buffer is added.
use mathlib.Core.Option
use ngim.Base.{
  ℕ, ◌+◌, ◌≤◌, ◌≡◌, ◌≢◌, refl, sym, ap, ◌∙◌, true, false, Option, none, some, List, [], ◌∷◌, ◌++◌,
  ltb, inl, inr, length, length-append, arith, In, if-ind, append_assoc, append-nil,
}
use ngim.Tai.{Tain}
use ngim.Tai.Text.{tain_format}
use ngim.Cmdline.{Str, str_eq}
use ngim.Tainlog.Files.{
  Entry, File, Log, Answers, unlink, open_found, open_tainlog, rename_current, close_tainlog,
  write_tainlog, archive_full, append_tainlog, flush_archive,
}
use ngim.Cmdline.Strings.{str_eq→≡}

-- Every call of APR succeeds.
pub record Works (a : Answers) : Type 0 where
  pub stats : a.can_stat ≡ true
  pub opens : a.can_open ≡ true
  pub locks : a.can_lock ≡ true
  pub renames : a.can_rename ≡ true
  pub writes : a.written ≡ none

-- FILE_CURRENT is open, `current_size` is its size, and it is not too large.
pub record IsReady (filesize : ℕ) (l : Log) : Type 0 where
  pub is_open : l.opened ≡ true
  pub file : File
  pub is_current : l.current ≡ some file
  pub sized : l.size ≡ length file.content
  pub bounded : l.size ≤ filesize

abbrev pub archived : List Entry → List ℕ
archived [] = []
archived (e ∷ es) = e.file.content ++ archived es

abbrev pub current_bytes : Option File → List ℕ
current_bytes none = []
current_bytes (some f) = f.content

-- The bytes that were logged.
abbrev pub logged : Log → List ℕ
logged l = archived l.entries ++ current_bytes l.current

archived-append :
    (es : List Entry) (e : Entry) → archived (es ++ (e ∷ [])) ≡ archived es ++ e.file.content
archived-append [] e = append-nil e.file.content
archived-append (d ∷ es) e = simp (archived-append es e, append_assoc)

unlink_fresh :
    (name : Str) (es : List Entry) → ((e : Entry) → In e es → e.name ≢ name) → unlink name es ≡ es
unfolding unlink
unlink_fresh name [] h = refl
unlink_fresh name (e ∷ es) h =
    if-ind (λ l. l ≡ e ∷ es) (str_eq e.name name)
      (λ t. absurd (h e (inl refl) (str_eq→≡ e.name name t)))
      (λ _. ap (λ l. e ∷ l) (unlink_fresh name es (λ d m. h d (inr m))))

module _ (a : Answers) (works : Works a) (filesize : ℕ) (buffer : List ℕ)
    (fits : length buffer ≤ filesize) where
  -- The state after the buffer was written to the file `f`.
  abbrev grown : Log → File → Log
  grown l f = record l {
    current = some (record f { content = f.content ++ buffer });
    size = l.size + length buffer;
  }

  write_tainlog_open :
      (l : Log) (f : File)
      → l.opened ≡ true
      → l.current ≡ some f
      → write_tainlog a buffer l ≡ grown l f
  unfolding write_tainlog
  write_tainlog_open l f o c = ground (arith, works.writes)

  grown-IsReady :
      (l : Log) (f : File)
      → l.opened ≡ true
      → l.size ≡ length f.content
      → l.size + length buffer ≤ filesize
      → IsReady filesize (grown l f)
  grown-IsReady l f o z b = record {
    is_open = o;
    file = record f { content = f.content ++ buffer };
    is_current = refl;
    sized = omega (arith, length-append f.content buffer);
    bounded = b;
  }

  logged-grown : (l : Log) (f : File) → l.current ≡ some f → logged (grown l f) ≡ logged l ++ buffer
  logged-grown l f c = rw c (sym (append_assoc (archived l.entries) f.content buffer))

  -- The state after the file `f` was archived and a new one was made.
  abbrev rotated : Tain → Log → File → Log
  rotated stamp l f = record l {
    opened = true;
    size = 0;
    current = some (record { regular = true; content = [] });
    entries = l.entries ++ (record { name = tain_format stamp; file = f } ∷ []);
  }

  abbrev closed : Tain → Log → File → Log
  closed stamp l f = record l {
    opened = false;
    current = none;
    entries = l.entries ++ (record { name = tain_format stamp; file = f } ∷ []);
  }

  close_tainlog-closed :
      (stamp : Tain) (l : Log) (f : File)
      → l.current ≡ some f
      → unlink (tain_format stamp) l.entries ≡ l.entries
      → close_tainlog a stamp l ≡ closed stamp l f
  unfolding close_tainlog rename_current
  close_tainlog-closed stamp l f c fresh = ground (arith, works.renames)

  open_tainlog-rotated :
      (stamp : Tain) (l : Log) (f : File) → open_tainlog a (closed stamp l f) ≡ rotated stamp l f
  unfolding open_tainlog open_found
  open_tainlog-rotated stamp l f = ground (arith, works.stats, works.opens, works.locks)

  open_tainlog_opened : (l : Log) → l.opened ≡ true → open_tainlog a l ≡ l
  unfolding open_tainlog
  open_tainlog_opened l o = ground arith

  archive_full-closed :
      (stamp : Tain) (l : Log) (f : File)
      → l.current ≡ some f
      → unlink (tain_format stamp) l.entries ≡ l.entries
      → archive_full a none stamp l ≡ some (closed stamp l f)
  unfolding archive_full flush_archive
  archive_full-closed stamp l f c fresh = rw (close_tainlog-closed stamp l f c fresh) refl

  -- Where every call of APR succeeds, the file is ready, the buffer is no longer than a file may be,
  -- no archived files are removed and no entry has the name of the new archive: append_tainlog
  -- leaves the file ready, its size within the bound, and adds the buffer to the logged bytes.
  pub append_tainlog-IsReady :
      (stamp : Tain) (l : Log)
      → IsReady filesize l
      → ((e : Entry) → In e l.entries → e.name ≢ tain_format stamp)
      → (l' : Log) × ((append_tainlog a filesize none stamp buffer l ≡ some l')
          × (IsReady filesize l' × (logged l' ≡ logged l ++ buffer)))
  unfolding append_tainlog
  append_tainlog-IsReady stamp l r fresh =
      let f : File = r.file in
      let c : l.current ≡ some f = r.is_current in
      let next : Log → Log = λ x. write_tainlog a buffer (open_tainlog a x) in
      let P : Option Log → Type 0 = λ o.
        (l' : Log) × ((Option.map next o ≡ some l')
          × (IsReady filesize l' × (logged l' ≡ logged l ++ buffer))) in
      let empty : File = record { regular = true; content = [] } in
      let l1 : Log = rotated stamp l f in
      if-ind P (ltb filesize (l.size + length buffer))
        (λ t. (
          grown l1 empty,
          (
            ap (Option.map next) (
                  archive_full-closed stamp l f c
                    (unlink_fresh (tain_format stamp) l.entries fresh))
                ∙ (ap some (
                    ap (write_tainlog a buffer) (open_tainlog-rotated stamp l f)
                    ∙ write_tainlog_open l1 empty refl refl)),
            (
              grown-IsReady l1 empty refl refl (omega arith),
              logged-grown l1 empty refl
                  ∙ ap (λ x. x ++ buffer)
                      (append-nil (archived l1.entries)
                        ∙ (archived-append l.entries (record { name = tain_format stamp; file = f })
                            ∙ rw c refl)),
            ),
          ),
        ))
        (λ t. (
          grown l f,
          (
            ap some (
                ap (write_tainlog a buffer) (open_tainlog_opened l r.is_open)
                ∙ write_tainlog_open l f r.is_open c),
            (grown-IsReady l f r.is_open r.sized (ground arith), logged-grown l f c),
          ),
        ))
