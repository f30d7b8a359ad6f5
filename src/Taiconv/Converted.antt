-- ===== src/Taiconv/Converted.antt =====
-- What main of srvctl/src/taiconv.c prints, whichever way it reads its input.
use ngim.Base.{
  ℕ, ◌≡◌, Bool, true, false, Option, none, some, List, inl, inr, Bool-cases, ◌⊎◌, ◌==◌, ◌&&◌, not,
  refl, if-ind,
}
use ngim.Cmdline.{Str, Parsed, index}
use ngim.Priv
use ngim.Priv.{
  Process, Host, dropped, failed, priv_none, priv_setcaps, drop_caps, drop_user, priv_drop,
}
use ngim.Priv.Dropped.{IsDropped, priv_drop-IsDropped}
use ngim.Taiconv.{Clock}
use ngim.Taiconv.Read.{is_empty}
use ngim.Taiconv.SameAll.{convert_mmap_all-convert_read_all}
use ngim.Taiconv.SameLines.{convert_mmap_nrm-convert_read_nrm}
use ngim.Taiconv.Main.{
  arg_file, taiconv_parse, Choice, validate_cmdline, Formats, clock_for, Source, World, source_of,
  printed, opens, finish, if_dropped, unprivileged_run, mmap_converted, read_converted,
  convert_mmap, convert_read, or_read, main_valid, main_parsed, main,
}

same_converted :
    (clock : Clock) (all : Bool) (w : World) (s : List ℕ)
    → is_empty s ≡ false
    → (out : List ℕ) × (read_converted clock all w s ≡ some out)
      × (mmap_converted clock all w s ≡ some out)
same_converted clock true w s h = convert_mmap_all-convert_read_all clock s h
same_converted clock false w s h = convert_mmap_nrm-convert_read_nrm clock s h

-- Both functions can open it.
abbrev pub CanOpen : Option Str → Source → Type 0
CanOpen file source = (opens file source.mmap_opens ≡ true) × (opens file source.read_opens ≡ true)

-- Without a user or a group, ngim_priv_drop returns, and changes nothing where it fails.
unprivileged-cases :
    (h : Host) (p : Process)
    → ((p' : Process) × (priv_drop h priv_none none none p ≡ dropped p'))
      ⊎ (priv_drop h priv_none none none p ≡ failed p)
unfolding priv_drop drop_user drop_caps priv_setcaps
unprivileged-cases h p =
    let P : Priv.Result → Type 0 = λ r. ((p' : Process) × (r ≡ dropped p')) ⊎ (r ≡ failed p) in
    if-ind P (p.uid == 0)
      (λ _.
        if-ind P (not (h.can_prctl && h.can_init)) (λ _. inr refl)
          (λ _. if-ind P h.can_set_proc (λ _. inl (_, refl)) (λ _. inr refl)))
      (λ _. inl (p, refl))

-- The credentials are those that ngim_priv_drop leaves where it returns 0, and else the ones from
-- before.
abbrev pub IsUnprivileged : Host → Process → Process → Type 0
IsUnprivileged h p p' =
    ((priv_drop h priv_none none none p ≡ dropped p') × IsDropped h priv_none none none p p')
    ⊎ ((priv_drop h priv_none none none p ≡ failed p) × (p' ≡ p))

module _ (clock : Clock) (all : Bool) (w : World) where
  unprivileged_run-printed :
      (out : List ℕ)
      → (p : Process) × (unprivileged_run clock all w (some out) ≡ printed out p)
        × IsUnprivileged w.host w.process p
  unfolding unprivileged_run if_dropped finish
  unprivileged_run-printed out = elim (unprivileged-cases w.host w.process) [
    | inl (p, d) ↦ (p, rw d, inl (d, priv_drop-IsDropped w.host priv_none none none w.process p d))
    | inr d ↦ (w.process, rw d, inr (d, refl))
  ]

  or_read-printed :
      (file : Option Str)
      → CanOpen file (source_of w file)
      → is_empty (source_of w file).content ≡ false
      → (out : List ℕ) × (p : Process) × (read_converted clock all w (source_of w file).content
          ≡ some out)
        × (or_read clock all w file (convert_mmap clock all w file) ≡ printed out p)
        × IsUnprivileged w.host w.process p
  unfolding or_read convert_mmap convert_read
  or_read-printed file (mm, rd) h =
      let (out, read, mapped) = same_converted clock all w (source_of w file).content h in
      let (p, run, credentials) = unprivileged_run-printed out in
      elim (Bool-cases (source_of w file).mapped) [
        | inl m ↦ (out, p, read, rw (mm, m, mapped, run), credentials)
        | inr m ↦ (out, p, read, rw (mm, m, rd, read, run), credentials)
      ]

-- On a command line that is accepted, an input that can be opened and is not empty is printed to
-- its end as the buffered conversion prints it, whether it can be mapped to memory or not, and
-- whether the privileges could be dropped or not. Where ngim_priv_drop returns 0 the process has
-- what that promises, and else the credentials that it had.
pub main-IsConverted :
    (f : Formats) (w : World) (argv : List Str) (i : ℕ) (parsed : Parsed) (choice : Choice)
    → taiconv_parse argv ≡ (index i, parsed)
    → validate_cmdline parsed.selected ≡ some choice
    → CanOpen (parsed.vars arg_file) (source_of w (parsed.vars arg_file))
    → is_empty (source_of w (parsed.vars arg_file)).content ≡ false
    → (out : List ℕ) × (p : Process) × (read_converted
          (clock_for f choice)
          choice.all
          w
          (source_of w (parsed.vars arg_file)).content
        ≡ some out)
      × (main f w argv ≡ printed out p)
      × IsUnprivileged w.host w.process p
unfolding main main_parsed main_valid
main-IsConverted f w argv i parsed choice accepted valid opened h =
    rw (accepted, valid)
      (or_read-printed (clock_for f choice) choice.all w (parsed.vars arg_file) opened h)
