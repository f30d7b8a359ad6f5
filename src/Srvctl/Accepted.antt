-- ===== src/Srvctl/Accepted.antt =====
-- Which command lines validate_cmdline of srvctl/src/srvctl.c accepts.
use ngim.Base.{
  ℕ, ◌+◌, ◌≡◌, ◌≤◌, ◌↔◌, refl, sym, ap, ◌∙◌, ◌||◌, ◌⊎◌, inl, inr, Bool-cases, List, Bool, true,
  false, Option, none, some, [], ◌∷◌, ◌&&◌, not, has, length, if-ind, if_true, if_false, Gives,
  Gives-some, Gives-none, All, arith,
}
use ngim.Cmdline.{Str, is_some}
use ngim.Srvctl.Options.{
  cmd_base, cmd_up, cmd_down, cmd_restart, cmd_signal, cmd_sigterm, cmd_start, cmd_stop, cmd_term,
  cmd_kill, signal_byname, service_signals, dir_base, priority_maxlen, cmd_help, cmd_killall,
  cmd_list, cmd_priority, cmd_status, cmd_utc, all_digits, valid_priority, one_if, commands,
  valid_mode, base_of, signum_of, check_mode, validate_cmdline, Signals, Arguments, Choice,
}

-- None, or exactly one, of the tests holds.
abbrev pub NoneOf : List Bool → Type 0
NoneOf [] = Unit
NoneOf (b ∷ bs) = (b ≡ false) × NoneOf bs

abbrev pub OneOf : List Bool → Type 0
OneOf [] = ⊥
OneOf (b ∷ bs) = ((b ≡ true) × NoneOf bs) ⊎ ((b ≡ false) × OneOf bs)

-- Which commands for a service the command line has; a signal by name or by --sigterm is one.
abbrev pub given : ℕ → List Bool
given selected =
    has selected cmd_priority
    ∷ has selected cmd_up
    ∷ has selected cmd_down
    ∷ has selected cmd_restart
    ∷ (has selected cmd_signal || has selected cmd_sigterm)
    ∷ has selected cmd_start
    ∷ has selected cmd_stop
    ∷ has selected cmd_term
    ∷ has selected cmd_kill
    ∷ []

ones : List Bool → ℕ
ones [] = 0
ones (b ∷ bs) = one_if b + ones bs

ones-NoneOf : (bs : List Bool) → (ones bs ≡ 0) ↔ NoneOf bs
unfolding ones
ones-NoneOf [] = ground arith
ones-NoneOf (true ∷ bs) = ground arith
ones-NoneOf (false ∷ bs) = ground (arith, ones-NoneOf bs)

ones-OneOf : (bs : List Bool) → (ones bs ≡ 1) ↔ OneOf bs
unfolding ones
ones-OneOf [] = ground arith
ones-OneOf (true ∷ bs) = ground (arith, ones-NoneOf bs)
ones-OneOf (false ∷ bs) = ground (arith, ones-OneOf bs)

commands-ones : (selected : ℕ) → commands selected ≡ ones (given selected)
unfolding commands ones
commands-ones selected = omega arith

-- One of the four modes; one command with a name, and none without; --utc only with --status.
unfoldable pub IsMode : (list status killall utc name : Bool) → List Bool → Type 0
IsMode list status killall utc name bs =
    OneOf (list ∷ status ∷ killall ∷ name ∷ [])
    × ((name ≡ false → NoneOf bs) × ((name ≡ true → OneOf bs) × (utc ≡ true → status ≡ true)))

-- The same with numbers.
IsCounted : (list status killall utc name : Bool) → ℕ → Type 0
IsCounted list status killall utc name n =
    (one_if list + one_if status + one_if killall + one_if name ≡ 1)
    × ((n ≡ one_if name) × (utc ≡ true → status ≡ true))

valid_mode-IsCounted :
    (list status killall utc name : Bool) (n : ℕ)
    → (valid_mode list status killall utc name n ≡ true) ↔ IsCounted list status killall utc name n
unfolding valid_mode IsCounted
valid_mode-IsCounted true status killall utc name n = ground arith
valid_mode-IsCounted false true killall utc name n = ground arith
valid_mode-IsCounted false false true utc name n = ground arith
valid_mode-IsCounted false false false utc name n = ground arith

modes_counted :
    (list status killall name : Bool)
    → (one_if list + one_if status + one_if killall + one_if name ≡ 1)
      ↔ OneOf (list ∷ status ∷ killall ∷ name ∷ [])
modes_counted list status killall name =
    let e : one_if list + one_if status + one_if killall + one_if name
        ≡ ones (list ∷ status ∷ killall ∷ name ∷ []) =
      unfold ones in omega arith in
    rw e (ones-OneOf (list ∷ status ∷ killall ∷ name ∷ []))

name_counted :
    (name : Bool) (bs : List Bool)
    → (ones bs ≡ one_if name) ↔ ((name ≡ false → NoneOf bs) × (name ≡ true → OneOf bs))
name_counted false bs = (
  λ e. ((λ _. (ones-NoneOf bs).0 e), λ h. let no : ⊥ = cc in absurd no),
  λ h. (ones-NoneOf bs).1 (h.0 refl),
)
name_counted true bs = (
  λ e. ((λ h. let no : ⊥ = cc in absurd no), λ _. (ones-OneOf bs).0 e),
  λ h. (ones-OneOf bs).1 (h.1 refl),
)

valid_mode_iff :
    (list status killall utc name : Bool) (selected : ℕ)
    → (valid_mode list status killall utc name (commands selected) ≡ true)
      ↔ IsMode list status killall utc name (given selected)
unfolding IsMode IsCounted
valid_mode_iff list status killall utc name selected =
    let c = valid_mode-IsCounted list status killall utc name (commands selected) in
    let m = modes_counted list status killall name in
    let n = name_counted name (given selected) in
    let e : commands selected ≡ ones (given selected) = commands-ones selected in
    (
      λ v.
          let (modes, (count, utc_status)) = c.0 v in
          let (no_name, has_name) = n.0 (sym e ∙ count) in
          (m.0 modes, (no_name, (has_name, utc_status))),
      λ h.
          let (modes, (no_name, (has_name, utc_status))) = h in
          c.1 (m.1 modes, (e ∙ n.1 (no_name, has_name), utc_status)),
    )

abbrev pub IsDigit : ℕ → Type 0
IsDigit c = (b'0' ≤ c) × (c ≤ b'9')

all_digits_iff : (p : Str) → (all_digits p ≡ true) ↔ All IsDigit p
unfolding all_digits
all_digits_iff [] = ground arith
all_digits_iff (c ∷ p) = ground (arith, all_digits_iff p)

pub valid_priority_iff :
    (p : Str) → (valid_priority p ≡ true) ↔ ((length p ≤ priority_maxlen) × All IsDigit p)
unfolding valid_priority
valid_priority_iff p = ground (arith, all_digits_iff p)

-- A signal that is given is known by its name; without one the number is 0.
abbrev pub IsSignal : Signals → ℕ → Str → ℕ → Type 0
IsSignal s selected sign signum =
    ((has selected cmd_signal || has selected cmd_sigterm) ≡ true
      → signal_byname sign (service_signals s) ≡ some signum)
    × ((has selected cmd_signal || has selected cmd_sigterm) ≡ false → signum ≡ 0)

-- The base directory is the one that is given, that of the environment, or the usual one.
abbrev from_env : Option Str → Str
from_env none = dir_base
from_env (some base) = base

abbrev pub IsBase : Option Str → ℕ → Str → Str → Type 0
IsBase env selected given_base base =
    (has selected cmd_base ≡ true → base ≡ given_base)
    × (has selected cmd_base ≡ false → base ≡ from_env env)

signum_of_iff :
    (s : Signals) (env : Option Str) (selected : ℕ) (args : Arguments) (signum : ℕ)
    → (signum_of s env selected args ≡ some signum) ↔ IsSignal s selected args.sign signum
unfolding signum_of
signum_of_iff s env selected args signum =
    let given_signal : Bool = has selected cmd_signal || has selected cmd_sigterm in
    elim (Bool-cases given_signal) [
      | inl t ↦ (
        λ h. ((λ _. sym (if_true _ _ t) ∙ h), λ f. let no : ⊥ = cc in absurd no),
        λ h. if_true _ _ t ∙ h.0 t,
      )
      | inr f ↦ (
        λ h. (
          (λ t. let no : ⊥ = cc in absurd no),
          λ _. let e : some 0 ≡ some signum = sym (if_false _ _ f) ∙ h in cc,
        ),
        λ h. if_false _ _ f ∙ ap some (sym (h.1 f)),
      )
    ]

base_of_iff :
    (s : Signals) (env : Option Str) (selected : ℕ) (args : Arguments) (base : Str)
    → (base ≡ base_of s env selected args) ↔ IsBase env selected args.base base
unfolding base_of
base_of_iff s env selected args base =
    let same : (elim env [ none ↦ dir_base | some b ↦ b ]) ≡ from_env env =
      elim env as (λ e. (elim e [ none ↦ dir_base | some b ↦ b ]) ≡ from_env e) [
        | none ↦ refl
        | some b ↦ refl
      ] in
    elim (Bool-cases (has selected cmd_base)) [
      | inl t ↦ (
        λ h. ((λ _. h ∙ if_true _ _ t), λ f. let no : ⊥ = cc in absurd no),
        λ h. h.0 t ∙ sym (if_true _ _ t),
      )
      | inr f ↦ (
        λ h. ((λ t. let no : ⊥ = cc in absurd no), λ _. h ∙ (if_false _ _ f ∙ same)),
        λ h. h.1 f ∙ (sym same ∙ sym (if_false _ _ f)),
      )
    ]

-- What the command line has to be, and what is chosen then.
pub record IsAccepted (s : Signals) (env : Option Str) (selected : ℕ) (args : Arguments)
    (c : Choice) : Type 0 where
  pub no_help : has selected cmd_help ≡ false
  pub priority :
      has selected cmd_priority ≡ true
      → (length args.priority ≤ priority_maxlen) × All IsDigit args.priority
  pub mode :
      IsMode
        (has selected cmd_list)
        (has selected cmd_status)
        (has selected cmd_killall)
        (has selected cmd_utc)
        (is_some args.name)
        (given selected)
  pub signal : IsSignal s selected args.sign c.signum
  pub base : IsBase env selected args.base c.base
  pub utc : c.utc ≡ has selected cmd_utc

module _ (s : Signals) (env : Option Str) (selected : ℕ) (args : Arguments) where
  check_mode-IsAccepted :
      (signum : Option ℕ)
      → has selected cmd_help ≡ false
      → (has selected cmd_priority ≡ true → valid_priority args.priority ≡ true)
      → signum_of s env selected args ≡ signum
      → Gives (IsAccepted s env selected args) (check_mode s env selected args signum)
  unfolding check_mode
  check_mode-IsAccepted none no_help priority e = Gives-none _
  check_mode-IsAccepted (some signum) no_help priority e =
      let name : Bool = is_some args.name in
      let P : Option Choice → Type 0 = Gives (IsAccepted s env selected args) in
      if-ind P
        (valid_mode (has selected cmd_list) (has selected cmd_status) (has selected cmd_killall)
          (has selected cmd_utc) name (commands selected))
        (λ v. Gives-some _ _ (record {
          no_help = no_help;
          priority = λ h. (valid_priority_iff args.priority).0 (priority h);
          mode =
              (valid_mode_iff (has selected cmd_list) (has selected cmd_status)
                  (has selected cmd_killall) (has selected cmd_utc) name selected).0
                v;
          signal = (signum_of_iff s env selected args signum).0 e;
          base = (base_of_iff s env selected args _).0 refl;
          utc = refl;
        }))
        (λ _. Gives-none _)

  priority_checked : (p v : Bool) → (p && not v) ≡ false → p ≡ true → v ≡ true
  priority_checked p v h t = ground arith

  priority_passes : (p v : Bool) → (p ≡ true → v ≡ true) → (p && not v) ≡ false
  priority_passes true v h = ground (arith, h refl)
  priority_passes false v h = refl

  validate_cmdline-IsAccepted :
      Gives (IsAccepted s env selected args) (validate_cmdline s env selected args)
  unfolding validate_cmdline
  validate_cmdline-IsAccepted =
      let p : Bool = has selected cmd_priority in
      let v : Bool = valid_priority args.priority in
      let P : Option Choice → Type 0 = Gives (IsAccepted s env selected args) in
      if-ind P (has selected cmd_help) (λ _. Gives-none _)
        (λ no_help.
          if-ind P (p && not v) (λ _. Gives-none _)
            (λ fine.
              check_mode-IsAccepted (signum_of s env selected args) no_help
                (priority_checked p v fine) refl))

  choice : Str → ℕ → Bool → Choice
  choice base signum utc = record { base = base; signum = signum; utc = utc }

  IsAccepted-validate_cmdline :
      (c : Choice)
      → IsAccepted s env selected args c
      → validate_cmdline s env selected args ≡ some c
  unfolding validate_cmdline check_mode choice
  IsAccepted-validate_cmdline c a =
      let p : Bool = has selected cmd_priority in
      let v : Bool = valid_priority args.priority in
      let fine : (p && not v) ≡ false =
        priority_passes p v (λ h. (valid_priority_iff args.priority).1 (a.priority h)) in
      let mode : valid_mode (has selected cmd_list) (has selected cmd_status)
            (has selected cmd_killall) (has selected cmd_utc) (is_some args.name)
            (commands selected)
          ≡ true =
        (valid_mode_iff (has selected cmd_list) (has selected cmd_status) (has selected cmd_killall)
            (has selected cmd_utc) (is_some args.name) selected).1
          a.mode in
      let same : choice (base_of s env selected args) c.signum (has selected cmd_utc) ≡ c =
        ap (λ b. choice b c.signum (has selected cmd_utc))
          (sym ((base_of_iff s env selected args c.base).1 a.base))
        ∙ ap (choice c.base c.signum) (sym a.utc) in
      if_false _ _ a.no_help
      ∙ (if_false _ _ fine
          ∙ (ap (check_mode s env selected args)
                ((signum_of_iff s env selected args c.signum).1 a.signal)
              ∙ (if_true _ _ mode ∙ ap some same)))

  -- A command line is accepted with a choice exactly when: it does not ask for help; a given
  -- priority has digits only, and not too many; it has exactly one of --list, --status, --kill-all
  -- and a name, with exactly one command and a name or neither, where --signal and --sigterm are one
  -- command, and --utc only with --status; a
  -- signal that is given is known. The choice then has that signal, the base directory and the zone.
  pub validate_cmdline_iff :
      (c : Choice)
      → (validate_cmdline s env selected args ≡ some c) ↔ IsAccepted s env selected args c
  validate_cmdline_iff c = (validate_cmdline-IsAccepted c, IsAccepted-validate_cmdline c)
