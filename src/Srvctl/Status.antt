-- ===== src/Srvctl/Status.antt =====
-- What --status of srvctl/src/srvctl.c makes of the status file of a monitor. How the machine loads
-- an apr_uint32_t is a parameter, and so is what `changed` and `stamp` hold before they are written.
use ngim.Base.{
  ℕ, ◌/◌, ◌%◌, Bool, Option, none, some, List, ltb, not, ◌==◌, take, drop, get_or, if◌then◌else◌,
}
use ngim.Tai.{Tain, tain_diff}
use ngim.Tai.Bytes.{tain_unpack}

-- The three formats STATUS_MESSAGE_RUNNING_FORMAT with their arguments, and
-- STATUS_MESSAGE_NOTRUNNING.
pub data Proc : Type 0 where
  not_running : Proc
  up_minutes : (pid minutes seconds : ℕ) → Proc
  up_hours : (pid hours minutes seconds : ℕ) → Proc
  up_days : (pid days hours minutes seconds : ℕ) → Proc

-- The end of format_proc.
unfoldable pub format_uptime : ℕ → ℕ → Proc
format_uptime pid uptime =
    let seconds = uptime % 60 in
    let minutes = uptime / 60 % 60 in
    let hours = uptime / 3600 % 24 in
    let days = uptime / 86400 in
    if ltb 0 days
    then up_days pid days hours minutes seconds
    else if ltb 0 hours
    then up_hours pid hours minutes seconds
    else up_minutes pid minutes seconds

-- ngim_tain_diff, with `uptime` 0 before.
abbrev pub elapsed : Tain → Tain → ℕ
elapsed changed now = elim (tain_diff changed now) [ none ↦ 0 | some d ↦ d ]

-- "Calculate the approximate uptime".
unfoldable pub uptime_of : Tain → Tain × Bool → ℕ
uptime_of now (changed, valid) = if valid then elapsed changed now else 0

unfoldable pub format_proc : Tain → Tain → List ℕ → ℕ → Proc
unfolding uptime_of format_uptime tain_unpack
format_proc now old packed pid =
    if pid == 0 then not_running else format_uptime pid (uptime_of now (tain_unpack packed old))

-- The arguments of STATUS_MESSAGE_FORMAT that come from the file; `updated` is `none` for "?".
pub record Report : Type 0 where
  pub updated : Option Tain
  pub run : Proc
  pub log : Proc
  pub logging : Bool

abbrev pub if_valid : Tain × Bool → Option Tain
if_valid (stamp, valid) = if valid then some stamp else none

module _ (load : List ℕ → ℕ) where
  -- format_status; each format_proc reads the clock.
  unfoldable pub format_status : (now_run now_log : Tain) → Tain → List ℕ → Report
  unfolding format_proc tain_unpack
  format_status now_run now_log old filebuf = record {
    updated = if_valid (tain_unpack (drop 0 filebuf) old);
    run = format_proc now_run old (drop 12 filebuf) (load (take 4 (drop 36 filebuf)));
    log = format_proc now_log old (drop 24 filebuf) (load (take 4 (drop 40 filebuf)));
    logging = not (get_or filebuf 44 0 == 0);
  }
