-- ===== src/Monitor/Loop.antt =====
-- The main loop of monitor() in srvctl/src/monitor.c, and the signals that come between its calls.
use ngim.Base.{ℕ, ◌≡◌, true, Option, none, some, List, [], ◌∷◌, if◌then◌else◌}
use ngim.Tai.{Tain}
use ngim.Monitor.{Monitor, Signals, init}
use ngim.Monitor.Children.{Answers, check_children, start_children, write_status}
use ngim.Monitor.Commands.{Input, Waits, wait_for_command}
use ngim.Monitor.Timer.{handler, alarm_fires}

-- What a round of the loop meets.
pub record Round : Type 0 where
  pub now : Tain
  pub exited : List ℕ
  pub answers : Answers
  pub input : Input
  pub waits : Waits

module _ (s : Signals) where
  unfoldable pub wait_after : Round → Option Monitor → Option Monitor
  wait_after r none = none
  wait_after r (some m) = wait_for_command s r.input r.waits m

  -- The body of the loop, with no signal in it.
  unfoldable pub round : Round → Monitor → Option Monitor
  unfolding wait_after
  round r m = wait_after r (start_children r.now r.answers (check_children r.now r.exited m))

  -- The loop over the rounds that come, until flag_stop is set.
  unfoldable pub rounds : List Round → Monitor → Option Monitor
  rounds [] m = some m
  rounds (r ∷ rs) m = elim (round r m) [
    | none ↦ none
    | some m' ↦ let rest = rounds rs m' in if m'.flag_stop then some m' else rest
  ]

  -- A call of the loop, or a signal between two calls. SIGALRM comes only if an alarm is pending.
  pub data Step (m : Monitor) : Monitor → Type 0 where
    reap : (now : Tain) (exited : List ℕ) → Step m (check_children now exited m)
    start : (now : Tain) (a : Answers) {m' : Monitor} → start_children now a m ≡ some m' → Step m m'
    wait :
        (input : Input) (waits : Waits) {m' : Monitor}
        → wait_for_command s input waits m ≡ some m'
        → Step m m'
    alarm : m.alarm_pending ≡ true → Step m (alarm_fires s m)
    signal : (sig : ℕ) → (sig ≡ s.sigalrm → ⊥) → Step m (handler s sig m)

  -- What is reached from the start, where the first status was written at the time `now`.
  pub data Reach (now : Tain) : Monitor → Type 0 where
    begin : Reach now (write_status now init)
    step : {m m' : Monitor} → Reach now m → Step m m' → Reach now m'
