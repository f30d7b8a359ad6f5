-- ===== src/Monitor/Suspension.antt =====
-- Suspension in srvctl/src/monitor.c: which starts suspend a child, and for how long.
use ngim.Base.{
  append-nil, append_assoc, ℕ, ◌+◌, ◌<◌, ◌≡◌, ap, ◌∙◌, Bool, true, false, List, [], ◌∷◌, ◌++◌, ltb,
  ◌==◌, ◌&&◌, if◌then◌else◌, arith,
}
use ngim.Monitor.{Monitor, Child, Which, run_child, log_child, child}
use ngim.Monitor.Timer.{handle_alarm}
use ngim.Monitor.Invariant.{Timed, handle_alarm-Timed}

-- What an alarm makes of a child.
abbrev pub after_alarm : Child → Child
after_alarm c =
    if c.suspended
    then (if c.suspended_periods == 2
        then record c { suspended = false; suspended_periods = 0 }
        else record c { suspended_periods = c.suspended_periods + 1 })
    else record c { suspended = ltb 2 c.starts; starts = 0 }

-- The commands that the end of a suspension writes.
abbrev pub wakeups : Child → List ℕ
wakeups c = if c.suspended && c.suspended_periods == 2 then b'w' ∷ [] else []

-- Whether there is a reason to keep the timer.
abbrev pub restarts : Child → Bool
restarts c = if c.suspended then ltb c.suspended_periods 2 else ltb 0 c.starts

-- An alarm that was pending goes off.
abbrev pub one_alarm : Monitor → Monitor
one_alarm m = handle_alarm (record m { alarm_pending = false })

after_alarm-handle_alarm :
    (w : Which) (m : Monitor) → Timed m → child w (one_alarm m) ≡ after_alarm (child w m)
unfolding handle_alarm
after_alarm-handle_alarm run_child m h = ground arith
after_alarm-handle_alarm log_child m h = ground arith

wakeups-handle_alarm :
    (m : Monitor) → Timed m → (one_alarm m).control ≡ m.control ++ (wakeups m.log ++ wakeups m.run)
unfolding handle_alarm
wakeups-handle_alarm m h =
    ground (arith, append-nil m.control, append_assoc m.control (b'w' ∷ []) (b'w' ∷ []))

-- A child that is suspended, after `p` periods.
abbrev pub IsSuspended : ℕ → Child → Type 0
IsSuspended p c = (c.suspended ≡ true) × (c.suspended_periods ≡ p)

suspended-pending :
    (w : Which) (m : Monitor) → Timed m → (child w m).suspended ≡ true → m.alarm_pending ≡ true
suspended-pending run_child m h s = ground arith
suspended-pending log_child m h s = ground arith

started-pending :
    (w : Which) (m : Monitor) → Timed m → 2 < (child w m).starts → m.alarm_pending ≡ true
started-pending run_child m h s = ground arith
started-pending log_child m h s = ground arith

idle_periods :
    (w : Which) (m : Monitor)
    → Timed m
    → (child w m).suspended ≡ false
    → (child w m).suspended_periods ≡ 0
idle_periods run_child m h s = ground arith
idle_periods log_child m h s = ground arith

IsSuspended-begins :
    (c : Child)
    → c.suspended_periods ≡ 0
    → c.suspended ≡ false
    → 2 < c.starts
    → IsSuspended 0 (after_alarm c)
IsSuspended-begins c z idle s = ground arith

IsSuspended-continues :
    (c : Child) (p : ℕ) → p < 2 → IsSuspended p c → IsSuspended (p + 1) (after_alarm c)
IsSuspended-continues c p b s = ground arith

IsSuspended-ends : (c : Child) → IsSuspended 2 c → (after_alarm c).suspended ≡ false
IsSuspended-ends c s = ground arith

begins :
    (w : Which) (m : Monitor)
    → Timed m
    → (child w m).suspended ≡ false
    → 2 < (child w m).starts
    → Timed (one_alarm m) × IsSuspended 0 (child w (one_alarm m))
begins w m h idle s =
    let e : child w (one_alarm m) ≡ after_alarm (child w m) = after_alarm-handle_alarm w m h in
    (
      handle_alarm-Timed m (started-pending w m h s) h,
      rw e (IsSuspended-begins (child w m) (idle_periods w m h idle) idle s),
    )

continues :
    (w : Which) (m : Monitor) (p : ℕ)
    → p < 2
    → Timed m
    → IsSuspended p (child w m)
    → Timed (one_alarm m) × IsSuspended (p + 1) (child w (one_alarm m))
continues w m p b h s =
    let e : child w (one_alarm m) ≡ after_alarm (child w m) = after_alarm-handle_alarm w m h in
    (
      handle_alarm-Timed m (suspended-pending w m h s.0) h,
      rw e (IsSuspended-continues (child w m) p b s),
    )

ends :
    (w : Which) (m : Monitor)
    → Timed m
    → IsSuspended 2 (child w m)
    → Timed (one_alarm m) × ((child w (one_alarm m)).suspended ≡ false)
ends w m h s =
    let e : child w (one_alarm m) ≡ after_alarm (child w m) = after_alarm-handle_alarm w m h in
    (handle_alarm-Timed m (suspended-pending w m h s.0) h, rw e (IsSuspended-ends (child w m) s))

-- Among the commands `cs`, the wakeup stands after `old`.
abbrev pub WokenAfter : List ℕ → List ℕ → Type 0
WokenAfter old cs = (a : List ℕ) × ((b : List ℕ) × (cs ≡ old ++ (a ++ (b'w' ∷ b))))

wakeups-ends : (c : Child) → IsSuspended 2 c → wakeups c ≡ b'w' ∷ []
wakeups-ends c s = ground arith

ends-wakes :
    (w : Which) (m : Monitor)
    → Timed m
    → IsSuspended 2 (child w m)
    → WokenAfter m.control (one_alarm m).control
ends-wakes run_child m h s = (
  wakeups m.log,
  (
    [],
    wakeups-handle_alarm m h ∙ ap (λ ws. m.control ++ (wakeups m.log ++ ws)) (wakeups-ends m.run s),
  ),
)
ends-wakes log_child m h s = (
  [],
  (
    wakeups m.run,
    wakeups-handle_alarm m h ∙ ap (λ ws. m.control ++ (ws ++ wakeups m.run)) (wakeups-ends m.log s),
  ),
)

-- What holds of a child that waits for the end of its suspension: another alarm is to come.
abbrev pub IsWaiting : Which → Monitor → Type 0
IsWaiting w m = ((child w m).suspended ≡ true) × (m.alarm_pending ≡ true)

-- What may happen between two alarms: anything that leaves the suspension of the child alone, and the
-- timer and the alarm as the children need them.
pub record KeepsSuspension (w : Which) (m m' : Monitor) : Type 0 where
  pub timed : Timed m'
  pub suspended : (child w m').suspended ≡ (child w m).suspended
  pub periods : (child w m').suspended_periods ≡ (child w m).suspended_periods

kept :
    (w : Which) (p : ℕ) (m m' : Monitor)
    → KeepsSuspension w m m'
    → IsSuspended p (child w m)
    → IsSuspended p (child w m')
kept w p m m' k s = (k.suspended ∙ s.0, k.periods ∙ s.1)

-- Where the timer and the alarm are as the children need them, and a child that is not suspended was
-- started more than twice since the last alarm, the next alarm suspends it. It stays suspended, with
-- another alarm pending, until the fourth one, which ends the suspension and writes a wakeup command.
-- What happens between the alarms is anything that leaves the suspension of this child alone, and the
-- timer and the alarm as the children need them; a command that resets the suspension does not.
pub suspension_lasts :
    (w : Which) (m m1 m2 m3 : Monitor)
    → Timed m
    → (child w m).suspended ≡ false
    → 2 < (child w m).starts
    → KeepsSuspension w (one_alarm m) m1
    → KeepsSuspension w (one_alarm m1) m2
    → KeepsSuspension w (one_alarm m2) m3
    → IsWaiting w m1
      × (IsWaiting w m2
          × (IsWaiting w m3
              × (((child w (one_alarm m3)).suspended ≡ false)
                  × WokenAfter m3.control (one_alarm m3).control)))
suspension_lasts w m m1 m2 m3 h idle s k1 k2 k3 =
    let s1 = kept w 0 (one_alarm m) m1 k1 (begins w m h idle s).1 in
    let s2 = kept w 1 (one_alarm m1) m2 k2 (continues w m1 0 (omega arith) k1.timed s1).1 in
    let s3 = kept w 2 (one_alarm m2) m3 k3 (continues w m2 1 (omega arith) k2.timed s2).1 in
    (
      (s1.0, suspended-pending w m1 k1.timed s1.0),
      (
        (s2.0, suspended-pending w m2 k2.timed s2.0),
        (
          (s3.0, suspended-pending w m3 k3.timed s3.0),
          ((ends w m3 k3.timed s3).1, ends-wakes w m3 k3.timed s3),
        ),
      ),
    )
