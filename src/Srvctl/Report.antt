-- ===== src/Srvctl/Report.antt =====
-- What --status of srvctl/src/srvctl.c shows of the status file that srvctl/src/monitor.c writes.
use ngim.Base.{
  ℕ, ◌+◌, ◌*◌, ◌/◌, ◌%◌, ◌^◌, ◌<◌, ◌≡◌, ◌≢◌, refl, sym, ap, ◌∙◌, ◌≤◌, inl, inr, none, Option-cases,
  true, some, List, [], ◌∷◌, ◌++◌, ltb, not, ◌==◌, length, take, drop, get_or, drop-append_at,
  get_or-append_at, take-append_at, if◌then◌else◌, if-ind, arith,
}
use ngim.Tai.{Tain, IsLabel, tain_diff}
use ngim.Tai.Diff.{nanoseconds, tain_diff-none_iff, tain_diff_bounds}
use ngim.Tai.Bytes.{tain_pack, tain_unpack}
use ngim.Tai.RoundTrip.{tain_unpack-tain_pack, length-tain_pack}
use ngim.Monitor.{Status}
use ngim.Monitor.StatusFile.{status_bytes}
use ngim.Srvctl.Status.{
  Proc, not_running, up_minutes, up_hours, up_days, format_uptime, elapsed, uptime_of, format_proc,
  Report, if_valid, format_status,
}

-- The line tells the pid and the time since the last change, in days, hours, minutes and seconds.
pub Tells : ℕ → ℕ → Proc → Type 0
Tells pid uptime not_running = pid ≡ 0
Tells pid uptime (up_minutes p m s) =
    (p ≡ pid) × ((pid ≢ 0) × ((m * 60 + s ≡ uptime) × ((m < 60) × (s < 60))))
Tells pid uptime (up_hours p h m s) =
    (p ≡ pid)
    × ((pid ≢ 0) × ((h * 3600 + (m * 60 + s) ≡ uptime) × ((h < 24) × ((m < 60) × (s < 60)))))
Tells pid uptime (up_days p d h m s) =
    (p ≡ pid)
    × ((pid ≢ 0)
        × ((d * 86400 + (h * 3600 + (m * 60 + s)) ≡ uptime) × ((h < 24) × ((m < 60) × (s < 60)))))

uptime_parts :
    (n : ℕ) → (n / 86400) * 86400 + ((n / 3600 % 24) * 3600 + ((n / 60 % 60) * 60 + n % 60)) ≡ n
uptime_parts n = omega arith

minutes_left : (n : ℕ) → n / 86400 ≡ 0 → n / 3600 % 24 ≡ 0 → (n / 60 % 60) * 60 + n % 60 ≡ n
minutes_left n d h = omega arith

hours_left : (n : ℕ) → n / 86400 ≡ 0 → (n / 3600 % 24) * 3600 + ((n / 60 % 60) * 60 + n % 60) ≡ n
hours_left n d = omega arith

format_uptime-Tells : (pid uptime : ℕ) → pid ≢ 0 → Tells pid uptime (format_uptime pid uptime)
unfolding Tells format_uptime
format_uptime-Tells pid n nonzero =
    let s_lt : n % 60 < 60 = omega arith in
    let m_lt : n / 60 % 60 < 60 = omega arith in
    let h_lt : n / 3600 % 24 < 24 = omega arith in
    if-ind (Tells pid n) (ltb 0 (n / 86400))
      (λ _. (refl, (nonzero, (uptime_parts n, (h_lt, (m_lt, s_lt))))))
      (λ t.
        let d : n / 86400 ≡ 0 = ground (arith, t) in
        if-ind (Tells pid n) (ltb 0 (n / 3600 % 24))
          (λ _. (refl, (nonzero, (hours_left n d, (h_lt, (m_lt, s_lt))))))
          (λ u.
            let h : n / 3600 % 24 ≡ 0 = ground (arith, u) in
            (refl, (nonzero, (minutes_left n d h, (m_lt, s_lt))))))

-- The time from one label to a later one in seconds: less than a second too much, or less than half a
-- millisecond too little. It is 0 where the other is not later.
pub record IsUptime (changed now : Tain) (uptime : ℕ) : Type 0 where
  pub behind : nanoseconds now ≤ nanoseconds changed → uptime ≡ 0
  pub above :
      nanoseconds changed < nanoseconds now
      → uptime * 1000000000 + nanoseconds changed < nanoseconds now + 1000000000
  pub below :
      nanoseconds changed < nanoseconds now
      → nanoseconds now < uptime * 1000000000 + nanoseconds changed + 500000

elapsed-IsUptime :
    (changed now : Tain)
    → IsLabel changed
    → IsLabel now
    → IsUptime changed now (elapsed changed now)
elapsed-IsUptime changed now c n =
    let none_iff = tain_diff-none_iff changed now c n in
    elim (Option-cases (tain_diff changed now)) [
      | inl e ↦
          let late : nanoseconds now ≤ nanoseconds changed = none_iff.0 e in
          rw (e, elapsed)
            (record {
              behind = λ _. refl;
              above = λ h. let no : ⊥ = omega (arith, late, h) in absurd no;
              below = λ h. let no : ⊥ = omega (arith, late, h) in absurd no;
            })
      | inr (d, e) ↦
          let (above, below) = tain_diff_bounds changed now d c n e in
          rw (e, elapsed)
            (record {
              behind = λ h. let no : none ≡ some d = sym (none_iff.1 h) ∙ e in absurd (cc);
              above = λ _. above;
              below = λ _. below;
            })
    ]

-- What the line tells of a child, with its pid.
abbrev pub TellsUptime : ℕ → Tain → Tain → Proc → Type 0
TellsUptime pid changed now line =
    (uptime : ℕ) × (IsUptime changed now uptime × Tells pid uptime line)

format_proc-Tells :
    (now old changed : Tain) (pid : ℕ) (s : List ℕ)
    → IsLabel changed
    → Tells pid (elapsed changed now) (format_proc now old (tain_pack changed ++ s) pid)
unfolding Tells format_proc uptime_of
format_proc-Tells now old changed pid s valid =
    let up : uptime_of now (tain_unpack (tain_pack changed ++ s) old) ≡ elapsed changed now =
      ap (uptime_of now) (tain_unpack-tain_pack changed old s valid) in
    if-ind (Tells pid (elapsed changed now)) (pid == 0) (λ z. ground (arith, z))
      (λ n.
        let nonzero : pid ≢ 0 = ground (arith, n) in
        rw up (format_uptime-Tells pid (elapsed changed now) nonzero))

-- The same of bytes and a pid that are known to be these.
format_proc_at :
    (now old changed : Tain) (pid found : ℕ) (packed s : List ℕ)
    → IsLabel changed
    → IsLabel now
    → packed ≡ tain_pack changed ++ s
    → found ≡ pid
    → TellsUptime pid changed now (format_proc now old packed found)
format_proc_at now old changed pid found packed s valid clock e f = (
  elapsed changed now,
  (
    elapsed-IsUptime changed now valid clock,
    rw (e, f) (format_proc-Tells now old changed pid s valid),
  ),
)

-- The report says what the monitor knew when it wrote the status.
pub record IsReport (now_run now_log : Tain) (st : Status) (r : Report) : Type 0 where
  pub updated : r.updated ≡ some st.updated
  pub run : TellsUptime st.run_pid st.run_changed now_run r.run
  pub log : TellsUptime st.log_pid st.log_changed now_log r.log
  pub logging : r.logging ≡ st.forward

module _ (store : ℕ → List ℕ) (load : List ℕ → ℕ) (width : (x : ℕ) → length (store x) ≡ 4)
    (loads : (x : ℕ) → x < 2 ^ 32 → load (store x) ≡ x) where
  -- What stands behind the label that comes last.
  abbrev tail : Status → List ℕ
  tail st =
      store (st.run_pid % 2 ^ 32)
      ++ (store (st.log_pid % 2 ^ 32) ++ ((if st.forward then 1 else 0) ∷ []))

  drop-status_bytes :
      (k : ℕ) (st : Status) → drop (12 + (12 + (12 + k))) (status_bytes store st) ≡ drop k (tail st)
  unfolding status_bytes
  drop-status_bytes k st =
      drop-append_at 12 (12 + (12 + k)) (tain_pack st.updated) _ (length-tain_pack st.updated)
      ∙ (drop-append_at 12 (12 + k) (tain_pack st.run_changed) _ (length-tain_pack st.run_changed)
          ∙ drop-append_at 12 k (tain_pack st.log_changed) (tail st)
              (length-tain_pack st.log_changed))

  get_or-status_bytes :
      (k : ℕ) (st : Status)
      → get_or (status_bytes store st) (12 + (12 + (12 + k))) 0 ≡ get_or (tail st) k 0
  unfolding status_bytes
  get_or-status_bytes k st =
      get_or-append_at 12 (12 + (12 + k)) 0 (tain_pack st.updated) _ (length-tain_pack st.updated)
      ∙ (get_or-append_at 12 (12 + k) 0 (tain_pack st.run_changed) _
            (length-tain_pack st.run_changed)
          ∙ get_or-append_at 12 k 0 (tain_pack st.log_changed) (tail st)
              (length-tain_pack st.log_changed))

  load_at : (x : ℕ) (rest : List ℕ) → x < 2 ^ 32 → load (take 4 (store (x % 2 ^ 32) ++ rest)) ≡ x
  load_at x rest h =
      let small : x % 2 ^ 32 ≡ x = omega arith in
      ap load (take-append_at 4 (store (x % 2 ^ 32)) rest (width (x % 2 ^ 32)))
      ∙ (ap (λ y. load (store y)) small ∙ loads x h)

  run_pid-status_bytes :
      (st : Status)
      → st.run_pid < 2 ^ 32
      → load (take 4 (drop 36 (status_bytes store st))) ≡ st.run_pid
  run_pid-status_bytes st h =
      ap (λ s. load (take 4 s)) (drop-status_bytes 0 st) ∙ load_at st.run_pid _ h

  log_pid-status_bytes :
      (st : Status)
      → st.log_pid < 2 ^ 32
      → load (take 4 (drop 40 (status_bytes store st))) ≡ st.log_pid
  log_pid-status_bytes st h =
      ap (λ s. load (take 4 s))
        (drop-status_bytes 4 st
          ∙ drop-append_at 4 0 (store (st.run_pid % 2 ^ 32)) _ (width (st.run_pid % 2 ^ 32)))
      ∙ load_at st.log_pid _ h

  logging-status_bytes : (st : Status) → not (get_or (status_bytes store st) 44 0 == 0) ≡ st.forward
  logging-status_bytes st =
      let p : ℕ = st.run_pid % 2 ^ 32 in
      let q : ℕ = st.log_pid % 2 ^ 32 in
      let e : get_or (status_bytes store st) 44 0 ≡ (if st.forward then 1 else 0) =
        get_or-status_bytes 8 st
        ∙ (get_or-append_at 4 4 0 (store p) _ (width p)
            ∙ get_or-append_at 4 0 0 (store q) _ (width q)) in
      rw e (ground arith)

  -- The labels, with what stands behind them.
  log_bytes : (st : Status) → drop 24 (status_bytes store st) ≡ tain_pack st.log_changed ++ tail st
  unfolding status_bytes
  log_bytes st =
      drop-append_at 12 12 (tain_pack st.updated) _ (length-tain_pack st.updated)
      ∙ drop-append_at 12 0 (tain_pack st.run_changed) _ (length-tain_pack st.run_changed)

  run_bytes :
      (st : Status)
      → drop 12 (status_bytes store st)
        ≡ tain_pack st.run_changed ++ (tain_pack st.log_changed ++ tail st)
  unfolding status_bytes
  run_bytes st = drop-append_at 12 0 (tain_pack st.updated) _ (length-tain_pack st.updated)

  updated_bytes :
      (old : Tain) (st : Status)
      → IsLabel st.updated
      → tain_unpack (status_bytes store st) old ≡ (st.updated, true)
  unfolding status_bytes
  updated_bytes old st u = tain_unpack-tain_pack st.updated old _ u

  -- What srvctl shows of a status file is what the monitor wrote: the time of the status, whether the
  -- log is forwarded, and for each child that it does not run, or its pid with the time since it last
  -- changed, split into days, hours, minutes and seconds: less than a second more, or less than half a
  -- millisecond less, and 0 where the clock is not past the change. The labels are valid, the pids have
  -- 32 bits, and a stored word is loaded again.
  pub format_status-IsReport :
      (now_run now_log old : Tain) (st : Status)
      → IsLabel now_run
      → IsLabel now_log
      → IsLabel st.updated
      → IsLabel st.run_changed
      → IsLabel st.log_changed
      → st.run_pid < 2 ^ 32
      → st.log_pid < 2 ^ 32
      → IsReport now_run now_log st (format_status load now_run now_log old (status_bytes store st))
  unfolding format_status
  format_status-IsReport now_run now_log old st nr nl u r l p q = record {
    updated = ap if_valid (updated_bytes old st u);
    run =
        format_proc_at now_run old st.run_changed st.run_pid _ _ _ r nr (run_bytes st)
          (run_pid-status_bytes st p);
    log =
        format_proc_at now_log old st.log_changed st.log_pid _ _ _ l nl (log_bytes st)
          (log_pid-status_bytes st q);
    logging = logging-status_bytes st;
  }
