-- ===== src/Monitor/Terminate.antt =====
-- terminate_child in srvctl/src/monitor.c: it sends one signal after the other until the process
-- has exited, SIGKILL last, and never reads past the end of its array of signals.
use ngim.Base.{
  ℕ, ◌+◌, ◌≡◌, ◌≢◌, refl, sym, ap, ◌∙◌, true, false, Option, none, some, List, [], ◌∷◌, ◌++◌, ◌==◌,
  ◌⊎◌, inl, inr, append-nil, append_assoc, if◌then◌else◌, arith, if_true, if_false, eq→==, ne→==,
}
use ngim.Monitor.{Monitor, Which, run_child, log_child, Signals, child}
use ngim.Monitor.Children.{check_children}
use ngim.Monitor.Commands.{
  signal_child, termination_signals, Wait, terminate_loop, reset_suspension, terminate_child,
}
use ngim.Monitor.Kills.{
  check_children-kills, check_children-pid, signal_child_lem, sent_to, IsSameOrGone,
}

zero-cases : (n : ℕ) → (n ≡ 0) ⊎ (n ≢ 0)
zero-cases n = omega arith

-- Signals that end in SIGKILL, and have it at no other place.
pub data Ladder (kill : ℕ) : List ℕ → Type 0 where
  last : Ladder kill (kill ∷ [])
  more : {sig : ℕ} {sigs : List ℕ} → sig ≢ kill → Ladder kill sigs → Ladder kill (sig ∷ sigs)

-- Where a loop over `sigs` ends for the process `pid`.
pub record Ended (w : Which) (pid : ℕ) (sigs : List ℕ) (m m' : Monitor) : Type 0 where
  pub sent : List ℕ
  pub unsent : List ℕ
  pub prefix : sigs ≡ sent ++ unsent
  pub kills : m'.kills ≡ m.kills ++ sent_to pid sent
  pub gone : ((child w m').pid ≡ 0) ⊎ (((child w m').pid ≡ pid) × (unsent ≡ []))

module _ (s : Signals) where
  -- A round of the loop.
  abbrev after_signal : Which → ℕ → Wait → Monitor → Monitor
  after_signal w sig wait m = check_children wait.now wait.exited (signal_child w sig m)

  after_signal_lem :
      (w : Which) (sig : ℕ) (wait : Wait) (m : Monitor)
      → (child w m).pid ≢ 0
      → ((after_signal w sig wait m).kills ≡ m.kills ++ (((child w m).pid, sig) ∷ []))
        × IsSameOrGone (child w m).pid (child w (after_signal w sig wait m)).pid
  after_signal_lem w sig wait m up =
      let (k, p) = signal_child_lem w sig m up in
      let m' : Monitor = signal_child w sig m in
      let q : IsSameOrGone (child w m').pid (child w (after_signal w sig wait m)).pid =
        check_children-pid w wait.now wait.exited m' in
      (check_children-kills wait.now wait.exited m' ∙ k, rw p at q)

  terminate_loop_gone :
      (w : Which) (sigs : List ℕ) (i : ℕ) (waits : ℕ → Wait) (m : Monitor)
      → (child w m).pid ≡ 0
      → terminate_loop s w sigs i waits m ≡ some m
  unfolding terminate_loop
  terminate_loop_gone w [] i waits m gone = if_true (some m) none (eq→== (child w m).pid 0 gone)
  terminate_loop_gone w (sig ∷ sigs) i waits m gone =
      if_true (some m)
        (if sig == s.sigkill
          then some (after_signal w sig (waits i) m)
          else terminate_loop s w sigs (i + 1) waits (after_signal w sig (waits i) m))
        (eq→== (child w m).pid 0 gone)

  terminate_loop_kill :
      (w : Which) (sigs : List ℕ) (i : ℕ) (waits : ℕ → Wait) (m : Monitor)
      → (child w m).pid ≢ 0
      → terminate_loop s w (s.sigkill ∷ sigs) i waits m
        ≡ some (after_signal w s.sigkill (waits i) m)
  unfolding terminate_loop
  terminate_loop_kill w sigs i waits m up =
      let m' : Monitor = after_signal w s.sigkill (waits i) m in
      let again : Option Monitor = terminate_loop s w sigs (i + 1) waits m' in
      if_false (some m) (if s.sigkill == s.sigkill then some m' else again)
        (ne→== (child w m).pid 0 up)
      ∙ if_true (some m') again (eq→== s.sigkill s.sigkill refl)

  terminate_loop_more :
      (w : Which) (sig : ℕ) (sigs : List ℕ) (i : ℕ) (waits : ℕ → Wait) (m : Monitor)
      → (child w m).pid ≢ 0
      → sig ≢ s.sigkill
      → terminate_loop s w (sig ∷ sigs) i waits m
        ≡ terminate_loop s w sigs (i + 1) waits (after_signal w sig (waits i) m)
  unfolding terminate_loop
  terminate_loop_more w sig sigs i waits m up other =
      let m' : Monitor = after_signal w sig (waits i) m in
      let again : Option Monitor = terminate_loop s w sigs (i + 1) waits m' in
      if_false (some m) (if sig == s.sigkill then some m' else again) (ne→== (child w m).pid 0 up)
      ∙ if_false (some m') again (ne→== sig s.sigkill other)

  Ended-now :
      (w : Which) (sig : ℕ) (sigs : List ℕ) (wait : Wait) (m : Monitor)
      → (child w m).pid ≢ 0
      → ((child w (after_signal w sig wait m)).pid ≡ 0) ⊎ (sigs ≡ [])
      → Ended w (child w m).pid (sig ∷ sigs) m (after_signal w sig wait m)
  Ended-now w sig sigs wait m up d =
      let (k, same) = after_signal_lem w sig wait m up in
      record {
        sent = sig ∷ [];
        unsent = sigs;
        prefix = refl;
        kills = k;
        gone = elim d [ inl z ↦ inl z | inr e ↦ elim same [ inl p ↦ inr (p, e) | inr z ↦ inl z ] ];
      }

  Ended-later :
      (w : Which) (sig : ℕ) (sigs : List ℕ) (m m1 m' : Monitor)
      → m1.kills ≡ m.kills ++ (((child w m).pid, sig) ∷ [])
      → Ended w (child w m).pid sigs m1 m'
      → Ended w (child w m).pid (sig ∷ sigs) m m'
  Ended-later w sig sigs m m1 m' k h = record {
    sent = sig ∷ h.sent;
    unsent = h.unsent;
    prefix = ap (λ x. sig ∷ x) h.prefix;
    kills =
        h.kills
        ∙ (ap (λ x. x ++ sent_to (child w m).pid h.sent) k
            ∙ append_assoc m.kills (((child w m).pid, sig) ∷ []) (sent_to (child w m).pid h.sent));
    gone = h.gone;
  }

  terminate_loop-Ended :
      (w : Which) (sigs : List ℕ) (i : ℕ) (waits : ℕ → Wait) (m : Monitor)
      → (child w m).pid ≢ 0
      → Ladder s.sigkill sigs
      → (m' : Monitor) × ((terminate_loop s w sigs i waits m ≡ some m')
          × Ended w (child w m).pid sigs m m')
  terminate_loop-Ended w _ i waits m up last = (
    after_signal w s.sigkill (waits i) m,
    (terminate_loop_kill w [] i waits m up, Ended-now w s.sigkill [] (waits i) m up (inr refl)),
  )
  terminate_loop-Ended w (sig ∷ sigs) i waits m up (more other rest) =
      let m1 : Monitor = after_signal w sig (waits i) m in
      let step : terminate_loop s w (sig ∷ sigs) i waits m
          ≡ terminate_loop s w sigs (i + 1) waits m1 =
        terminate_loop_more w sig sigs i waits m up other in
      let (k, same) = after_signal_lem w sig (waits i) m up in
      elim same [
        | inr gone ↦ (
          m1,
          (
            step ∙ terminate_loop_gone w sigs (i + 1) waits m1 gone,
            Ended-now w sig sigs (waits i) m up (inl gone),
          ),
        )
        | inl p ↦
            let (m', (e, h)) =
              terminate_loop-Ended w sigs (i + 1) waits m1 (λ z. up (sym p ∙ z)) rest in
            (m', (step ∙ e, Ended-later w sig sigs m m1 m' k (rw p at h)))
      ]

  -- How terminate_child leaves the child `w` of `m`, in `m'`.
  pub record Terminated (w : Which) (m m' : Monitor) : Type 0 where
    pub ended : Ended w (child w m).pid (termination_signals s) m m'
    pub unsuspended : (child w m').suspended ≡ false
    pub unstarted : (child w m').starts ≡ 0
    pub watched : m'.flag_ignchld ≡ false

  reset-Terminated :
      (w : Which) (m m' : Monitor)
      → Ended w (child w m).pid (termination_signals s) (record m { flag_ignchld = true }) m'
      → Terminated w m (reset_suspension s w m')
  unfolding reset_suspension
  reset-Terminated run_child m m' h = record {
    ended = record {
      sent = h.sent;
      unsent = h.unsent;
      prefix = h.prefix;
      kills = h.kills;
      gone = h.gone;
    };
    unsuspended = refl;
    unstarted = refl;
    watched = refl;
  }
  reset-Terminated log_child m m' h = record {
    ended = record {
      sent = h.sent;
      unsent = h.unsent;
      prefix = h.prefix;
      kills = h.kills;
      gone = h.gone;
    };
    unsuspended = refl;
    unstarted = refl;
    watched = refl;
  }

  not_running-Ended :
      (w : Which) (m : Monitor)
      → (child w m).pid ≡ 0
      → Ended w (child w m).pid (termination_signals s) m m
  not_running-Ended w m z = record {
    sent = [];
    unsent = termination_signals s;
    prefix = refl;
    kills = sym (append-nil m.kills);
    gone = inl z;
  }

  terminate_loop_end :
      Ladder s.sigkill (termination_signals s)
      → (w : Which) (waits : ℕ → Wait) (m : Monitor)
      → (m' : Monitor) × ((terminate_loop s w (termination_signals s) 0 waits m ≡ some m')
          × Ended w (child w m).pid (termination_signals s) m m')
  terminate_loop_end l w waits m = elim (zero-cases (child w m).pid) [
    | inl z ↦
        (m, (terminate_loop_gone w (termination_signals s) 0 waits m z, not_running-Ended w m z))
    | inr up ↦ terminate_loop-Ended w (termination_signals s) 0 waits m up l
  ]

  child_ignchld :
      (w : Which) (m : Monitor) → (child w (record m { flag_ignchld = true })) ≡ child w m
  child_ignchld run_child m = refl
  child_ignchld log_child m = refl

  -- Where SIGKILL is none of SIGTERM, SIGINT and SIGQUIT, terminate_child comes to an end whatever
  -- its waits find. It has sent a prefix of SIGTERM, SIGTERM, SIGINT, SIGQUIT, SIGKILL to the
  -- process that the child was; either that process is gone, or all five were sent. The child is
  -- not suspended, its starts are reset, and SIGCHLD is no longer ignored.
  pub terminate_child-Terminated :
      s.sigterm ≢ s.sigkill
      → s.sigint ≢ s.sigkill
      → s.sigquit ≢ s.sigkill
      → (w : Which) (waits : ℕ → Wait) (m : Monitor)
      → (m' : Monitor) × ((terminate_child s w waits m ≡ some m') × Terminated w m m')
  unfolding terminate_child
  terminate_child-Terminated t i q w waits m =
      let m0 : Monitor = record m { flag_ignchld = true } in
      let (m1, (e, h)) = terminate_loop_end (more t (more t (more i (more q last)))) w waits m0 in
      (reset_suspension s w m1, (rw e refl, reset-Terminated w m m1 (rw (child_ignchld w m) at h)))
