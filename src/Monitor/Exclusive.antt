-- ===== src/Monitor/Exclusive.antt =====
-- What a monitor of srvctl/src/monitor.c has that goes beyond its setup, and that two monitors of a
-- service do not get there.
use ngim.Base.{
  [], ap, sym, if_false, Option-cases, Bool-cases, inl, inr, Gives, ℕ, ◌≡◌, ◌≢◌, refl, ◌∙◌, Bool,
  true, false, Option, none, some, List, ◌∷◌, not, if◌then◌else◌, if-ind, if_true, ne→==, arith,
}
use ngim.Create.{FileProt, directory, pipe, Place, create_directory}
use ngim.Tai.{Tain}
use ngim.Monitor.{Monitor, Signals, init}
use ngim.Monitor.Children.{write_status, check_children, start_children}
use ngim.Monitor.Invariant.{Timed}
use ngim.Monitor.Invariant.Steps.{Reach-Timed}
use ngim.Monitor.Loop.{Round, round, rounds, Reach, begin, step, reap, start, wait, wait_after}
use ngim.Monitor.Made.{
  IsMade, Readies, Dies, setup_directory-then, create_lockfile-then, setup_control-then,
  setup_pollset-then, setup_stdin-then,
}
use ngim.Monitor.Setup.{
  fprot_dir_monitor, fprot_pipe, Directory, Handles, no_handles, SetupAnswers, Setup, ready, died,
  is_taken, die, setup_directory, create_lockfile, setup_monitor, and_then, MonitorAnswers, Ending,
  failed, ran, begin_state, run_loop, monitor,
}

-- Everything that the setup sets is set.
abbrev pub all_handles : Handles
all_handles = record {
  file_lock = true;
  pipe_control = true;
  pset_control = true;
  pipe_stdin = true;
  pool_runlog = true;
}

pub record IsReady (b : FileProt) (pid : ℕ) (a : SetupAnswers) (d d' : Directory) (h : Handles)
    : Type 0 where
  pub handles : h ≡ all_handles
  pub free : is_taken pid d.lock ≡ false
  pub locked : d'.lock ≡ some pid
  pub dir : IsMade directory (fprot_dir_monitor b) a.dir d.dir d'.dir
  pub control : IsMade pipe (fprot_pipe b) a.control d.control d'.control
  pub stdin : IsMade pipe (fprot_pipe b) a.stdin d.stdin d'.stdin

module _ (b : FileProt) (pid : ℕ) (a : SetupAnswers) (next : Directory → Handles → Setup)
    (Q : Directory → Type 0) (d : Directory) (h : Handles) where
  -- A lock that is taken, whether its file can be opened or not.
  create_lockfile-Dies :
      is_taken pid d.lock ≡ true
      → Q (die pid d)
      → Dies Q (and_then (create_lockfile b pid a d h) next)
  unfolding create_lockfile
  create_lockfile-Dies taken q =
      let T : Setup → Type 0 = λ s. Dies Q (and_then s next) in
      if-ind T (not a.can_open_lock) (λ _. q)
        (λ _. if-ind T (is_taken pid d.lock) (λ _. q) (λ free. let no : ⊥ = cc in absurd no))

  setup_directory-Dies :
      ((p : Place) → Q (die pid (record d { dir = p })))
      → ((p : Place) → Dies Q (next (record d { dir = p }) h))
      → Dies Q (and_then (setup_directory b pid a d h) next)
  unfolding setup_directory
  setup_directory-Dies q k =
      let r : Place × Bool = create_directory a.dir (fprot_dir_monitor b) true d.dir in
      if-ind (λ s. Dies Q (and_then s next)) r.1 (λ _. k r.0) (λ _. q r.0)

module _ (b : FileProt) (pid : ℕ) (a : SetupAnswers) (d : Directory) where
  -- A monitor that goes beyond its setup has everything that the setup sets; it holds the lock, which no other
  -- process held; its directory is a directory, and its two pipes are pipes, with the permissions
  -- asked for, or what the umask leaves of them where there was no entry.
  pub setup_monitor-IsReady : Readies (IsReady b pid a d) (setup_monitor b pid a d)
  unfolding setup_monitor
  setup_monitor-IsReady =
      let locked : Handles = record no_handles { file_lock = true } in
      let control : Handles = record locked { pipe_control = true } in
      let polled : Handles = record control { pset_control = true } in
      let G : Directory → Handles → Type 0 = IsReady b pid a d in
      setup_directory-then b pid a _ G d no_handles λ p made.
        create_lockfile-then b pid a _ G _ no_handles λ free.
          setup_control-then b pid a _ G _ locked λ q control_made.
            setup_pollset-then b pid a _ G _ control (
              setup_stdin-then b pid a _ G _ polled λ r stdin_made.
                if-ind (Readies G) a.can_create_pool
                  (λ _. record {
                    handles = refl;
                    free = free;
                    locked = refl;
                    dir = made;
                    control = control_made;
                    stdin = stdin_made;
                  })
                  (λ _. tt))

  -- While another monitor has the lock, a second one for the service ends in its setup, and leaves
  -- the lock and both pipes as they are.
  pub setup_monitor_second :
      (other : ℕ)
      → d.lock ≡ some other
      → other ≢ pid
      → Dies
          (λ d'. (d'.lock ≡ some other) × ((d'.control ≡ d.control) × (d'.stdin ≡ d.stdin)))
          (setup_monitor b pid a d)
  unfolding setup_monitor
  setup_monitor_second other e n =
      let taken : is_taken pid d.lock ≡ true = rw e (rw (ne→== other pid n) refl) in
      let Q : Directory → Type 0 =
        λ d'. (d'.lock ≡ some other) × ((d'.control ≡ d.control) × (d'.stdin ≡ d.stdin)) in
      let kept : (p : Place) → Q (die pid (record d { dir = p })) =
        λ p. (if_true d.lock none taken ∙ e, (refl, refl)) in
      setup_directory-Dies b pid a _ Q d no_handles kept
        λ p. create_lockfile-Dies b pid a _ Q _ no_handles taken (kept p)

module _ (s : Signals) (now : Tain) where
  round-Reach :
      (r : Round) (m m' : Monitor) → Reach s now m → round s r m ≡ some m' → Reach s now m'
  unfolding round wait_after
  round-Reach r m m' h e =
      let seen : Monitor = check_children r.now r.exited m in
      elim (Option-cases (start_children r.now r.answers seen)) [
        | inl failed_start ↦ absurd (ground (arith, e, failed_start))
        | inr (started, begun) ↦
            step (step (step h (reap r.now r.exited)) (start r.now r.answers begun))
              (wait r.input r.waits (rw begun at e))
      ]

  after_round : Option Monitor → List Round → Option Monitor
  after_round none rs = none
  after_round (some m) rs = if m.flag_stop then some m else rounds s rs m

  rounds-after_round :
      (r : Round) (rs : List Round) (m : Monitor)
      → rounds s (r ∷ rs) m ≡ after_round (round s r m) rs
  unfolding rounds after_round
  rounds-after_round r rs m =
      elim (round s r m)
        as (λ o.
          elim o [ none ↦ none | some m' ↦ if m'.flag_stop then some m' else rounds s rs m' ]
          ≡ after_round o rs) [ none ↦ refl | some m' ↦ refl ]

  rounds-Reach :
      (rs : List Round) (m m' : Monitor) → Reach s now m → rounds s rs m ≡ some m' → Reach s now m'
  unfolding rounds after_round
  rounds-Reach [] m m' h e = let same : m ≡ m' = cc in rw same at h
  rounds-Reach (r ∷ rs) m m' h e =
      let e1 : after_round (round s r m) rs ≡ some m' = sym (rounds-after_round r rs m) ∙ e in
      elim (Option-cases (round s r m)) [
        | inl failed_round ↦ let no : none ≡ some m' = rw failed_round at e1 in absurd (cc)
        | inr (next, went) ↦
            let h' : Reach s now next = round-Reach r m next h went in
            let e2 : after_round (some next) rs ≡ some m' = rw went at e1 in
            elim (Bool-cases next.flag_stop) [
              | inl stop ↦
                  let same : some next ≡ some m' = sym (if_true _ _ stop) ∙ e2 in
                  let same' : next ≡ m' = cc in rw same' at h'
              | inr on ↦ rounds-Reach rs next m' h' (sym (if_false _ _ on) ∙ e2)
            ]
      ]

-- A property of what is left by a monitor that got to its loop.
abbrev pub Runs : (Directory → Option Monitor → Type 0) → Ending → Type 0
Runs P (failed d) = Unit
Runs P (ran d h o) = P d o

module _ (b : FileProt) (s : Signals) (pid : ℕ) (a : MonitorAnswers) (rs : List Round)
    (d : Directory) where
  -- The monitor `pid` has the lock, and the state of its loop is one that Reach describes.
  abbrev pub IsRunning : Directory → Option Monitor → Type 0
  IsRunning d' o = (d'.lock ≡ some pid) × Gives (λ m. Reach s a.now m × Timed m) o

  run_loop-IsRunning :
      (x : Setup) → Readies (IsReady b pid a.setup d) x → Runs IsRunning (run_loop b s pid a rs x)
  unfolding run_loop
  run_loop-IsRunning (died d') r = tt
  run_loop-IsRunning (ready d' h) r = (
    r.locked,
    λ m e.
        let begun : begin_state h ≡ init = ap begin_state r.handles in
        let e' : rounds s rs (write_status a.now init) ≡ some m = rw begun at e in
        let reached : Reach s a.now m = rounds-Reach s a.now rs _ m begin e' in
        (reached, Reach-Timed s reached),
  )

  -- A monitor whose monitor() gets to its loop has the lock, and its state after any rounds is one
  -- that is reached from the first status on, with a timer and an alarm exactly as its children need.
  pub monitor-IsRunning : Runs IsRunning (monitor b s pid a rs d)
  unfolding monitor
  monitor-IsRunning =
      let G : Ending → Type 0 = Runs IsRunning in
      if-ind G (not a.can_chdir) (λ _. tt)
        (λ _.
          if-ind G (not a.has_pool) (λ _. tt)
            (λ _.
              run_loop-IsRunning (setup_monitor b pid a.setup d)
                (setup_monitor-IsReady b pid a.setup d)))
