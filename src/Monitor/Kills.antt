-- ===== src/Monitor/Kills.antt =====
-- What signal_child and check_children in srvctl/src/monitor.c do to the processes and the signals sent.
use ngim.Base.{ℕ, ◌≡◌, ◌≢◌, refl, ◌∙◌, List, [], ◌∷◌, ◌++◌, ◌⊎◌, inl, map, arith}
use ngim.Tai.{Tain}
use ngim.Monitor.{Monitor, Which, run_child, log_child, child}
use ngim.Monitor.Children.{child_exited, check_children}
use ngim.Monitor.Commands.{signal_child}
use ngim.Monitor.Commands.{terminate_loop, Wait}
use ngim.Base.{if-ind, Gives, Gives-some, Gives-none, ◌==◌, ◌+◌}
use ngim.Monitor.{Signals}

-- The signals `sigs` sent to the process `pid`.
abbrev pub sent_to : ℕ → List ℕ → List (ℕ × ℕ)
sent_to pid sigs = map (λ sig. (pid, sig)) sigs

child_exited-kills : (now : Tain) (pid : ℕ) (m : Monitor) → (child_exited now pid m).kills ≡ m.kills
unfolding child_exited
child_exited-kills now pid m = ground arith

pub check_children-kills :
    (now : Tain) (pids : List ℕ) (m : Monitor) → (check_children now pids m).kills ≡ m.kills
unfolding check_children
check_children-kills now [] m = refl
check_children-kills now (pid ∷ pids) m =
    check_children-kills now pids (child_exited now pid m) ∙ child_exited-kills now pid m

-- A process is the one it was, or none.
abbrev pub IsSameOrGone : ℕ → ℕ → Type 0
IsSameOrGone pid pid' = (pid' ≡ pid) ⊎ (pid' ≡ 0)

child_exited-pid :
    (w : Which) (now : Tain) (pid : ℕ) (m : Monitor)
    → IsSameOrGone (child w m).pid (child w (child_exited now pid m)).pid
unfolding child_exited
child_exited-pid run_child now pid m = ground arith
child_exited-pid log_child now pid m = ground arith

IsSameOrGone-trans : (a b c : ℕ) → IsSameOrGone a b → IsSameOrGone b c → IsSameOrGone a c
IsSameOrGone-trans a b c p q = omega arith

pub check_children-pid :
    (w : Which) (now : Tain) (pids : List ℕ) (m : Monitor)
    → IsSameOrGone (child w m).pid (child w (check_children now pids m)).pid
unfolding check_children
check_children-pid w now [] m = inl refl
check_children-pid w now (pid ∷ pids) m =
    let m' : Monitor = child_exited now pid m in
    IsSameOrGone-trans (child w m).pid (child w m').pid (child w (check_children now pids m')).pid
      (child_exited-pid w now pid m) (check_children-pid w now pids m')

pub signal_child_lem :
    (w : Which) (sig : ℕ) (m : Monitor)
    → (child w m).pid ≢ 0
    → ((signal_child w sig m).kills ≡ m.kills ++ (((child w m).pid, sig) ∷ []))
      × ((child w (signal_child w sig m)).pid ≡ (child w m).pid)
unfolding signal_child
signal_child_lem run_child sig m up = (ground arith, ground arith)
signal_child_lem log_child sig m up = (ground arith, ground arith)

module _ (s : Signals) where
  -- What signals and exits keep holds after terminate_loop.
  pub terminate_loop-Gives :
      (P : Monitor → Type 0)
      → ((w : Which) (sig : ℕ) (m : Monitor) → P m → P (signal_child w sig m))
      → ((now : Tain) (pids : List ℕ) (m : Monitor) → P m → P (check_children now pids m))
      → (w : Which) (sigs : List ℕ) (i : ℕ) (waits : ℕ → Wait) (m : Monitor) → P m
      → Gives P (terminate_loop s w sigs i waits m)
  unfolding terminate_loop
  terminate_loop-Gives P sent checked w [] i waits m h =
      if-ind (Gives P) ((child w m).pid == 0) (λ _. Gives-some P m h) (λ _. Gives-none P)
  terminate_loop-Gives P sent checked w (sig ∷ sigs) i waits m h =
      let m' : Monitor = check_children (waits i).now (waits i).exited (signal_child w sig m) in
      let h' : P m' =
        checked (waits i).now (waits i).exited (signal_child w sig m) (sent w sig m h) in
      if-ind (Gives P) ((child w m).pid == 0) (λ _. Gives-some P m h)
        (λ _.
          if-ind (Gives P) (sig == s.sigkill) (λ _. Gives-some P m' h')
            (λ _. terminate_loop-Gives P sent checked w sigs (i + 1) waits m' h'))
