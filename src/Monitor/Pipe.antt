-- ===== src/Monitor/Pipe.antt =====
-- The pipe between the two children in srvctl/src/monitor.c, and the assertion on it in
-- create_procattr_run.
use ngim.Base.{
  ◌≡◌, refl, ap, ◌∙◌, Bool, true, Option, some, ◌==◌, ◌&&◌, ◌||◌, ◌⊎◌, inl, inr, not, arith, if-ind,
  Gives, Gives-some,
}
use ngim.Tai.{Tain}
use ngim.Monitor.{Monitor, Which, run_child, log_child}
use ngim.Monitor.Children.{
  create_procattr_run, create_procattr_log, Launch, start_child, Answers, PipeMade, made, not_made,
  inheritable, start_log, run_attr_made, start_run, start_children,
}
use ngim.Monitor.Starts.{start_run-ind, create_procattr_log-children, start_child-other}

-- While the log runs there is a pipe for it; and the monitor has its pipe for run.
abbrev pub IsPiped : Monitor → Type 0
IsPiped m =
    (m.pipe_stdin ≡ true)
    × ((m.log.pid ≡ 0) ⊎ ((m.pipe_read_end ≡ true) × (m.pipe_write_end ≡ true)))

start_child-stdin :
    (now : Tain) (w : Which) (launch : Launch) (m : Monitor)
    → (start_child now w launch m).pipe_stdin ≡ m.pipe_stdin
unfolding start_child
start_child-stdin now run_child launch m = ground arith
start_child-stdin now log_child launch m = ground arith

create_procattr_log-stdin :
    (answer : PipeMade) (attr : Bool) (m : Monitor)
    → (create_procattr_log answer attr m).0.pipe_stdin ≡ m.pipe_stdin
unfolding create_procattr_log
create_procattr_log-stdin made attr m = ground arith
create_procattr_log-stdin not_made attr m = ground arith
create_procattr_log-stdin inheritable attr m = ground arith

start_child-pipe :
    (now : Tain) (w : Which) (launch : Launch) (m : Monitor)
    → ((start_child now w launch m).pipe_read_end ≡ m.pipe_read_end)
      × ((start_child now w launch m).pipe_write_end ≡ m.pipe_write_end)
unfolding start_child
start_child-pipe now run_child launch m = (ground arith, ground arith)
start_child-pipe now log_child launch m = (ground arith, ground arith)

create_procattr_log-pipe :
    (answer : PipeMade) (attr : Bool) (m : Monitor)
    → (create_procattr_log answer attr m).1 ≡ true
    → ((create_procattr_log answer attr m).0.pipe_read_end ≡ true)
      × ((create_procattr_log answer attr m).0.pipe_write_end ≡ true)
unfolding create_procattr_log
create_procattr_log-pipe made attr m h = (ground arith, ground arith)
create_procattr_log-pipe not_made attr m h = (ground arith, ground arith)
create_procattr_log-pipe inheritable attr m h = (ground arith, ground arith)

start_log-IsPiped :
    (now : Tain) (a : Answers) (m : Monitor) → IsPiped m → IsPiped (start_log now a m)
unfolding start_log
start_log-IsPiped now a m h =
    let p : Monitor × Bool = create_procattr_log a.pipe a.log_attr m in
    if-ind IsPiped (not m.log.suspended && m.log.pid == 0 && (m.run.pid == 0 || m.flag_forward))
      (λ t.
        if-ind IsPiped p.1
          (λ ok.
            let (r, w) = create_procattr_log-pipe a.pipe a.log_attr m ok in
            let (r', w') = start_child-pipe now log_child a.log_launch p.0 in
            (
              start_child-stdin now log_child a.log_launch p.0
                  ∙ (create_procattr_log-stdin a.pipe a.log_attr m ∙ h.0),
              inr (r' ∙ r, w' ∙ w),
            ))
          (λ _. (
            create_procattr_log-stdin a.pipe a.log_attr m ∙ h.0,
            inl (
                ap (λ c. c.pid) (create_procattr_log-children a.pipe a.log_attr m).0
                ∙ ground arith),
          )))
      (λ _. h)

start_run-IsPiped :
    (now : Tain) (a : Answers) (m : Monitor) → IsPiped m → Gives IsPiped (start_run now a m)
start_run-IsPiped now a m h =
    start_run-ind IsPiped now a m h (λ _. h)
      (λ f _.
        let m' : Monitor = record m { flag_forward = f } in
        let (r, w) = start_child-pipe now run_child a.run_launch m' in
        (
          start_child-stdin now run_child a.run_launch m' ∙ h.0,
          elim h.1 [
            | inl z ↦ inl (ap (λ c. c.pid) (start_child-other now a.run_launch m').0 ∙ z)
            | inr (p, q) ↦ inr (r ∙ p, w ∙ q)
          ],
        ))

-- `o` is a result.
abbrev pub IsSome : Option Monitor → Type 0
IsSome o = (m' : Monitor) × (o ≡ some m')

start_run-IsSome : (now : Tain) (a : Answers) (m : Monitor) → IsPiped m → IsSome (start_run now a m)
unfolding start_run create_procattr_run run_attr_made
start_run-IsSome now a m h =
    let G : Option (Monitor × Bool) → Type 0 = λ o. IsSome (run_attr_made now a o) in
    if-ind IsSome (not m.run.suspended && m.run.pid == 0)
      (λ _.
        if-ind G (not m.pipe_stdin) (λ t. let no : ⊥ = ground arith in absurd no)
          (λ _.
            if-ind G (not a.run_attr) (λ _. (_, refl))
              (λ _.
                if-ind G (m.log.pid == 0) (λ _. (_, refl))
                  (λ up.
                    if-ind G (not m.pipe_write_end)
                      (λ closed. let no : ⊥ = ground arith in absurd no)
                      (λ _. if-ind G (not a.run_forwarding) (λ _. (_, refl)) (λ _. (_, refl)))))))
      (λ _. (m, refl))

start_children-Gives :
    (now : Tain) (a : Answers) (m : Monitor) → IsPiped m → Gives IsPiped (start_children now a m)
unfolding start_children
start_children-Gives now a m h =
    if-ind (Gives IsPiped) (m.flag_intr || not a.up) (λ _. Gives-some IsPiped m h)
      (λ _. start_run-IsPiped now a (start_log now a m) (start_log-IsPiped now a m h))

start_children-IsSome :
    (now : Tain) (a : Answers) (m : Monitor) → IsPiped m → IsSome (start_children now a m)
unfolding start_children
start_children-IsSome now a m h =
    if-ind IsSome (m.flag_intr || not a.up) (λ _. (m, refl))
      (λ _. start_run-IsSome now a (start_log now a m) (start_log-IsPiped now a m h))

-- Where the monitor has its pipe for run, and the log does not run or has a pipe, start_children fails
-- no assertion, whatever the system answers, and the same holds afterwards.
pub start_children-IsPiped :
    (now : Tain) (a : Answers) (m : Monitor)
    → IsPiped m
    → (m' : Monitor) × ((start_children now a m ≡ some m') × IsPiped m')
start_children-IsPiped now a m h =
    let (m', e) = start_children-IsSome now a m h in (m', (e, start_children-Gives now a m h m' e))
