-- ===== src/Monitor/Starts.antt =====
-- What start_children of srvctl/src/monitor.c leaves as it is.
use ngim.Base.{
  ◌≡◌, refl, ap, ◌∙◌, Bool, true, false, Option, some, ◌==◌, ◌&&◌, ◌||◌, not, arith, if-ind, Gives,
  Gives-some, Gives-none,
}
use ngim.Tai.{Tain}
use ngim.Monitor.{Monitor, Which, run_child, log_child, child}
use ngim.Monitor.Children.{
  create_procattr_run, create_procattr_log, Launch, start_child, Answers, PipeMade, made, not_made,
  inheritable, start_log, run_attr_made, start_run, start_children,
}

pub start_child-other :
    (now : Tain) (launch : Launch) (m : Monitor)
    → ((start_child now run_child launch m).log ≡ m.log)
      × ((start_child now log_child launch m).run ≡ m.run)
unfolding start_child
start_child-other now launch m = (ground arith, ground arith)

pub create_procattr_log-children :
    (answer : PipeMade) (attr : Bool) (m : Monitor)
    → ((create_procattr_log answer attr m).0.log ≡ m.log)
      × ((create_procattr_log answer attr m).0.run ≡ m.run)
unfolding create_procattr_log
create_procattr_log-children made attr m = (ground arith, ground arith)
create_procattr_log-children not_made attr m = (ground arith, ground arith)
create_procattr_log-children inheritable attr m = (ground arith, ground arith)

start_log-run : (now : Tain) (a : Answers) (m : Monitor) → (start_log now a m).run ≡ m.run
unfolding start_log
start_log-run now a m =
    if-ind {A = Monitor} (λ x. x.run ≡ m.run)
      (not m.log.suspended && m.log.pid == 0 && (m.run.pid == 0 || m.flag_forward))
      (λ _.
        if-ind {A = Monitor} (λ x. x.run ≡ m.run) (create_procattr_log a.pipe a.log_attr m).1
          (λ _.
            (start_child-other now a.log_launch (create_procattr_log a.pipe a.log_attr m).0).1
            ∙ (create_procattr_log-children a.pipe a.log_attr m).1)
          (λ _. (create_procattr_log-children a.pipe a.log_attr m).1))
      (λ _. refl)

start_log-log :
    (now : Tain) (a : Answers) (m : Monitor)
    → m.log.suspended ≡ true
    → (start_log now a m).log ≡ m.log
unfolding start_log
start_log-log now a m s =
    if-ind {A = Monitor} (λ x. x.log ≡ m.log)
      (not m.log.suspended && m.log.pid == 0 && (m.run.pid == 0 || m.flag_forward))
      (λ t. let no : ⊥ = ground arith in absurd no) (λ _. refl)

-- What holds after each of the ways that start_run goes.
pub start_run-ind :
    (P : Monitor → Type 0) (now : Tain) (a : Answers) (m : Monitor)
    → P m
    → ((f : Bool) → P (record m { flag_forward = f }))
    → ((f : Bool)
        → m.run.suspended ≡ false
        → P (start_child now run_child a.run_launch (record m { flag_forward = f })))
    → Gives P (start_run now a m)
unfolding start_run run_attr_made create_procattr_run
start_run-ind P now a m h set start =
    let G : Option (Monitor × Bool) → Type 0 = λ o. Gives P (run_attr_made now a o) in
    let off : Gives P (some (record m { flag_forward = false })) =
      Gives-some P (record m { flag_forward = false }) (set false) in
    if-ind (Gives P) (not m.run.suspended && m.run.pid == 0)
      (λ t.
        let idle : m.run.suspended ≡ false = ground arith in
        let on : (f : Bool)
            → Gives P
                (some (start_child now run_child a.run_launch (record m { flag_forward = f }))) =
          λ f.
            Gives-some P (start_child now run_child a.run_launch (record m { flag_forward = f }))
              (start f idle) in
        if-ind G (not m.pipe_stdin) (λ _. Gives-none P)
          (λ _.
            if-ind G (not a.run_attr) (λ _. off)
              (λ _.
                if-ind G (m.log.pid == 0) (λ _. on false)
                  (λ _.
                    if-ind G (not m.pipe_write_end) (λ _. Gives-none P)
                      (λ _. if-ind G (not a.run_forwarding) (λ _. off) (λ _. on true))))))
      (λ _. Gives-some P m h)

start_run-log :
    (now : Tain) (a : Answers) (m : Monitor) → Gives (λ x. x.log ≡ m.log) (start_run now a m)
start_run-log now a m =
    start_run-ind (λ x. x.log ≡ m.log) now a m refl (λ _. refl)
      (λ f _. (start_child-other now a.run_launch (record m { flag_forward = f })).0)

start_run-suspended :
    (now : Tain) (a : Answers) (m : Monitor) → m.run.suspended ≡ true → start_run now a m ≡ some m
unfolding start_run
start_run-suspended now a m s = ground arith

start_children-run :
    (now : Tain) (a : Answers) (m : Monitor)
    → m.run.suspended ≡ true
    → Gives (λ x. x.run ≡ m.run) (start_children now a m)
unfolding start_children
start_children-run now a m s =
    let P : Monitor → Type 0 = λ x. x.run ≡ m.run in
    let same : (start_log now a m).run ≡ m.run = start_log-run now a m in
    if-ind (Gives P) (m.flag_intr || not a.up) (λ _. Gives-some P m refl)
      (λ _.
        rw (start_run-suspended now a (start_log now a m) (ap (λ c. c.suspended) same ∙ s))
          (Gives-some P (start_log now a m) same))

start_children-log :
    (now : Tain) (a : Answers) (m : Monitor)
    → m.log.suspended ≡ true
    → Gives (λ x. x.log ≡ m.log) (start_children now a m)
unfolding start_children
start_children-log now a m s =
    let P : Monitor → Type 0 = λ x. x.log ≡ m.log in
    if-ind (Gives P) (m.flag_intr || not a.up) (λ _. Gives-some P m refl)
      (λ _ x e. start_run-log now a (start_log now a m) x e ∙ start_log-log now a m s)

-- A suspended child is left as it is by `start_children`, whatever the system answers.
pub start_children_suspended :
    (w : Which) (now : Tain) (a : Answers) (m m' : Monitor)
    → (child w m).suspended ≡ true
    → start_children now a m ≡ some m'
    → child w m' ≡ child w m
start_children_suspended run_child now a m m' s e = start_children-run now a m s m' e
start_children_suspended log_child now a m m' s e = start_children-log now a m s m' e
