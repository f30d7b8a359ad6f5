-- ===== src/Limiter/Confined.antt =====
-- What holds of a program that the limiter of srvctl/src/limiter.c executes.
use ngim.Base.{ℕ, ap, false, ◌≡◌, sym, ◌∙◌, true, some, has, Gives}
use mathlib.Core.Path.{subst}
use ngim.Limiter.Given.{AreGiven}
use ngim.Limiter.Memory.{AreListed}
use ngim.Limiter.{
  Limit, cmd_limit_mem, Arguments, Confinement, System, validate_cmdline, limit_resources,
  priority_step, memory_step, cage_step, privileges_step, confine,
}
use ngim.Limiter.Limits.{AreLimits, Gives-bind}
use ngim.Limiter.Steps.{
  AfterPriority, priority_step-AfterPriority, memory_step-MemorySet, limit_resources-ResourcesSet,
  AfterCage, cage_step-AfterCage, AfterPrivileges, privileges_step-AfterPrivileges, MemorySet,
  ResourcesSet, HasPriority, HasCage, HasUser,
}

module _ (s : System) (selected : ℕ) (args : Arguments) where
  -- The limits of a resource before and after: the memory limit was set where it was given and is one
  -- of this resource, and then the limit that was given for the resource.
  abbrev pub HasLimit : ℕ → Limit → Limit → Type 0
  HasLimit r old new =
      (m : Limit) × (((has selected cmd_limit_mem ≡ true
            → AreListed s s.memres args.limit_mem r old m)
          × (has selected cmd_limit_mem ≡ false → m ≡ old))
        × AreGiven s s.nlimits 0 args.rlims r m new)

  -- What the program is executed with, where the limiter was started with `c`.
  pub record IsConfined (c c' : Confinement) : Type 0 where
    pub priority : HasPriority s selected args c'
    pub limits : (r : ℕ) → HasLimit r (c.limits r) (c'.limits r)
    pub ordered : AreLimits c.limits → AreLimits c'.limits
    pub cage : HasCage s selected args c'.cage
    pub process : HasUser s selected args c.process c'.process

  -- The steps, put together.
  confined :
      (c c1 c2 c3 c4 c5 : Confinement)
      → AfterPriority s selected args c c1
      → MemorySet s selected args c1 c2
      → ResourcesSet s selected args c2 c3
      → AfterCage s selected args c3 c4
      → AfterPrivileges s selected args c4 c5
      → IsConfined c c5
  unfolding MemorySet ResourcesSet
  confined c c1 c2 c3 c4 c5 p (m, (given, not_given)) (r, resources) g d =
      let kept : c5.priority ≡ c1.priority =
        d.priority ∙ (g.priority ∙ (r.priority ∙ m.priority)) in
      let same : c4.process ≡ c.process = g.process ∙ (r.process ∙ (m.process ∙ p.process)) in
      let limits : c5.limits ≡ c3.limits = d.limits ∙ g.limits in
      record {
        priority = λ t.
            let (num, (z, (reads, (e, i)))) = p.priority t in (num, (z, (reads, (kept ∙ e, i))));
        limits = λ k.
            let before : c1.limits k ≡ c.limits k = ap (λ l. l k) p.limits in
            let after : c3.limits k ≡ c5.limits k = sym (ap (λ l. l k) limits) in
            (
              c2.limits k,
              (
                (
                  λ t.
                      subst (λ l. AreListed s s.memres args.limit_mem k l (c2.limits k)) before
                        (given t k),
                  λ f. not_given f k ∙ before,
                ),
                subst (AreGiven s s.nlimits 0 args.rlims k (c2.limits k)) after (resources k),
              ),
            );
        ordered = λ l. rw limits (r.limits (m.limits (rw (sym p.limits) at l)));
        cage = rw d.cage g.cage;
        process = rw (sym same) d.process;
      }

  confine-Confined :
      (c : Confinement)
      → validate_cmdline selected ≡ true
      → Gives (IsConfined c) (confine s selected args c)
  unfolding confine
  confine-Confined c v =
      Gives-bind (AfterPriority s selected args c) (IsConfined c) (priority_step s selected args c)
        _ (priority_step-AfterPriority s selected args c)
        (λ c1 p.
          Gives-bind (MemorySet s selected args c1) (IsConfined c) (memory_step s selected args c1)
            _ (memory_step-MemorySet s selected args c1)
            (λ c2 m.
              Gives-bind (ResourcesSet s selected args c2) (IsConfined c)
                (limit_resources s s.nlimits 0 args.rlims c2) _
                (limit_resources-ResourcesSet s selected args c2)
                (λ c3 r.
                  Gives-bind (AfterCage s selected args c3) (IsConfined c)
                    (cage_step s selected args c3) (privileges_step s selected args)
                    (cage_step-AfterCage s selected args c3 v)
                    (λ c4 g c5 e.
                      confined c c1 c2 c3 c4 c5 p m r g
                        (privileges_step-AfterPrivileges s selected args c4 c5 e)))))

  -- A program that the limiter executes has what the command line asks for: the number of the
  -- priority, or the end of the system's range that it is beyond; for every resource the limit that is
  -- given for memory, if it is one of memory, and then the limit that is given for it, as a number for
  -- both limits or as a soft one that is at most the hard one; no other limit is changed, and none is
  -- above its hard one where there was none before; the jail or the root directory that is given,
  -- neither instead of the other; and the given user and group, as ngim_priv_drop promises.
  pub confine-IsConfined :
      (c c' : Confinement)
      → validate_cmdline selected ≡ true
      → confine s selected args c ≡ some c'
      → IsConfined c c'
  confine-IsConfined c c' v e = confine-Confined c v c' e
