-- ===== src/Limiter/Limits.antt =====
-- The limits of resources in srvctl/src/limiter.c.
use mathlib.Core.Option
use ngim.Base.{
  ℕ, zero, suc, ◌+◌, ◌≤◌, ◌≡◌, refl, ◌∙◌, ◌==◌, Bool, true, false, Option, none, some, List, [],
  ◌∷◌, ℤ, pos, negsuc, if◌then◌else◌, if-ind, Gives, Gives-some, Gives-none, arith,
}
use ngim.Cmdline.{Str, char_at}
use ngim.Limiter.{
  Limit, Confinement, System, limited, set_limit, limit_number, do_limit, limit_given,
  limit_resources, limit_memory,
}

-- No soft limit is above the hard one.
abbrev pub AreLimits : (ℕ → Limit) → Type 0
AreLimits limits = (r : ℕ) → (limits r).soft ≤ (limits r).hard

-- What the limits of resources leave of everything else.
pub record OnlyLimits (c c' : Confinement) : Type 0 where
  pub priority : c'.priority ≡ c.priority
  pub cage : c'.cage ≡ c.cage
  pub process : c'.process ≡ c.process
  pub limits : AreLimits c.limits → AreLimits c'.limits

pub OnlyLimits-refl : (c : Confinement) → OnlyLimits c c
OnlyLimits-refl c = record { priority = refl; cage = refl; process = refl; limits = λ l. l }

pub OnlyLimits-trans :
    (c c' c'' : Confinement) → OnlyLimits c c' → OnlyLimits c' c'' → OnlyLimits c c''
OnlyLimits-trans c c' c'' p q = record {
  priority = q.priority ∙ p.priority;
  cage = q.cage ∙ p.cage;
  process = q.process ∙ p.process;
  limits = λ l. q.limits (p.limits l);
}

pub Gives-bind :
    (P Q : Confinement → Type 0) (o : Option Confinement) (next : Confinement → Option Confinement)
    → Gives P o
    → ((c : Confinement) → P c → Gives Q (next c))
    → Gives Q (Option.bind o next)
unfolding Option.bind
Gives-bind P Q none next p q = Gives-none Q
Gives-bind P Q (some c) next p q = q c (p c refl)

module _ (s : System) where
  limited_le :
      (set_hard : Bool) (num : ℕ) (l : Limit)
      → (limited s set_hard num l).soft ≤ (limited s set_hard num l).hard
  unfolding limited
  limited_le true num l = omega arith
  limited_le false num l = ground arith

  set_limit-OnlyLimits :
      (res : ℕ) (l : Limit) (c : Confinement)
      → l.soft ≤ l.hard
      → Gives (OnlyLimits c) (set_limit s res l c)
  unfolding set_limit
  set_limit-OnlyLimits res l c le =
      if-ind (Gives (OnlyLimits c)) (s.can_setrlimit res)
        (λ _.
          Gives-some (OnlyLimits c) (record c { limits = λ r. if r == res then l else c.limits r })
            (record {
              priority = refl;
              cage = refl;
              process = refl;
              limits = λ all r.
                  if-ind (λ (m : Limit). m.soft ≤ m.hard) (r == res) (λ _. le) (λ _. all r);
            }))
        (λ _. Gives-none (OnlyLimits c))

  limit_number-OnlyLimits :
      (res : ℕ) (set_hard : Bool) (num : ℤ × Str) (c : Confinement)
      → Gives (OnlyLimits c) (limit_number s res set_hard num c)
  unfolding limit_number
  limit_number-OnlyLimits res set_hard (pos n, []) c =
      set_limit-OnlyLimits res (limited s set_hard n (c.limits res)) c
        (limited_le set_hard n (c.limits res))
  limit_number-OnlyLimits res set_hard (negsuc n, []) c = Gives-none (OnlyLimits c)
  limit_number-OnlyLimits res set_hard (num, d ∷ rest) c = Gives-none (OnlyLimits c)

  do_limit-OnlyLimits :
      (res : ℕ) (arg : Str) (c : Confinement) → Gives (OnlyLimits c) (do_limit s res arg c)
  unfolding do_limit
  do_limit-OnlyLimits res arg c =
      if-ind (Gives (OnlyLimits c)) (s.can_getrlimit res)
        (λ _. limit_number-OnlyLimits res (char_at arg 0 == b'=') _ c)
        (λ _. Gives-none (OnlyLimits c))

  limit_given-OnlyLimits :
      (res : ℕ) (arg : Option Str) (c : Confinement)
      → Gives (OnlyLimits c) (limit_given s res arg c)
  limit_given-OnlyLimits res none c = Gives-some (OnlyLimits c) c (OnlyLimits-refl c)
  limit_given-OnlyLimits res (some arg) c = do_limit-OnlyLimits res arg c

  -- Steps that only limit, one after the other.
  pub two_steps :
      (c : Confinement) (o : Option Confinement) (next : Confinement → Option Confinement)
      → Gives (OnlyLimits c) o
      → ((c' : Confinement) → Gives (OnlyLimits c') (next c'))
      → Gives (OnlyLimits c) (Option.bind o next)
  two_steps c o next p q =
      Gives-bind (OnlyLimits c) (OnlyLimits c) o next p
        (λ c' l c'' e. OnlyLimits-trans c c' c'' l (q c' c'' e))

  pub limit_resources-OnlyLimits :
      (n i : ℕ) (rlims : ℕ → Option Str) (c : Confinement)
      → Gives (OnlyLimits c) (limit_resources s n i rlims c)
  unfolding limit_resources
  limit_resources-OnlyLimits zero i rlims c = Gives-some (OnlyLimits c) c (OnlyLimits-refl c)
  limit_resources-OnlyLimits (suc n) i rlims c =
      two_steps c (limit_given s i (rlims i) c) (limit_resources s n (i + 1) rlims)
        (limit_given-OnlyLimits i (rlims i) c) (limit_resources-OnlyLimits n (i + 1) rlims)

  pub limit_memory-OnlyLimits :
      (memres : List ℕ) (arg : Str) (c : Confinement)
      → Gives (OnlyLimits c) (limit_memory s memres arg c)
  unfolding limit_memory
  limit_memory-OnlyLimits [] arg c = Gives-some (OnlyLimits c) c (OnlyLimits-refl c)
  limit_memory-OnlyLimits (res ∷ memres) arg c =
      two_steps c (do_limit s res arg c) (limit_memory s memres arg) (do_limit-OnlyLimits res arg c)
        (limit_memory-OnlyLimits memres arg)
