-- ===== src/Limiter/Given.antt =====
-- What the arguments of srvctl/src/limiter.c for the limits of resources set.
use mathlib.Core.Path.{subst}
use ngim.Base.{
  ℕ, zero, suc, ◌+◌, ◌≤◌, ◌<◌, ◌≡◌, ◌≢◌, refl, sym, ◌∙◌, ◌⊎◌, inl, inr, ◌==◌, ne→==, Bool, true,
  false, Option, none, some, [], ◌∷◌, ℤ, pos, negsuc, if◌then◌else◌, if-ind, if_true, if_false,
  Gives, Gives-some, Gives-none, Bool-cases, arith,
}
use ngim.Cmdline.{Str, char_at}
use ngim.Limiter.{
  Limit, Confinement, System, limited, set_limit, limit_number, do_limit, limit_given,
  limit_resources,
}
use ngim.Limiter.Limits.{Gives-bind}

module _ (s : System) where
  -- What a number does to a limit: with a sign of a hard limit, both become the number; without one,
  -- the soft limit does, but not above the hard one, which stays.
  abbrev pub IsHard : ℕ → Limit → Type 0
  IsHard n new = (new.soft ≡ n) × (new.hard ≡ n)

  abbrev pub IsSoft : ℕ → Limit → Limit → Type 0
  IsSoft n old new =
      (new.hard ≡ old.hard) × ((n ≤ old.hard → new.soft ≡ n) × (old.hard < n → new.soft ≡ old.hard))

  -- The argument is a number, after the sign of a hard limit or without it, and it was set.
  abbrev pub IsLimited : Str → Limit → Limit → Type 0
  IsLimited arg old new =
      (n : ℕ) × (((digits : Str) × ((arg ≡ b'=' ∷ digits)
            × ((s.strtoi digits ≡ (pos n, [])) × IsHard n new)))
        ⊎ ((char_at arg 0 ≢ b'=') × ((s.strtoi arg ≡ (pos n, [])) × IsSoft n old new)))

  -- The resource has what the argument says, and every other one what it had.
  abbrev pub Sets : ℕ → Str → Confinement → Confinement → Type 0
  Sets res arg c c' =
      IsLimited arg (c.limits res) (c'.limits res) × ((r : ℕ) → r ≢ res → c'.limits r ≡ c.limits r)

  set_limit-Sets :
      (res : ℕ) (l : Limit) (arg : Str) (c : Confinement)
      → IsLimited arg (c.limits res) l
      → Gives (Sets res arg c) (set_limit s res l c)
  unfolding set_limit
  set_limit-Sets res l arg c h =
      let limits : ℕ → Limit = λ r. if r == res then l else c.limits r in
      let at_res : limits res ≡ l = if_true {b = res == res} _ _ (ground arith) in
      if-ind (Gives (Sets res arg c)) (s.can_setrlimit res)
        (λ _.
          Gives-some (Sets res arg c) (record c { limits = limits })
            (rw at_res h, λ r n. if_false _ _ (ne→== r res n)))
        (λ _. Gives-none (Sets res arg c))

  limited-IsHard : (n : ℕ) (l : Limit) → IsHard n (limited s true n l)
  unfolding limited
  limited-IsHard n l = (refl, refl)

  limited-IsSoft : (n : ℕ) (l : Limit) → IsSoft n l (limited s false n l)
  unfolding limited
  limited-IsSoft n l = ground arith

  limit_number-Sets :
      (res : ℕ) (set_hard : Bool) (num : ℤ × Str) (arg : Str) (c : Confinement)
      → ((n : ℕ)
          → num ≡ (pos n, [])
          → IsLimited arg (c.limits res) (limited s set_hard n (c.limits res)))
      → Gives (Sets res arg c) (limit_number s res set_hard num c)
  unfolding limit_number
  limit_number-Sets res set_hard (pos n, []) arg c h =
      set_limit-Sets res (limited s set_hard n (c.limits res)) arg c (h n refl)
  limit_number-Sets res set_hard (negsuc n, []) arg c h = Gives-none (Sets res arg c)
  limit_number-Sets res set_hard (num, d ∷ rest) arg c h = Gives-none (Sets res arg c)

  pub do_limit-Sets :
      (res : ℕ) (arg : Str) (c : Confinement) → Gives (Sets res arg c) (do_limit s res arg c)
  unfolding do_limit
  do_limit-Sets res [] c =
      if-ind (Gives (Sets res [] c)) (s.can_getrlimit res)
        (λ _.
          limit_number-Sets res false (s.strtoi []) [] c
            (λ n e. (n, inr (omega arith, (e, limited-IsSoft n (c.limits res))))))
        (λ _. Gives-none (Sets res [] c))
  do_limit-Sets res (d ∷ arg) c =
      if-ind (Gives (Sets res (d ∷ arg) c)) (s.can_getrlimit res)
        (λ _. elim (Bool-cases (d == b'=')) [
          | inl t ↦
              let sign : d ≡ b'=' = ground (arith, t) in
              rw t (
                limit_number-Sets res true (s.strtoi arg) (d ∷ arg) c
                  (λ n e. (n, inl (arg, (rw sign refl, (e, limited-IsHard n (c.limits res)))))))
          | inr f ↦
              let no_sign : d ≢ b'=' = ground (arith, f) in
              rw f (
                limit_number-Sets res false (s.strtoi (d ∷ arg)) (d ∷ arg) c
                  (λ n e. (n, inr (no_sign, (e, limited-IsSoft n (c.limits res))))))
        ])
        (λ _. Gives-none (Sets res (d ∷ arg) c))

  -- The limits that the resources from `i` on get, `n` of them.
  abbrev pub AreGiven : ℕ → ℕ → (ℕ → Option Str) → ℕ → Limit → Limit → Type 0
  AreGiven n i rlims r old new =
      ((arg : Str) → i ≤ r → r < i + n → rlims r ≡ some arg → IsLimited arg old new)
      × (((r < i) ⊎ ((i + n ≤ r) ⊎ (rlims r ≡ none))) → new ≡ old)

  abbrev pub AfterResources : ℕ → ℕ → (ℕ → Option Str) → Confinement → Confinement → Type 0
  AfterResources n i rlims c c' = (r : ℕ) → AreGiven n i rlims r (c.limits r) (c'.limits r)

  limit_given-First :
      (i : ℕ) (given : Option Str) (c : Confinement)
      → Gives
          (λ c'.
            ((arg : Str) → given ≡ some arg → IsLimited arg (c.limits i) (c'.limits i))
            × ((given ≡ none → c'.limits i ≡ c.limits i)
                × ((r : ℕ) → r ≢ i → c'.limits r ≡ c.limits r)))
          (limit_given s i given c)
  limit_given-First i none c =
      Gives-some _ c ((λ arg e. let no : ⊥ = cc in absurd no), ((λ _. refl), λ r n. refl))
  limit_given-First i (some a) c = λ c' done_limit.
      let (set, others) = do_limit-Sets i a c c' done_limit in
      (
        λ arg same.
            let e' : a ≡ arg = cc in subst (λ x. IsLimited x (c.limits i) (c'.limits i)) e' set,
        ((λ no_arg. let no : ⊥ = cc in absurd no), others),
      )

  -- The resource `i` and then the others.
  step-AreGiven :
      (n i : ℕ) (rlims : ℕ → Option Str) (r : ℕ) (old m new : Limit)
      → (r ≡ i
          → ((arg : Str) → rlims r ≡ some arg → IsLimited arg old m) × (rlims r ≡ none → m ≡ old))
      → (r ≢ i → m ≡ old)
      → AreGiven n (i + 1) rlims r m new
      → AreGiven (suc n) i rlims r old new
  step-AreGiven n i rlims r old m new here other (later, stays) = elim (Bool-cases (r == i)) [
    | inl t ↦
        let e : r ≡ i = ground (arith, t) in
        let still : new ≡ m = stays (inl (omega (arith, e))) in
        let (limits, none_given) = here e in
        (
          λ arg lo hi is_arg. subst (IsLimited arg old) (sym still) (limits arg is_arg),
          λ out. elim out [
            | inl lo ↦ let no : ⊥ = omega (arith, lo, e) in absurd no
            | inr (inl hi) ↦ let no : ⊥ = omega (arith, hi, e) in absurd no
            | inr (inr no_arg) ↦ still ∙ none_given no_arg
          ],
        )
    | inr f ↦
        let ne : r ≢ i = ground (arith, f) in
        let same : m ≡ old = other ne in
        (
          λ arg lo hi is_arg.
              subst (λ l. IsLimited arg l new) same
                (later arg (omega (arith, lo, ne)) (omega (arith, hi)) is_arg),
          λ out. elim out [
            | inl lo ↦ stays (inl (omega (arith, lo))) ∙ same
            | inr (inl hi) ↦ stays (inr (inl (omega (arith, hi)))) ∙ same
            | inr (inr no_arg) ↦ stays (inr (inr no_arg)) ∙ same
          ],
        )
  ]

  pub limit_resources-AfterResources :
      (n i : ℕ) (rlims : ℕ → Option Str) (c : Confinement)
      → Gives (AfterResources n i rlims c) (limit_resources s n i rlims c)
  unfolding limit_resources
  limit_resources-AfterResources zero i rlims c =
      Gives-some (AfterResources zero i rlims c) c
        (λ r. ((λ arg lo hi e. let no : ⊥ = omega (arith, lo, hi) in absurd no), λ _. refl))
  limit_resources-AfterResources (suc n) i rlims c =
      Gives-bind _ (AfterResources (suc n) i rlims c) (limit_given s i (rlims i) c)
        (limit_resources s n (i + 1) rlims) (limit_given-First i (rlims i) c)
        (λ c1 (limits, (none_given, others)) c2 e r.
          step-AreGiven n i rlims r (c.limits r) (c1.limits r) (c2.limits r)
            (λ at_i. rw at_i (limits, none_given)) (others r)
            (limit_resources-AfterResources n (i + 1) rlims c1 c2 e r))
