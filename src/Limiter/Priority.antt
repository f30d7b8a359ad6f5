-- ===== src/Limiter/Priority.antt =====
-- The priority that srvctl/src/limiter.c sets.
use ngim.Base.{
  ℕ, zero, suc, ◌≤◌, ◌<◌, if_true, if_false, ◌≡◌, refl, ltb, ℤ, pos, negsuc, if-ind, arith,
}
use ngim.Limiter.{System, negate, clamp}

module _ (s : System) where
  -- A number that setpriority takes.
  abbrev pub IsPriority : ℤ → Type 0
  IsPriority (pos n) = n ≤ s.prio_max
  IsPriority (negsuc n) = suc n ≤ s.prio_min

  negate-IsPriority : (m : ℕ) → m ≡ s.prio_min → IsPriority (negate m)
  negate-IsPriority zero e = omega arith
  negate-IsPriority (suc n) e = omega arith

  -- The number, or the end of the range that it is beyond.
  abbrev pub IsNearest : ℤ → ℤ → Type 0
  IsNearest (pos n) z = (n ≤ s.prio_max → z ≡ pos n) × (s.prio_max < n → z ≡ pos s.prio_max)
  IsNearest (negsuc n) z =
      (suc n ≤ s.prio_min → z ≡ negsuc n) × (s.prio_min < suc n → z ≡ negate s.prio_min)

  pub clamp-IsNearest : (num : ℤ) → IsNearest num (clamp s num)
  unfolding clamp
  clamp-IsNearest (pos n) = (
    λ h. if_false {b = ltb s.prio_max n} _ _ (ground (arith, h)),
    λ h. if_true {b = ltb s.prio_max n} _ _ (ground (arith, h)),
  )
  clamp-IsNearest (negsuc n) = (
    λ h. if_false {b = ltb s.prio_min (suc n)} _ _ (ground (arith, h)),
    λ h. if_true {b = ltb s.prio_min (suc n)} _ _ (ground (arith, h)),
  )

  pub clamp-IsPriority : (z : ℤ) → IsPriority (clamp s z)
  unfolding clamp
  clamp-IsPriority (pos n) = ground arith
  clamp-IsPriority (negsuc n) =
      if-ind IsPriority (ltb s.prio_min (suc n)) (λ _. negate-IsPriority s.prio_min refl)
        (λ t. let le : suc n ≤ s.prio_min = ground (arith, t) in le)
