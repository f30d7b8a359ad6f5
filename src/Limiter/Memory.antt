-- ===== src/Limiter/Memory.antt =====
-- What limit_memory of srvctl/src/limiter.c sets.
use mathlib.Core.Path.{subst}
use ngim.Base.{
  ℕ, ◌≡◌, ◌≢◌, refl, sym, ◌∙◌, ◌⊎◌, inl, inr, ◌==◌, List, [], ◌∷◌, Gives, Gives-some, In,
  Bool-cases, arith,
}
use ngim.Cmdline.{Str, char_at}
use ngim.Limiter.{Limit, Confinement, System, do_limit, limit_memory}
use ngim.Limiter.Limits.{Gives-bind}
use ngim.Limiter.Given.{IsLimited, Sets, do_limit-Sets}

module _ (s : System) where
  IsLimited-again :
      (arg : Str) (old m new : Limit)
      → IsLimited s arg old m
      → IsLimited s arg m new
      → IsLimited s arg old new
  IsLimited-again arg old m new (k, inl hard) (n, inl again) = (n, inl again)
  IsLimited-again arg old m new (k, inl (digits, (sign, h))) (n, inr (no_sign, again)) =
      let head : char_at arg 0 ≡ b'=' = rw sign refl in absurd (no_sign head)
  IsLimited-again arg old m new (k, inr (no_sign, h)) (n, inl again) = (n, inl again)
  IsLimited-again arg old m new (k, inr (no_sign, (e, (kept, h))))
        (n, inr (no_sign', (e', again))) =
      (n, inr (no_sign', (e', rw kept at again)))

  -- The resources of the list get what the argument says, and the others keep what they have.
  abbrev pub AreListed : List ℕ → Str → ℕ → Limit → Limit → Type 0
  AreListed res_list arg r old new =
      (In r res_list → IsLimited s arg old new) × (¬ In r res_list → new ≡ old)

  abbrev Either : Str → Limit → Limit → Type 0
  Either arg old new = IsLimited s arg old new ⊎ (new ≡ old)

  step-AreListed :
      (res : ℕ) (rest : List ℕ) (arg : Str) (r : ℕ) (old m new : Limit)
      → (r ≡ res → IsLimited s arg old m)
      → (r ≢ res → m ≡ old)
      → AreListed rest arg r m new × Either arg m new
      → AreListed (res ∷ rest) arg r old new × Either arg old new
  step-AreListed res rest arg r old m new here other ((listed, unlisted), either) =
      elim (Bool-cases (r == res)) [
        | inl t ↦
            let e : r ≡ res = ground (arith, t) in
            let set : IsLimited s arg old new = elim either [
              | inl again ↦ IsLimited-again arg old m new (here e) again
              | inr same ↦ subst (IsLimited s arg old) (sym same) (here e)
            ] in
            (((λ _. set), λ no. absurd (no (inl (sym e)))), inl set)
        | inr f ↦
            let ne : r ≢ res = ground (arith, f) in
            let same : m ≡ old = other ne in
            (
              (
                λ i. elim i [
                  | inl e ↦ absurd (ne (sym e))
                  | inr j ↦ subst (λ l. IsLimited s arg l new) same (listed j)
                ],
                λ no. unlisted (λ j. no (inr j)) ∙ same,
              ),
              elim either [
                | inl set ↦ inl (subst (λ l. IsLimited s arg l new) same set)
                | inr still ↦ inr (still ∙ same)
              ],
            )
      ]

  memory-Either :
      (memres : List ℕ) (arg : Str) (c : Confinement)
      → Gives
          (λ c'.
            (r : ℕ)
            → AreListed memres arg r (c.limits r) (c'.limits r)
              × Either arg (c.limits r) (c'.limits r))
          (limit_memory s memres arg c)
  unfolding limit_memory
  memory-Either [] arg c = Gives-some _ c (λ r. (((λ i. absurd i), λ _. refl), inr refl))
  memory-Either (res ∷ memres) arg c =
      Gives-bind (Sets s res arg c) _ (do_limit s res arg c) (limit_memory s memres arg)
        (do_limit-Sets s res arg c)
        (λ c1 (set, others) c2 e r.
          step-AreListed res memres arg r (c.limits r) (c1.limits r) (c2.limits r)
            (λ at_res. rw at_res set) (others r) (memory-Either memres arg c1 c2 e r))

  abbrev pub AfterMemory : List ℕ → Str → Confinement → Confinement → Type 0
  AfterMemory memres arg c c' = (r : ℕ) → AreListed memres arg r (c.limits r) (c'.limits r)

  pub limit_memory-AfterMemory :
      (memres : List ℕ) (arg : Str) (c : Confinement)
      → Gives (AfterMemory memres arg c) (limit_memory s memres arg c)
  limit_memory-AfterMemory memres arg c = λ c' e r. (memory-Either memres arg c c' e r).0
