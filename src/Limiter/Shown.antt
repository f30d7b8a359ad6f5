-- ===== src/Limiter/Shown.antt =====
-- Which parameters the usage message of srvctl/src/limiter.c shows.
use ngim.Base.{
  ℕ, ◌≡◌, ◌≢◌, refl, sym, ap, ◌∙◌, inl, inr, true, false, Option, none, some, List, [], ◌∷◌, ◌++◌,
  In, codes, arith,
}
use ngim.Cmdline.{Str, Param}
use ngim.Limiter.Usage.{is_skipped, same_arg, usage_message}
use ngim.Limiter.Kept.{
  kept, usages, usage_loop-kept, Covered, IsNew, kept-IsNew, kept-Covered, AreUnlike,
  kept-AreUnlike, same_arg_refl,
}

-- The parameter has a name that begins with two dashes, and an argument.
abbrev pub IsLong : Param → Type 0
IsLong p = ((rest : Str) × (p.name ≡ b'-' ∷ b'-' ∷ rest)) × ((arg : ℕ) × (p.arg ≡ some arg))

-- No two of the parameters have the same argument.
abbrev pub AreApart : List Param → Type 0
AreApart [] = Unit
AreApart (p ∷ params) = ((q : Param) → In q params → p.arg ≢ q.arg) × AreApart params

IsLong-is_skipped :
    (name : Str) (cmd : ℕ) (arg : Option ℕ)
    → is_skipped (record { name = name; cmd = cmd; arg = arg }) ≡ false
    → IsLong (record { name = name; cmd = cmd; arg = arg })
IsLong-is_skipped [] cmd arg h = absurd (ground (arith, h))
IsLong-is_skipped (c ∷ []) cmd arg h = absurd (ground (arith, h))
IsLong-is_skipped (c ∷ d ∷ rest) cmd none h = absurd (ground (arith, h))
IsLong-is_skipped (c ∷ d ∷ rest) cmd (some v) h =
    let first : c ≡ b'-' = ground (arith, h) in
    let second : d ≡ b'-' = ground (arith, h) in ((rest, rw (first, second) refl), (v, refl))

is_skipped-IsLong : (p : Param) → IsLong p → is_skipped p ≡ false
is_skipped-IsLong p ((rest, dashes), (v, arg)) = rw (dashes, arg) refl

same_arg→≡ : (a b : Option ℕ) → same_arg a b ≡ true → a ≡ b
same_arg→≡ none none h = refl
same_arg→≡ none (some w) h = absurd (cc)
same_arg→≡ (some v) none h = absurd (cc)
same_arg→≡ (some v) (some w) h = let e : v ≡ w = ground (arith, h) in ap some e

AreUnlike-AreApart : (params : List Param) → AreUnlike params → AreApart params
AreUnlike-AreApart [] h = tt
AreUnlike-AreApart (p ∷ params) (h, rest) = (
  λ q m same.
      let t : same_arg p.arg q.arg ≡ true = rw same (same_arg_refl q.arg) in
      let no : true ≡ false = sym t ∙ h q m in cc,
  AreUnlike-AreApart params rest,
)

-- The usage message is the line with these names between brackets: those of parameters that are in
-- the list and have an argument and a name that begins with two dashes, no two of them with the same
-- argument; and for every such parameter of the list, the name of one with its argument.
pub usage_message-AreApart :
    (argv0 : Str) (params : List Param)
    → (shown : List Param) × ((usage_message argv0 params
          ≡ ((codes "usage: " ++ (argv0 ++ codes " --help | ")) ++ usages shown)
            ++ codes "program [arguments]")
        × (((p : Param) → In p shown → In p params × IsLong p)
            × (AreApart shown
                × ((p : Param)
                    → In p params
                    → IsLong p
                    → (q : Param) × (In q shown × (q.arg ≡ p.arg))))))
unfolding usage_message Covered
usage_message-AreApart argv0 params =
    let begin : Str = codes "usage: " ++ (argv0 ++ codes " --help | ") in
    (
      kept [] params,
      (
        ap (λ s. s ++ codes "program [arguments]") (usage_loop-kept [] begin params),
        (
          λ p m.
              let new : IsNew [] params p = kept-IsNew [] params p m in
              (new.here, IsLong-is_skipped p.name p.cmd p.arg new.long),
          (
            AreUnlike-AreApart (kept [] params) (kept-AreUnlike [] params),
            λ p m n. elim (kept-Covered [] params p m (is_skipped-IsLong p n)) [
              | inl (q, (none_early, h)) ↦ absurd none_early
              | inr (q, (m', (n', same))) ↦ (q, (m', same_arg→≡ q.arg p.arg same))
            ],
          ),
        ),
      ),
    )
