-- ===== src/Cmdline/Rounds.antt =====
-- A case split on the rounds of parse_params in libbase/lib/cmdline.c.
use ngim.Base.{◌≡◌, refl}
use ngim.Cmdline.{Parsed, Result, Round, return, next, next_but_one}

pub after_round :
    (C : Result × Parsed → Type 0) (r : Round) (on_next on_skip : Parsed → Result × Parsed)
    → ((result : Result) (st : Parsed) → r ≡ return result st → C (result, st))
    → ((st : Parsed) → r ≡ next st → C (on_next st))
    → ((st : Parsed) → r ≡ next_but_one st → C (on_skip st))
    → C (elim r [
      | return result st ↦ (result, st)
      | next st ↦ on_next st
      | next_but_one st ↦ on_skip st
    ])
after_round C (return result st) on_next on_skip h n s = h result st refl
after_round C (next st) on_next on_skip h n s = n st refl
after_round C (next_but_one st) on_next on_skip h n s = s st refl
