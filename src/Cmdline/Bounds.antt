-- ===== src/Cmdline/Bounds.antt =====
-- The index that libbase/lib/cmdline.c returns lies in argv.
use ngim.Base.{
  ℕ, suc, ◌+◌, ◌<◌, ◌≡◌, refl, ◌⊎◌, inl, inr, Bool, true, false, Option, none, some, List, [], ◌∷◌,
  ltb, length, arith, Bool-cases, Option-cases, get_elem?,
}
use ngim.Cmdline.Rounds.{after_round}
use ngim.Cmdline.{
  Str, Param, Parsed, Result, failure, index, Round, return, next, next_but_one, find_param,
  take_argument, mark_arg, mark_param, round, parse_params, set_arg, parse_args, refuse_extra,
  parse_left, after_params, cmdline_parse,
}

-- An index that is returned is 0 or lies below the bound.
abbrev pub InRange : ℕ → Result → Type 0
InRange k failure = Unit {0}
InRange k (index n) = (n ≡ 0) ⊎ (n < k)

abbrev RoundInRange : ℕ → Round → Type 0
RoundInRange k (return r st) = InRange k r
RoundInRange k (next st) = Unit {0}
RoundInRange k (next_but_one st) = Unit {0}

mark_param-InRange :
    (params : List Param) (k : ℕ) (p : Option Param) (follows : Option Str) (st : Parsed)
    → RoundInRange k (mark_param params p follows st)
unfolding mark_param mark_arg take_argument
mark_param-InRange params k none follows st = tt
mark_param-InRange params k (some p) follows st = ground arith

round-InRange_last :
    (params : List Param) (i : ℕ) (a : Str) (st : Parsed)
    → RoundInRange (i + 1) (round params i a none st)
unfolding round
round-InRange_last params i a st =
    ground (arith, mark_param-InRange params (i + 1) (find_param a params) none st)

round-InRange :
    (params : List Param) (i k : ℕ) (a b : Str) (st : Parsed)
    → i + 1 < k
    → RoundInRange k (round params i a (some b) st)
unfolding round
round-InRange params i k a b st h =
    ground (arith, mark_param-InRange params k (find_param a params) (some b) st)

InRange-eq : {k l : ℕ} (r : Result) → k ≡ l → InRange k r → InRange l r
InRange-eq failure e h = tt
InRange-eq (index n) e h = ground arith

parse_params-InRange :
    (params : List Param) (i : ℕ) (argv : List Str) (st : Parsed)
    → InRange (i + length argv) (parse_params params i argv st).0
unfolding parse_params
parse_params-InRange params i [] st = inl refl
parse_params-InRange params i (a ∷ []) st =
    after_round (λ o. InRange (i + 1) o.0) (round params i a none st) (λ st'. (index 0, st'))
      (λ st'. (index 0, st')) (λ r st' e. rw e at (round-InRange_last params i a st))
      (λ st' e. inl refl) (λ st' e. inl refl)
parse_params-InRange params i (a ∷ b ∷ rest) st =
    let k = i + suc (suc (length rest)) in
    after_round (λ o. InRange k o.0) (round params i a (some b) st)
      (λ st'. parse_params params (i + 1) (b ∷ rest) st')
      (λ st'. parse_params params (i + 2) rest st')
      (λ r st' e. rw e at (round-InRange params i k a b st (omega arith)))
      (λ st' e.
        InRange-eq (parse_params params (i + 1) (b ∷ rest) st').0 (omega arith)
          (parse_params-InRange params (i + 1) (b ∷ rest) st'))
      (λ st' e.
        InRange-eq (parse_params params (i + 2) rest st').0 (omega arith)
          (parse_params-InRange params (i + 2) rest st'))

parse_args-InRange :
    (argv : List Str) (i : ℕ) (args : List ℕ) (st : Parsed)
    → InRange (length argv) (parse_args argv i args st).0
unfolding parse_args
parse_args-InRange argv i [] st = ground arith
parse_args-InRange argv i (v ∷ args) st = elim (Option-cases (set_arg v (get_elem? argv i) st)) [
  | inl e ↦ rw (InRange, e) tt
  | inr (st', e) ↦ rw (InRange, e) (parse_args-InRange argv (i + 1) args st')
]

-- With `noextra` an index is 0; without, it lies in argv.
abbrev pub limit : Bool → List Str → ℕ
limit true argv = 0
limit false argv = length argv

refuse_extra-InRange :
    (argv : List Str) (noextra : Bool) (o : Result × Parsed)
    → InRange (length argv) o.0
    → InRange (limit noextra argv) (refuse_extra noextra o).0
unfolding refuse_extra
refuse_extra-InRange argv noextra (failure, st) h = tt
refuse_extra-InRange argv true (index i, st) h = ground arith
refuse_extra-InRange argv false (index i, st) h = h

parse_left-InRange :
    (argv : List Str) (args : Option (List ℕ)) (i : ℕ) (st : Parsed)
    → InRange (length argv) (index i)
    → InRange (length argv) (parse_left argv args i st).0
unfolding parse_left
parse_left-InRange argv none i st h = h
parse_left-InRange argv (some args) i st h = parse_args-InRange argv i args st

after_params-InRange :
    (argv : List Str) (noextra : Bool) (args : Option (List ℕ)) (o : Result × Parsed)
    → InRange (length argv) o.0
    → InRange (limit noextra argv) (after_params argv noextra args o).0
unfolding after_params
after_params-InRange argv noextra args (failure, st) h = tt
after_params-InRange argv noextra args (index i, st) h = elim (Bool-cases (ltb 0 i)) [
  | inl e ↦
      rw (InRange, e)
        (refuse_extra-InRange argv noextra (parse_left argv args i st)
          (parse_left-InRange argv args i st h))
  | inr e ↦ rw (InRange, e) (inl (ground arith))
]

-- An index that ngim_cmdline_parse returns is 0 or the index of a string in argv, so that limiter
-- can run the program that stands there. With `noextra` it is 0.
pub cmdline_parse-InRange :
    (argv : List Str) (noextra : Bool) (params : List Param) (args : Option (List ℕ))
    (vars : ℕ → Option Str)
    → InRange (limit noextra argv) (cmdline_parse argv noextra params args vars).0
unfolding cmdline_parse
cmdline_parse-InRange [] noextra params args vars = inl refl
cmdline_parse-InRange (prog ∷ argv) noextra params args vars =
    let start : Parsed = record { selected = 0; vars = vars } in
    after_params-InRange (prog ∷ argv) noextra args (parse_params params 1 argv start) (
      InRange-eq (parse_params params 1 argv start).0 (omega arith)
        (parse_params-InRange params 1 argv start))
