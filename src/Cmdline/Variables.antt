-- ===== src/Cmdline/Variables.antt =====
-- What libbase/lib/cmdline.c does to the variables of parameters and arguments.
use mathlib.Core.List.{Memᴰ}
use mathlib.Core.Path.{subst}
use ngim.Base.{
  ℕ, zero, suc, ◌+◌, ◌≡◌, refl, ◌⊎◌, inl, inr, ◌∙◌, sym, Bool, false, Option, none, some, List, [],
  ◌∷◌, ◌&&◌, ◌==◌, ltb, arith, Bool-cases, Option-cases, get_elem?, has, bit_or, not, ==_iff, ◌||◌,
}
use ngim.Cmdline.Rounds.{after_round}
use ngim.Cmdline.{
  Str, Param, Parsed, Result, failure, index, Round, return, next, next_but_one, is_some,
  find_param, char_at, take_argument, mark_arg, mark_param, round, parse_params, set_arg, set_var,
  parse_args, refuse_extra, parse_left, after_params, cmdline_parse,
}

-- A variable that was left alone, or was NULL and received a string of the list.
abbrev pub Written : List Str → Option Str → Option Str → Type 0
Written argv old new = (new ≡ old) ⊎ ((old ≡ none) × ((s : Str) × (new ≡ some s) × Memᴰ s argv))

Written-trans :
    {argv : List Str} {a b c : Option Str} → Written argv a b → Written argv b c → Written argv a c
Written-trans (inl p) (inl q) = inl (q ∙ p)
Written-trans (inl p) (inr (n, w)) = inr (sym p ∙ n, w)
Written-trans (inr (n, (s, e, m))) (inl q) = inr (n, (s, q ∙ e, m))
Written-trans (inr (n, (s, e, m))) (inr (n', w)) = cc

Written-tail :
    {argv : List Str} {a b : Option Str} (x : Str) → Written argv a b → Written (x ∷ argv) a b
Written-tail x (inl p) = inl p
Written-tail x (inr (n, (s, e, m))) = inr (n, (s, e, Memᴰ.tail m))

none_of_is_some {ℓ} : {A : Type ℓ} (o : Option A) → is_some o ≡ false → o ≡ none
none_of_is_some none h = refl
none_of_is_some (some a) h = cc

set_var-Written :
    (argv : List Str) (vars : ℕ → Option Str) (v w : ℕ) (s : Str)
    → is_some (vars v) ≡ false
    → Memᴰ s argv
    → Written argv (vars w) (set_var vars v s w)
set_var-Written argv vars v w s h m = elim (Bool-cases (w == v)) [
  | inl same ↦ inr (rw ((==_iff w v).0 same) (none_of_is_some (vars v) h), (s, rw same, m))
  | inr other ↦ inl (rw other)
]

-- The state that a round goes on from.
abbrev RoundWritten : List Str → (ℕ → Option Str) → ℕ → Round → Type 0
RoundWritten argv vars w (return r st) = Written argv (vars w) (st.vars w)
RoundWritten argv vars w (next st) = Written argv (vars w) (st.vars w)
RoundWritten argv vars w (next_but_one st) = Written argv (vars w) (st.vars w)

-- The string after a parameter, if there is one, is in the list.
abbrev FollowsIn : List Str → Option Str → Type 0
FollowsIn argv none = Unit {0}
FollowsIn argv (some b) = Memᴰ b argv

take_argument-Written :
    (argv : List Str) (params : List Param) (v w : ℕ) (follows : Option Str) (st : Parsed)
    → FollowsIn argv follows
    → RoundWritten argv st.vars w (take_argument params v follows st)
unfolding take_argument
take_argument-Written argv params v w none st m = inl refl
take_argument-Written argv params v w (some b) st m = elim (Bool-cases (is_some (st.vars v))) [
  | inl set ↦ rw (RoundWritten, set) (inl refl)
  | inr unset ↦ elim (Bool-cases (char_at b 0 == b'-' && is_some (find_param b params))) [
    | inl wrong ↦ rw (RoundWritten, unset, wrong) (inl refl)
    | inr right ↦ rw (RoundWritten, unset, right) (set_var-Written argv st.vars v w b unset m)
  ]
]

module _ (argv : List Str) (params : List Param) (w : ℕ) (follows : Option Str)
    (m : FollowsIn argv follows) where
  mark_arg-Written :
      (arg : Option ℕ) (st : Parsed) → RoundWritten argv st.vars w (mark_arg params arg follows st)
  unfolding mark_arg
  mark_arg-Written none st = inl refl
  mark_arg-Written (some v) st = take_argument-Written argv params v w follows st m

  mark_param-Written :
      (p : Option Param) (st : Parsed)
      → RoundWritten argv st.vars w (mark_param params p follows st)
  unfolding mark_param
  mark_param-Written none st = inl refl
  mark_param-Written (some p) st = elim (Bool-cases (has st.selected p.cmd)) [
    | inl again ↦ rw (RoundWritten, again) (inl refl)
    | inr fresh ↦
        rw (RoundWritten, fresh)
          (mark_arg-Written p.arg (record st { selected = bit_or st.selected p.cmd }))
  ]

  round-Written :
      (i : ℕ) (a : Str) (st : Parsed) → RoundWritten argv st.vars w (round params i a follows st)
  unfolding round
  round-Written i a st = elim (Bool-cases (not (char_at a 0 == b'-'))) [
    | inl argument ↦ rw (RoundWritten, argument) (inl refl)
    | inr dash ↦ elim (Bool-cases (char_at a 1 == 0 || (char_at a 1 == b'-' && char_at a 2 == 0))) [
      | inl end ↦ rw (RoundWritten, dash, end) (inl refl)
      | inr param ↦ rw (RoundWritten, dash, param) (mark_param-Written (find_param a params) st)
    ]
  ]

parse_params-Written :
    (params : List Param) (i w : ℕ) (argv : List Str) (st : Parsed)
    → Written argv (st.vars w) ((parse_params params i argv st).1.vars w)
unfolding parse_params
parse_params-Written params i w [] st = inl refl
parse_params-Written params i w (a ∷ []) st =
    after_round (λ o. Written (a ∷ []) (st.vars w) (o.1.vars w)) (round params i a none st)
      (λ st'. (index 0, st')) (λ st'. (index 0, st'))
      (λ r st' e. rw e at (round-Written (a ∷ []) params w none tt i a st))
      (λ st' e. rw e at (round-Written (a ∷ []) params w none tt i a st))
      (λ st' e. rw e at (round-Written (a ∷ []) params w none tt i a st))
parse_params-Written params i w (a ∷ b ∷ rest) st =
    let round_lem =
      round-Written (a ∷ b ∷ rest) params w (some b) (Memᴰ.tail (Memᴰ.head refl)) i a st in
    after_round (λ o. Written (a ∷ b ∷ rest) (st.vars w) (o.1.vars w))
      (round params i a (some b) st) (λ st'. parse_params params (i + 1) (b ∷ rest) st')
      (λ st'. parse_params params (i + 2) rest st') (λ r st' e. rw e at round_lem)
      (λ st' e.
        Written-trans (rw e at round_lem)
          (Written-tail a (parse_params-Written params (i + 1) w (b ∷ rest) st')))
      (λ st' e.
        Written-trans (rw e at round_lem)
          (Written-tail a (Written-tail b (parse_params-Written params (i + 2) w rest st'))))

get_elem?-Memᴰ : (argv : List Str) (i : ℕ) (s : Str) → get_elem? argv i ≡ some s → Memᴰ s argv
get_elem?-Memᴰ [] i s h = cc
get_elem?-Memᴰ (x ∷ argv) zero s h = Memᴰ.head (cc)
get_elem?-Memᴰ (x ∷ argv) (suc i) s h = Memᴰ.tail (get_elem?-Memᴰ argv i s h)

FollowsIn-get_elem? : (argv : List Str) (i : ℕ) → FollowsIn argv (get_elem? argv i)
FollowsIn-get_elem? argv i = elim (Option-cases (get_elem? argv i)) [
  | inl e ↦ rw e tt
  | inr (s, e) ↦ rw e (get_elem?-Memᴰ argv i s e)
]

set_arg-Written :
    (argv : List Str) (v w : ℕ) (o : Option Str) (st st' : Parsed)
    → FollowsIn argv o
    → set_arg v o st ≡ some st'
    → Written argv (st.vars w) (st'.vars w)
unfolding set_arg
set_arg-Written argv v w none st st' m h = cc
set_arg-Written argv v w (some s) st st' m h = elim (Bool-cases (is_some (st.vars v))) [
  | inl set ↦ let k = rw set at h in cc k
  | inr unset ↦
      let written = rw unset at h in
      let same : record st { vars = set_var st.vars v s } ≡ st' = cc written in
      subst (λ (t : Parsed). Written argv (st.vars w) (t.vars w)) same
        (set_var-Written argv st.vars v w s unset m)
]

parse_args-Written :
    (argv : List Str) (i w : ℕ) (args : List ℕ) (st : Parsed)
    → Written argv (st.vars w) ((parse_args argv i args st).1.vars w)
unfolding parse_args
parse_args-Written argv i w [] st = inl refl
parse_args-Written argv i w (v ∷ args) st = elim (Option-cases (set_arg v (get_elem? argv i) st)) [
  | inl e ↦ rw (Written, parse_args, e) (inl refl)
  | inr (st', e) ↦
      rw (Written, parse_args, e)
        (Written-trans
          (set_arg-Written argv v w (get_elem? argv i) st st' (FollowsIn-get_elem? argv i) e)
          (parse_args-Written argv (i + 1) w args st'))
]

refuse_extra_state : (noextra : Bool) (o : Result × Parsed) → (refuse_extra noextra o).1 ≡ o.1
unfolding refuse_extra
refuse_extra_state noextra (failure, st) = refl
refuse_extra_state noextra (index i, st) = ground arith

parse_left-Written :
    (argv : List Str) (args : Option (List ℕ)) (i w : ℕ) (st : Parsed)
    → Written argv (st.vars w) ((parse_left argv args i st).1.vars w)
unfolding parse_left
parse_left-Written argv none i w st = inl refl
parse_left-Written argv (some args) i w st = parse_args-Written argv i w args st

after_params-Written :
    (argv : List Str) (noextra : Bool) (args : Option (List ℕ)) (w : ℕ) (o : Result × Parsed)
    → Written argv (o.1.vars w) ((after_params argv noextra args o).1.vars w)
unfolding after_params
after_params-Written argv noextra args w (failure, st) = inl refl
after_params-Written argv noextra args w (index i, st) = elim (Bool-cases (ltb 0 i)) [
  | inr e ↦ rw (Written, e) (inl refl)
  | inl e ↦
      rw (Written, e, refuse_extra_state noextra (parse_left argv args i st))
        (parse_left-Written argv args i w st)
]

-- ngim_cmdline_parse overwrites no variable: each keeps its value, or was NULL and now points to a
-- string of argv, whatever the result is.
pub cmdline_parse-Written :
    (argv : List Str) (noextra : Bool) (params : List Param) (args : Option (List ℕ))
    (vars : ℕ → Option Str) (w : ℕ)
    → Written argv (vars w) ((cmdline_parse argv noextra params args vars).1.vars w)
unfolding cmdline_parse
cmdline_parse-Written [] noextra params args vars w = inl refl
cmdline_parse-Written (prog ∷ argv) noextra params args vars w =
    let start : Parsed = record { selected = 0; vars = vars } in
    Written-trans (Written-tail prog (parse_params-Written params 1 w argv start))
      (after_params-Written (prog ∷ argv) noextra args w (parse_params params 1 argv start))
