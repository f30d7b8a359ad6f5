-- ===== src/Cmdline.antt =====
-- libbase/lib/cmdline.c: the parser of command lines. A string is the list of its bytes, without the
-- terminating NUL. The variables behind the pointers `arg` are numbered, so that two parameters can
-- share one; a variable holds a string or NULL. Warnings are not modelled.
mod Rounds
pub mod Strings
pub mod Bounds
pub mod Variables
mod Examples
use ngim.Base.{
  ℕ, zero, suc, ◌+◌, Bool, true, false, Option, none, some, List, [], ◌∷◌, ◌&&◌, ◌||◌, not, ltb,
  ◌==◌, length, get_or, get_elem?, has, bit_or, if◌then◌else◌,
}

abbrev pub Str : Type 0
Str = List ℕ

-- A string that is read where its parameter was given.
abbrev pub string_of : Option Str → Str
string_of none = []
string_of (some s) = s

-- The test `!strcmp(a, b)`.
unfoldable pub str_eq : Str → Str → Bool
str_eq [] [] = true
str_eq [] (y ∷ ys) = false
str_eq (x ∷ xs) [] = false
str_eq (x ∷ xs) (y ∷ ys) = x == y && str_eq xs ys

-- `s[i]`, the NUL at the end included.
abbrev pub char_at : Str → ℕ → ℕ
char_at s i = get_or s i 0

-- ngim_cmdline_params_t; `none` is a NULL `arg`.
pub record Param : Type 0 where
  pub name : Str
  pub cmd : ℕ
  pub arg : Option ℕ

pub record Parsed : Type 0 where
  pub selected : ℕ
  pub vars : ℕ → Option Str

-- The return values: negative, or an index.
pub data Result : Type 0 where
  failure : Result
  index : ℕ → Result

abbrev pub set_var : (ℕ → Option Str) → ℕ → Str → ℕ → Option Str
set_var vars v s w = if w == v then some s else vars w

-- The search for a parameter of this name.
unfoldable pub find_param : Str → List Param → Option Param
find_param s [] = none
find_param s (p ∷ params) =
    let rest = find_param s params in if str_eq s p.name then some p else rest

abbrev pub is_some {ℓ} : {A : Type ℓ} → Option A → Bool
is_some none = false
is_some (some a) = true

-- A round of parse_params: it returns, or goes on after this string or after its argument.
pub data Round : Type 0 where
  return : Result → Parsed → Round
  next : Parsed → Round
  next_but_one : Parsed → Round

-- "Possible argument", for the variable `v` and the string after the parameter.
unfoldable pub take_argument : List Param → ℕ → Option Str → Parsed → Round
take_argument params v none st = return failure st
take_argument params v (some b) st =
    if is_some (st.vars v)
    then next_but_one st
    else if char_at b 0 == b'-' && is_some (find_param b params)
    then return failure st
    else next_but_one (record st { vars = set_var st.vars v b })

unfoldable pub mark_arg : List Param → Option ℕ → Option Str → Parsed → Round
mark_arg params none follows st = next st
mark_arg params (some v) follows st = take_argument params v follows st

-- "Found a match", or the unknown parameter.
unfoldable pub mark_param : List Param → Option Param → Option Str → Parsed → Round
mark_param params none follows st = return failure st
mark_param params (some p) follows st =
    if has st.selected p.cmd
    then return failure st
    else mark_arg params p.arg follows (record st { selected = bit_or st.selected p.cmd })

-- The body of the loop at `argv[i]`, where `follows` is `argv[i + 1]`.
unfoldable pub round : List Param → ℕ → Str → Option Str → Parsed → Round
round params i a follows st =
    if not (char_at a 0 == b'-')
    then return (index i) st
    else if char_at a 1 == 0 || (char_at a 1 == b'-' && char_at a 2 == 0)
    then return (if is_some follows then index (i + 1) else index 0) st
    else mark_param params (find_param a params) follows st

-- parse_params from the index `i`, where the list holds `argv[i]` and what follows.
unfoldable pub parse_params : List Param → ℕ → List Str → Parsed → Result × Parsed
parse_params params i [] st = (index 0, st)
parse_params params i (a ∷ []) st = elim (round params i a none st) [
  | return r st' ↦ (r, st')
  | next st' ↦ (index 0, st')
  | next_but_one st' ↦ (index 0, st')
]
parse_params params i (a ∷ b ∷ rest) st = elim (round params i a (some b) st) [
  | return r st' ↦ (r, st')
  | next st' ↦ parse_params params (i + 1) (b ∷ rest) st'
  | next_but_one st' ↦ parse_params params (i + 2) rest st'
]

-- A round of parse_args, for the variable `v` and `argv[index]`.
unfoldable pub set_arg : ℕ → Option Str → Parsed → Option Parsed
set_arg v none st = none
set_arg v (some s) st =
    if is_some (st.vars v) then none else some (record st { vars = set_var st.vars v s })

-- parse_args: `args` are the variables that receive the arguments.
unfoldable pub parse_args : List Str → ℕ → List ℕ → Parsed → Result × Parsed
parse_args argv i [] st = (if ltb i (length argv) then index i else index 0, st)
parse_args argv i (v ∷ args) st = elim (set_arg v (get_elem? argv i) st) [
  | none ↦ (failure, st)
  | some st' ↦ parse_args argv (i + 1) args st'
]

-- "Any unwanted unused arguments?"
unfoldable pub refuse_extra : Bool → Result × Parsed → Result × Parsed
refuse_extra noextra (failure, st) = (failure, st)
refuse_extra noextra (index i, st) = if noextra && ltb 0 i then (failure, st) else (index i, st)

unfoldable pub parse_left : List Str → Option (List ℕ) → ℕ → Parsed → Result × Parsed
parse_left argv none i st = (index i, st)
parse_left argv (some args) i st = parse_args argv i args st

-- "If there are any arguments left, parse them as well"
unfoldable pub after_params : List Str → Bool → Option (List ℕ) → Result × Parsed → Result × Parsed
after_params argv noextra args (failure, st) = (failure, st)
after_params argv noextra args (index i, st) =
    if ltb 0 i then refuse_extra noextra (parse_left argv args i st) else (index i, st)

-- ngim_cmdline_parse, from the values of the variables before it.
unfoldable pub cmdline_parse :
    List Str → Bool → List Param → Option (List ℕ) → (ℕ → Option Str) → Result × Parsed
cmdline_parse [] noextra params args vars = (index 0, record { selected = 0; vars = vars })
cmdline_parse (prog ∷ argv) noextra params args vars =
    after_params (prog ∷ argv) noextra args
      (parse_params params 1 argv (record { selected = 0; vars = vars }))
