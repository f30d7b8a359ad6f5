-- ===== src/Limiter/Usage.antt =====
-- The usage message of srvctl/src/limiter.c, which is made of its parameters.
use ngim.Base.{
  ℕ, Bool, true, false, Option, none, some, List, [], ◌∷◌, ◌++◌, ◌==◌, ◌||◌, not, codes,
  if◌then◌else◌,
}
use ngim.Cmdline.{Str, Param, char_at, is_some}

-- "Skip short names and parameters without arguments"
abbrev pub is_skipped : Param → Bool
is_skipped p =
    not (char_at p.name 0 == b'-') || (not (char_at p.name 1 == b'-') || not (is_some p.arg))

-- The test of two pointers `arg`.
abbrev pub same_arg : Option ℕ → Option ℕ → Bool
same_arg none none = true
same_arg none (some w) = false
same_arg (some v) none = false
same_arg (some v) (some w) = v == w

-- The inner loop of die_usage: whether an earlier parameter has the argument.
unfoldable pub shares : List Param → Param → Bool
shares [] p = false
shares (q ∷ earlier) p =
    let rest = shares earlier p in
    if is_skipped q then rest else if same_arg q.arg p.arg then true else rest

abbrev pub usage_of : Param → Str
usage_of p = codes "[" ++ (p.name ++ codes " arg] ")

-- The outer loop, with `str` so far.
unfoldable pub usage_loop : List Param → Str → List Param → Str
unfolding shares
usage_loop earlier str [] = str
usage_loop earlier str (p ∷ params) =
    let passed = usage_loop (earlier ++ (p ∷ [])) str params in
    let named = usage_loop (earlier ++ (p ∷ [])) (str ++ usage_of p) params in
    if is_skipped p then passed else if shares earlier p then passed else named

-- The message of die_usage.
unfoldable pub usage_message : Str → List Param → Str
unfolding usage_loop
usage_message argv0 params =
    usage_loop [] (codes "usage: " ++ (argv0 ++ codes " --help | ")) params
    ++ codes "program [arguments]"
