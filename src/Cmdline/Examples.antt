-- ===== src/Cmdline/Examples.antt =====
-- Command lines for libbase/lib/cmdline.c, as taiconv and tainlog see them.
use ngim.Base.{ℕ, ◌≡◌, refl, true, false, Option, none, some, List, [], ◌∷◌}
use ngim.Cmdline.{
  Str, Param, index, failure, find_param, str_eq, take_argument, mark_arg, mark_param, round,
  parse_params, set_arg, parse_args, refuse_extra, parse_left, after_params, cmdline_parse,
}
use ngim.Cmdline.Bounds.{InRange, limit, cmdline_parse-InRange}

-- -k with an argument in variable 0, -a without.
abbrev params : List Param
params =
    record { name = b'-' ∷ b'k' ∷ []; cmd = 2; arg = some 0 }
    ∷ record { name = b'-' ∷ b'a' ∷ []; cmd = 4; arg = none }
    ∷ []

abbrev null_vars : ℕ → Option Str
null_vars v = none

-- prog -a -k 5 d x
abbrev argv : List Str
argv =
    (b'p' ∷ [])
    ∷ (b'-' ∷ b'a' ∷ [])
    ∷ (b'-' ∷ b'k' ∷ [])
    ∷ (b'5' ∷ [])
    ∷ (b'd' ∷ [])
    ∷ (b'x' ∷ [])
    ∷ []

-- The directory goes to variable 1, and `x` is left.
parse_selected : (cmdline_parse argv false params (some (1 ∷ [])) null_vars).1.selected ≡ 6
unfolding cmdline_parse after_params parse_left refuse_extra parse_args set_arg parse_params round
    mark_param mark_arg take_argument find_param str_eq
parse_selected = refl

parse_index : (cmdline_parse argv false params (some (1 ∷ [])) null_vars).0 ≡ index 5
unfolding cmdline_parse after_params parse_left refuse_extra parse_args set_arg parse_params round
    mark_param mark_arg take_argument find_param str_eq
parse_index = refl

parse_extra : (cmdline_parse argv true params (some (1 ∷ [])) null_vars).0 ≡ failure
unfolding cmdline_parse after_params parse_left refuse_extra parse_args set_arg parse_params round
    mark_param mark_arg take_argument find_param str_eq
parse_extra = refl

cmdline_parse-InRange_example :
    InRange (limit false argv) (cmdline_parse argv false params (some (1 ∷ [])) null_vars).0
cmdline_parse-InRange_example = cmdline_parse-InRange argv false params (some (1 ∷ [])) null_vars
