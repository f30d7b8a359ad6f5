-- ===== src/Taiconv/Examples.antt =====
-- srvctl/src/taiconv.c on small inputs.
use mathlib.Core.Option
use ngim.Base.{
  ℕ, ◌+◌, ◌*◌, ◌/◌, ◌%◌, ◌≡◌, refl, true, false, none, some, codes, List, [], ◌∷◌, ◌++◌, arith,
}
use ngim.Tai.{Tain}
use ngim.Tai.Text.{tain_format, format_textual}
use ngim.Tai.Apr.{AprTime, tain_to_apr}
use ngim.Taiconv.{Clock}
use ngim.Taiconv.Read.{convert_read_all, convert_read_nrm}
use ngim.Taiconv.Mmap.{convert_mmap_all, convert_mmap_nrm}
use ngim.Taiconv.SameAll.{convert_mmap_all-convert_read_all}
use ngim.Taiconv.SameLines.{convert_mmap_nrm-convert_read_nrm}
use ngim.Taiconv.Stamps.{convert_read_all-tain_format}
use ngim.Cmdline.{
  Str, Parsed, set_var, parse_left, parse_args, refuse_extra, set_arg, cmdline_parse, after_params,
  parse_params, round, mark_param, find_param, str_eq, mark_arg,
}
use ngim.Taiconv.Converted.{IsUnprivileged, main-IsConverted}
use ngim.Priv.{Host, Process}
use ngim.Taiconv.Main.{
  arg_file, taiconv_parse, validate_cmdline, Choice, Formats, Source, World, printed, clock_for,
  read_converted, main,
}

abbrev counted : AprTime
counted = record {
  Time = ℕ;
  time_sec = λ a. a / 1000000;
  time_usec = λ a. a % 1000000;
  time_from_sec = λ s. s * 1000000;
  time_make = λ s u. s * 1000000 + u;
  time_sec-time_make = λ s u hs hu. omega arith;
  time_usec-time_make = λ s u hs hu. omega arith;
  time_from_sec-time_make = λ s hs. omega arith;
}

-- A format that prints the last digit of the seconds.
abbrev last_digit : ℕ → List ℕ
last_digit a = (b'0' + a / 1000000 % 10) ∷ b'Z' ∷ []

abbrev clock : Clock
clock = record { apr = counted; format = last_digit }

abbrev stamp : Tain
stamp = record { sec = record { x = 0x4000000042ac1735 }; nano = 0x2a3248c4 }

-- A line with a label and one without.
abbrev text : List ℕ
text = tain_format stamp ++ (b' ' ∷ b'x' ∷ 10 ∷ b'@' ∷ b'y' ∷ [])

convert_mmap_all-convert_read_all_example :
    (out : List ℕ) × (convert_read_all clock (b'@' ∷ b'4' ∷ b'@' ∷ []) ≡ some out)
    × (convert_mmap_all clock (b'@' ∷ b'4' ∷ b'@' ∷ []) ≡ some out)
convert_mmap_all-convert_read_all_example =
    convert_mmap_all-convert_read_all clock (b'@' ∷ b'4' ∷ b'@' ∷ []) refl

convert_mmap_nrm-convert_read_nrm_example :
    (out : List ℕ) × (convert_read_nrm clock (b'@' ∷ b'4' ∷ 10 ∷ b'@' ∷ []) ≡ some out)
    × (convert_mmap_nrm clock (b'@' ∷ b'4' ∷ 10 ∷ b'@' ∷ []) ≡ some out)
convert_mmap_nrm-convert_read_nrm_example =
    convert_mmap_nrm-convert_read_nrm clock (b'@' ∷ b'4' ∷ 10 ∷ b'@' ∷ []) refl

convert_read_all-tain_format_example :
    convert_read_all clock ((b'a' ∷ b' ' ∷ []) ++ (tain_format stamp ++ (b'@' ∷ b'0' ∷ [])))
    ≡ Option.map
        (λ out. (b'a' ∷ b' ' ∷ []) ++ (last_digit (tain_to_apr counted stamp) ++ out))
        (convert_read_all clock (b'@' ∷ b'0' ∷ []))
convert_read_all-tain_format_example =
    convert_read_all-tain_format clock stamp (b'a' ∷ b' ' ∷ []) (b'@' ∷ b'0' ∷ []) (omega arith)
      (refl, (refl, tt))

abbrev formats : Formats
formats = record { apr = counted; utc_format = last_digit; local_format = last_digit }

abbrev source : Source
source = record { content = text; mmap_opens = true; read_opens = true; mapped = false }

abbrev host : Host
host = record {
  user = λ s. none;
  group = λ s. none;
  can_setgroups = true;
  can_setgid = true;
  can_setuid = true;
  regains = false;
  can_prctl = true;
  can_init = true;
  can_set_permitted = true;
  can_set_effective = true;
  can_set_proc = true;
}

abbrev root : Process
root = record { uid = 0; gid = 0; groups = []; caps = 0 }

abbrev world : World
world = record { stdin = source; files = λ name. source; host = host; process = root }

-- taiconv -a f
abbrev command_line : List Str
command_line = codes "t" ∷ codes "-a" ∷ codes "f" ∷ []

abbrev parsed : Parsed
parsed = record { selected = 8; vars = set_var (λ _. none) arg_file (codes "f") }

abbrev choice : Choice
choice = record { utc = false; all = true }

main-IsConverted_example :
    (out : List ℕ) × (p : Process) × (read_converted (clock_for formats choice) true world text
      ≡ some out)
    × (main formats world command_line ≡ printed out p)
    × IsUnprivileged host root p
unfolding taiconv_parse cmdline_parse after_params parse_params round mark_param find_param str_eq
    mark_arg parse_left parse_args refuse_extra set_arg validate_cmdline tain_format format_textual
main-IsConverted_example =
    main-IsConverted formats world command_line 0 parsed choice refl refl (refl, refl) refl
