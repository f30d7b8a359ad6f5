-- ===== src/Tainlog/Options.antt =====
-- validate_cmdline of srvctl/src/tainlog.c. apr_atoi64 is a parameter.
use ngim.Base.{
  ℕ, ◌≡◌, ◌≤◌, Option, none, some, [], ◌∷◌, pos, negsuc, ◌&&◌, has, ℤ, above, below, is_negative,
  magnitude, if◌then◌else◌, if-ind, Gives, Gives-some, Gives-none, arith,
}
use ngim.Cmdline.{Str}

abbrev pub cmd_help : ℕ
cmd_help = 1

abbrev pub cmd_keep : ℕ
cmd_keep = 2

abbrev pub cmd_keepall : ℕ
cmd_keepall = 4

abbrev pub cmd_logdir : ℕ
cmd_logdir = 8

abbrev pub cmd_buffer : ℕ
cmd_buffer = 64

abbrev pub cmd_file : ℕ
cmd_file = 128

abbrev pub default_bufsize : ℕ
default_bufsize = 148

abbrev pub max_bufsize : ℕ
max_bufsize = 4096

abbrev pub min_bufsize : ℕ
min_bufsize = 60

abbrev pub default_filesize : ℕ
default_filesize = 100000

abbrev pub min_filesize : ℕ
min_filesize = 1000

abbrev pub max_filesize : ℕ
max_filesize = 100000000

abbrev pub default_keepnum : ℕ
default_keepnum = 10

abbrev pub max_keepnum : ℕ
max_keepnum = 100000

-- The default of `arg_logdir`.
abbrev pub dir_tainlog : Str
dir_tainlog = b't' ∷ b'a' ∷ b'i' ∷ b'n' ∷ b'l' ∷ b'o' ∷ b'g' ∷ []

-- The variables that ngim_cmdline_parse wrote. One whose parameter was given is set.
pub record Arguments : Type 0 where
  pub root : Option Str
  pub keep : Str
  pub logdir : Str
  pub file : Str
  pub buffer : Str

-- What validate_cmdline leaves; `keepnum` is `none` for -1.
pub record Options : Type 0 where
  pub keepnum : Option ℕ
  pub logdir : Str
  pub filesize : ℕ
  pub bufsize : ℕ

-- "Make sure we have a sane value", for --keep.
unfoldable pub keepnum_of : ℤ → Option ℕ
keepnum_of num =
    if above max_keepnum num
    then some max_keepnum
    else if is_negative num
    then none
    else some (magnitude num)

-- The same for --logsize, where a number is too small below `min_bufsize`.
unfoldable pub filesize_of : ℤ → ℕ
filesize_of num =
    if above max_filesize num
    then max_filesize
    else if below min_bufsize num
    then min_filesize
    else magnitude num

-- The same for --line-buffer.
unfoldable pub bufsize_of : ℤ → ℕ
bufsize_of num =
    if above max_bufsize num
    then max_bufsize
    else if below min_bufsize num
    then min_bufsize
    else magnitude num

module _ (atoi : Str → ℤ) where
  unfoldable pub options_of : ℕ → Arguments → Options
  unfolding keepnum_of filesize_of bufsize_of
  options_of selected args = record {
    keepnum =
        if has selected cmd_keep
        then keepnum_of (atoi args.keep)
        else if has selected cmd_keepall
        then none
        else some default_keepnum;
    logdir = if has selected cmd_logdir then args.logdir else dir_tainlog;
    filesize = if has selected cmd_file then filesize_of (atoi args.file) else default_filesize;
    bufsize = if has selected cmd_buffer then bufsize_of (atoi args.buffer) else default_bufsize;
  }

  unfoldable pub with_root : ℕ → Arguments → Option Str → Option Options
  unfolding options_of
  with_root selected args none = none
  with_root selected args (some root) =
      if has selected cmd_keep && has selected cmd_keepall
      then none
      else some (options_of selected args)

  -- validate_cmdline: `none` is a negative return value.
  unfoldable pub validate_cmdline : ℕ → Arguments → Option Options
  unfolding with_root
  validate_cmdline selected args =
      if has selected cmd_help then none else with_root selected args args.root

keepnum_of_le : (num : ℤ) (n : ℕ) → keepnum_of num ≡ some n → n ≤ max_keepnum
unfolding keepnum_of
keepnum_of_le (pos m) n e = ground arith
keepnum_of_le (negsuc m) n e = ground arith

filesize_of_bounds : (num : ℤ) → (min_bufsize ≤ filesize_of num) × (filesize_of num ≤ max_filesize)
unfolding filesize_of
filesize_of_bounds (pos m) = ground arith
filesize_of_bounds (negsuc m) = ground arith

bufsize_of_bounds : (num : ℤ) → (min_bufsize ≤ bufsize_of num) × (bufsize_of num ≤ max_bufsize)
unfolding bufsize_of
bufsize_of_bounds (pos m) = ground arith
bufsize_of_bounds (negsuc m) = ground arith

-- The sizes and the number that the program goes on with.
pub record AreInRange (o : Options) : Type 0 where
  pub keep_le : (n : ℕ) → o.keepnum ≡ some n → n ≤ max_keepnum
  pub filesize_ge : min_bufsize ≤ o.filesize
  pub filesize_le : o.filesize ≤ max_filesize
  pub bufsize_ge : min_bufsize ≤ o.bufsize
  pub bufsize_le : o.bufsize ≤ max_bufsize

module _ (atoi : Str → ℤ) (selected : ℕ) (args : Arguments) where
  options_of-keepnum : (n : ℕ) → (options_of atoi selected args).keepnum ≡ some n → n ≤ max_keepnum
  unfolding options_of
  options_of-keepnum n e = ground (arith, keepnum_of_le (atoi args.keep) n)

  options_of-AreInRange : AreInRange (options_of atoi selected args)
  unfolding options_of
  options_of-AreInRange =
      let f = filesize_of_bounds (atoi args.file) in
      let b = bufsize_of_bounds (atoi args.buffer) in
      record {
        keep_le = options_of-keepnum;
        filesize_ge = ground arith;
        filesize_le = ground arith;
        bufsize_ge = ground arith;
        bufsize_le = ground arith;
      }

  with_root-AreInRange : (root : Option Str) → Gives AreInRange (with_root atoi selected args root)
  unfolding with_root
  with_root-AreInRange none = Gives-none AreInRange
  with_root-AreInRange (some root) =
      if-ind (Gives AreInRange) (has selected cmd_keep && has selected cmd_keepall)
        (λ _. Gives-none AreInRange)
        (λ _. Gives-some AreInRange (options_of atoi selected args) options_of-AreInRange)

  -- Whatever numbers the command line has, one that is accepted leaves at most 100000 files to keep,
  -- or no bound, a file size from 60 to 100000000 bytes, where 1000 is meant to be the least, and a
  -- buffer of 60 to 4096 bytes.
  pub validate_cmdline-AreInRange :
      {o : Options} → validate_cmdline atoi selected args ≡ some o → AreInRange o
  unfolding validate_cmdline
  validate_cmdline-AreInRange {o} e =
      if-ind (Gives AreInRange) (has selected cmd_help) (λ _. Gives-none AreInRange)
        (λ _. with_root-AreInRange args.root) o e
