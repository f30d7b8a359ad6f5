-- ===== src/Monitor/Made.antt =====
-- The steps of the setup of srvctl/src/monitor.c, and what each leaves.
use ngim.Base.{ℕ, ◌≡◌, refl, ◌⊎◌, inl, inr, Bool, true, false, none, some, not, if-ind}
use ngim.Create.{
  FileProt, FileType, plain, directory, pipe, symlink, Node, Place, Calls, is_directory,
  create_directory, create_pollset_file_in,
}
use ngim.Monitor.Setup.{
  fprot_dir_monitor, fprot_pipe, Directory, Handles, SetupAnswers, Setup, ready, died, is_pipe,
  create_namedpipe, is_taken, setup_directory, create_lockfile, setup_control, setup_pollset,
  setup_stdin, and_then,
}

-- The entry under the name is of this type; its permissions are those asked for, or what the umask
-- leaves of them if there was no entry before.
pub record IsMade (t : FileType) (perms : ℕ) (a : Calls) (before after : Place) : Type 0 where
  pub node : Node
  pub there : after ≡ some node
  pub type_set : node.filetype ≡ t
  pub perms_set : (node.perms ≡ perms) ⊎ ((before ≡ none) × (node.perms ≡ a.left_perms perms))

is_directory→≡ : (t : FileType) → is_directory t ≡ true → t ≡ directory
is_directory→≡ plain h = absurd (cc)
is_directory→≡ directory h = refl
is_directory→≡ pipe h = absurd (cc)
is_directory→≡ symlink h = absurd (cc)

is_pipe→≡ : (t : FileType) → is_pipe t ≡ true → t ≡ pipe
is_pipe→≡ plain h = absurd (cc)
is_pipe→≡ directory h = absurd (cc)
is_pipe→≡ pipe h = refl
is_pipe→≡ symlink h = absurd (cc)

-- What holds of a place with a flag that is set.
abbrev WhenSet : (Place → Type 0) → Place × Bool → Type 0
WhenSet P r = r.1 ≡ true → P r.0

create_directory-IsMade :
    (a : Calls) (perms : ℕ) (p : Place)
    → WhenSet (IsMade directory perms a p) (create_directory a perms true p)
unfolding create_directory
create_directory-IsMade a perms none =
    let W : Place × Bool → Type 0 = WhenSet (IsMade directory perms a none) in
    if-ind W a.stat_fails (λ _ h. absurd (cc))
      (λ _.
        if-ind W a.can_make
          (λ _ _. record {
            node = record { filetype = directory; perms = a.left_perms perms };
            there = refl;
            type_set = refl;
            perms_set = inr (refl, refl);
          })
          (λ _ h. absurd (cc)))
create_directory-IsMade a perms (some n) =
    let W : Place × Bool → Type 0 = WhenSet (IsMade directory perms a (some n)) in
    if-ind W a.stat_fails (λ _ h. absurd (cc))
      (λ _.
        if-ind W (is_directory n.filetype)
          (λ d.
            if-ind W a.can_set
              (λ _ _. record {
                node = record n { perms = perms };
                there = refl;
                type_set = is_directory→≡ n.filetype d;
                perms_set = inl refl;
              })
              (λ _ h. absurd (cc)))
          (λ _ h. absurd (cc)))

create_namedpipe-IsMade :
    (a : Calls) (perms : ℕ) (p : Place)
    → WhenSet (IsMade pipe perms a p) (create_namedpipe a perms p)
unfolding create_namedpipe
create_namedpipe-IsMade a perms none =
    let W : Place × Bool → Type 0 = WhenSet (IsMade pipe perms a none) in
    if-ind W a.stat_fails (λ _ h. absurd (cc))
      (λ _.
        if-ind W a.can_make
          (λ _ _. record {
            node = record { filetype = pipe; perms = a.left_perms perms };
            there = refl;
            type_set = refl;
            perms_set = inr (refl, refl);
          })
          (λ _ h. absurd (cc)))
create_namedpipe-IsMade a perms (some n) =
    let W : Place × Bool → Type 0 = WhenSet (IsMade pipe perms a (some n)) in
    if-ind W a.stat_fails (λ _ h. absurd (cc))
      (λ _.
        if-ind W (is_pipe n.filetype)
          (λ d.
            if-ind W a.can_set
              (λ _ _. record {
                node = record n { perms = perms };
                there = refl;
                type_set = is_pipe→≡ n.filetype d;
                perms_set = inl refl;
              })
              (λ _ h. absurd (cc)))
          (λ _ h. absurd (cc)))

-- A property of what a setup that goes on has.
abbrev pub Readies : (Directory → Handles → Type 0) → Setup → Type 0
Readies P (ready d h) = P d h
Readies P (died d) = Unit

-- A property of the directory that a setup leaves which ends the process; that it does.
abbrev pub Dies : (Directory → Type 0) → Setup → Type 0
Dies P (ready d h) = ⊥
Dies P (died d) = P d

module _ (b : FileProt) (pid : ℕ) (a : SetupAnswers) (next : Directory → Handles → Setup)
    (Q : Directory → Handles → Type 0) (d : Directory) (h : Handles) where
  pub setup_directory-then :
      ((p : Place)
        → IsMade directory (fprot_dir_monitor b) a.dir d.dir p
        → Readies Q (next (record d { dir = p }) h))
      → Readies Q (and_then (setup_directory b pid a d h) next)
  unfolding setup_directory
  setup_directory-then k =
      let r : Place × Bool = create_directory a.dir (fprot_dir_monitor b) true d.dir in
      if-ind (λ s. Readies Q (and_then s next)) r.1
        (λ made. k r.0 (create_directory-IsMade a.dir (fprot_dir_monitor b) d.dir made)) (λ _. tt)

  pub create_lockfile-then :
      (is_taken pid d.lock ≡ false
        → Readies Q (next (record d { lock = some pid }) (record h { file_lock = true })))
      → Readies Q (and_then (create_lockfile b pid a d h) next)
  unfolding create_lockfile
  create_lockfile-then k =
      let T : Setup → Type 0 = λ s. Readies Q (and_then s next) in
      if-ind T (not a.can_open_lock) (λ _. tt)
        (λ _.
          if-ind T (is_taken pid d.lock) (λ _. tt)
            (λ free. if-ind T a.lock_fails (λ _. tt) (λ _. k free)))

  pub setup_control-then :
      ((p : Place)
        → IsMade pipe (fprot_pipe b) a.control d.control p
        → Readies Q (next (record d { control = p }) (record h { pipe_control = true })))
      → Readies Q (and_then (setup_control b pid a d h) next)
  unfolding setup_control
  setup_control-then k =
      let r : Place × Bool = create_namedpipe a.control (fprot_pipe b) d.control in
      if-ind (λ s. Readies Q (and_then s next)) r.1
        (λ made. k r.0 (create_namedpipe-IsMade a.control (fprot_pipe b) d.control made)) (λ _. tt)

  pub setup_pollset-then :
      Readies Q (next d (record h { pset_control = true }))
      → Readies Q (and_then (setup_pollset b pid a d h) next)
  unfolding setup_pollset
  setup_pollset-then k =
      if-ind (λ s. Readies Q (and_then s next))
        (create_pollset_file_in a.can_create_pollset a.can_add_pollset) (λ _. k) (λ _. tt)

  pub setup_stdin-then :
      ((p : Place)
        → IsMade pipe (fprot_pipe b) a.stdin d.stdin p
        → Readies Q (next (record d { stdin = p }) (record h { pipe_stdin = true })))
      → Readies Q (and_then (setup_stdin b pid a d h) next)
  unfolding setup_stdin
  setup_stdin-then k =
      let r : Place × Bool = create_namedpipe a.stdin (fprot_pipe b) d.stdin in
      if-ind (λ s. Readies Q (and_then s next)) r.1
        (λ made. k r.0 (create_namedpipe-IsMade a.stdin (fprot_pipe b) d.stdin made)) (λ _. tt)
