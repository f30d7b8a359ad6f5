-- ===== src/Srvctl/Reached.antt =====
-- The monitors that --kill-all of srvctl/src/srvctl.c tells to terminate.
use mathlib.Core.Path.{subst}
use ngim.Base.{
  ℕ, ◌≡◌, ◌≢◌, refl, sym, ap, inl, inr, Bool, true, false, Option, none, some, List, [], ◌∷◌, ◌++◌,
  append-nil, In, if-ind,
}
use ngim.Cmdline.{Str}
use ngim.Monitor.{monitor_cmd_terminate}
use ngim.Srvctl.Files.{Pipe, absent, refused, broken, ready, is_valid, monitor_command}
use ngim.Srvctl.Walks.{
  Target, Told, told, sent_of, no_files, told_by, kill_target, tell_on, killall_loop,
  command_killall,
}

In-append_left : {A : Type 0} (x : A) (xs ys : List A) → In x xs → In x (xs ++ ys)
In-append_left x [] ys h = absurd h
In-append_left x (y ∷ xs) ys (inl e) = inl e
In-append_left x (y ∷ xs) ys (inr h) = inr (In-append_left x xs ys h)

In-append_right : {A : Type 0} (x : A) (xs ys : List A) → In x ys → In x (xs ++ ys)
In-append_right x [] ys h = h
In-append_right x (y ∷ xs) ys h = inr (In-append_right x xs ys h)

-- No call of the walk fails: what every link leads to is found, and no monitor stops reading while a
-- byte is written.
pub record Goes (controls : Str → Pipe) (es : List Target) : Type 0 where
  pub finds : (e : Target) → In e es → e.target ≢ none
  pub writes : (name : Str) → controls name ≢ broken

module _ (controls : Str → Pipe) (writes : (name : Str) → controls name ≢ broken) where
  -- The entry is passed, and nothing that was sent is lost.
  abbrev Passes : List (Str × ℕ) → Told → Type 0
  Passes sent t = (more : List (Str × ℕ)) × (t ≡ told (sent ++ more))

  tell_pipe-Passes :
      (name : Str) (sent : List (Str × ℕ)) (p : Pipe)
      → p ≢ broken
      → Passes sent (told_by name sent (monitor_command p true monitor_cmd_terminate no_files))
  unfolding monitor_command
  tell_pipe-Passes name sent absent n = ([], refl)
  tell_pipe-Passes name sent refused n = ([], refl)
  tell_pipe-Passes name sent broken n = absurd (n refl)
  tell_pipe-Passes name sent ready n = ((name, monitor_cmd_terminate) ∷ [], refl)

  kill_target-Passes :
      (e : Target) (sent : List (Str × ℕ)) (target : Option Bool)
      → target ≢ none
      → Passes sent (kill_target controls e sent target)
  unfolding kill_target
  kill_target-Passes e sent none n = absurd (n refl)
  kill_target-Passes e sent (some false) n = ([], ap told (sym (append-nil sent)))
  kill_target-Passes e sent (some true) n =
      tell_pipe-Passes e.link.name sent (controls e.link.name) (writes e.link.name)

  -- A step that passes, and what comes after it.
  tell_on-Passes :
      (sent : List (Str × ℕ)) (t : Told) (next : List (Str × ℕ) → Told) (Q : Told → Type 0)
      → Passes sent t
      → ((more : List (Str × ℕ)) → t ≡ told (sent ++ more) → Q (next (sent ++ more)))
      → Q (tell_on controls t next)
  tell_on-Passes sent t next Q (more, e) k = rw e (k more e)

  killall_loop_keeps :
      (x : Str × ℕ) (es : List Target) (sent : List (Str × ℕ))
      → ((e : Target) → In e es → e.target ≢ none)
      → In x sent
      → In x (sent_of (killall_loop controls es sent))
  unfolding killall_loop
  killall_loop_keeps x [] sent finds h = h
  killall_loop_keeps x (e ∷ es) sent finds h =
      let Q : Told → Type 0 = λ t. In x (sent_of t) in
      let others : (d : Target) → In d es → d.target ≢ none = λ d m. finds d (inr m) in
      if-ind Q (is_valid e.link)
        (λ _.
          tell_on-Passes sent (kill_target controls e sent e.target)
            (λ s. killall_loop controls es s) Q
            (kill_target-Passes e sent e.target (finds e (inl refl)))
            (λ more _.
              killall_loop_keeps x es (sent ++ more) others (In-append_left x sent more h)))
        (λ _. killall_loop_keeps x es sent others h)

  kill_target-ready :
      (e : Target) (sent : List (Str × ℕ))
      → e.target ≡ some true
      → controls e.link.name ≡ ready
      → kill_target controls e sent e.target
        ≡ told (sent ++ ((e.link.name, monitor_cmd_terminate) ∷ []))
  unfolding kill_target monitor_command
  kill_target-ready e sent leads reads = rw leads (rw reads refl)

  killall_loop_head :
      (e : Target) (es : List Target) (sent : List (Str × ℕ))
      → ((d : Target) → In d (e ∷ es) → d.target ≢ none)
      → is_valid e.link ≡ true
      → e.target ≡ some true
      → controls e.link.name ≡ ready
      → In (e.link.name, monitor_cmd_terminate) (sent_of (killall_loop controls (e ∷ es) sent))
  unfolding killall_loop
  killall_loop_head e es sent finds valid leads reads =
      let x : Str × ℕ = (e.link.name, monitor_cmd_terminate) in
      let Q : Told → Type 0 = λ t. In x (sent_of t) in
      if-ind Q (is_valid e.link)
        (λ _. rw (kill_target-ready e sent leads reads) (
          killall_loop_keeps x es (sent ++ (x ∷ [])) (λ d m. finds d (inr m))
            (In-append_right x sent (x ∷ []) (inl refl))))
        (λ no. let absurdity : ⊥ = cc in absurd absurdity)

  killall_loop_reaches :
      (es : List Target) (sent : List (Str × ℕ))
      → ((e : Target) → In e es → e.target ≢ none)
      → (g : Target) → In g es
      → is_valid g.link ≡ true
      → g.target ≡ some true
      → controls g.link.name ≡ ready
      → In (g.link.name, monitor_cmd_terminate) (sent_of (killall_loop controls es sent))
  unfolding killall_loop
  killall_loop_reaches [] sent finds g m valid leads reads = absurd m
  killall_loop_reaches (e ∷ es) sent finds g (inl same) valid leads reads =
      subst
        (λ d.
          In (d.link.name, monitor_cmd_terminate) (sent_of (killall_loop controls (e ∷ es) sent)))
        same
        (killall_loop_head e es sent finds (rw (sym same) at valid) (rw (sym same) at leads)
          (rw (sym same) at reads))
  killall_loop_reaches (e ∷ es) sent finds g (inr m) valid leads reads =
      let x : Str × ℕ = (g.link.name, monitor_cmd_terminate) in
      let Q : Told → Type 0 = λ t. In x (sent_of t) in
      let others : (d : Target) → In d es → d.target ≢ none = λ d m. finds d (inr m) in
      if-ind Q (is_valid e.link)
        (λ _.
          tell_on-Passes sent (kill_target controls e sent e.target)
            (λ s. killall_loop controls es s) Q
            (kill_target-Passes e sent e.target (finds e (inl refl)))
            (λ more _. killall_loop_reaches es (sent ++ more) others g m valid leads reads))
        (λ _. killall_loop_reaches es sent others g m valid leads reads)

-- Where no call fails, --kill-all tells the monitor of every active service whose link has the name of
-- its directory, and whose control pipe is read, to terminate.
pub command_killall_reaches :
    (controls : Str → Pipe) (es : List Target)
    → Goes controls es
    → (g : Target) → In g es
    → is_valid g.link ≡ true
    → g.target ≡ some true
    → controls g.link.name ≡ ready
    → In (g.link.name, monitor_cmd_terminate) (sent_of (command_killall controls (some es)))
unfolding command_killall
command_killall_reaches controls es goes g m valid leads reads =
    killall_loop_reaches controls goes.writes es [] goes.finds g m valid leads reads
