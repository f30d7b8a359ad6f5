-- ===== src/Srvctl/KillAll.antt =====
-- What --kill-all of srvctl/src/srvctl.c does not reach.
use ngim.Base.{
  ℕ, ◌≡◌, ◌≢◌, refl, sym, ap, ◌∙◌, ◌⊎◌, inl, inr, Bool, true, false, Option, none, some, List, [],
  ◌∷◌, ◌++◌, map, In, if-ind,
}
use ngim.Cmdline.{Str}
use ngim.Srvctl.Files.{Files, Pipe, Outcome, done, died, is_valid, linkname_of}
use ngim.Srvctl.Effects.{IsFree}
use ngim.Srvctl.Links.{IsLinked, LinksTo}
use ngim.Srvctl.Walks.{
  Target, Told, told, told_until, sent_of, told_by, kill_target, tell_on, killall_loop,
  command_killall,
}

-- An entry of the directory of active services that --kill-all goes to under this name.
pub record IsGoneTo (name : Str) (es : List Target) : Type 0 where
  pub entry : Target
  pub here : In entry es
  pub valid : is_valid entry.link ≡ true
  pub leads : entry.target ≡ some true
  pub called : entry.link.name ≡ name

later : (name : Str) (e : Target) (es : List Target) → IsGoneTo name es → IsGoneTo name (e ∷ es)
later name e es g = record {
  entry = g.entry;
  here = inr g.here;
  valid = g.valid;
  leads = g.leads;
  called = g.called;
}

In-append : {A : Type 0} (x : A) (xs ys : List A) → In x (xs ++ ys) → In x xs ⊎ In x ys
In-append x [] ys h = inr h
In-append x (y ∷ xs) ys (inl e) = inl (inl e)
In-append x (y ∷ xs) ys (inr h) = elim (In-append x xs ys h) [ inl a ↦ inl (inr a) | inr b ↦ inr b ]

In-named :
    (name other : Str) (cmd : ℕ) (cmds : List ℕ)
    → In {A = Str × ℕ} (name, cmd) (map (λ c. (other, c)) cmds)
    → other ≡ name
In-named name other cmd [] h = absurd h
In-named name other cmd (c ∷ cmds) (inl e) = ap (λ (p : Str × ℕ). p.0) e
In-named name other cmd (c ∷ cmds) (inr h) = In-named name other cmd cmds h

module _ (controls : Str → Pipe) (name : Str) (cmd : ℕ) where
  abbrev Sent : List (Str × ℕ) → Type 0
  Sent sent = In (name, cmd) sent

  told_by-Sent :
      (other : Str) (sent : List (Str × ℕ)) (o : Outcome)
      → Sent (sent_of (told_by other sent o))
      → Sent sent ⊎ (other ≡ name)
  told_by-Sent other sent (done f) h = elim (In-append (name, cmd) sent _ h) [
    | inl before ↦ inl before
    | inr now ↦ inr (In-named name other cmd f.commands now)
  ]
  told_by-Sent other sent (died f) h = elim (In-append (name, cmd) sent _ h) [
    | inl before ↦ inl before
    | inr now ↦ inr (In-named name other cmd f.commands now)
  ]

  kill_target-Sent :
      (e : Target) (sent : List (Str × ℕ)) (target : Option Bool)
      → Sent (sent_of (kill_target controls e sent target))
      → Sent sent ⊎ ((e.link.name ≡ name) × (target ≡ some true))
  unfolding kill_target
  kill_target-Sent e sent none h = inl h
  kill_target-Sent e sent (some false) h = inl h
  kill_target-Sent e sent (some true) h = elim (told_by-Sent e.link.name sent _ h) [
    | inl before ↦ inl before
    | inr same ↦ inr (same, refl)
  ]

  -- What holds of the bytes after an entry and those before, with the entry's step.
  tell_on-Sent :
      (t : Told) (next : List (Str × ℕ) → Told) (P : Type 0)
      → ((sent : List (Str × ℕ)) → Sent (sent_of (next sent)) → Sent sent ⊎ P)
      → Sent (sent_of (tell_on controls t next))
      → Sent (sent_of t) ⊎ P
  tell_on-Sent (told sent) next P k h = k sent h
  tell_on-Sent (told_until sent) next P k h = inl h

  killall_loop-Sent :
      (es : List Target) (sent : List (Str × ℕ))
      → Sent (sent_of (killall_loop controls es sent))
      → Sent sent ⊎ IsGoneTo name es
  unfolding killall_loop
  killall_loop-Sent [] sent = λ h. inl h
  killall_loop-Sent (e ∷ es) sent =
      if-ind (λ t. Sent (sent_of t) → Sent sent ⊎ IsGoneTo name (e ∷ es)) (is_valid e.link)
        (λ valid h.
          elim (tell_on-Sent (kill_target controls e sent e.target)
            (λ s. killall_loop controls es s) (IsGoneTo name es) (λ s. killall_loop-Sent es s) h) [
              | inl now ↦ elim (kill_target-Sent e sent e.target now) [
                | inl before ↦ inl before
                | inr (same, leads) ↦ inr (record {
                  entry = e;
                  here = inl refl;
                  valid = valid;
                  leads = leads;
                  called = same;
                })
              ]
              | inr g ↦ inr (later name e es g)
            ])
        (λ _ h. elim (killall_loop-Sent es sent h) [
          | inl before ↦ inl before
          | inr g ↦ inr (later name e es g)
        ])

-- A service whose links have the name that its priority gives them, and not its own, is told nothing
-- by --kill-all, where no other service has a link of its name: the control pipe is sought under the
-- name of the link.
pub command_killall_misses :
    (name : Str) (f : Files) (controls : Str → Pipe) (es : List Target)
    → ((e : Target) → In e es → In e.link f.active)
    → IsLinked name f
    → IsFree name name f
    → linkname_of name f.priority ≢ name
    → (cmd : ℕ) → ¬ In (name, cmd) (sent_of (command_killall controls (some es)))
unfolding command_killall
command_killall_misses name f controls es all linked free differs cmd h =
    elim (killall_loop-Sent controls name cmd es [] h) [
      | inl before ↦ absurd before
      | inr g ↦
          let here : In g.entry.link f.active = all g.entry g.here in
          let to : LinksTo name g.entry.link = free g.entry.link here g.called in
          differs (sym (linked g.entry.link here to) ∙ g.called)
    ]
