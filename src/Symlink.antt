-- ===== src/Symlink.antt =====
-- libbase/lib/symlink.c: the base name of what a symbolic link points to. readlink is an answer of
-- the system.
use ngim.Base.{
  ℕ, ◌≡◌, ◌≢◌, sym, ◌∙◌, Bool, Option, none, some, [], ◌∷◌, ◌++◌, ◌==◌, All, if◌then◌else◌,
  if_false, append_assoc, append-nil, ne→==,
}
use ngim.Cmdline.{Str}

-- The loop over `link`: `segment` is what stands between `start` and the current character, and a
-- slash at the end starts no segment.
unfoldable pub basename_loop : Str → Str → Str
basename_loop segment [] = segment
basename_loop segment (c ∷ []) = if c == b'/' then segment else segment ++ (c ∷ [])
basename_loop segment (c ∷ d ∷ link) =
    let inside = basename_loop (segment ++ (c ∷ [])) (d ∷ link) in
    let start = basename_loop [] (d ∷ link) in if c == b'/' then start else inside

-- ngim_resolve_symlink_basename: `link` is what readlink answers, and `none` is a failure.
unfoldable pub resolve_symlink_basename : (memory : Bool) → Option Str → Option Str
unfolding basename_loop
resolve_symlink_basename memory none = none
resolve_symlink_basename memory (some link) = if memory then some (basename_loop [] link) else none

-- A name without a slash is its own base name.
basename_loop_plain :
    (segment name : Str) → All (λ c. c ≢ b'/') name → basename_loop segment name ≡ segment ++ name
unfolding basename_loop
basename_loop_plain segment [] h = sym (append-nil segment)
basename_loop_plain segment (c ∷ []) (n, h) = if_false _ _ (ne→== c b'/' n)
basename_loop_plain segment (c ∷ d ∷ name) (n, h) =
    if_false _ _ (ne→== c b'/' n)
    ∙ (basename_loop_plain (segment ++ (c ∷ [])) (d ∷ name) h
        ∙ append_assoc segment (c ∷ []) (d ∷ name))

-- The path of a service from the directory of active ones.
abbrev pub relative_path : Str → Str
relative_path name = b'.' ∷ b'.' ∷ b'/' ∷ b'a' ∷ b'l' ∷ b'l' ∷ b'/' ∷ name

pub basename_loop-relative_path :
    (c : ℕ) (name : Str)
    → All (λ d. d ≢ b'/') (c ∷ name)
    → basename_loop [] (relative_path (c ∷ name)) ≡ c ∷ name
unfolding basename_loop
basename_loop-relative_path c name h = basename_loop_plain [] (c ∷ name) h
