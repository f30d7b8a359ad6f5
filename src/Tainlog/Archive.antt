-- ===== src/Tainlog/Archive.antt =====
-- What flush_archive of srvctl/src/tainlog.c leaves in the directory.
use ngim.Base.{
  ℕ, zero, suc, ◌+◌, ◌-◌, ◌≤◌, ◌<◌, ◌≡◌, refl, sym, ◌∙◌, true, false, Option, some, List, [], ◌∷◌,
  not, ltb, ◌⊎◌, inl, inr, length, if◌then◌else◌, arith, In, if-ind,
}
use ngim.Tai.Order.{lex_less}
use ngim.Cmdline.{Str}
use ngim.Tainlog.Files.{Entry, Answers, unlink, is_log, find_oldest, flush_loop, flush_archive}
use ngim.Tainlog.Oldest.{
  logs, find_oldest-logs, find_oldest_least, find_oldest-IsLogOf, AreNamed, unlink-In, In-unlink,
  logs-unlink,
}

unlink_one :
    (es : List Entry)
    → AreNamed es
    → 0 < logs es
    → suc (logs (unlink (find_oldest es 0 []).1 es)) ≡ logs es
unlink_one es u h =
    let (f, (m, (l, n))) = find_oldest-IsLogOf es [] h in
    logs-unlink (find_oldest es 0 []).1 es f u m l n

-- What is left of the entries `es` where `keep` archived files may stay.
pub record Pruned (keep : ℕ) (es es' : List Entry) : Type 0 where
  pub count : logs es' ≡ (if ltb keep (logs es) then keep else logs es)
  pub kept : (e : Entry) → In e es' → In e es
  pub others : (e : Entry) → In e es → is_log e ≡ false → In e es'
  pub newest :
      (e : Entry)
      → In e es
      → In e es' ⊎ ((k : Entry) → In k es' → is_log k ≡ true → lex_less k.name e.name ≡ false)

-- A round that removes the oldest archived file, and the rounds that come after it.
Pruned-unlink :
    (keep : ℕ) (es es' : List Entry)
    → AreNamed es
    → keep < logs es
    → Pruned keep (unlink (find_oldest es 0 []).1 es) es'
    → Pruned keep es es'
Pruned-unlink keep es es' u h p =
    let o : Str = (find_oldest es 0 []).1 in
    let (f, (m, (l, n))) = find_oldest-IsLogOf es [] (omega arith) in
    let one_less : suc (logs (unlink o es)) ≡ logs es = unlink_one es u (omega arith) in
    let kept : (e : Entry) → In e es' → In e es = λ e k. unlink-In o es e (p.kept e k) in
    record {
      count = p.count ∙ ground arith;
      kept = kept;
      others = λ e k other. elim (In-unlink o es e k) [
        | inl k' ↦ p.others e k' other
        | inr q ↦
            let same : e ≡ f = u e f k m (q ∙ sym n) in
            let no : ⊥ = ground (arith, rw same at other) in absurd no
      ];
      newest = λ e k. elim (In-unlink o es e k) [
        | inl k' ↦ p.newest e k'
        | inr q ↦ inr (λ x mx lx. rw q (find_oldest_least es 0 [] x (kept x mx) lx))
      ];
    }

all_kept : (keep : ℕ) (es : List Entry) → logs es ≤ keep → Pruned keep es es
all_kept keep es h = record {
  count = ground arith;
  kept = λ e m. m;
  others = λ e m other. m;
  newest = λ e m. inl m;
}

unlink-AreNamed : (es : List Entry) → AreNamed es → AreNamed (unlink (find_oldest es 0 []).1 es)
unlink-AreNamed es u d e md me =
    let o : Str = (find_oldest es 0 []).1 in u d e (unlink-In o es d md) (unlink-In o es e me)

module _ (a : Answers) (opens : (i : ℕ) → a.can_open_dir i ≡ true)
    (removes : (i : ℕ) → a.can_remove i ≡ true) where
  abbrev IsPruned : ℕ → List Entry → Option (List Entry) → Type 0
  IsPruned keep es o = (es' : List Entry) × ((o ≡ some es') × Pruned keep es es')

  flush_loop-IsPruned :
      (fuel i keep : ℕ) (es : List Entry)
      → AreNamed es
      → logs es < fuel
      → IsPruned keep es (flush_loop a fuel i keep es)
  unfolding flush_loop
  flush_loop-IsPruned zero i keep es u h = absurd (omega arith)
  flush_loop-IsPruned (suc fuel) i keep es u h =
      let files : ℕ = (find_oldest es 0 []).0 in
      let count : files ≡ logs es = find_oldest-logs es 0 [] ∙ omega arith in
      let es1 : List Entry = unlink (find_oldest es 0 []).1 es in
      if-ind (IsPruned keep es) (not (a.can_open_dir i))
        (λ t. let no : ⊥ = ground (arith, opens i) in absurd no)
        (λ _.
          if-ind (IsPruned keep es) (not (ltb keep files))
            (λ few. (es, (refl, all_kept keep es (ground arith))))
            (λ many.
              let less : keep < logs es = ground arith in
              let one_less : suc (logs es1) ≡ logs es = unlink_one es u (omega arith) in
              if-ind (IsPruned keep es) (not (a.can_remove i))
                (λ t. let no : ⊥ = ground (arith, removes i) in absurd no)
                (λ _.
                  if-ind (IsPruned keep es) (ltb keep (files - 1))
                    (λ _.
                      let (es', (e, p)) =
                        flush_loop-IsPruned fuel (i + 1) keep es1 (unlink-AreNamed es u)
                          (omega arith) in
                      (es', (e, Pruned-unlink keep es es' u less p)))
                    (λ t. (
                      es1,
                      (refl, Pruned-unlink keep es es1 u less (all_kept keep es1 (ground arith))),
                    )))))

  logs_le : (es : List Entry) → logs es ≤ length es
  logs_le [] = omega arith
  logs_le (e ∷ es) = ground (arith, logs_le es)

  -- Where the entries of the directory have different names and it can be read and written,
  -- flush_archive comes to an end. At most `keep` archived files are left, and as many as there are
  -- otherwise; every entry that is no archived file stays; and no archived file that stays is older,
  -- by its name, than one that was removed.
  pub flush_archive-Pruned :
      (keep : ℕ) (es : List Entry)
      → AreNamed es
      → (es' : List Entry) × ((flush_archive a (some keep) es ≡ some es') × Pruned keep es es')
  unfolding flush_archive
  flush_archive-Pruned keep es u =
      flush_loop-IsPruned (suc (length es)) 0 keep es u (omega (arith, logs_le es))
