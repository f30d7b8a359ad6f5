-- ===== src/Tainlog/Oldest.antt =====
-- The search for the oldest archived file in flush_archive of srvctl/src/tainlog.c, and its removal.
use ngim.Base.{
  ℕ, suc, ◌+◌, ◌<◌, ◌≡◌, refl, sym, ap, ◌∙◌, true, false, List, [], ◌∷◌, ◌&&◌, ◌||◌, ◌==◌, ◌⊎◌, inl,
  inr, if◌then◌else◌, arith, In, Bool-cases, if-ind,
}
use ngim.Tai.Order.{lex_less}
use ngim.Tai.Strings.{lex_less_irrefl, lex_less_asym, lex_less_trans}
use ngim.Cmdline.Strings.{str_eq→≡, str_eq_refl}
use ngim.Cmdline.{Str, str_eq}
use ngim.Tainlog.Files.{Entry, unlink, is_log, find_oldest}

-- The number of archived log files.
abbrev pub logs : List Entry → ℕ
logs [] = 0
logs (e ∷ es) = if is_log e then suc (logs es) else logs es

pub find_oldest-logs : (es : List Entry) (n : ℕ) (o : Str) → (find_oldest es n o).0 ≡ n + logs es
unfolding find_oldest
find_oldest-logs [] n o = omega arith
find_oldest-logs (e ∷ es) n o =
    let next : Str = if is_log e && (n == 0 || lex_less e.name o) then e.name else o in
    elim (Bool-cases (is_log e)) [
      | inl l ↦ find_oldest-logs es (if is_log e then n + 1 else n) next ∙ ground arith
      | inr l ↦ find_oldest-logs es (if is_log e then n + 1 else n) next ∙ ground arith
    ]

-- The name found is not greater than the one that the loop starts from, if that counts.
find_oldest_start :
    (es : List Entry) (n : ℕ) (o : Str) → 0 < n → lex_less o (find_oldest es n o).1 ≡ false
unfolding find_oldest
find_oldest_start [] n o h = lex_less_irrefl o
find_oldest_start (e ∷ es) n o h = ground (
  arith,
  find_oldest_start es (n + 1) e.name,
  find_oldest_start es (n + 1) o,
  find_oldest_start es n o,
  lex_less_asym e.name o,
  lex_less_trans o e.name (find_oldest es (n + 1) e.name).1,
)

-- No archived file is older than the name found.
pub find_oldest_least :
    (es : List Entry) (n : ℕ) (o : Str) (e : Entry)
    → In e es
    → is_log e ≡ true
    → lex_less e.name (find_oldest es n o).1 ≡ false
unfolding find_oldest
find_oldest_least [] n o e m l = absurd m
find_oldest_least (d ∷ es) n o e (inl p) l =
    let l' : is_log d ≡ true = rw p l in
    rw (sym p) (
      ground (
        arith,
        find_oldest_start es (n + 1) d.name,
        find_oldest_start es (n + 1) o,
        lex_less_trans d.name o (find_oldest es (n + 1) o).1,
      ))
find_oldest_least (d ∷ es) n o e (inr m) l =
    find_oldest_least es (if is_log d then n + 1 else n)
      (if is_log d && (n == 0 || lex_less d.name o) then d.name else o) e m l

-- An archived file of this name.
abbrev pub IsLogOf : List Entry → Str → Type 0
IsLogOf es o = (f : Entry) × (In f es × ((is_log f ≡ true) × (f.name ≡ o)))

IsLogOf-cons : (d : Entry) (es : List Entry) (o : Str) → IsLogOf es o → IsLogOf (d ∷ es) o
IsLogOf-cons d es o (f, (m, r)) = (f, (inr m, r))

find_oldest_either :
    (es : List Entry) (n : ℕ) (o : Str)
    → ((find_oldest es n o).1 ≡ o) ⊎ IsLogOf es (find_oldest es n o).1
unfolding find_oldest
find_oldest_either [] n o = inl refl
find_oldest_either (d ∷ es) n o =
    let n' : ℕ = if is_log d then n + 1 else n in
    if-ind (λ next. ((find_oldest es n' next).1 ≡ o) ⊎ IsLogOf (d ∷ es) (find_oldest es n' next).1)
      (is_log d && (n == 0 || lex_less d.name o))
      (λ t. elim (find_oldest_either es n' d.name) [
        | inl e ↦ inr (d, (inl refl, (ground arith, sym e)))
        | inr f ↦ inr (IsLogOf-cons d es (find_oldest es n' d.name).1 f)
      ])
      (λ t. elim (find_oldest_either es n' o) [
        | inl e ↦ inl e
        | inr f ↦ inr (IsLogOf-cons d es (find_oldest es n' o).1 f)
      ])

pub find_oldest-IsLogOf :
    (es : List Entry) (o : Str) → 0 < logs es → IsLogOf es (find_oldest es 0 o).1
unfolding find_oldest
find_oldest-IsLogOf [] o h = absurd (omega arith)
find_oldest-IsLogOf (d ∷ es) o h = elim (Bool-cases (is_log d)) [
  | inl l ↦
      rw (l, find_oldest)
        (elim (find_oldest_either es 1 d.name) [
          | inl e ↦ (d, (inl refl, (l, sym e)))
          | inr f ↦ IsLogOf-cons d es (find_oldest es 1 d.name).1 f
        ])
  | inr l ↦
      rw (l, find_oldest)
        (IsLogOf-cons d es (find_oldest es 0 o).1 (find_oldest-IsLogOf es o (ground arith)))
]

-- No two entries have the same name.
abbrev pub AreNamed : List Entry → Type 0
AreNamed es = (d e : Entry) → In d es → In e es → d.name ≡ e.name → d ≡ e

module _ (o : Str) where
  pub unlink-In : (es : List Entry) (e : Entry) → In e (unlink o es) → In e es
  unfolding unlink
  unlink-In [] e m = m
  unlink-In (d ∷ es) e m =
      if-ind (λ l. In e l → In e (d ∷ es)) (str_eq d.name o) (λ _ k. inr k)
        (λ _ k. elim k [ inl p ↦ inl p | inr k' ↦ inr (unlink-In es e k') ]) m

  pub In-unlink : (es : List Entry) (e : Entry) → In e es → In e (unlink o es) ⊎ (e.name ≡ o)
  unfolding unlink
  In-unlink [] e m = absurd m
  In-unlink (d ∷ es) e m =
      if-ind (λ l. In e l ⊎ (e.name ≡ o)) (str_eq d.name o)
        (λ t. elim m [
          | inl p ↦ inr (ap (λ x. x.name) (sym p) ∙ str_eq→≡ d.name o t)
          | inr k ↦ inl k
        ])
        (λ t. elim m [
          | inl p ↦ inl (inl p)
          | inr k ↦ elim (In-unlink es e k) [ inl k' ↦ inl (inr k') | inr q ↦ inr q ]
        ])

  pub logs-unlink :
      (es : List Entry) (f : Entry)
      → AreNamed es
      → In f es
      → is_log f ≡ true
      → f.name ≡ o
      → suc (logs (unlink o es)) ≡ logs es
  unfolding unlink
  logs-unlink [] f u m l n = absurd m
  logs-unlink (d ∷ es) f u m l n =
      let tail : AreNamed es = λ a b ma mb. u a b (inr ma) (inr mb) in
      elim (Bool-cases (str_eq d.name o)) [
        | inl t ↦
            let same : d ≡ f = u d f (inl refl) m (str_eq→≡ d.name o t ∙ sym n) in
            let log : is_log d ≡ true = rw same l in rw (t, log) refl
        | inr t ↦ elim m [
          | inl p ↦
              let name : d.name ≡ o = ap (λ x. x.name) p ∙ n in
              let no : ⊥ = ground (arith, name, str_eq_refl o, rw name at t) in absurd no
          | inr k ↦
              let ih : suc (logs (unlink o es)) ≡ logs es = logs-unlink es f tail k l n in
              rw t (ground arith)
        ]
      ]
