-- ===== src/Limiter/Kept.antt =====
-- The parameters that the loop of die_usage in srvctl/src/limiter.c appends to its message.
use mathlib.Core.Path.{subst}
use ngim.Base.{
  ℕ, ◌≡◌, refl, sym, ◌∙◌, ◌⊎◌, inl, inr, true, false, Option, none, some, List, [], ◌∷◌, ◌++◌, In,
  codes, append-nil, append_assoc, if◌then◌else◌, if-ind, if_both, arith,
}
use ngim.Cmdline.{Str, Param}
use ngim.Limiter.Usage.{is_skipped, same_arg, shares, usage_of, usage_loop}

-- The parameters that the loop appends to the message.
unfoldable pub kept : List Param → List Param → List Param
kept earlier [] = []
kept earlier (p ∷ params) =
    let rest = kept (earlier ++ (p ∷ [])) params in
    if is_skipped p then rest else if shares earlier p then rest else p ∷ rest

-- Each name between brackets.
abbrev pub usages : List Param → Str
usages [] = []
usages (p ∷ params) = (codes "[" ++ (p.name ++ codes " arg] ")) ++ usages params

pub usage_loop-kept :
    (earlier : List Param) (str : Str) (params : List Param)
    → usage_loop earlier str params ≡ str ++ usages (kept earlier params)
unfolding usage_loop kept
usage_loop-kept earlier str [] = sym (append-nil str)
usage_loop-kept earlier str (p ∷ params) =
    let e : List Param = earlier ++ (p ∷ []) in
    let R : Str → List Param → Type 0 = λ t ps. t ≡ str ++ usages ps in
    if_both R (is_skipped p) (λ _. usage_loop-kept e str params)
      (λ _.
        if_both R (shares earlier p) (λ _. usage_loop-kept e str params)
          (λ _.
            usage_loop-kept e (str ++ usage_of p) params
            ∙ append_assoc str (usage_of p) (usages (kept e params))))

-- Among these is one with the same argument.
abbrev pub IsNamed : Param → List Param → Type 0
IsNamed p params =
    (q : Param) × (In q params × ((is_skipped q ≡ false) × (same_arg q.arg p.arg ≡ true)))

later : (p x : Param) (params : List Param) → IsNamed p params → IsNamed p (x ∷ params)
later p x params (q, (m, h)) = (q, (inr m, h))

shares-IsNamed : (earlier : List Param) (p : Param) → shares earlier p ≡ true → IsNamed p earlier
unfolding shares
shares-IsNamed [] p = λ h. absurd (cc)
shares-IsNamed (q ∷ earlier) p =
    if-ind (λ b. b ≡ true → IsNamed p (q ∷ earlier)) (is_skipped q)
      (λ _ h. later p q earlier (shares-IsNamed earlier p h))
      (λ shown.
        if-ind (λ b. b ≡ true → IsNamed p (q ∷ earlier)) (same_arg q.arg p.arg)
          (λ same _. (q, (inl refl, (shown, same))))
          (λ _ h. later p q earlier (shares-IsNamed earlier p h)))

same_arg_trans :
    (a b c : Option ℕ) → same_arg a b ≡ true → same_arg b c ≡ true → same_arg a c ≡ true
same_arg_trans none none c h k = k
same_arg_trans none (some v) c h k = absurd (cc)
same_arg_trans (some u) none c h k = absurd (cc)
same_arg_trans (some u) (some v) none h k = k
same_arg_trans (some u) (some v) (some w) h k = ground (arith, h, k)

pub same_arg_refl : (a : Option ℕ) → same_arg a a ≡ true
same_arg_refl none = refl
same_arg_refl (some v) = ground arith

-- A shown parameter, or one that an earlier parameter has named.
unfoldable pub Covered : List Param → List Param → Param → Type 0
Covered earlier shown p = IsNamed p earlier ⊎ IsNamed p shown

kept_head :
    (earlier : List Param) (p : Param) (params : List Param)
    → is_skipped p ≡ false
    → Covered earlier (kept earlier (p ∷ params)) p
unfolding kept Covered
kept_head earlier p params n =
    let C : List Param → Type 0 = λ shown. IsNamed p earlier ⊎ IsNamed p shown in
    if-ind C (is_skipped p) (λ t. let no : ⊥ = cc in absurd no)
      (λ _.
        if-ind C (shares earlier p) (λ s. inl (shares-IsNamed earlier p s))
          (λ _. inr (p, (inl refl, (n, same_arg_refl p.arg)))))

kept_tail :
    (earlier : List Param) (x : Param) (params : List Param) (p : Param)
    → IsNamed p (kept (earlier ++ (x ∷ [])) params)
    → IsNamed p (kept earlier (x ∷ params))
unfolding kept
kept_tail earlier x params p h =
    if-ind (IsNamed p) (is_skipped x) (λ _. h)
      (λ _.
        if-ind (IsNamed p) (shares earlier x) (λ _. h)
          (λ _. later p x (kept (earlier ++ (x ∷ [])) params) h))

-- What an earlier list with one more parameter names.
IsNamed-append :
    (p x : Param) (earlier : List Param)
    → IsNamed p (earlier ++ (x ∷ []))
    → IsNamed p earlier ⊎ ((is_skipped x ≡ false) × (same_arg x.arg p.arg ≡ true))
IsNamed-append p x [] (q, (inl same, (n, a))) = inr (
    subst (λ (r : Param). (is_skipped r ≡ false) × (same_arg r.arg p.arg ≡ true)) (sym same) (n, a))
IsNamed-append p x [] (q, (inr m, h)) = absurd m
IsNamed-append p x (y ∷ earlier) (q, (inl same, h)) = inl (q, (inl same, h))
IsNamed-append p x (y ∷ earlier) (q, (inr m, h)) = elim (IsNamed-append p x earlier (q, (m, h))) [
  | inl before ↦ inl (later p y earlier before)
  | inr last ↦ inr last
]

-- One that names an argument names another of the same argument.
IsNamed-same :
    (p x : Param) (params : List Param)
    → same_arg x.arg p.arg ≡ true
    → IsNamed x params
    → IsNamed p params
IsNamed-same p x params same (q, (m, (n, a))) =
    (q, (m, (n, same_arg_trans q.arg x.arg p.arg a same)))

pub kept-Covered :
    (earlier params : List Param) (p : Param)
    → In p params
    → is_skipped p ≡ false
    → Covered earlier (kept earlier params) p
unfolding Covered
kept-Covered earlier [] p m n = absurd m
kept-Covered earlier (x ∷ params) p (inl same) n =
    subst (λ q. IsNamed q earlier ⊎ IsNamed q (kept earlier (x ∷ params))) same
      (kept_head earlier x params (rw (sym same) at n))
kept-Covered earlier (x ∷ params) p (inr m) n =
    elim (kept-Covered (earlier ++ (x ∷ [])) params p m n) [
      | inr shown ↦ inr (kept_tail earlier x params p shown)
      | inl before ↦ elim (IsNamed-append p x earlier before) [
        | inl early ↦ inl early
        | inr (nx, same) ↦ elim (kept_head earlier x params nx) [
          | inl early ↦ inl (IsNamed-same p x earlier same early)
          | inr shown ↦ inr (IsNamed-same p x (kept earlier (x ∷ params)) same shown)
        ]
      ]
    ]

-- What is shown was no earlier one's, and is one of the parameters, with a long name and an argument.
pub record IsNew (earlier params : List Param) (p : Param) : Type 0 where
  pub here : In p params
  pub long : is_skipped p ≡ false
  pub fresh : shares earlier p ≡ false

shares-append :
    (earlier : List Param) (x p : Param)
    → shares (earlier ++ (x ∷ [])) p ≡ false
    → (shares earlier p ≡ false) × (is_skipped x ≡ false → same_arg x.arg p.arg ≡ false)
unfolding shares
shares-append [] x p h = (refl, λ n. ground (arith, h, n))
shares-append (q ∷ earlier) x p h = ground (arith, h, shares-append earlier x p)

pub kept-IsNew :
    (earlier params : List Param) (p : Param) → In p (kept earlier params) → IsNew earlier params p
unfolding kept
kept-IsNew earlier [] p = λ m. absurd m
kept-IsNew earlier (x ∷ params) p =
    let e : List Param = earlier ++ (x ∷ []) in
    let T : List Param → Type 0 = λ l. In p l → IsNew earlier (x ∷ params) p in
    let old : In p (kept e params) → IsNew earlier (x ∷ params) p = λ m.
      let new : IsNew e params p = kept-IsNew e params p m in
      record {
        here = inr new.here;
        long = new.long;
        fresh = (shares-append earlier x p new.fresh).0;
      } in
    if-ind T (is_skipped x) (λ _. old)
      (λ n.
        if-ind T (shares earlier x) (λ _. old)
          (λ f m. elim m [
            | inl same ↦
                subst (IsNew earlier (x ∷ params)) same
                  (record { here = inl refl; long = n; fresh = f })
            | inr rest ↦ old rest
          ]))

-- The test of the loop fails for any two of the parameters.
abbrev pub AreUnlike : List Param → Type 0
AreUnlike [] = Unit
AreUnlike (p ∷ params) =
    ((q : Param) → In q params → same_arg p.arg q.arg ≡ false) × AreUnlike params

pub kept-AreUnlike : (earlier params : List Param) → AreUnlike (kept earlier params)
unfolding kept
kept-AreUnlike earlier [] = tt
kept-AreUnlike earlier (x ∷ params) =
    let e : List Param = earlier ++ (x ∷ []) in
    let rest : AreUnlike (kept e params) = kept-AreUnlike e params in
    if-ind AreUnlike (is_skipped x) (λ _. rest)
      (λ n.
        if-ind AreUnlike (shares earlier x) (λ _. rest)
          (λ _. (
            λ q m.
                let new : IsNew e params q = kept-IsNew e params q m in
                (shares-append earlier x q new.fresh).1 n,
            rest,
          )))
