-- ===== src/Messages/Lines.antt =====
-- The lines that the functions of libbase/lib/error.c print.
use ngim.Base.{
  ℕ, ◌≡◌, refl, sym, ap, ◌∙◌, Bool, true, false, Option, none, some, [], ◌++◌, ltb, leb, codes,
  if◌then◌else◌, if_both, if_true, append-nil, append_assoc, arith,
}
use ngim.Cmdline.{Str}
use ngim.Messages.{Program, strlevel, puts, puts_part, puts_progname, error6}

-- A line of standard error: the level, the name of the program if it has one, and the parts.
abbrev pub optional : Option Str → Str
optional none = []
optional (some s) = s

abbrev naming : Option Str → Str
naming none = []
naming (some name) = name ++ codes ": "

abbrev pub line : Option Str → ℕ → (s1 s2 s3 s4 s5 s6 : Option Str) → Str
line name level s1 s2 s3 s4 s5 s6 =
    strlevel level
    ++ (codes ": "
        ++ (naming name
            ++ (optional s1
                ++ (optional s2
                    ++ (optional s3
                        ++ (optional s4 ++ (optional s5 ++ (optional s6 ++ codes "\n"))))))))

puts_part-puts : (s : Option Str) (p : Program) → puts_part s p ≡ puts (optional s) p
puts_part-puts none p = ap (λ t. record p { printed = t }) (sym (append-nil p.printed))
puts_part-puts (some s) p = refl

puts_progname-puts : (name : Option Str) (p : Program) → puts_progname name p ≡ puts (naming name) p
puts_progname-puts none p = ap (λ t. record p { printed = t }) (sym (append-nil p.printed))
puts_progname-puts (some name) p =
    ap (λ t. record p { printed = t }) (append_assoc p.printed name (codes ": "))

puts-puts : (s t : Str) (p : Program) → puts t (puts s p) ≡ puts (s ++ t) p
puts-puts s t p = ap (λ u. record p { printed = u }) (append_assoc p.printed s t)

add_part :
    (s : Option Str) (t : Str) (p : Program) → puts_part s (puts t p) ≡ puts (t ++ optional s) p
add_part s t p = puts_part-puts s (puts t p) ∙ puts-puts t (optional s) p

-- The parts, with what comes before and after them.
add_parts :
    (t : Str) (s1 s2 s3 s4 s5 s6 : Option Str) (p : Program)
    → puts (codes "\n") (
        puts_part s6
          (puts_part s5 (puts_part s4 (puts_part s3 (puts_part s2 (puts_part s1 (puts t p)))))))
      ≡ puts
          (t
            ++ (optional s1
                ++ (optional s2
                    ++ (optional s3
                        ++ (optional s4 ++ (optional s5 ++ (optional s6 ++ codes "\n")))))))
          p
add_parts t s1 s2 s3 s4 s5 s6 p =
    let t1 : Str = t ++ optional s1 in
    let t3 : Str = (t1 ++ optional s2) ++ optional s3 in
    let t5 : Str = (t3 ++ optional s4) ++ optional s5 in
    rw (add_part s1 t p) (
      rw (add_part s2 t1 p) (
        rw (add_part s3 (t1 ++ optional s2) p) (
          rw (add_part s4 t3 p) (
            rw (add_part s5 (t3 ++ optional s4) p) (
              rw (add_part s6 t5 p) (
                puts-puts (t5 ++ optional s6) (codes "\n") p
                ∙ ap (λ u. puts u p) (simp append_assoc)))))))

-- A message of a level that is not suppressed is a line, where standard error is open.
pub error6-line :
    (level : ℕ) (s1 s2 s3 s4 s5 s6 : Option Str) (p : Program)
    → p.g_apr_stderr ≡ true
    → error6 level s1 s2 s3 s4 s5 s6 p
      ≡ (if ltb level p.error_level then p else puts (line p.progname level s1 s2 s3 s4 s5 s6) p)
unfolding error6
error6-line level s1 s2 s3 s4 s5 s6 p up =
    let begin : Str = (strlevel level ++ codes ": ") ++ naming p.progname in
    let named : puts_progname p.progname (puts (codes ": ") (puts (strlevel level) p))
        ≡ puts begin p =
      puts_progname-puts p.progname (puts (codes ": ") (puts (strlevel level) p))
      ∙ (ap (puts (naming p.progname)) (puts-puts (strlevel level) (codes ": ") p)
          ∙ puts-puts (strlevel level ++ codes ": ") (naming p.progname) p) in
    if_both ◌≡◌ (ltb level p.error_level) (λ _. refl)
      (λ _.
        if_true _ p up
        ∙ rw named (add_parts begin s1 s2 s3 s4 s5 s6 p ∙ ap (λ u. puts u p) (simp append_assoc)))

printed_if :
    (shown : Bool) (text : Str) (p : Program)
    → (if shown then puts text p else p).printed ≡ p.printed ++ (if shown then text else [])
printed_if true text p = refl
printed_if false text p = sym (append-nil p.printed)

leb-ltb : {A : Type 0} (a b : ℕ) (x y : A) → (if ltb a b then x else y) ≡ (if leb b a then y else x)
leb-ltb a b x y = ground arith

pub error6-printed :
    (level : ℕ) (s1 s2 s3 s4 s5 s6 : Option Str) (p : Program)
    → p.g_apr_stderr ≡ true
    → (error6 level s1 s2 s3 s4 s5 s6 p).printed
      ≡ p.printed
        ++ (if leb p.error_level level then line p.progname level s1 s2 s3 s4 s5 s6 else [])
error6-printed level s1 s2 s3 s4 s5 s6 p up =
    let text : Str = line p.progname level s1 s2 s3 s4 s5 s6 in
    ap (λ (q : Program). q.printed)
      (error6-line level s1 s2 s3 s4 s5 s6 p up ∙ leb-ltb level p.error_level p (puts text p))
    ∙ printed_if (leb p.error_level level) text p
