-- ===== src/Cmdline/Strings.antt =====
-- The comparison of strings of libbase/lib/cmdline.c, which other files use too.
use ngim.Base.{◌≡◌, refl, true, [], ◌∷◌, arith}
use ngim.Cmdline.{Str, str_eq}

pub str_eq→≡ : (x y : Str) → str_eq x y ≡ true → x ≡ y
unfolding str_eq
str_eq→≡ [] [] h = refl
str_eq→≡ [] (d ∷ y) h = absurd (ground arith)
str_eq→≡ (c ∷ x) [] h = absurd (ground arith)
str_eq→≡ (c ∷ x) (d ∷ y) h = ground (arith, str_eq→≡ x y)

pub str_eq_refl : (s : Str) → str_eq s s ≡ true
unfolding str_eq
str_eq_refl [] = refl
str_eq_refl (c ∷ s) = ground (arith, str_eq_refl s)
