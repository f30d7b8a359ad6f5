-- ===== src/Tai/Strings.antt =====
-- The order of strcmp.
use ngim.Base.{ℕ, ◌≡◌, refl, true, false, List, [], ◌∷◌, arith}
use ngim.Tai.Order.{lex_less}

pub lex_less_irrefl : (x : List ℕ) → lex_less x x ≡ false
unfolding lex_less
lex_less_irrefl [] = refl
lex_less_irrefl (c ∷ x) = ground (arith, lex_less_irrefl x)

pub lex_less_asym : (x y : List ℕ) → lex_less x y ≡ true → lex_less y x ≡ false
unfolding lex_less
lex_less_asym [] [] h = refl
lex_less_asym [] (d ∷ y) h = refl
lex_less_asym (c ∷ x) [] h = ground arith
lex_less_asym (c ∷ x) (d ∷ y) h = ground (arith, lex_less_asym x y)

-- "Not less" is transitive.
pub lex_less_trans :
    (x y z : List ℕ) → lex_less x y ≡ false → lex_less y z ≡ false → lex_less x z ≡ false
unfolding lex_less
lex_less_trans [] [] z h k = k
lex_less_trans [] (d ∷ y) z h k = ground arith
lex_less_trans (c ∷ x) [] [] h k = refl
lex_less_trans (c ∷ x) [] (e ∷ z) h k = ground arith
lex_less_trans (c ∷ x) (d ∷ y) [] h k = refl
lex_less_trans (c ∷ x) (d ∷ y) (e ∷ z) h k = ground (arith, lex_less_trans x y z)
