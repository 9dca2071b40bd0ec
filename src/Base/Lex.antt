-- ===== src/Base/Lex.antt =====
-- Python's order on tuples and byte strings: by the first difference, a prefix first.
use Prim.Native.Nat.{ℕ}
use mathlib.Core.Path.{◌≡◌}
use mathlib.Core.Bool.{Bool, true, false}
use mathlib.Core.List.{List, [], ◌∷◌}
use native.Mathlib.Omega.{arith}
use pysnmp.Base.Tests.{if◌then◌else◌, ltb}

unfoldable pub lex_lt : List ℕ → List ℕ → Bool
lex_lt [] [] = false
lex_lt [] (y ∷ ys) = true
lex_lt (x ∷ xs) [] = false
lex_lt (x ∷ xs) (y ∷ ys) =
    let rest = lex_lt xs ys in if ltb x y then true else if ltb y x then false else rest

pub lex_irrefl : (a : List ℕ) → lex_lt a a ≡ false
unfolding lex_lt
lex_irrefl [] = ground arith
lex_irrefl (x ∷ xs) = ground (arith, lex_irrefl xs)

pub lex_asym : (a b : List ℕ) → lex_lt a b ≡ true → lex_lt b a ≡ false
unfolding lex_lt
lex_asym [] [] h = cc
lex_asym [] (y ∷ ys) h = ground arith
lex_asym (x ∷ xs) [] h = cc
lex_asym (x ∷ xs) (y ∷ ys) h = ground (arith, lex_asym xs ys)

pub lex_trans : (a b c : List ℕ) → lex_lt a b ≡ true → lex_lt b c ≡ true → lex_lt a c ≡ true
unfolding lex_lt
lex_trans [] [] c h k = cc
lex_trans [] (y ∷ ys) [] h k = cc
lex_trans [] (y ∷ ys) (z ∷ zs) h k = ground arith
lex_trans (x ∷ xs) [] c h k = cc
lex_trans (x ∷ xs) (y ∷ ys) [] h k = cc
lex_trans (x ∷ xs) (y ∷ ys) (z ∷ zs) h k = ground (arith, lex_trans xs ys zs)

pub lex_total : (a b : List ℕ) → lex_lt a b ≡ false → lex_lt b a ≡ false → a ≡ b
unfolding lex_lt
lex_total [] [] h k = ground arith
lex_total [] (y ∷ ys) h k = cc
lex_total (x ∷ xs) [] h k = cc
lex_total (x ∷ xs) (y ∷ ys) h k = ground (arith, lex_total xs ys)

-- "Not above" is transitive, which the searches for a greatest element use.
pub lex_le_trans : (a b c : List ℕ) → lex_lt b a ≡ false → lex_lt c b ≡ false → lex_lt c a ≡ false
unfolding lex_lt
lex_le_trans [] b [] h k = ground arith
lex_le_trans [] b (z ∷ zs) h k = ground arith
lex_le_trans (x ∷ xs) [] c h k = cc
lex_le_trans (x ∷ xs) (y ∷ ys) [] h k = cc
lex_le_trans (x ∷ xs) (y ∷ ys) (z ∷ zs) h k = ground (arith, lex_le_trans xs ys zs)
