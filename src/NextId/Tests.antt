-- ===== src/NextId/Tests.antt =====
-- A generator of four values up to 9.
use pysnmp.Base.{List, [], arith, length, refl, some, ℕ, ◌∷◌, ◌≡◌}
use pysnmp.NextId.{Integer, call, init, range}
use pysnmp.NextId.Bank.{AreBelow, IsChain, calls, calls_lem}

abbrev fresh : Integer
fresh = record { maximum = 9; increment = 4; threshold = 2; bank = 3 ∷ 4 ∷ 5 ∷ 6 ∷ [] }

fresh_made : init 9 4 3 ≡ some fresh
unfolding init range
fresh_made = refl

-- The bank is refilled past the maximum before it wraps round.
passes_the_maximum : calls 10 fresh ≡ some (3 ∷ 4 ∷ 5 ∷ 6 ∷ 7 ∷ 8 ∷ 9 ∷ 10 ∷ 0 ∷ 1 ∷ [])
unfolding calls call range
passes_the_maximum = refl

calls_lem_example :
    (vs : List ℕ) × (calls 20 fresh ≡ some vs) × (length vs ≡ 20) × IsChain 9 vs × AreBelow 11 vs
calls_lem_example = calls_lem 9 4 3 20 fresh fresh_made (omega arith) (omega arith)
