-- ===== src/RequestCache/Tests.antt =====
-- Two requests, one of them past due.
use pysnmp.Base.{Bool, [], false, ltb, refl, some, ℕ, ◌∷◌, ◌≡◌}
use pysnmp.Base.Eq.{nat_eq}
use pysnmp.Base.Dict.{Dict, lookup, remove}
use pysnmp.RequestCache.{expire, expire_each, pop_entry, protocol_error, update}

abbrev held : Dict ℕ (Dict ℕ ℕ)
held = (1, (0, 50) ∷ []) ∷ (2, (0, 90) ∷ []) ∷ []

-- The name 0 stands for the time of a request.
abbrev past_due : ℕ → Dict ℕ ℕ → Bool
past_due index [] = false
past_due index ((n, time) ∷ rest) = ltb time 60

first_goes : expire (some past_due) held ≡ (2, (0, 90) ∷ []) ∷ []
unfolding expire expire_each remove
first_goes = refl

late_update : update 3 [] held ≡ protocol_error
unfolding update lookup
late_update = refl

missing_entry : pop_entry {D = ℕ} 3 [] ≡ protocol_error
unfolding pop_entry lookup
missing_entry = refl
