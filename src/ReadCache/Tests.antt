-- ===== src/ReadCache/Tests.antt =====
-- A cache of two entries, full.
use pysnmp.Base.{[], arith, false, refl, some, true, ℕ, ◌∷◌, ◌≡◌}
use pysnmp.Base.Eq.{nat_eq}
use pysnmp.Base.Dict.{contains, insert, lookup, remove}
use pysnmp.Base.Lex.{lex_lt}
use pysnmp.Base.Sort.{sort}
use pysnmp.ReadCache.{Cache, delete_each, evict, least_read, set_item, store}
use pysnmp.ReadCache.Bound.{IsValid}
use pysnmp.ReadCache.Fair.{IsAssigned, set_item-IsAssigned}

abbrev full : Cache ℕ ℕ
full = record {
  max_size = 2;
  size = 2;
  chop_size = 1;
  cache = (1, 10) ∷ (2, 20) ∷ [];
  usage = (1, 5) ∷ (2, 3) ∷ [];
}

full-IsValid : IsValid full
unfolding lookup
full-IsValid = record {
  unique_cache = (refl, (refl, tt));
  unique_usage = (refl, (refl, tt));
  counted = λ k. ground arith;
  size_cache = refl;
  size_usage = refl;
  bounded = omega arith;
  chop_some = omega arith;
  chop_within = omega arith;
}

-- The entry read three times makes room.
least_read_goes :
    set_item 3 30 full
    ≡ some (record full { cache = (1, 10) ∷ (3, 30) ∷ []; usage = (1, 5) ∷ (3, 0) ∷ [] })
unfolding set_item evict delete_each store lookup insert remove sort lex_lt
least_read_goes = refl

set_item-IsAssigned_example :
    (s' : Cache ℕ ℕ) × (set_item 3 30 full ≡ some s') × IsValid s' × IsAssigned 3 30 full s'
set_item-IsAssigned_example = set_item-IsAssigned 3 30 full full-IsValid

two_is_least : contains 2 (least_read full) ≡ true
unfolding sort lex_lt lookup
two_is_least = refl

one_is_not : contains 1 (least_read full) ≡ false
unfolding sort lex_lt lookup
one_is_not = refl

read_three : lookup 2 full.usage ≡ some 3
unfolding lookup
read_three = refl

read_five : lookup 1 full.usage ≡ some 5
unfolding lookup
read_five = refl
