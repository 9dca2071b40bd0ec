-- ===== src/Indices/Tests.antt =====
-- A small ordered dictionary, walked.
use pysnmp.Base.{[], arith, length, refl, some, ℕ, ◌∷◌, ◌≡◌, ◌≤◌}
use pysnmp.Base.Eq.{list_eq, nat_eq}
use pysnmp.Base.Dict.{insert, lookup}
use pysnmp.Base.Lex.{lex_lt}
use pysnmp.Base.Sort.{sort}
use pysnmp.Indices.{
  OidOrderedDict, above, distinct_lens, empty, keys, next_key, oid_next_key, oid_set_item, set_item,
  sorting_key,
}
use pysnmp.Indices.Valid.{empty-IsValid}
use pysnmp.Indices.Successor.{Successor, next_key-Successor}
use pysnmp.Indices.Walk.{
  OidIsValid, by_oid, keys_above, oid_keys, oid_set_item-OidIsValid, walk, walk_visits,
}

abbrev table : OidOrderedDict ℕ
unfolding oid_set_item
table = oid_set_item (1 ∷ 10 ∷ []) 7 (
    oid_set_item (1 ∷ 9 ∷ []) 8
      (oid_set_item (1 ∷ []) 9 (record { base = empty; keys_cache = [] })))

empty-OidIsValid : OidIsValid (record { base = empty {V = ℕ}; keys_cache = [] })
unfolding sorting_key lookup
empty-OidIsValid = record { cached = λ k. refl; base_valid = empty-IsValid by_oid }

table-OidIsValid : OidIsValid table
unfolding table
table-OidIsValid = oid_set_item-OidIsValid (1 ∷ 10 ∷ []) 7 _ (
    oid_set_item-OidIsValid (1 ∷ 9 ∷ []) 8 _
      (oid_set_item-OidIsValid (1 ∷ []) 9 _ empty-OidIsValid))

-- 1.10 follows 1.9.
ten_follows_nine : (oid_next_key (1 ∷ 9 ∷ 3 ∷ []) table).0 ≡ some (1 ∷ 10 ∷ [])
unfolding table oid_set_item set_item oid_next_key next_key above sorting_key lookup insert sort
    lex_lt distinct_lens
ten_follows_nine = refl

next_key-Successor_example :
    Successor by_oid (1 ∷ 9 ∷ []) table.base.mapping (next_key by_oid (1 ∷ 9 ∷ []) table.base).0
next_key-Successor_example =
    next_key-Successor by_oid (1 ∷ 9 ∷ []) table.base (table-OidIsValid.base_valid)

enough : length (oid_keys table) ≤ 3
unfolding oid_keys keys table oid_set_item set_item sorting_key lookup insert sort lex_lt
    distinct_lens
enough = omega arith

walk_visits_example : walk 3 (1 ∷ []) table ≡ keys_above (1 ∷ []) (oid_keys table)
walk_visits_example = walk_visits 3 (1 ∷ []) table table-OidIsValid enough
