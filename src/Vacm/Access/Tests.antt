-- ===== src/Vacm/Access/Tests.antt =====
-- The access map at concrete rows.
use pysnmp.Base.{[], refl, ◌∷◌, ◌≡◌}
use pysnmp.Base.Eq.{list_eq, nat_eq}
use pysnmp.Base.Dict.{insert, lookup}
use pysnmp.Base.Lex.{lex_lt}
use pysnmp.Vacm.Access.{
  AccessMap, AccessRow, add_access_entry, get_family_view_name, ok, read, view_type_eq,
}
use pysnmp.Vacm.Access.Best.Family.{FamilyView, get_family_view_name-FamilyView}

-- Two rows of the group "g": any context that begins with "a" for any model, and exactly "ab" for
-- model 3 at level 3.
abbrev any_row : AccessRow
any_row = record {
  group_name = 103 ∷ [];
  context_prefix = 97 ∷ [];
  security_model = 0;
  security_level = 1;
  prefix_match = 2;
  read_view = 114 ∷ [];
  write_view = [];
  notify_view = [];
}

abbrev exact_row : AccessRow
exact_row = record {
  group_name = 103 ∷ [];
  context_prefix = 97 ∷ 98 ∷ [];
  security_model = 3;
  security_level = 3;
  prefix_match = 1;
  read_view = 115 ∷ [];
  write_view = 119 ∷ [];
  notify_view = [];
}

abbrev access_map : AccessMap
access_map = add_access_entry exact_row (add_access_entry any_row [])

exact_row_is_found :
    get_family_view_name (103 ∷ []) (97 ∷ 98 ∷ []) 3 3 read access_map ≡ ok (115 ∷ [])
unfolding get_family_view_name add_access_entry lookup insert lex_lt
exact_row_is_found = refl

-- At a lower level only the prefix row is eligible.
prefix_row_is_found :
    get_family_view_name (103 ∷ []) (97 ∷ 98 ∷ []) 3 2 read access_map ≡ ok (114 ∷ [])
unfolding get_family_view_name add_access_entry lookup insert lex_lt
prefix_row_is_found = refl

get_family_view_name-FamilyView_example :
    FamilyView
      (103 ∷ [])
      (97 ∷ 98 ∷ [])
      3
      2
      read
      access_map
      (get_family_view_name (103 ∷ []) (97 ∷ 98 ∷ []) 3 2 read access_map)
get_family_view_name-FamilyView_example =
    get_family_view_name-FamilyView (103 ∷ []) (97 ∷ 98 ∷ []) 3 2 read access_map
