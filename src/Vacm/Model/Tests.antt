-- ===== src/Vacm/Model/Tests.antt =====
-- The access control model on a small configuration, and the theorems at it.
use mathlib.Core.List.{Memᴰ}
use pysnmp.Base.{Bool, [], arith, false, refl, true, ℕ, ◌&&◌, ◌==◌, ◌∷◌, ◌≡◌}
use pysnmp.Base.Eq.{list_beq_iff, list_eq, nat_eq, pair_eq}
use pysnmp.Base.Dict.{insert, lookup}
use pysnmp.Base.Sort.{sort}
use pysnmp.Base.Lex.{lex_lt}
use pysnmp.Vacm.Model.Caller.{granted, unlisted_view_is_granted, verify_access}
use pysnmp.Vacm.Views.Tree.{families_for}
use pysnmp.Vacm.Views.Decision.{Holds}
use pysnmp.Vacm.Access.{
  AccessRow, Name, ViewType, add_access_entry, get_family_view_name, not_in_view, read,
  view_type_eq, write,
}
use pysnmp.Vacm.Views.{
  Family, Oid, add_family, build_view_tree, check_families, collect_families, family_key,
  make_family, sort_families,
}
use pysnmp.Vacm.Model.{
  Mib, Request, allowed, build_access, build_contexts, build_groups, check_view, index_error, init,
  is_access_allowed, raised,
}
use pysnmp.Vacm.Model.Cache.{History, IsPartOf, after, decision, run, run_decides}
use pysnmp.Vacm.Model.Grants.{Selected, allowed_means, short_name_raises}

abbrev starts : Oid → Oid → Bool
starts [] n = true
starts (x ∷ s) [] = false
starts (x ∷ s) (y ∷ n) = x == y && starts s n

-- User "u" of model 3 is in group "g", which reads view "v" and writes view "w" in the context "".
abbrev access_row : AccessRow
access_row = record {
  group_name = 103 ∷ [];
  context_prefix = [];
  security_model = 3;
  security_level = 1;
  prefix_match = 1;
  read_view = 118 ∷ [];
  write_view = 119 ∷ [];
  notify_view = [];
}

-- View "v" holds 1.3.9.7, its third sub-identifier ignored; view "w" has no family.
abbrev mib : Mib
mib = record {
  context_version = 1;
  contexts = [] ∷ [];
  group_version = 1;
  groups = ((3, 117 ∷ []), 103 ∷ []) ∷ [];
  access_version = 1;
  access_rows = (1, access_row) ∷ [];
  view_version = 1;
  view_rows =
      record {
        view_name = 118 ∷ [];
        subtree = 1 ∷ 3 ∷ 9 ∷ 7 ∷ [];
        mask = 0xd0 ∷ [];
        family_type = 1;
      }
      ∷ [];
}

abbrev ask : ViewType → Oid → Request
ask t name = record {
  security_model = 3;
  security_name = 117 ∷ [];
  security_level = 1;
  view_type = t;
  context_name = [];
  variable_name = name;
}

read_inside : (is_access_allowed starts mib (ask read (1 ∷ 3 ∷ 5 ∷ 7 ∷ 2 ∷ [])) init).0 ≡ allowed
unfolding is_access_allowed get_family_view_name add_access_entry build_view_tree collect_families
    sort_families add_family make_family check_families lookup insert sort lex_lt
read_inside = refl

read_outside :
    (is_access_allowed starts mib (ask read (1 ∷ 3 ∷ 5 ∷ 8 ∷ [])) init).0 ≡ raised not_in_view
unfolding is_access_allowed get_family_view_name add_access_entry build_view_tree collect_families
    sort_families add_family make_family check_families lookup insert sort lex_lt
read_outside = refl

read_short : (is_access_allowed starts mib (ask read (1 ∷ 3 ∷ [])) init).0 ≡ index_error
unfolding is_access_allowed get_family_view_name add_access_entry build_view_tree collect_families
    sort_families add_family make_family check_families lookup insert sort lex_lt
read_short = refl

abbrev history : History
history = record {
  contexts_at = λ v. mib.contexts;
  groups_at = λ v. mib.groups;
  access_rows_at = λ v. mib.access_rows;
  view_rows_at = λ v. mib.view_rows;
}

mib-IsPartOf : IsPartOf history mib
mib-IsPartOf = record {
  contexts_fit = refl;
  groups_fit = refl;
  access_fit = refl;
  views_fit = refl;
}

run_decides_example :
    run starts init ((mib, ask read (1 ∷ 3 ∷ [])) ∷ (mib, ask write (1 ∷ 3 ∷ [])) ∷ [])
    ≡ decision starts mib (ask read (1 ∷ 3 ∷ []))
      ∷ decision starts mib (ask write (1 ∷ 3 ∷ []))
      ∷ []
run_decides_example =
    run_decides starts history ((mib, ask read (1 ∷ 3 ∷ [])) ∷ (mib, ask write (1 ∷ 3 ∷ [])) ∷ [])
      (mib-IsPartOf, (mib-IsPartOf, tt))

read-Selected : (name : Oid) → Selected mib (ask read name) (118 ∷ [])
unfolding build_contexts build_groups build_access get_family_view_name add_access_entry lookup
    insert lex_lt
read-Selected name = record { known = refl; group = 103 ∷ []; member_of = refl; view = refl }

write-Selected : (name : Oid) → Selected mib (ask write name) (119 ∷ [])
unfolding build_contexts build_groups build_access get_family_view_name add_access_entry lookup
    insert lex_lt
write-Selected name = record { known = refl; group = 103 ∷ []; member_of = refl; view = refl }

abbrev masked_family : Family
masked_family = record { subtree = 1 ∷ 3 ∷ 0 ∷ 7 ∷ []; ignored = 2 ∷ []; included = true }

masked_family_listed : Memᴰ masked_family (families_for (118 ∷ []) mib.view_rows)
unfolding families_for make_family
masked_family_listed = Memᴰ.head refl

-- The second check, by the caches that the first one filled.
inside_allowed :
    (is_access_allowed starts mib
      (ask read (1 ∷ 3 ∷ 5 ∷ 7 ∷ 2 ∷ []))
      (after starts init ((mib, ask write (1 ∷ 3 ∷ [])) ∷ []))).0
    ≡ allowed
unfolding is_access_allowed after build_contexts build_groups build_access get_family_view_name
    add_access_entry build_view_tree collect_families sort_families add_family make_family
    check_families check_view lookup insert sort lex_lt
inside_allowed = refl

allowed_means_example :
    (v : Name) × Selected mib (ask read (1 ∷ 3 ∷ 5 ∷ 7 ∷ 2 ∷ [])) v
    × (f : Family) × Memᴰ f (families_for v mib.view_rows)
    × Holds starts (1 ∷ 3 ∷ 5 ∷ 7 ∷ 2 ∷ []) f
    × (f.included ≡ true)
    × ((g : Family)
        → Memᴰ g (families_for v mib.view_rows)
        → Holds starts (1 ∷ 3 ∷ 5 ∷ 7 ∷ 2 ∷ []) g
        → lex_lt (family_key f) (family_key g) ≡ false)
allowed_means_example =
    allowed_means starts history ((mib, ask write (1 ∷ 3 ∷ [])) ∷ []) (mib-IsPartOf, tt) mib
      (ask read (1 ∷ 3 ∷ 5 ∷ 7 ∷ 2 ∷ [])) mib-IsPartOf inside_allowed

short_name_raises_example : decision starts mib (ask read (1 ∷ 3 ∷ [])) ≡ index_error
short_name_raises_example =
    short_name_raises starts mib (ask read (1 ∷ 3 ∷ [])) (118 ∷ []) masked_family 2
      (read-Selected (1 ∷ 3 ∷ [])) masked_family_listed refl (omega arith)

unlisted_view_is_granted_example :
    verify_access 3 true true (decision starts mib (ask write (1 ∷ 3 ∷ []))) ≡ granted
unlisted_view_is_granted_example =
    unlisted_view_is_granted starts mib (ask write (1 ∷ 3 ∷ [])) true true (119 ∷ [])
      (write-Selected (1 ∷ 3 ∷ []))
      (λ e. let k : false ≡ true = (list_beq_iff {A = ℕ} (118 ∷ []) (119 ∷ [])).1 e in cc, tt)
