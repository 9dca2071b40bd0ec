-- ===== src/Vacm/Views/Tests.antt =====
-- The view tree at concrete rows, and a prefix test that meets its law.
use pysnmp.Base.{
  Bool, [], ap, arith, false, get_elem?, length, refl, some, suc, true, zero, ℕ, ◌&&◌, ◌<◌, ◌==◌,
  ◌↔◌, ◌∷◌, ◌≡◌, ◌≤◌,
}
use pysnmp.Base.Eq.{list_eq, nat_eq}
use pysnmp.Base.Dict.{insert, lookup}
use pysnmp.Base.Sort.{sort}
use pysnmp.Vacm.Views.{
  Family, Oid, ViewRow, add_family, build_view_tree, collect_families, family_key, make_family,
  sort_families,
}
use pysnmp.Vacm.Views.Decision.{Holds}
use pysnmp.Vacm.Views.Mask.{InFamily, PrefixLaw, make_family-Holds}
use pysnmp.Vacm.Views.Tree.{build_view_tree_lem, families_for, families_in}

abbrev pub starts : Oid → Oid → Bool
starts [] n = true
starts (x ∷ s) [] = false
starts (x ∷ s) (y ∷ n) = x == y && starts s n

starts_sound :
    (s n : Oid)
    → starts s n ≡ true
    → (length s ≤ length n) × ((j : ℕ) → j < length s → get_elem? s j ≡ get_elem? n j)
starts_sound [] n h = (omega arith, λ j k. absurd (omega arith))
starts_sound (x ∷ s) [] h = cc
starts_sound (x ∷ s) (y ∷ n) h =
    let (size, at) = starts_sound s n (ground arith) in
    let first : x ≡ y = ground arith in (omega arith, agree size at first)
  where
    agree :
        length s ≤ length n
        → ((j : ℕ) → j < length s → get_elem? s j ≡ get_elem? n j)
        → x ≡ y
        → (j : ℕ) → j < length (x ∷ s)
        → get_elem? (x ∷ s) j ≡ get_elem? (y ∷ n) j
    agree size at e zero k = ap some e
    agree size at e (suc j) k = at j (omega arith)

starts_complete :
    (s n : Oid)
    → (length s ≤ length n) × ((j : ℕ) → j < length s → get_elem? s j ≡ get_elem? n j)
    → starts s n ≡ true
starts_complete [] n h = refl
starts_complete (x ∷ s) [] h = absurd (omega arith)
starts_complete (x ∷ s) (y ∷ n) (size, at) =
    let first : some x ≡ some y = at 0 (omega arith) in
    ground (arith, first, starts_complete s n (omega arith, λ j k. at (suc j) (omega arith)))

pub starts-PrefixLaw : PrefixLaw starts
starts-PrefixLaw s n = (starts_sound s n, starts_complete s n)

-- Subtree 1.3.9.7 under the mask 0xd0: the third sub-identifier is ignored.
abbrev masked_row : ViewRow
masked_row = record {
  view_name = 118 ∷ [];
  subtree = 1 ∷ 3 ∷ 9 ∷ 7 ∷ [];
  mask = 0xd0 ∷ [];
  family_type = 1;
}

abbrev masked_family : Family
masked_family = record { subtree = 1 ∷ 3 ∷ 0 ∷ 7 ∷ []; ignored = 2 ∷ []; included = true }

masked_row_family : make_family masked_row ≡ some masked_family
unfolding make_family
masked_row_family = refl

make_family-Holds_example :
    Holds starts (1 ∷ 3 ∷ 5 ∷ 7 ∷ 2 ∷ []) masked_family
    ↔ InFamily masked_row (1 ∷ 3 ∷ 5 ∷ 7 ∷ 2 ∷ [])
make_family-Holds_example =
    make_family-Holds starts starts-PrefixLaw masked_row (1 ∷ 3 ∷ 5 ∷ 7 ∷ 2 ∷ []) masked_family
      (omega arith) masked_row_family (omega arith)

build_view_tree_lem_example :
    families_in (118 ∷ []) ((118 ∷ [], masked_family ∷ []) ∷ [])
    ≡ sort family_key (families_for (118 ∷ []) (masked_row ∷ []))
unfolding build_view_tree collect_families make_family sort_families lookup insert sort add_family
build_view_tree_lem_example =
    build_view_tree_lem (118 ∷ []) (masked_row ∷ []) ((118 ∷ [], masked_family ∷ []) ∷ []) refl
