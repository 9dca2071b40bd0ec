-- ===== src/Vacm/Views.antt =====
-- The view tree of `Vacm.isAccessAllowed`: families of subtrees under a mask, and the decision over
-- them. `isPrefixOf` of pyasn1's ObjectIdentifier is a parameter.
pub mod Decision
pub mod Mask
pub mod Tree
mod Tests
use mathlib.Core.Option
use Prim.Native.Nat.{bit_and}
use pysnmp.Base.{
  Bool, List, Option, [], if◌then◌else◌, length, ltb, min, none, some, suc, zero, ℕ, ◌&&◌, ◌*◌,
  ◌++◌, ◌+◌, ◌==◌, ◌∷◌,
}
use pysnmp.Base.Eq.{list_eq, nat_eq}
use pysnmp.Base.Dict.{Dict, insert, lookup}
use pysnmp.Base.Sort.{sort}
use pysnmp.Vacm.Access.{Name, bit}

abbrev pub Oid : Type 0
Oid = List ℕ

-- A row of `vacmViewTreeFamilyTable`; `family_type` 1 is "included".
pub record ViewRow : Type 0 where
  pub view_name : Name
  pub subtree : Oid
  pub mask : List ℕ
  pub family_type : ℕ

pub record Family : Type 0 where
  pub subtree : Oid
  pub ignored : List ℕ
  pub included : Bool

-- `[2**exp for exp in range(7, -1, -1)]`
abbrev pub powers_of_two : List ℕ
powers_of_two = 128 ∷ 64 ∷ 32 ∷ 16 ∷ 8 ∷ 4 ∷ 2 ∷ 1 ∷ []

-- The comprehension for `ignoredSubOids`, its inner and its outer loop; `position` is `i * 8 + j`.
unfoldable pub ignored_bits : ℕ → ℕ → ℕ → List ℕ → List ℕ
ignored_bits mask_length octet position [] = []
ignored_bits mask_length octet position (bit ∷ bits) =
    let rest = ignored_bits mask_length octet (position + 1) bits in
    if bit_and bit octet == 0 && ltb position mask_length then position ∷ rest else rest

unfoldable pub ignored_octets : ℕ → ℕ → List ℕ → List ℕ
unfolding ignored_bits
ignored_octets mask_length position [] = []
ignored_octets mask_length position (octet ∷ mask) =
    ignored_bits mask_length octet position powers_of_two
    ++ ignored_octets mask_length (position + 8) mask

abbrev pub ignored_sub_oids : List ℕ → Oid → List ℕ
ignored_sub_oids mask subtree = ignored_octets (min (length mask * 8) (length subtree)) 0 mask

-- `l[i] = 0`, `none` for the `IndexError` past the end.
unfoldable pub zero_at : ℕ → Oid → Option Oid
zero_at i [] = none
zero_at zero (x ∷ xs) = some (0 ∷ xs)
zero_at (suc i) (x ∷ xs) = Option.map (λ (t : Oid). x ∷ t) (zero_at i xs)

unfoldable pub zero_all : List ℕ → Oid → Option Oid
unfolding zero_at
zero_all [] l = some l
zero_all (i ∷ is) l = elim (zero_at i l) [ none ↦ none | some l' ↦ zero_all is l' ]

abbrev pub family_of : ViewRow → List ℕ → Oid → Family
family_of r ignored pattern = record {
  subtree = pattern;
  ignored = ignored;
  included = r.family_type == 1;
}

-- The `entry` of a row. With no sub-identifier ignored, `zero_all` returns the subtree as it is.
unfoldable pub make_family : ViewRow → Option Family
unfolding zero_all ignored_octets
make_family r =
    let ignored = ignored_sub_oids r.mask r.subtree in
    Option.map (family_of r ignored) (zero_all ignored r.subtree)

abbrev pub ViewTree : Type 0
ViewTree = Dict Name (List Family)

-- `if syntax not in map: map[syntax] = []`, then `.append(entry)`.
unfoldable pub add_family : Name → Family → ViewTree → ViewTree
add_family v f tree = insert v (Option.get_or (lookup v tree) [] ++ f ∷ []) tree

unfoldable pub collect_families : ViewTree → List ViewRow → Option ViewTree
collect_families tree [] = some tree
collect_families tree (r ∷ rows) = elim (make_family r) [
  | none ↦ none
  | some f ↦ collect_families (add_family r.view_name f tree) rows
]

-- The key of `entries.sort`.
abbrev pub family_key : Family → List ℕ
family_key f = length f.subtree ∷ f.subtree

unfoldable pub sort_families : ViewTree → ViewTree
sort_families [] = []
sort_families ((v, families) ∷ tree) = (v, sort family_key families) ∷ sort_families tree

-- The rebuilt `_viewTreeMap`.
unfoldable pub build_view_tree : List ViewRow → Option ViewTree
build_view_tree rows = Option.map sort_families (collect_families [] rows)

module _ (is_prefix_of : Oid → Oid → Bool) where
  -- The loop over the families of the view, `none` for the `IndexError`.
  unfoldable pub check_families : Oid → Bool → List Family → Option Bool
  unfolding zero_all
  check_families name allowed [] = some allowed
  check_families name allowed (f ∷ families) = elim (zero_all f.ignored name) [
    | none ↦ none
    | some normalized ↦
        check_families name (if is_prefix_of f.subtree normalized then f.included else allowed)
          families
  ]
