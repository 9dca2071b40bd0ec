-- ===== src/Vacm/Views/Tree.antt =====
-- What `_viewTreeMap` holds after a rebuild.
use mathlib.Core.Option
use mathlib.Core.Option.{some-injective}
use mathlib.Core.List.{append_assoc, append-nil}
use pysnmp.Base.{
  All, Bool-cases, List, Option, Option-cases, [], ap, arith, if◌then◌else◌, inl, inr, none, refl,
  some, sym, ◌++◌, ◌∙◌, ◌∷◌, ◌≡◌, ◌≢◌,
}
use pysnmp.Base.Eq.{list_beq, list_beq_iff, list_eq, nat_eq}
use pysnmp.Base.Dict.{lookup, lookup-empty, lookup-insert}
use pysnmp.Vacm.Access.{Name}
use pysnmp.Vacm.Views.Mask.{make_family_total}
use pysnmp.Vacm.Views.{
  Family, ViewRow, ViewTree, add_family, build_view_tree, collect_families, family_key, family_of,
  ignored_sub_oids, make_family, sort_families,
}
use pysnmp.Base.Sort.{sort}

-- The families of a view, by the rows that name it, in the order of the rows.
unfoldable pub families_for : Name → List ViewRow → List Family
families_for v [] = []
families_for v (r ∷ rows) = elim (make_family r) [
  | none ↦ families_for v rows
  | some f ↦ if list_beq r.view_name v then f ∷ families_for v rows else families_for v rows
]

abbrev pub families_in : Name → ViewTree → List Family
families_in v tree = Option.get_or (lookup v tree) []

not_some {ℓ} : {A : Type ℓ} {a : A} → none ≡ some a → ⊥
not_some h = cc

families_in-add_family :
    (v w : Name) (f : Family) (tree : ViewTree)
    → families_in w (add_family v f tree)
      ≡ families_in w tree ++ (if list_beq v w then f ∷ [] else [])
unfolding add_family
families_in-add_family v w f tree = elim (Bool-cases (list_beq v w)) [
  | inl same ↦
      rw (lookup-insert v w (families_in v tree ++ f ∷ []) tree, same)
        (ap (λ (u : Name). families_in u tree ++ f ∷ []) ((list_beq_iff v w).0 same))
  | inr differ ↦ rw (lookup-insert v w (families_in v tree ++ f ∷ []) tree, differ, append-nil)
]

module _ (v : Name) (tree : ViewTree) (r : ViewRow) (rows : List ViewRow) {f : Family}
    (e : make_family r ≡ some f) where
  collect_step :
      collect_families tree (r ∷ rows) ≡ collect_families (add_family r.view_name f tree) rows
  unfolding collect_families
  collect_step = rw (e, collect_families)

  families_for_step :
      families_for v (r ∷ rows)
      ≡ (if list_beq r.view_name v then f ∷ [] else []) ++ families_for v rows
  unfolding families_for
  families_for_step = elim (Bool-cases (list_beq r.view_name v)) [
    | inl same ↦ rw (same, e, families_for) (rw same)
    | inr differ ↦ rw (differ, e, families_for) (rw differ)
  ]

collect_stop :
    (tree : ViewTree) (r : ViewRow) (rows : List ViewRow)
    → make_family r ≡ none
    → collect_families tree (r ∷ rows) ≡ none
unfolding collect_families
collect_stop tree r rows e = rw (e, collect_families)

collect-families_for :
    (v : Name) (tree : ViewTree) (rows : List ViewRow) (t : ViewTree)
    → collect_families tree rows ≡ some t
    → families_in v t ≡ families_in v tree ++ families_for v rows
collect-families_for v tree [] t h =
    unfold collect_families families_for in
    (ap (families_in v) (sym (some-injective tree t h)) ∙ sym (append-nil (families_in v tree)))
collect-families_for v tree (r ∷ rows) t h = elim (Option-cases (make_family r)) [
  | inl e ↦ absurd (not_some (sym (collect_stop tree r rows e) ∙ h))
  | inr (f, e) ↦
      collect-families_for v (add_family r.view_name f tree) rows t
        (sym (collect_step v tree r rows e) ∙ h)
      ∙ rw (families_in-add_family r.view_name v f tree, families_for_step v tree r rows e)
          (append_assoc (families_in v tree) (if list_beq r.view_name v then f ∷ [] else [])
            (families_for v rows))
]

lookup-sort_families :
    (v : Name) (tree : ViewTree)
    → lookup v (sort_families tree) ≡ Option.map (sort family_key) (lookup v tree)
unfolding sort_families lookup
lookup-sort_families v [] = refl
lookup-sort_families v ((w, fs) ∷ tree) = elim (Bool-cases (list_beq w v)) [
  | inl same ↦ rw same
  | inr differ ↦ rw differ (lookup-sort_families v tree)
]

get_or-map-sort :
    (o : Option (List Family))
    → Option.get_or (Option.map (sort family_key) o) [] ≡ sort family_key (Option.get_or o [])
unfolding sort
get_or-map-sort none = refl
get_or-map-sort (some fs) = refl

map-eq-some :
    (o : Option ViewTree) (tree : ViewTree)
    → Option.map sort_families o ≡ some tree
    → (t : ViewTree) × (o ≡ some t) × (sort_families t ≡ tree)
map-eq-some none tree h = cc
map-eq-some (some t) tree h = (t, refl, some-injective (sort_families t) tree h)

-- After a rebuild from the rows of `vacmViewTreeFamilyTable`, the entry of a view, if there is one,
-- holds exactly the families of the rows that name the view, each as often as it occurs, sorted by
-- the length of the subtree and then by the subtree; a view with no entry has no such row.
pub build_view_tree_lem :
    (v : Name) (rows : List ViewRow) (tree : ViewTree)
    → build_view_tree rows ≡ some tree
    → families_in v tree ≡ sort family_key (families_for v rows)
unfolding build_view_tree
build_view_tree_lem v rows tree h =
    let (t, collected, sorted) = map-eq-some (collect_families [] rows) tree h in
    rw (← sorted, lookup-sort_families v t, get_or-map-sort (lookup v t))
      (ap (sort family_key) (rw lookup-empty at (collect-families_for v [] rows t collected)))

collect_total :
    (tree : ViewTree) (rows : List ViewRow) → (t : ViewTree) × (collect_families tree rows ≡ some t)
collect_total tree [] = unfold collect_families in (tree, refl)
collect_total tree (r ∷ rows) =
    let (p, e, z) = make_family_total r in
    let f = family_of r (ignored_sub_oids r.mask r.subtree) p in
    let (t, e') = collect_total (add_family r.view_name f tree) rows in
    (t, collect_step r.view_name tree r rows {f = f} e ∙ e')

-- Rebuilding the view tree never raises `IndexError`.
pub build_view_tree_total : (rows : List ViewRow) → (t : ViewTree) × (build_view_tree rows ≡ some t)
unfolding build_view_tree
build_view_tree_total rows = let (t, e) = collect_total [] rows in (sort_families t, rw e)

lookup-add_family_ne :
    (v w : Name) (f : Family) (tree : ViewTree)
    → v ≢ w
    → lookup w (add_family v f tree) ≡ lookup w tree
unfolding add_family
lookup-add_family_ne v w f tree h =
    rw (lookup-insert v w (families_in v tree ++ f ∷ []) tree) (ground (arith, list_beq_iff v w, h))

collect_unlisted :
    (v : Name) (tree : ViewTree) (rows : List ViewRow) (t : ViewTree)
    → All (λ r. r.view_name ≢ v) rows
    → collect_families tree rows ≡ some t
    → lookup v t ≡ lookup v tree
collect_unlisted v tree [] t n h =
    unfold collect_families in ap (lookup v) (some-injective t tree (sym h))
collect_unlisted v tree (r ∷ rows) t n h =
    let (p, e, z) = make_family_total r in
    let f = family_of r (ignored_sub_oids r.mask r.subtree) p in
    collect_unlisted v (add_family r.view_name f tree) rows t n.1
      (sym (collect_step v tree r rows {f = f} e) ∙ h)
    ∙ lookup-add_family_ne r.view_name v f tree n.0

-- A view that no row names has no entry.
pub build_view_tree_unlisted :
    (v : Name) (rows : List ViewRow)
    → All (λ r. r.view_name ≢ v) rows
    → lookup v (Option.get_or (build_view_tree rows) []) ≡ none
unfolding build_view_tree
build_view_tree_unlisted v rows n =
    let (t, e) = collect_total [] rows in
    rw (e, lookup-sort_families v t, collect_unlisted v [] rows t n e, lookup-empty)
