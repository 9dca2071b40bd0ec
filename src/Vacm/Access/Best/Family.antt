-- ===== src/Vacm/Access/Best/Family.antt =====
-- What `_getFamilyViewName` returns, in terms of the candidates that the RFC calls eligible.
use pysnmp.Base.Eq.{list_eq, nat_eq}
use pysnmp.Base.{Option, Option-cases, false, inl, inr, none, refl, some, ℕ, ◌≡◌}
use pysnmp.Vacm.Access.{
  AccessMap, Candidate, Found, Matches, Name, ViewType, ViewsByType, err, exact_match, fuzzy_result,
  get_family_view_name, no_access_entry, no_group_name, not_in_view, ok, rank, scan_matches,
  view_type_eq, views_of,
}
use pysnmp.Vacm.Access.Best.{of_matches, pick, pick-Tops, pick-none, pick_mem, scan_matches-pick}
use pysnmp.Base.Lex.{lex_lt}
use pysnmp.Base.Dict.{lookup}
use pysnmp.Vacm.Access.Best.Eligible.{Eligible, matches_complete, matches_sound}

module _ (cn : Name) (sm sl : ℕ) where
  scan_sound :
      (d : Matches) (b : Candidate)
      → scan_matches cn sm sl none d ≡ some b
      → Eligible cn sm sl d b
        × ((c : Candidate) → Eligible cn sm sl d c → lex_lt (rank b) (rank c) ≡ false)
  scan_sound d b h =
      let picked : pick none (of_matches cn sm sl d) ≡ some b =
        rw (← scan_matches-pick cn sm sl none d) h in
      (
        elim (pick_mem none (of_matches cn sm sl d) b picked) [
          | inl e ↦ cc
          | inr m ↦ matches_sound cn sm sl d b m
        ],
        λ c e.
            (pick-Tops none (of_matches cn sm sl d) b picked).1 c (matches_complete cn sm sl d c e),
      )

  scan_none :
      (d : Matches) (c : Candidate) → scan_matches cn sm sl none d ≡ none → ¬ Eligible cn sm sl d c
  scan_none d c h e =
      pick-none (of_matches cn sm sl d) c (rw (← scan_matches-pick cn sm sl none d) h)
        (matches_complete cn sm sl d c e)

-- What `_getFamilyViewName` may answer for the views that a group has under a view type: the view
-- of a row that matches exactly; else the view of a greatest eligible candidate, compared by (same
-- security model, same context, length of the prefix, level, view name); or `notInView` where none
-- is eligible.
pub data Selects (cn : Name) (sm sl : ℕ) (d : Matches) : Found Name → Type 0 where
  exactly : (v : Name) → exact_match cn sm sl d ≡ some v → Selects cn sm sl d (ok v)
  greatest :
      (b : Candidate)
      → exact_match cn sm sl d ≡ none
      → Eligible cn sm sl d b
      → ((c : Candidate) → Eligible cn sm sl d c → lex_lt (rank b) (rank c) ≡ false)
      → Selects cn sm sl d (ok b.view_name)
  nothing :
      exact_match cn sm sl d ≡ none
      → ((c : Candidate) → ¬ Eligible cn sm sl d c)
      → Selects cn sm sl d (err not_in_view)

-- The answers of `_getFamilyViewName`, an unknown group and a missing view type included.
pub data FamilyView (g cn : Name) (sm sl : ℕ) (t : ViewType) (groups : AccessMap)
    : Found Name → Type 0 where
  unknown_group : lookup g groups ≡ none → FamilyView g cn sm sl t groups (err no_group_name)
  no_entry :
      (views : ViewsByType)
      → lookup g groups ≡ some views
      → lookup t views ≡ none
      → FamilyView g cn sm sl t groups (err no_access_entry)
  selected :
      (views : ViewsByType) (d : Matches) {r : Found Name}
      → lookup g groups ≡ some views
      → lookup t views ≡ some d
      → Selects cn sm sl d r
      → FamilyView g cn sm sl t groups r

module _ (cn : Name) (sm sl : ℕ) (d : Matches) where
  fuzzy-Selects :
      (best : Option Candidate)
      → scan_matches cn sm sl none d ≡ best
      → exact_match cn sm sl d ≡ none
      → Selects cn sm sl d (fuzzy_result best)
  fuzzy-Selects none s e = nothing e (λ c. scan_none cn sm sl d c s)
  fuzzy-Selects (some b) s e =
      let (eligible, top) = scan_sound cn sm sl d b s in greatest b e eligible top

  views_of-Selects : Selects cn sm sl d (views_of cn (some d) sm sl)
  unfolding views_of
  views_of-Selects = elim (Option-cases (exact_match cn sm sl d)) [
    | inl e ↦ rw e (fuzzy-Selects (scan_matches cn sm sl none d) refl e)
    | inr (v, e) ↦ rw e (exactly v e)
  ]

-- What `_getFamilyViewName` answers: `noGroupName` for a group with no rows, `noAccessEntry` for a
-- view type that the group has no views for; otherwise the view of the row that matches the context,
-- model and level exactly, or else the view of an eligible row above which no eligible row stands in the
-- order of preference of RFC 3415, or else `notInView` when no row is eligible. The error indications are
-- the code's: for a group without rows and for a group without an eligible row RFC 3415 and the texts of
-- errind.py say `noAccessEntry`.
pub get_family_view_name-FamilyView :
    (g cn : Name) (sm sl : ℕ) (t : ViewType) (groups : AccessMap)
    → FamilyView g cn sm sl t groups (get_family_view_name g cn sm sl t groups)
unfolding get_family_view_name
get_family_view_name-FamilyView g cn sm sl t groups = elim (Option-cases (lookup g groups)) [
  | inl e ↦ rw (e, get_family_view_name) (unknown_group e)
  | inr (views, e) ↦ elim (Option-cases (lookup t views)) [
    | inl f ↦ rw (e, get_family_view_name, f) (unfold views_of in no_entry views e f)
    | inr (d, f) ↦
        rw (e, get_family_view_name, f) (selected views d e f (views_of-Selects cn sm sl d))
  ]
]
