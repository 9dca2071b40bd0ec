-- ===== src/Vacm/Access/Map.antt =====
-- `_addAccessEntry` as an update of a map with six-part keys.
use mathlib.Core.Option
use pysnmp.Base.{
  Bool, Bool-cases, List, Option, [], ap, arith, if◌then◌else◌, inl, inr, none, some, ℕ, ◌&&◌, ◌==◌,
  ◌≡◌, ◌≢◌,
}
use pysnmp.Base.Eq.{Eq, list_beq, list_beq_iff, list_eq, nat_eq}
use pysnmp.Base.Dict.{Dict, insert, lookup, lookup-insert}
use pysnmp.Vacm.Access.{
  AccessMap, AccessRow, Name, ViewType, ViewsByType, add_access_entry, add_view, add_views, descend,
  notify, other, read, row_view, typed_view, view_type_beq, view_type_eq, write,
}

module _ {ℓ} {K V : Type ℓ} ⦃e : Eq K⦄ where
  -- The dict under a key, empty where the key is missing.
  abbrev pub inner : K → Dict K (List V) → List V
  inner k d = Option.get_or (lookup k d) []

  inner-descend :
      (k j : K) (change : List V → List V) (d : Dict K (List V))
      → inner j (descend k change d) ≡ (if e.beq k j then change (inner j d) else inner j d)
  unfolding descend
  inner-descend k j change d = elim (Bool-cases (e.beq k j)) [
    | inl same ↦
        rw (lookup-insert k j (change (inner k d)) d, same)
          (ap (λ (i : K). change (inner i d)) ((e.beq_iff k j).0 same))
    | inr differ ↦ rw (lookup-insert k j (change (inner k d)) d, differ)
  ]

  -- An update of what stands under `k`, seen through an observation of what stands under `j`.
  observe-descend {κ} :
      {W : Type κ} (observe : List V → Option W) (change : List V → List V) (hit : Bool)
      (w : Option W)
      → ((x : List V) → observe (change x) ≡ (if hit then w else observe x))
      → (k j : K) (d : Dict K (List V))
      → observe (inner j (descend k change d))
        ≡ (if e.beq k j && hit then w else observe (inner j d))
  observe-descend observe change hit w h k j d = elim (Bool-cases (e.beq k j)) [
    | inl same ↦ rw (inner-descend k j change d, same) (h (inner j d))
    | inr differ ↦ rw (inner-descend k j change d, differ)
  ]

-- The view name that a group's views hold under a key of five parts.
abbrev pub view_in : ViewType → ℕ → Name → ℕ → ℕ → ViewsByType → Option Name
view_in t pm c sm sl views = lookup sl (inner sm (inner c (inner pm (inner t views))))

-- The view name that the access map holds under a key of six parts.
abbrev pub view_at : Name → ViewType → ℕ → Name → ℕ → ℕ → AccessMap → Option Name
view_at g t pm c sm sl m = view_in t pm c sm sl (inner g m)

-- The row has this prefix match, context prefix, security model and level.
abbrev pub has_key : AccessRow → ℕ → Name → ℕ → ℕ → Bool
has_key r pm c sm sl =
    r.prefix_match == pm
    && (list_beq r.context_prefix c && (r.security_model == sm && r.security_level == sl))

view_in-add_view :
    (r : AccessRow) (u : ViewType) (v : Name) (t : ViewType) (pm : ℕ) (c : Name) (sm sl : ℕ)
    (views : ViewsByType)
    → view_in t pm c sm sl
        (add_view u r.prefix_match r.context_prefix r.security_model r.security_level v views)
      ≡ (if view_type_beq u t && has_key r pm c sm sl then some v else view_in t pm c sm sl views)
unfolding add_view
view_in-add_view r u v t pm c sm sl views =
    observe-descend _ _ _ (some v)
      (observe-descend _ _ _ (some v)
        (observe-descend _ _ _ (some v)
          (observe-descend (lookup sl) (insert r.security_level v) (r.security_level == sl) (some v)
            (lookup-insert r.security_level sl v) r.security_model sm)
          r.context_prefix c)
        r.prefix_match pm)
      u t views

-- What a row says of a view type, over what was there.
abbrev pub row_or : Option Name → Option Name → Option Name
row_or (some v) old = some v
row_or none old = old

-- The last of the three assignments that fits the view type wins, and one fits at most.
three_views :
    (t : ViewType) (hit : Bool) (r w n : Name) (old : Option Name)
    → (if view_type_beq notify t && hit
        then some n
        else if view_type_beq write t && hit
        then some w
        else if view_type_beq read t && hit
        then some r
        else old)
      ≡ (if hit then row_or (typed_view r w n t) old else old)
three_views read hit r w n old = ground arith
three_views write hit r w n old = ground arith
three_views notify hit r w n old = ground arith
three_views other hit r w n old = ground arith

view_in-add_views :
    (r : AccessRow) (t : ViewType) (pm : ℕ) (c : Name) (sm sl : ℕ) (views : ViewsByType)
    → view_in t pm c sm sl (add_views r views) ≡ (
        if has_key r pm c sm sl
        then row_or (row_view r t) (view_in t pm c sm sl views)
        else view_in t pm c sm sl views)
unfolding add_views
view_in-add_views r t pm c sm sl views =
    simp
      (
        view_in-add_view r notify r.notify_view t pm c sm sl,
        view_in-add_view r write r.write_view t pm c sm sl,
        view_in-add_view r read r.read_view t pm c sm sl,
      )
      (three_views t (has_key r pm c sm sl) r.read_view r.write_view r.notify_view _)

-- Adding a row with a group name is an update of the map from (group, view type, prefix match,
-- context prefix, security model, security level) to view names: under the row's own key each of
-- the view types read, write and notify has the row's view for it, and every other key, those of
-- other view types included, keeps what it had.
pub view_at-add_access_entry :
    (r : AccessRow) (m : AccessMap) (g : Name) (t : ViewType) (pm : ℕ) (c : Name) (sm sl : ℕ)
    → r.group_name ≢ []
    → view_at g t pm c sm sl (add_access_entry r m) ≡ (
        if list_beq r.group_name g && has_key r pm c sm sl
        then row_or (row_view r t) (view_at g t pm c sm sl m)
        else view_at g t pm c sm sl m)
unfolding add_access_entry
view_at-add_access_entry r m g t pm c sm sl h = elim (Bool-cases (list_beq r.group_name [])) [
  | inl empty ↦ absurd (h ((list_beq_iff r.group_name []).0 empty))
  | inr named ↦
      rw (named, inner-descend r.group_name g (add_views r) m)
        (elim (Bool-cases (list_beq r.group_name g)) [
          | inl same ↦ rw same (view_in-add_views r t pm c sm sl (inner g m))
          | inr differ ↦ rw differ
        ])
]
