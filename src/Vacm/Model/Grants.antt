-- ===== src/Vacm/Model/Grants.antt =====
-- What a verdict of `isAccessAllowed` means for the view that was selected.
use mathlib.Core.List.{Memᴰ}
use mathlib.Core.List.Memᴰ
use mathlib.Core.Option
use mathlib.Core.Option.{some-injective}
use pysnmp.Base.{
  All, Bool, List, Option, Option-cases, [], ap, false, if◌then◌else◌, inl, inr, length, none, refl,
  some, sym, true, ℕ, ◌∙◌, ◌∷◌, ◌≡◌, ◌≢◌, ◌≤◌,
}
use pysnmp.Base.Eq.{list_eq, nat_eq, pair_eq}
use pysnmp.Base.Dict.{contains, lookup}
use pysnmp.Vacm.Access.{Found, Name, err, get_family_view_name, not_in_view, ok}
use pysnmp.Vacm.Views.{Family, Oid, ViewTree, check_families, family_key, zero_all}
use pysnmp.Vacm.Model.{
  Mib, Request, allowed, build_access, build_contexts, build_groups, check_view, index_error, init,
  is_access_allowed, returned, verdict_of,
}
use pysnmp.Vacm.Model.Cache.{
  History, IsPartOf, access_decision, after, after_decides, decision, group_decision, view_decision,
  view_tree_of,
}
use pysnmp.Vacm.Views.Mask.Bits.{member}
use pysnmp.Vacm.Views.Tree.{
  build_view_tree_lem, build_view_tree_total, build_view_tree_unlisted, families_for, families_in,
}
use pysnmp.Base.Lex.{lex_lt}
use pysnmp.Base.Sort.{mem-sort, sort, sort-IsSorted, sort-mem}
use pysnmp.Vacm.Views.Decision.{
  Holds, by_default, by_family, check-Decides, check_fail, check_nil, check_step,
}
use pysnmp.Vacm.Views.Mask.{zero_all_out}

-- The context is known, the requester belongs to a group, and the group's access rows select `v`.
pub record Selected (mib : Mib) (q : Request) (v : Name) : Type 0 where
  pub known : contains q.context_name (build_contexts [] mib.contexts) ≡ true
  pub group : Name
  pub member_of :
      lookup (q.security_model, q.security_name) (build_groups [] mib.groups) ≡ some group
  pub view :
      get_family_view_name group q.context_name q.security_model q.security_level q.view_type
        (build_access [] mib.access_rows)
      ≡ ok v

module _ (is_prefix_of : Oid → Oid → Bool) (mib : Mib) (q : Request) where
  decision-Selected :
      {v : Name}
      → Selected mib q v
      → decision is_prefix_of mib q
        ≡ check_view is_prefix_of q.variable_name v (view_tree_of mib.view_rows)
  decision-Selected s =
      ap (group_decision is_prefix_of mib q) s.known
      ∙ ap (access_decision is_prefix_of mib q) s.member_of
      ∙ ap (view_decision is_prefix_of mib q) s.view

  allowed_access :
      (g : Option Name)
      → access_decision is_prefix_of mib q g ≡ allowed
      → (group : Name) × (v : Name) × (g ≡ some group)
        × (get_family_view_name group q.context_name q.security_model q.security_level q.view_type
              (build_access [] mib.access_rows)
            ≡ ok v)
  allowed_access none h = cc
  allowed_access (some group) h =
      view
        (get_family_view_name group q.context_name q.security_model q.security_level q.view_type
          (build_access [] mib.access_rows))
        refl h
    where
      view :
          (r : Found Name)
          → get_family_view_name group q.context_name q.security_model q.security_level q.view_type
              (build_access [] mib.access_rows)
            ≡ r
          → view_decision is_prefix_of mib q r ≡ allowed
          → (group' : Name) × (v : Name) × (some group ≡ some group')
            × (get_family_view_name group' q.context_name q.security_model q.security_level
                  q.view_type
                  (build_access [] mib.access_rows)
                ≡ ok v)
      view (err e) p k = cc
      view (ok v) p k = (group, v, refl, p)

  allowed-Selected : decision is_prefix_of mib q ≡ allowed → (v : Name) × Selected mib q v
  allowed-Selected h = known (contains q.context_name (build_contexts [] mib.contexts)) refl h
    where
      known :
          (b : Bool)
          → contains q.context_name (build_contexts [] mib.contexts) ≡ b
          → group_decision is_prefix_of mib q b ≡ allowed
          → (v : Name) × Selected mib q v
      known false e k = cc
      known true e k =
          let (group, v, p, r) =
            allowed_access (lookup (q.security_model, q.security_name) (build_groups [] mib.groups))
              k in
          (v, record { known = e; group = group; member_of = p; view = r })

  allowed_check :
      (v : Name) (tree : ViewTree)
      → check_view is_prefix_of q.variable_name v tree ≡ allowed
      → check_families is_prefix_of q.variable_name false (families_in v tree) ≡ some true
  unfolding check_view
  allowed_check v tree h = families (lookup v tree) h
    where
      families :
          (o : Option (List Family))
          → (elim o [
            | none ↦ returned not_in_view
            | some fs ↦ verdict_of (check_families is_prefix_of q.variable_name false fs)
          ])
            ≡ allowed
          → check_families is_prefix_of q.variable_name false (Option.get_or o []) ≡ some true
      families none k = cc
      families (some fs) k = verdict (check_families is_prefix_of q.variable_name false fs) k
        where
          verdict : (c : Option Bool) → verdict_of c ≡ allowed → c ≡ some true
          verdict none m = cc
          verdict (some true) m = refl
          verdict (some false) m = cc

  view_tree_families :
      (v : Name)
      → families_in v (view_tree_of mib.view_rows) ≡ sort family_key (families_for v mib.view_rows)
  view_tree_families v =
      let (t, e) = build_view_tree_total mib.view_rows in
      rw e (build_view_tree_lem v mib.view_rows t e)

  -- The same of the decision without caches.
  decision_means :
      decision is_prefix_of mib q ≡ allowed
      → (v : Name) × Selected mib q v
        × (f : Family) × Memᴰ f (families_for v mib.view_rows)
        × Holds is_prefix_of q.variable_name f
        × (f.included ≡ true)
        × ((g : Family)
            → Memᴰ g (families_for v mib.view_rows)
            → Holds is_prefix_of q.variable_name g
            → lex_lt (family_key f) (family_key g) ≡ false)
  decision_means h =
      let (v, s) = allowed-Selected h in
      let fs = families_for v mib.view_rows in
      let checked : check_families is_prefix_of q.variable_name false (sort family_key fs)
          ≡ some true =
        rw (view_tree_families v) at
          (allowed_check v (view_tree_of mib.view_rows) (sym (decision-Selected s) ∙ h)) in
      elim (check-Decides is_prefix_of q.variable_name false true (sort family_key fs)
        (sort-IsSorted family_key fs) checked) [
          | by_default n e ↦ cc
          | by_family f m k top e ↦ (
            v,
            s,
            f,
            sort-mem family_key f fs m,
            k,
            sym e,
            λ g n. top g (mem-sort family_key g fs n),
          )
        ]

  check_missing :
      (w : Name) (tree : ViewTree)
      → lookup w tree ≡ none
      → check_view is_prefix_of q.variable_name w tree ≡ returned not_in_view
  unfolding check_view
  check_missing w tree e = rw (e, check_view)

  -- Where the selected view has no family at all, `isAccessAllowed` does not raise `notInView`: it
  -- returns it.
  pub unlisted_view_returns :
      (v : Name)
      → Selected mib q v
      → All (λ r. r.view_name ≢ v) mib.view_rows
      → decision is_prefix_of mib q ≡ returned not_in_view
  unlisted_view_returns v s n =
      decision-Selected s
      ∙ check_missing v (view_tree_of mib.view_rows) (build_view_tree_unlisted v mib.view_rows n)

  short_name_families :
      (start : Bool) (fs : List Family) (f : Family) (i : ℕ)
      → Memᴰ f fs
      → member i f.ignored ≡ true
      → length q.variable_name ≤ i
      → check_families is_prefix_of q.variable_name start fs ≡ none
  short_name_families start [] f i m b h = absurd (Memᴰ.not-nil m)
  short_name_families start (g ∷ fs) f i m b h =
      elim (Option-cases (zero_all g.ignored q.variable_name)) [
        | inl e ↦ check_fail is_prefix_of q.variable_name start g fs e
        | inr (n, e) ↦
            check_step is_prefix_of q.variable_name start g fs n e ∙ elim (Memᴰ.cases_cons m) [
              | inl same ↦
                  let out : zero_all g.ignored q.variable_name ≡ none =
                    rw (← same) (zero_all_out f.ignored q.variable_name i b h) in
                  absurd (let bad : none ≡ some n = sym out ∙ e in cc)
              | inr later ↦
                  short_name_families (if is_prefix_of g.subtree n then g.included else start) fs f
                    i later b h
            ]
      ]

  check_error :
      (v : Name) (tree : ViewTree)
      → check_families is_prefix_of q.variable_name false (families_in v tree) ≡ none
      → check_view is_prefix_of q.variable_name v tree ≡ index_error
  unfolding check_view
  check_error v tree h = elim (Option-cases (lookup v tree)) [
    | inl e ↦ absurd (
        let bad : none ≡ some false =
          sym (rw e at h) ∙ check_nil is_prefix_of q.variable_name false in
        cc)
    | inr (fs, e) ↦
        let failed : check_families is_prefix_of q.variable_name false fs ≡ none = rw e at h in
        rw (e, check_view) (ap verdict_of failed)
  ]

  -- Where the selected view has a family whose mask ignores a sub-identifier that the object's name
  -- is too short to have, the check neither permits nor denies: `IndexError` escapes from it.
  pub short_name_raises :
      (v : Name) (f : Family) (i : ℕ)
      → Selected mib q v
      → Memᴰ f (families_for v mib.view_rows)
      → member i f.ignored ≡ true
      → length q.variable_name ≤ i
      → decision is_prefix_of mib q ≡ index_error
  short_name_raises v f i s m b h =
      decision-Selected s
      ∙ check_error v (view_tree_of mib.view_rows) (
          rw (view_tree_families v) (
            short_name_families false (sort family_key (families_for v mib.view_rows)) f i
              (mem-sort family_key f (families_for v mib.view_rows) m) b h))

-- Whatever `isAccessAllowed` was asked before, it permits a request only where its context is known, its
-- security model and name belong to a group, the group's access rows select a view, and of the view's
-- families that hold the object's name (masked sub-identifiers aside) one with the greatest subtree, by
-- length and then by value, is an included one: all this by the rows of the time of the request, where no
-- branch version is ever used for two contents of a table.
pub allowed_means :
    (is_prefix_of : Oid → Oid → Bool) (h : History) (calls : List (Mib × Request))
    → All (λ c. IsPartOf h c.0) calls
    → (mib : Mib) (q : Request) → IsPartOf h mib
    → (is_access_allowed is_prefix_of mib q (after is_prefix_of init calls)).0 ≡ allowed
    → (v : Name) × Selected mib q v
      × (f : Family) × Memᴰ f (families_for v mib.view_rows)
      × Holds is_prefix_of q.variable_name f
      × (f.included ≡ true)
      × ((g : Family)
          → Memᴰ g (families_for v mib.view_rows)
          → Holds is_prefix_of q.variable_name g
          → lex_lt (family_key f) (family_key g) ≡ false)
allowed_means is_prefix_of h calls fits mib q fit permitted =
    decision_means is_prefix_of mib q
      (sym (after_decides is_prefix_of h calls mib q fits fit) ∙ permitted)
