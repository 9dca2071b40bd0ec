-- ===== src/Vacm/Model/Cache.antt =====
-- The caches do not change what `isAccessAllowed` decides.
use mathlib.Core.Option
use mathlib.Core.Option.{some-injective}
use pysnmp.Base.{
  ==_iff, All, Bool, Bool-cases, List, Option, [], ap, ap₂, false, inl, inr, map, none, refl, some,
  true, ℕ, ◌==◌, ◌∙◌, ◌∷◌, ◌≡◌, ◌⊎◌,
}
use pysnmp.Base.Eq.{list_eq, nat_eq, pair_eq}
use pysnmp.Base.Dict.{Dict, contains, lookup}
use pysnmp.Vacm.Access.{
  AccessMap, Found, Name, err, get_family_view_name, no_group_name, no_such_context, ok,
}
use pysnmp.Vacm.Views.{Oid, ViewRow, ViewTree, build_view_tree}
use pysnmp.Vacm.Model.{
  GroupRow, Mib, Request, StatusRow, Vacm, Verdict, access_stage, build_access, build_contexts,
  build_groups, check_view, group_stage, init, is_access_allowed, is_stale, raised, refresh_access,
  refresh_contexts, refresh_groups, refresh_views, view_stage,
}

-- The rows that each branch version stood for: a branch version is never used for two contents.
pub record History : Type 0 where
  pub contexts_at : ℕ → List Name
  pub groups_at : ℕ → List GroupRow
  pub access_rows_at : ℕ → List StatusRow
  pub view_rows_at : ℕ → List ViewRow

pub record IsPartOf (h : History) (mib : Mib) : Type 0 where
  pub contexts_fit : mib.contexts ≡ h.contexts_at mib.context_version
  pub groups_fit : mib.groups ≡ h.groups_at mib.group_version
  pub access_fit : mib.access_rows ≡ h.access_rows_at mib.access_version
  pub views_fit : mib.view_rows ≡ h.view_rows_at mib.view_version

abbrev pub view_tree_of : List ViewRow → ViewTree
view_tree_of rows = Option.get_or (build_view_tree rows) []

-- A map that is cached under a branch version is the map of that version's rows.
pub record IsCoherent (h : History) (s : Vacm) : Type 0 where
  pub contexts :
      (v : ℕ) → s.context_branch ≡ some v → s.context_map ≡ build_contexts [] (h.contexts_at v)
  pub groups : (v : ℕ) → s.group_branch ≡ some v → s.group_map ≡ build_groups [] (h.groups_at v)
  pub access :
      (v : ℕ) → s.access_branch ≡ some v → s.access_map ≡ build_access [] (h.access_rows_at v)
  pub views : (v : ℕ) → s.view_branch ≡ some v → s.view_tree ≡ view_tree_of (h.view_rows_at v)

stale_or_current :
    (b : Option ℕ) (v : ℕ) → (is_stale b v ≡ true) ⊎ ((is_stale b v ≡ false) × (b ≡ some v))
stale_or_current none v = inl refl
stale_or_current (some u) v = elim (Bool-cases (u == v)) [
  | inl e ↦ inr (rw e refl, ap some ((==_iff u v).0 e))
  | inr d ↦ inl (rw d refl)
]

-- The specification that the caches are compared with: what a caller sees without any cache, the four
-- tables being built from the rows for each request.
module _ (is_prefix_of : Oid → Oid → Bool) (mib : Mib) (q : Request) where
  abbrev pub view_decision : Found Name → Verdict
  view_decision (err e) = raised e
  view_decision (ok view_name) =
      check_view is_prefix_of q.variable_name view_name (view_tree_of mib.view_rows)

  abbrev pub access_decision : Option Name → Verdict
  access_decision none = raised no_group_name
  access_decision (some group_name) = view_decision (
      get_family_view_name group_name q.context_name q.security_model q.security_level q.view_type
        (build_access [] mib.access_rows))

  abbrev pub group_decision : Bool → Verdict
  group_decision false = raised no_such_context
  group_decision true =
      access_decision (lookup (q.security_model, q.security_name) (build_groups [] mib.groups))

  abbrev pub decision : Verdict
  decision = group_decision (contains q.context_name (build_contexts [] mib.contexts))

module _ (h : History) (mib : Mib) (fit : IsPartOf h mib) where
  refresh_contexts_lem :
      (s : Vacm)
      → IsCoherent h s
      → IsCoherent h (refresh_contexts mib s)
        × ((refresh_contexts mib s).context_map ≡ build_contexts [] mib.contexts)
  unfolding refresh_contexts
  refresh_contexts_lem s c = elim (stale_or_current s.context_branch mib.context_version) [
    | inl stale ↦ rw stale (
      record {
        contexts = λ v e. rw (← some-injective mib.context_version v e, fit.contexts_fit);
        groups = c.groups;
        access = c.access;
        views = c.views;
      },
      refl,
    )
    | inr (current, e) ↦ rw current (c, c.contexts mib.context_version e ∙ rw fit.contexts_fit)
  ]

  refresh_groups_lem :
      (s : Vacm)
      → IsCoherent h s
      → IsCoherent h (refresh_groups mib s)
        × ((refresh_groups mib s).group_map ≡ build_groups [] mib.groups)
  unfolding refresh_groups
  refresh_groups_lem s c = elim (stale_or_current s.group_branch mib.group_version) [
    | inl stale ↦ rw stale (
      record {
        contexts = c.contexts;
        groups = λ v e. rw (← some-injective mib.group_version v e, fit.groups_fit);
        access = c.access;
        views = c.views;
      },
      refl,
    )
    | inr (current, e) ↦ rw current (c, c.groups mib.group_version e ∙ rw fit.groups_fit)
  ]

  refresh_access_lem :
      (s : Vacm)
      → IsCoherent h s
      → IsCoherent h (refresh_access mib s)
        × ((refresh_access mib s).access_map ≡ build_access [] mib.access_rows)
  unfolding refresh_access
  refresh_access_lem s c = elim (stale_or_current s.access_branch mib.access_version) [
    | inl stale ↦ rw stale (
      record {
        contexts = c.contexts;
        groups = c.groups;
        access = λ v e. rw (← some-injective mib.access_version v e, fit.access_fit);
        views = c.views;
      },
      refl,
    )
    | inr (current, e) ↦ rw current (c, c.access mib.access_version e ∙ rw fit.access_fit)
  ]

  refresh_views_lem :
      (s : Vacm)
      → IsCoherent h s
      → IsCoherent h (refresh_views mib s)
        × ((refresh_views mib s).view_tree ≡ view_tree_of mib.view_rows)
  unfolding refresh_views
  refresh_views_lem s c = elim (stale_or_current s.view_branch mib.view_version) [
    | inl stale ↦ rw stale (
      record {
        contexts = c.contexts;
        groups = c.groups;
        access = c.access;
        views = λ v e. rw (← some-injective mib.view_version v e, fit.views_fit);
      },
      refl,
    )
    | inr (current, e) ↦ rw current (c, c.views mib.view_version e ∙ rw fit.views_fit)
  ]

  module _ (is_prefix_of : Oid → Oid → Bool) (q : Request) where
    -- A stage decides what it would decide without a cache, and leaves coherent caches.
    abbrev Agrees : Verdict → Verdict × Vacm → Type 0
    Agrees d (v, s) = (v ≡ d) × IsCoherent h s

    view_stage-Agrees :
        (r : Found Name) (s : Vacm)
        → IsCoherent h s
        → Agrees (view_decision is_prefix_of mib q r) (view_stage is_prefix_of mib q r s)
    view_stage-Agrees (err e) s c = (refl, c)
    view_stage-Agrees (ok v) s c =
        let (c', e) = refresh_views_lem s c in
        (ap (λ (t : ViewTree). check_view is_prefix_of q.variable_name v t) e, c')

    access_stage-Agrees :
        (g : Option Name) (s : Vacm)
        → IsCoherent h s
        → Agrees (access_decision is_prefix_of mib q g) (access_stage is_prefix_of mib q g s)
    access_stage-Agrees none s c = (refl, c)
    access_stage-Agrees (some g) s c =
        let (c', e) = refresh_access_lem s c in
        let view = λ (m : AccessMap).
          get_family_view_name g q.context_name q.security_model q.security_level q.view_type m in
        let (agrees, kept) =
          view_stage-Agrees (view (refresh_access mib s).access_map) (refresh_access mib s) c' in
        (agrees ∙ ap (λ (m : AccessMap). view_decision is_prefix_of mib q (view m)) e, kept)

    group_stage-Agrees :
        (known : Bool) (s : Vacm)
        → IsCoherent h s
        → Agrees (group_decision is_prefix_of mib q known) (group_stage is_prefix_of mib q known s)
    group_stage-Agrees false s c = (refl, c)
    group_stage-Agrees true s c =
        let (c', e) = refresh_groups_lem s c in
        let group = λ (m : Dict (ℕ × Name) Name). lookup (q.security_model, q.security_name) m in
        let (agrees, kept) =
          access_stage-Agrees (group (refresh_groups mib s).group_map) (refresh_groups mib s) c' in
        (
          agrees
              ∙ ap (λ (m : Dict (ℕ × Name) Name). access_decision is_prefix_of mib q (group m)) e,
          kept,
        )

    is_access_allowed-Agrees :
        (s : Vacm)
        → IsCoherent h s
        → Agrees (decision is_prefix_of mib q) (is_access_allowed is_prefix_of mib q s)
    unfolding is_access_allowed
    is_access_allowed-Agrees s c =
        let (c', e) = refresh_contexts_lem s c in
        let known = λ (m : Dict Name Bool). contains q.context_name m in
        let (agrees, kept) =
          group_stage-Agrees (known (refresh_contexts mib s).context_map) (refresh_contexts mib s)
            c' in
        (agrees ∙ ap (λ (m : Dict Name Bool). group_decision is_prefix_of mib q (known m)) e, kept)

init-IsCoherent : (h : History) → IsCoherent h init
init-IsCoherent h = record {
  contexts = λ v e. cc;
  groups = λ v e. cc;
  access = λ v e. cc;
  views = λ v e. cc;
}

-- A run of checks, each against the tables as they are at its time.
module _ (is_prefix_of : Oid → Oid → Bool) where
  pub run : Vacm → List (Mib × Request) → List Verdict
  run s [] = []
  run s ((mib, q) ∷ calls) =
      let (v, s') = is_access_allowed is_prefix_of mib q s in v ∷ run s' calls

  run-decision :
      (h : History) (s : Vacm) (calls : List (Mib × Request))
      → IsCoherent h s
      → All (λ c. IsPartOf h c.0) calls
      → run s calls ≡ map (λ c. decision is_prefix_of c.0 c.1) calls
  unfolding run
  run-decision h s [] c f = refl
  run-decision h s ((mib, q) ∷ calls) c f =
      let (e, c') = is_access_allowed-Agrees h mib f.0 is_prefix_of q s c in
      ap₂ {C = List Verdict} ◌∷◌ e
        (run-decision h (is_access_allowed is_prefix_of mib q s).1 calls c' f.1)

  -- The access control model after a run of checks.
  unfoldable pub after : Vacm → List (Mib × Request) → Vacm
  after s [] = s
  after s ((mib, q) ∷ calls) = after (is_access_allowed is_prefix_of mib q s).1 calls

  after-IsCoherent :
      (h : History) (s : Vacm) (calls : List (Mib × Request))
      → IsCoherent h s
      → All (λ c. IsPartOf h c.0) calls
      → IsCoherent h (after s calls)
  unfolding after
  after-IsCoherent h s [] c f = c
  after-IsCoherent h s ((mib, q) ∷ calls) c f =
      let (e, c') = is_access_allowed-Agrees h mib f.0 is_prefix_of q s c in
      after-IsCoherent h (is_access_allowed is_prefix_of mib q s).1 calls c' f.1

  -- After any run of checks, the next one decides what it would decide without caches.
  pub after_decides :
      (h : History) (calls : List (Mib × Request)) (mib : Mib) (q : Request)
      → All (λ c. IsPartOf h c.0) calls
      → IsPartOf h mib
      → (is_access_allowed is_prefix_of mib q (after init calls)).0 ≡ decision is_prefix_of mib q
  after_decides h calls mib q f fit =
      (is_access_allowed-Agrees h mib fit is_prefix_of q (after init calls)
        (after-IsCoherent h init calls (init-IsCoherent h) f)).0

  -- The caches are transparent: a new `Vacm` asked a sequence of questions, while the tables change
  -- from one to the next in any way that never uses a branch version for two contents, gives to
  -- each question the verdict that building all four tables afresh for it would give.
  pub run_decides :
      (h : History) (calls : List (Mib × Request))
      → All (λ c. IsPartOf h c.0) calls
      → run init calls ≡ map (λ c. decision is_prefix_of c.0 c.1) calls
  run_decides h calls f = run-decision h init calls (init-IsCoherent h) f
