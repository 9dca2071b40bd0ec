-- ===== src/Vacm/Model.antt =====
-- `Vacm.isAccessAllowed` with its four cached tables. The managed objects that it reads are a
-- parameter: the rows of each table and the branch version under which they are cached.
pub mod Cache
pub mod Grants
pub mod Caller
mod Tests
use mathlib.Core.Option
use pysnmp.Base.{Bool, List, Option, [], false, if◌then◌else◌, none, not, some, true, ℕ, ◌==◌, ◌∷◌}
use pysnmp.Base.Eq.{list_eq, nat_eq, pair_eq}
use pysnmp.Base.Dict.{Dict, contains, insert, lookup}
use pysnmp.Vacm.Access.{
  AccessMap, AccessRow, ErrorIndication, Found, Name, ViewType, add_access_entry, err,
  get_family_view_name, no_group_name, no_such_context, not_in_view, ok,
}
use pysnmp.Vacm.Views.{Oid, ViewRow, ViewTree, build_view_tree, check_families}

-- A row of `vacmSecurityToGroupTable`: security model and name, and the group.
abbrev pub GroupRow : Type 0
GroupRow = (ℕ × Name) × Name

-- A row of `vacmAccessTable` behind its status; 1 is active.
abbrev pub StatusRow : Type 0
StatusRow = ℕ × AccessRow

-- What the instrumentation holds when a request is checked.
pub record Mib : Type 0 where
  pub context_version : ℕ
  pub contexts : List Name
  pub group_version : ℕ
  pub groups : List GroupRow
  pub access_version : ℕ
  pub access_rows : List StatusRow
  pub view_version : ℕ
  pub view_rows : List ViewRow

-- The attributes of `Vacm`; a branch id of -1 is `none`.
pub record Vacm : Type 0 where
  pub context_branch : Option ℕ
  pub context_map : Dict Name Bool
  pub group_branch : Option ℕ
  pub group_map : Dict (ℕ × Name) Name
  pub access_branch : Option ℕ
  pub access_map : AccessMap
  pub view_branch : Option ℕ
  pub view_tree : ViewTree

-- `Vacm.__init__`
abbrev pub init : Vacm
init = record {
  context_branch = none;
  context_map = [];
  group_branch = none;
  group_map = [];
  access_branch = none;
  access_map = [];
  view_branch = none;
  view_tree = [];
}

pub record Request : Type 0 where
  pub security_model : ℕ
  pub security_name : Name
  pub security_level : ℕ
  pub view_type : ViewType
  pub context_name : Name
  pub variable_name : Oid

-- How a call ends: it returns `None`, returns a `StatusInformation`, raises one, or `IndexError`
-- escapes from it.
pub data Verdict : Type 0 where
  allowed : Verdict
  returned : ErrorIndication → Verdict
  raised : ErrorIndication → Verdict
  index_error : Verdict

-- The four rebuilds.
pub build_contexts : Dict Name Bool → List Name → Dict Name Bool
build_contexts m [] = m
build_contexts m (c ∷ cs) = build_contexts (insert c true m) cs

pub build_groups : Dict (ℕ × Name) Name → List GroupRow → Dict (ℕ × Name) Name
build_groups m [] = m
build_groups m ((indices, g) ∷ rows) = build_groups (insert indices g m) rows

pub build_access : AccessMap → List StatusRow → AccessMap
build_access m [] = m
build_access m ((status, r) ∷ rows) =
    build_access (if status == 1 then add_access_entry r m else m) rows

-- `branchId != branchVersionId`
abbrev pub is_stale : Option ℕ → ℕ → Bool
is_stale none v = true
is_stale (some u) v = not (u == v)

pub refresh_contexts : Mib → Vacm → Vacm
unfolding build_contexts
refresh_contexts mib s =
    if is_stale s.context_branch mib.context_version
    then record s {
      context_branch = some mib.context_version;
      context_map = build_contexts [] mib.contexts;
    }
    else s

pub refresh_groups : Mib → Vacm → Vacm
unfolding build_groups
refresh_groups mib s =
    if is_stale s.group_branch mib.group_version
    then record s { group_branch = some mib.group_version; group_map = build_groups [] mib.groups }
    else s

pub refresh_access : Mib → Vacm → Vacm
unfolding build_access
refresh_access mib s =
    if is_stale s.access_branch mib.access_version
    then record s {
      access_branch = some mib.access_version;
      access_map = build_access [] mib.access_rows;
    }
    else s

-- The rebuild of the view tree cannot raise (`build_view_tree_total`).
pub refresh_views : Mib → Vacm → Vacm
refresh_views mib s =
    if is_stale s.view_branch mib.view_version
    then record s {
      view_branch = some mib.view_version;
      view_tree = Option.get_or (build_view_tree mib.view_rows) [];
    }
    else s

abbrev pub verdict_of : Option Bool → Verdict
verdict_of none = index_error
verdict_of (some true) = allowed
verdict_of (some false) = raised not_in_view

module _ (is_prefix_of : Oid → Oid → Bool) where
  -- 3.2.5a to 3.2.5c
  pub check_view : Oid → Name → ViewTree → Verdict
  check_view name view_name tree = elim (lookup view_name tree) [
    | none ↦ returned not_in_view
    | some families ↦ verdict_of (check_families is_prefix_of name false families)
  ]

  abbrev pub view_stage : Mib → Request → Found Name → Vacm → Verdict × Vacm
  view_stage mib q (err e) s = (raised e, s)
  view_stage mib q (ok view_name) s =
      let s' = refresh_views mib s in (check_view q.variable_name view_name s'.view_tree, s')

  abbrev pub access_stage : Mib → Request → Option Name → Vacm → Verdict × Vacm
  access_stage mib q none s = (raised no_group_name, s)
  access_stage mib q (some group_name) s =
      let s' = refresh_access mib s in
      view_stage mib q
        (get_family_view_name group_name q.context_name q.security_model q.security_level
          q.view_type s'.access_map)
        s'

  abbrev pub group_stage : Mib → Request → Bool → Vacm → Verdict × Vacm
  group_stage mib q false s = (raised no_such_context, s)
  group_stage mib q true s =
      let s' = refresh_groups mib s in
      access_stage mib q (lookup (q.security_model, q.security_name) s'.group_map) s'

  pub is_access_allowed : Mib → Request → Vacm → Verdict × Vacm
  unfolding refresh_contexts refresh_groups refresh_access refresh_views check_view
  is_access_allowed mib q s =
      let s' = refresh_contexts mib s in
      group_stage mib q (contains q.context_name s'.context_map) s'
