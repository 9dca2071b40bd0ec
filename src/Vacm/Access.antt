-- ===== src/Vacm/Access.antt =====
-- The access map of `Vacm`: `_addAccessEntry` and `_getFamilyViewName`.
pub mod Map
pub mod Best
mod Tests
use mathlib.Core.Option
use pysnmp.Base.{
  Bool, List, Option, [], arith, false, if◌then◌else◌, length, ltb, none, not, some, take, true, ℕ,
  ◌&&◌, ◌==◌, ◌||◌, ◌↔◌, ◌∷◌, ◌≡◌,
}
use pysnmp.Base.Eq.{Eq, list_beq, list_eq, nat_eq}
use pysnmp.Base.Dict.{Dict, insert, lookup}
use pysnmp.Base.Lex.{lex_lt}

-- Names of groups, contexts and views are octet strings.
abbrev pub Name : Type 0
Name = List ℕ

-- The view types that `isAccessAllowed` may be asked about; `other` is any other string.
pub data ViewType : Type 0 where
  read write notify other : ViewType

abbrev pub view_type_beq : ViewType → ViewType → Bool
view_type_beq read read = true
view_type_beq write write = true
view_type_beq notify notify = true
view_type_beq other other = true
view_type_beq _ _ = false

pub view_type_beq_iff : (a b : ViewType) → (view_type_beq a b ≡ true) ↔ (a ≡ b)
view_type_beq_iff a b = ground arith

instance abbrev pub view_type_eq : Eq ViewType
view_type_eq = record { beq = view_type_beq; beq_iff = view_type_beq_iff }

-- The members of `errind` that access control raises, returns or is asked about.
pub data ErrorIndication : Type 0 where
  no_such_context no_group_name no_access_entry not_in_view no_such_view other_error :
      ErrorIndication
  access_allowed : ErrorIndication

-- `_accessMap`: group, view type, prefix match, context prefix, security model, security level.
abbrev pub Levels : Type 0
Levels = Dict ℕ Name

abbrev pub Models : Type 0
Models = Dict ℕ Levels

abbrev pub Contexts : Type 0
Contexts = Dict Name Models

abbrev pub Matches : Type 0
Matches = Dict ℕ Contexts

abbrev pub ViewsByType : Type 0
ViewsByType = Dict ViewType Matches

abbrev pub AccessMap : Type 0
AccessMap = Dict Name ViewsByType

-- The `try: x = d[k]; except KeyError: x = d[k] = {}` of each level, followed by a change of `x`.
pub descend {ℓ} :
    {K V : Type ℓ} ⦃e : Eq K⦄ → K → (List V → List V) → Dict K (List V) → Dict K (List V)
descend k change d = insert k (change (Option.get_or (lookup k d) [])) d

-- One round of the loop over the three view types.
pub add_view : ViewType → ℕ → Name → ℕ → ℕ → Name → ViewsByType → ViewsByType
unfolding descend
add_view view_type prefix_match context_prefix security_model security_level view_name =
    descend view_type (
      descend prefix_match
        (descend context_prefix (descend security_model (insert security_level view_name))))

-- A row of `vacmAccessTable`.
pub record AccessRow : Type 0 where
  pub group_name : Name
  pub context_prefix : Name
  pub security_model : ℕ
  pub security_level : ℕ
  pub prefix_match : ℕ
  pub read_view : Name
  pub write_view : Name
  pub notify_view : Name

abbrev pub typed_view : Name → Name → Name → ViewType → Option Name
typed_view r w n read = some r
typed_view r w n write = some w
typed_view r w n notify = some n
typed_view r w n other = none

-- The view that a row names for a view type.
abbrev pub row_view : AccessRow → ViewType → Option Name
row_view r = typed_view r.read_view r.write_view r.notify_view

-- The three rounds, on the views of one group.
pub add_views : AccessRow → ViewsByType → ViewsByType
unfolding add_view
add_views r views =
    let add = λ (t : ViewType) (v : Name).
      add_view t r.prefix_match r.context_prefix r.security_model r.security_level v in
    add notify r.notify_view (add write r.write_view (add read r.read_view views))

-- `_addAccessEntry`; a row with an empty group name is ignored.
unfoldable pub add_access_entry : AccessRow → AccessMap → AccessMap
unfolding add_views descend
add_access_entry r m = if list_beq r.group_name [] then m else descend r.group_name (add_views r) m

-- A candidate of the fuzzy look-up, compared as the tuple of its fields.
pub record Candidate : Type 0 where
  pub same_model : Bool
  pub same_context : Bool
  pub prefix_length : ℕ
  pub level : ℕ
  pub view_name : Name

abbrev pub bit : Bool → ℕ
bit true = 1
bit false = 0

-- The order of the tuples is the lexicographic order of these sequences.
abbrev pub rank : Candidate → List ℕ
rank c = bit c.same_model ∷ bit c.same_context ∷ c.prefix_length ∷ c.level ∷ c.view_name

-- `if bestCandidate is None or candidate > bestCandidate: bestCandidate = candidate`
pub better : Option Candidate → Candidate → Option Candidate
better none c = some c
better (some best) c = if lex_lt (rank best) (rank c) then some c else some best

-- The two `continue`s of the loop over the contexts.
abbrev pub skipped : Name → ℕ → Name → Bool
skipped context_name match context =
    (match == 1 && not (list_beq context_name context))
    || (match == 2 && not (list_beq (take (length context) context_name) context))

module _ (context_name : Name) (security_model security_level : ℕ) where
  pub scan_levels : Name → ℕ → Option Candidate → Levels → Option Candidate
  unfolding better
  scan_levels context model best [] = best
  scan_levels context model best ((level, view_name) ∷ rest) =
      scan_levels context model
        (if ltb security_level level
          then best
          else better best (record {
            same_model = security_model == model;
            same_context = list_beq context_name context;
            prefix_length = length context;
            level = level;
            view_name = view_name;
          }))
        rest

  pub scan_models : Name → Option Candidate → Models → Option Candidate
  unfolding scan_levels
  scan_models context best [] = best
  scan_models context best ((model, levels) ∷ rest) =
      scan_models context
        (if model == security_model || model == 0
          then scan_levels context model best levels
          else best)
        rest

  pub scan_contexts : ℕ → Option Candidate → Contexts → Option Candidate
  unfolding scan_models
  scan_contexts match best [] = best
  scan_contexts match best ((context, models) ∷ rest) =
      scan_contexts match
        (if skipped context_name match context then best else scan_models context best models) rest

  pub scan_matches : Option Candidate → Matches → Option Candidate
  unfolding scan_contexts
  scan_matches best [] = best
  scan_matches best ((match, names) ∷ rest) = scan_matches (scan_contexts match best names) rest

pub data Found {ℓ} (A : Type ℓ) : Type ℓ where
  ok : A → Found A
  err : ErrorIndication → Found A

-- `matches[1][contextName][securityModel][securityLevel]`, `none` on a `KeyError`.
pub exact_match : Name → ℕ → ℕ → Matches → Option Name
unfolding Option.bind
exact_match context_name security_model security_level matches =
    Option.bind (lookup 1 matches) λ contexts.
      Option.bind (lookup context_name contexts)
        λ models. Option.bind (lookup security_model models) λ levels. lookup security_level levels

abbrev pub fuzzy_result : Option Candidate → Found Name
fuzzy_result none = err not_in_view
fuzzy_result (some best) = ok best.view_name

abbrev pub exact_or_fuzzy : Option Name → Option Candidate → Found Name
exact_or_fuzzy (some v) best = ok v
exact_or_fuzzy none best = fuzzy_result best

pub views_of : Name → Option Matches → ℕ → ℕ → Found Name
unfolding scan_matches exact_match
views_of context_name none security_model security_level = err no_access_entry
views_of context_name (some matches) security_model security_level =
    exact_or_fuzzy (exact_match context_name security_model security_level matches)
      (scan_matches context_name security_model security_level none matches)

-- `_getFamilyViewName`
unfoldable pub get_family_view_name : Name → Name → ℕ → ℕ → ViewType → AccessMap → Found Name
unfolding views_of
get_family_view_name group_name context_name security_model security_level view_type groups =
    elim (lookup group_name groups) [
      | none ↦ err no_group_name
      | some views ↦ views_of context_name (lookup view_type views) security_model security_level
    ]
