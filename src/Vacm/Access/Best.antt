-- ===== src/Vacm/Access/Best.antt =====
-- `_getFamilyViewName` picks the greatest eligible candidate.
pub mod Eligible
pub mod Family
use mathlib.Core.List.{Memᴰ}
use mathlib.Core.List.Memᴰ
use mathlib.Core.Option.{some-injective}
use pysnmp.Base.{
  Bool-cases, List, Option, [], false, if◌then◌else◌, inl, inr, length, ltb, none, refl, some, sym,
  ℕ, ◌++◌, ◌==◌, ◌||◌, ◌∙◌, ◌∷◌, ◌≡◌, ◌≢◌, ◌⊎◌,
}
use pysnmp.Base.Eq.{list_beq, list_eq, nat_eq}
use pysnmp.Vacm.Access.{
  Candidate, Contexts, Levels, Matches, Models, Name, better, rank, scan_contexts, scan_levels,
  scan_matches, scan_models, skipped, view_type_eq,
}
use pysnmp.Base.Lex.{lex_asym, lex_irrefl, lex_le_trans, lex_lt}

-- The candidates of one dict of levels, and of the dicts above it, in the order of the scan.
module _ (context_name : Name) (security_model security_level : ℕ) where
  pub candidate_at : Name → ℕ → ℕ → Name → Candidate
  candidate_at context model level view_name = record {
    same_model = security_model == model;
    same_context = list_beq context_name context;
    prefix_length = length context;
    level = level;
    view_name = view_name;
  }

  pub of_levels : Name → ℕ → Levels → List Candidate
  of_levels context model [] = []
  of_levels context model ((level, view_name) ∷ rest) =
      let others = of_levels context model rest in
      if ltb security_level level
      then others
      else candidate_at context model level view_name ∷ others

  pub of_models : Name → Models → List Candidate
  of_models context [] = []
  of_models context ((model, levels) ∷ rest) =
      (if model == security_model || model == 0 then of_levels context model levels else [])
      ++ of_models context rest

  pub of_contexts : ℕ → Contexts → List Candidate
  of_contexts match [] = []
  of_contexts match ((context, models) ∷ rest) =
      (if skipped context_name match context then [] else of_models context models)
      ++ of_contexts match rest

  pub of_matches : Matches → List Candidate
  of_matches [] = []
  of_matches ((match, names) ∷ rest) = of_contexts match names ++ of_matches rest

pub pick : Option Candidate → List Candidate → Option Candidate
pick best [] = best
pick best (c ∷ cs) = pick (better best c) cs

pick-append :
    (best : Option Candidate) (xs ys : List Candidate)
    → pick best (xs ++ ys) ≡ pick (pick best xs) ys
unfolding pick
pick-append best [] ys = refl
pick-append best (x ∷ xs) ys = pick-append (better best x) xs ys

module _ (cn : Name) (sm sl : ℕ) where
  scan_levels-pick :
      (c : Name) (model : ℕ) (best : Option Candidate) (d : Levels)
      → scan_levels cn sm sl c model best d ≡ pick best (of_levels cn sm sl c model d)
  unfolding scan_levels of_levels pick candidate_at
  scan_levels-pick c model best [] = refl
  scan_levels-pick c model best ((level, v) ∷ d) = elim (Bool-cases (ltb sl level)) [
    | inl above ↦ rw above (scan_levels-pick c model best d)
    | inr permitted ↦
        rw permitted
          (scan_levels-pick c model (better best (candidate_at cn sm sl c model level v)) d)
  ]

  scan_models-pick :
      (c : Name) (best : Option Candidate) (d : Models)
      → scan_models cn sm sl c best d ≡ pick best (of_models cn sm sl c d)
  unfolding scan_models of_models pick
  scan_models-pick c best [] = refl
  scan_models-pick c best ((model, levels) ∷ d) = elim (Bool-cases (model == sm || model == 0)) [
    | inl fits ↦
        rw
          (
            fits,
            pick-append best (of_levels cn sm sl c model levels) (of_models cn sm sl c d),
            ← scan_levels-pick c model best levels,
          )
          (scan_models-pick c (scan_levels cn sm sl c model best levels) d)
    | inr foreign ↦ rw foreign (scan_models-pick c best d)
  ]

  scan_contexts-pick :
      (match : ℕ) (best : Option Candidate) (d : Contexts)
      → scan_contexts cn sm sl match best d ≡ pick best (of_contexts cn sm sl match d)
  unfolding scan_contexts of_contexts pick
  scan_contexts-pick match best [] = refl
  scan_contexts-pick match best ((c, models) ∷ d) = elim (Bool-cases (skipped cn match c)) [
    | inl skips ↦ rw skips (scan_contexts-pick match best d)
    | inr fits ↦
        rw
          (
            fits,
            pick-append best (of_models cn sm sl c models) (of_contexts cn sm sl match d),
            ← scan_models-pick c best models,
          )
          (scan_contexts-pick match (scan_models cn sm sl c best models) d)
  ]

  pub scan_matches-pick :
      (best : Option Candidate) (d : Matches)
      → scan_matches cn sm sl best d ≡ pick best (of_matches cn sm sl d)
  unfolding scan_matches of_matches pick
  scan_matches-pick best [] = refl
  scan_matches-pick best ((match, names) ∷ d) =
      rw
        (
          pick-append best (of_contexts cn sm sl match names) (of_matches cn sm sl d),
          ← scan_contexts-pick match best names,
        )
        (scan_matches-pick (scan_contexts cn sm sl match best names) d)

-- No candidate that the fold has seen is above `b`.
abbrev Tops : Candidate → Option Candidate → Type 0
Tops b none = Unit
Tops b (some x) = lex_lt (rank b) (rank x) ≡ false

better-Tops :
    (best : Option Candidate) (c b : Candidate)
    → Tops b (better best c)
    → Tops b best × (lex_lt (rank b) (rank c) ≡ false)
unfolding better
better-Tops none c b h = (tt, h)
better-Tops (some x) c b h = elim (Bool-cases (lex_lt (rank x) (rank c))) [
  | inl above ↦
      let top : lex_lt (rank b) (rank c) ≡ false = rw above at h in
      (lex_le_trans (rank x) (rank c) (rank b) (lex_asym (rank x) (rank c) above) top, top)
  | inr kept ↦
      let top : lex_lt (rank b) (rank x) ≡ false = rw kept at h in
      (top, lex_le_trans (rank c) (rank x) (rank b) kept top)
]

pub pick-Tops :
    (best : Option Candidate) (cs : List Candidate) (b : Candidate)
    → pick best cs ≡ some b
    → Tops b best × ((c : Candidate) → Memᴰ c cs → lex_lt (rank b) (rank c) ≡ false)
unfolding pick
pick-Tops best [] b h = (rw h (lex_irrefl (rank b)), λ c m. absurd (Memᴰ.not-nil m))
pick-Tops best (d ∷ cs) b h =
    let (seen, later) = pick-Tops (better best d) cs b h in
    let (top, first) = better-Tops best d b seen in
    (top, λ c m. elim (Memᴰ.cases_cons m) [ inl e ↦ rw e first | inr n ↦ later c n ])

better_mem :
    (best : Option Candidate) (c : Candidate) → (better best c ≡ some c) ⊎ (better best c ≡ best)
unfolding better
better_mem none c = inl refl
better_mem (some x) c = elim (Bool-cases (lex_lt (rank x) (rank c))) [
  | inl above ↦ inl (rw above)
  | inr kept ↦ inr (rw kept)
]

pub pick_mem :
    (best : Option Candidate) (cs : List Candidate) (b : Candidate)
    → pick best cs ≡ some b
    → (best ≡ some b) ⊎ Memᴰ b cs
unfolding pick
pick_mem best [] b h = inl h
pick_mem best (d ∷ cs) b h = elim (pick_mem (better best d) cs b h) [
  | inr m ↦ inr (Memᴰ.tail m)
  | inl e ↦ elim (better_mem best d) [
    | inl new ↦ inr (Memᴰ.head (some-injective b d (sym e ∙ new)))
    | inr old ↦ inl (sym old ∙ e)
  ]
]

-- Once the fold holds a candidate it holds one to the end.
pick-some : (x : Candidate) (cs : List Candidate) → pick (some x) cs ≢ none
unfolding pick better
pick-some x [] h = cc
pick-some x (d ∷ cs) h = elim (Bool-cases (lex_lt (rank x) (rank d))) [
  | inl above ↦ pick-some d cs (rw above at h)
  | inr kept ↦ pick-some x cs (rw kept at h)
]

pub pick-none : (cs : List Candidate) (c : Candidate) → pick none cs ≡ none → ¬ Memᴰ c cs
unfolding pick better
pick-none [] c h m = Memᴰ.not-nil m
pick-none (d ∷ cs) c h m = pick-some d cs h
