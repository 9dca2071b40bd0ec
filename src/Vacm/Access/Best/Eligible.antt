-- ===== src/Vacm/Access/Best/Eligible.antt =====
-- The candidates that RFC 3415 section 3.2 lets `_getFamilyViewName` choose from, described by the
-- access map alone.
use mathlib.Core.List.{Memᴰ}
use mathlib.Core.List.Memᴰ
use pysnmp.Base.{
  Bool-cases, [], ap, ap₂, arith, false, inl, inr, length, ltb, refl, take, true, ℕ, ◌==◌, ◌||◌,
  ◌↔◌, ◌∙◌, ◌∷◌, ◌≡◌, ◌≤◌, ◌⊎◌,
}
use pysnmp.Base.Eq.{list_beq_iff, list_eq, nat_eq}
use pysnmp.Vacm.Access.{Candidate, Contexts, Levels, Matches, Models, Name, skipped, view_type_eq}
use pysnmp.Vacm.Access.Best.{candidate_at, of_contexts, of_levels, of_matches, of_models}

-- The context prefix of a row fits the context of the request, by the row's kind of match.
abbrev pub ContextFits : Name → ℕ → Name → Type 0
ContextFits cn match context =
    (match ≡ 1 → cn ≡ context) × (match ≡ 2 → take (length context) cn ≡ context)

module _ (cn : Name) (sm sl : ℕ) where
  abbrev InLevels : Name → ℕ → Levels → Candidate → Type 0
  InLevels context model d c =
      Memᴰ (c.level, c.view_name) d
      × (c.level ≤ sl)
      × (c ≡ candidate_at cn sm sl context model c.level c.view_name)

  abbrev InModels : Name → Models → Candidate → Type 0
  InModels context d c =
      (model : ℕ) × (levels : Levels) × Memᴰ (model, levels) d
      × ((model ≡ sm) ⊎ (model ≡ 0))
      × InLevels context model levels c

  abbrev InContexts : ℕ → Contexts → Candidate → Type 0
  InContexts match d c =
      (context : Name) × (models : Models) × Memᴰ (context, models) d
      × ContextFits cn match context
      × InModels context models c

  -- A row of the access map under the view type, whose prefix fits the context, whose model is the
  -- request's or `any` (0), and whose level is at most the request's.
  abbrev pub Eligible : Matches → Candidate → Type 0
  Eligible d c = (match : ℕ) × (names : Contexts) × Memᴰ (match, names) d × InContexts match names c

  skipped-fits :
      (match : ℕ) (context : Name) → skipped cn match context ≡ false → ContextFits cn match context
  skipped-fits match context h =
      ground (arith, list_beq_iff cn context, list_beq_iff (take (length context) cn) context)

  fits-skipped :
      (match : ℕ) (context : Name) → ContextFits cn match context → skipped cn match context ≡ false
  fits-skipped match context (exact, prefix) = ground (
    arith,
    exact,
    prefix,
    list_beq_iff cn context,
    list_beq_iff (take (length context) cn) context,
  )

  levels_sound :
      (context : Name) (model : ℕ) (d : Levels) (c : Candidate)
      → Memᴰ c (of_levels cn sm sl context model d)
      → InLevels context model d c
  unfolding of_levels candidate_at
  levels_sound context model [] c m = absurd (Memᴰ.not-nil m)
  levels_sound context model ((level, v) ∷ d) c m = elim (Bool-cases (ltb sl level)) [
    | inl above ↦
        let (at, low, form) = levels_sound context model d c (rw above at m) in
        (Memᴰ.tail at, low, form)
    | inr low ↦ elim (Memᴰ.cases_cons (rw low at m)) [
      | inl e ↦ rw e (Memᴰ.head refl, ground arith, refl)
      | inr n ↦
          let (at, under, form) = levels_sound context model d c n in (Memᴰ.tail at, under, form)
    ]
  ]

  levels_complete :
      (context : Name) (model : ℕ) (d : Levels) (c : Candidate)
      → InLevels context model d c
      → Memᴰ c (of_levels cn sm sl context model d)
  unfolding of_levels
  levels_complete context model [] c (at, low, form) = absurd (Memᴰ.not-nil at)
  levels_complete context model ((level, v) ∷ d) c (at, low, form) = elim (Memᴰ.cases_cons at) [
    | inl e ↦
        let level_eq : c.level ≡ level = ap (λ (p : ℕ × Name). p.0) e in
        let view_eq : c.view_name ≡ v = ap (λ (p : ℕ × Name). p.1) e in
        let permitted : ltb sl level ≡ false = ground arith in
        rw permitted (Memᴰ.head (form ∙ ap₂ (candidate_at cn sm sl context model) level_eq view_eq))
    | inr n ↦ elim (Bool-cases (ltb sl level)) [
      | inl above ↦ rw above (levels_complete context model d c (n, low, form))
      | inr permitted ↦ rw permitted (Memᴰ.tail (levels_complete context model d c (n, low, form)))
    ]
  ]

  model_test : (model : ℕ) → ((model == sm || model == 0) ≡ true) ↔ ((model ≡ sm) ⊎ (model ≡ 0))
  model_test model = ground arith

  InModels-cons :
      (context : Name) (model : ℕ) (levels : Levels) (d : Models) (c : Candidate)
      → InModels context d c
      → InModels context ((model, levels) ∷ d) c
  InModels-cons context model levels d c (k, ls, at, fits, rest) = (k, ls, Memᴰ.tail at, fits, rest)

  InContexts-cons :
      (match : ℕ) (context : Name) (models : Models) (d : Contexts) (c : Candidate)
      → InContexts match d c
      → InContexts match ((context, models) ∷ d) c
  InContexts-cons match context models d c (k, ms, at, fits, rest) =
      (k, ms, Memᴰ.tail at, fits, rest)

  models_sound :
      (context : Name) (d : Models) (c : Candidate)
      → Memᴰ c (of_models cn sm sl context d)
      → InModels context d c
  unfolding of_models
  models_sound context [] c m = absurd (Memᴰ.not-nil m)
  models_sound context ((model, levels) ∷ d) c m = elim (Bool-cases (model == sm || model == 0)) [
    | inl fits ↦ elim (Memᴰ.append_cases (of_levels cn sm sl context model levels) (rw fits at m)) [
      | inl n ↦ (
        model,
        levels,
        Memᴰ.head refl,
        (model_test model).0 fits,
        levels_sound context model levels c n,
      )
      | inr n ↦ InModels-cons context model levels d c (models_sound context d c n)
    ]
    | inr foreign ↦
        InModels-cons context model levels d c (models_sound context d c (rw foreign at m))
  ]

  models_complete :
      (context : Name) (d : Models) (c : Candidate)
      → InModels context d c
      → Memᴰ c (of_models cn sm sl context d)
  unfolding of_models
  models_complete context [] c (model, levels, at, fits, rest) = absurd (Memᴰ.not-nil at)
  models_complete context ((model, levels) ∷ d) c (k, ls, at, fits, rest) =
      elim (Memᴰ.cases_cons at) [
        | inr n ↦ Memᴰ.append_right _ (models_complete context d c (k, ls, n, fits, rest))
        | inl e ↦
            let model_eq : k ≡ model = ap (λ (p : ℕ × Levels). p.0) e in
            let levels_eq : ls ≡ levels = ap (λ (p : ℕ × Levels). p.1) e in
            let test : (model == sm || model == 0) ≡ true =
              (model_test model).1 (rw model_eq at fits) in
            rw test (
              Memᴰ.append_left (of_models cn sm sl context d)
                (levels_complete context model levels c (rw (model_eq, levels_eq) at rest)))
      ]

  contexts_sound :
      (match : ℕ) (d : Contexts) (c : Candidate)
      → Memᴰ c (of_contexts cn sm sl match d)
      → InContexts match d c
  unfolding of_contexts
  contexts_sound match [] c m = absurd (Memᴰ.not-nil m)
  contexts_sound match ((context, models) ∷ d) c m = elim (Bool-cases (skipped cn match context)) [
    | inl skips ↦
        InContexts-cons match context models d c (contexts_sound match d c (rw skips at m))
    | inr fits ↦ elim (Memᴰ.append_cases (of_models cn sm sl context models) (rw fits at m)) [
      | inl n ↦ (
        context,
        models,
        Memᴰ.head refl,
        skipped-fits match context fits,
        models_sound context models c n,
      )
      | inr n ↦ InContexts-cons match context models d c (contexts_sound match d c n)
    ]
  ]

  contexts_complete :
      (match : ℕ) (d : Contexts) (c : Candidate)
      → InContexts match d c
      → Memᴰ c (of_contexts cn sm sl match d)
  unfolding of_contexts
  contexts_complete match [] c (context, models, at, fits, rest) = absurd (Memᴰ.not-nil at)
  contexts_complete match ((context, models) ∷ d) c (k, ms, at, fits, rest) =
      elim (Memᴰ.cases_cons at) [
        | inr n ↦ Memᴰ.append_right _ (contexts_complete match d c (k, ms, n, fits, rest))
        | inl e ↦
            let context_eq : k ≡ context = ap (λ (p : Name × Models). p.0) e in
            let models_eq : ms ≡ models = ap (λ (p : Name × Models). p.1) e in
            let test : skipped cn match context ≡ false =
              fits-skipped match context (rw context_eq at fits) in
            rw test (
              Memᴰ.append_left (of_contexts cn sm sl match d)
                (models_complete context models c (rw (context_eq, models_eq) at rest)))
      ]

  pub matches_sound : (d : Matches) (c : Candidate) → Memᴰ c (of_matches cn sm sl d) → Eligible d c
  unfolding of_matches
  matches_sound [] c m = absurd (Memᴰ.not-nil m)
  matches_sound ((match, names) ∷ d) c m =
      elim (Memᴰ.append_cases (of_contexts cn sm sl match names) m) [
        | inl n ↦ (match, names, Memᴰ.head refl, contexts_sound match names c n)
        | inr n ↦ let (k, ns, at, rest) = matches_sound d c n in (k, ns, Memᴰ.tail at, rest)
      ]

  pub matches_complete :
      (d : Matches) (c : Candidate) → Eligible d c → Memᴰ c (of_matches cn sm sl d)
  unfolding of_matches
  matches_complete [] c (match, names, at, rest) = absurd (Memᴰ.not-nil at)
  matches_complete ((match, names) ∷ d) c (k, ns, at, rest) = elim (Memᴰ.cases_cons at) [
    | inr n ↦
        Memᴰ.append_right (of_contexts cn sm sl match names) (matches_complete d c (k, ns, n, rest))
    | inl e ↦
        let match_eq : k ≡ match = ap (λ (p : ℕ × Contexts). p.0) e in
        let names_eq : ns ≡ names = ap (λ (p : ℕ × Contexts). p.1) e in
        Memᴰ.append_left _ (contexts_complete match names c (rw (match_eq, names_eq) at rest))
  ]
