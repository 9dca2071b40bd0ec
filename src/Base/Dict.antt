-- ===== src/Base/Dict.antt =====
-- A Python dict as an association list in insertion order: assignment replaces in place.
use mathlib.Core.Path.{◌≡◌, refl}
use mathlib.Core.Bool.{Bool, false, ◌||◌}
use mathlib.Core.Logic.{inl, inr}
use mathlib.Core.Option.{Option, none, some}
use mathlib.Core.List.{List, [], ◌∷◌}
use native.Mathlib.Omega.{arith}
use pysnmp.Base.Tests.{Bool-cases, if◌then◌else◌, is_some}
use pysnmp.Base.Eq.{Eq}

abbrev pub Dict {ℓ} : Type ℓ → Type ℓ → Type ℓ
Dict K V = List (K × V)

module _ {ℓ} {K V : Type ℓ} ⦃e : Eq K⦄ where
  -- `d.get(k)`
  unfoldable pub lookup : K → Dict K V → Option V
  lookup k [] = none
  lookup k ((j, v) ∷ d) = if e.beq j k then some v else lookup k d

  -- `k in d`
  abbrev pub contains : K → Dict K V → Bool
  contains k d = is_some (lookup k d)

  -- `d[k] = v`
  unfoldable pub insert : K → V → Dict K V → Dict K V
  insert k v [] = (k, v) ∷ []
  insert k v ((j, w) ∷ d) = if e.beq j k then (j, v) ∷ d else (j, w) ∷ insert k v d

  -- `del d[k]`, or `d.pop(k, None)`
  unfoldable pub remove : K → Dict K V → Dict K V
  remove k [] = []
  remove k ((j, w) ∷ d) = let rest = remove k d in if e.beq j k then rest else (j, w) ∷ rest

  pub lookup-insert :
      (k j : K) (v : V) (d : Dict K V)
      → lookup j (insert k v d) ≡ (if e.beq k j then some v else lookup j d)
  unfolding lookup insert
  lookup-insert k j v [] = refl
  lookup-insert k j v ((i, w) ∷ d) =
      ground (arith, e.beq_iff k j, e.beq_iff i k, e.beq_iff i j, lookup-insert k j v d)

  pub lookup-remove :
      (k j : K) (d : Dict K V) → lookup j (remove k d) ≡ (if e.beq k j then none else lookup j d)
  unfolding lookup remove
  lookup-remove k j [] = ground arith
  lookup-remove k j ((i, w) ∷ d) =
      ground (arith, e.beq_iff k j, e.beq_iff i k, e.beq_iff i j, lookup-remove k j d)

  pub lookup-empty : (k : K) → lookup k [] ≡ none
  unfolding lookup
  lookup-empty k = refl

module _ {ℓ} {K V : Type ℓ} ⦃e : Eq K⦄ where
  pub contains-insert :
      (k j : K) (v : V) (d : Dict K V) → contains j (insert k v d) ≡ (e.beq k j || contains j d)
  contains-insert k j v d = elim (Bool-cases (e.beq k j)) [
    | inl same ↦ rw (lookup-insert k j v d, same) refl
    | inr differ ↦ rw (lookup-insert k j v d, differ) refl
  ]

  pub contains-remove :
      (k j : K) (d : Dict K V)
      → contains j (remove k d) ≡ (if e.beq k j then false else contains j d)
  contains-remove k j d = elim (Bool-cases (e.beq k j)) [
    | inl same ↦ rw (lookup-remove k j d, same) refl
    | inr differ ↦ rw (lookup-remove k j d, differ) refl
  ]

  -- A dict has each key once.
  abbrev pub HasUniqueKeys : Dict K V → Type 0
  HasUniqueKeys [] = Unit
  HasUniqueKeys ((k, v) ∷ d) = (contains k d ≡ false) × HasUniqueKeys d

  pub insert-HasUniqueKeys :
      (k : K) (v : V) (d : Dict K V) → HasUniqueKeys d → HasUniqueKeys (insert k v d)
  unfolding insert lookup
  insert-HasUniqueKeys k v [] u = (refl, tt)
  insert-HasUniqueKeys k v ((j, w) ∷ d) u = elim (Bool-cases (e.beq j k)) [
    | inl same ↦ rw same u
    | inr differ ↦ rw differ (
      ground (arith, contains-insert k j v d, e.beq_iff k j, e.beq_iff j k, u.0),
      insert-HasUniqueKeys k v d u.1,
    )
  ]

  pub remove-HasUniqueKeys : (k : K) (d : Dict K V) → HasUniqueKeys d → HasUniqueKeys (remove k d)
  unfolding remove lookup
  remove-HasUniqueKeys k [] u = tt
  remove-HasUniqueKeys k ((j, w) ∷ d) u = elim (Bool-cases (e.beq j k)) [
    | inl same ↦ rw same (remove-HasUniqueKeys k d u.1)
    | inr differ ↦
        rw differ (ground (arith, contains-remove k j d, u.0), remove-HasUniqueKeys k d u.1)
  ]

pub ruleset dict_laws = (lookup-insert, lookup-remove, lookup-empty)
