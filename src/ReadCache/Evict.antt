-- ===== src/ReadCache/Evict.antt =====
-- Which entries an eviction drops: as many as the chop size, and none that was read more often than
-- one that stays.
use pysnmp.Base.{
  Bool-cases, [], ap, arith, false, if◌then◌else◌, inl, inr, is_some, length, refl, some, suc, sym,
  take, true, zero, ℕ, ◌∙◌, ◌∷◌, ◌≡◌,
}
use pysnmp.Base.Eq.{Eq}
use pysnmp.Base.Dict.{Dict, HasUniqueKeys, contains, insert, lookup, remove}
use pysnmp.Base.Sort.{insert_sorted, sort}
use pysnmp.ReadCache.{reads}
use pysnmp.Base.Lex.{lex_lt}

module _ {K : Type 0} ⦃e : Eq K⦄ where
  module _ {V : Type 0} where
    pub length-insert :
        (k : K) (v : V) (d : Dict K V)
        → length (insert k v d) ≡ (if contains k d then length d else suc (length d))
    unfolding insert lookup
    length-insert k v [] = refl
    length-insert k v ((j, w) ∷ d) = elim (Bool-cases (e.beq j k)) [
      | inl same ↦ rw same refl
      | inr differ ↦ rw differ (ground (arith, length-insert k v d))
    ]

    pub remove-absent : (k : K) (d : Dict K V) → contains k d ≡ false → remove k d ≡ d
    unfolding remove lookup
    remove-absent k [] h = refl
    remove-absent k ((j, w) ∷ d) h = elim (Bool-cases (e.beq j k)) [
      | inl same ↦ absurd (let bad : true ≡ false = rw same at h in cc)
      | inr differ ↦ rw differ (ap (◌∷◌ (j, w)) (remove-absent k d (rw differ at h)))
    ]

    pub length-remove :
        (k : K) (d : Dict K V)
        → HasUniqueKeys d
        → contains k d ≡ true
        → suc (length (remove k d)) ≡ length d
    unfolding remove lookup
    length-remove k [] u h = cc
    length-remove k ((j, w) ∷ d) u h = elim (Bool-cases (e.beq j k)) [
      | inl same ↦ rw same (
          ap (λ (t : Dict K V). suc (length t))
            (remove-absent k d (ap (λ i. contains i d) (sym ((e.beq_iff j k).0 same)) ∙ u.0)))
      | inr differ ↦ rw differ (ap suc (length-remove k d u.1 (rw differ at h)))
    ]

  length-insert_sorted :
      (x : K × ℕ) (d : Dict K ℕ) → length (insert_sorted reads x d) ≡ suc (length d)
  unfolding insert_sorted
  length-insert_sorted x [] = refl
  length-insert_sorted x (y ∷ d) = ground (arith, length-insert_sorted x d)

  pub length-sort : (d : Dict K ℕ) → length (sort reads d) ≡ length d
  unfolding sort
  length-sort [] = refl
  length-sort (x ∷ d) = length-insert_sorted x (sort reads d) ∙ ap suc (length-sort d)

  lookup-insert_sorted :
      (j : K) (x : K × ℕ) (d : Dict K ℕ)
      → contains x.0 d ≡ false
      → lookup j (insert_sorted reads x d) ≡ (if e.beq x.0 j then some x.1 else lookup j d)
  unfolding insert_sorted lookup
  lookup-insert_sorted j x [] h = refl
  lookup-insert_sorted j x (y ∷ d) h =
      ground
        (arith, lookup-insert_sorted j x d, e.beq_iff y.0 x.0, e.beq_iff y.0 j, e.beq_iff x.0 j)

  pub lookup-sort : (j : K) (d : Dict K ℕ) → HasUniqueKeys d → lookup j (sort reads d) ≡ lookup j d
  unfolding sort lookup
  lookup-sort j [] u = refl
  lookup-sort j (x ∷ d) u =
      lookup-insert_sorted j x (sort reads d) (ap is_some (lookup-sort x.0 d u.1) ∙ u.0)
      ∙ ap (λ o. if e.beq x.0 j then some x.1 else o) (lookup-sort j d u.1)

  insert_sorted-HasUniqueKeys :
      (x : K × ℕ) (d : Dict K ℕ)
      → contains x.0 d ≡ false
      → HasUniqueKeys d
      → HasUniqueKeys (insert_sorted reads x d)
  unfolding insert_sorted lookup
  insert_sorted-HasUniqueKeys x [] h u = (refl, tt)
  insert_sorted-HasUniqueKeys x (y ∷ d) h u = elim (Bool-cases (lex_lt (reads y) (reads x))) [
    | inl below ↦ rw below (
      ground (arith, lookup-insert_sorted y.0 x d, u.0, e.beq_iff x.0 y.0, e.beq_iff y.0 x.0),
      insert_sorted-HasUniqueKeys x d (ground arith) u.1,
    )
    | inr above ↦ rw above (h, u)
  ]

  pub sort-HasUniqueKeys : (d : Dict K ℕ) → HasUniqueKeys d → HasUniqueKeys (sort reads d)
  unfolding sort
  sort-HasUniqueKeys [] u = tt
  sort-HasUniqueKeys (x ∷ d) u =
      insert_sorted-HasUniqueKeys x (sort reads d) (ap is_some (lookup-sort x.0 d u.1) ∙ u.0)
        (sort-HasUniqueKeys d u.1)

  pub contains-take :
      (n : ℕ) (j : K) (d : Dict K ℕ) → contains j (take n d) ≡ true → contains j d ≡ true
  unfolding lookup
  contains-take zero j d h = cc
  contains-take (suc n) j [] h = cc
  contains-take (suc n) j (x ∷ d) h = ground (arith, contains-take n j d)

  pub take-HasUniqueKeys : (n : ℕ) (d : Dict K ℕ) → HasUniqueKeys d → HasUniqueKeys (take n d)
  take-HasUniqueKeys zero d u = tt
  take-HasUniqueKeys (suc n) [] u = tt
  take-HasUniqueKeys (suc n) (x ∷ d) u =
      (ground (arith, contains-take n x.0 d, u.0), take-HasUniqueKeys n d u.1)
