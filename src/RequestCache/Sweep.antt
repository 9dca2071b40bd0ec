-- ===== src/RequestCache/Sweep.antt =====
-- What `expire` leaves, and that a handle is good once.
use pysnmp.Base.{
  ==_iff, Bool, Bool-cases, Option, [], ap, false, if◌then◌else◌, inl, inr, is_some, none, refl,
  some, sym, ℕ, ◌&&◌, ◌==◌, ◌∙◌, ◌∷◌, ◌≡◌,
}
use pysnmp.Base.Eq.{Eq, nat_eq}
use pysnmp.Base.Dict.{
  Dict, HasUniqueKeys, contains, insert, lookup, lookup-insert, lookup-remove, remove,
}
use pysnmp.RequestCache.{add, expire, expire_each, pop, pop_found}

-- Whether an entry is there and past due, and what is left of it.
abbrev pub is_due : {P : Type 0} → (P → Bool) → Option P → Bool
is_due due none = false
is_due due (some p) = due p

abbrev pub spared : {P : Type 0} → (P → Bool) → Option P → Option P
spared due none = none
spared due (some p) = if due p then none else some p

module _ {N W : Type 0} ⦃en : Eq N⦄ where
  swept_here :
      (due : ℕ → Dict N W → Bool) (i j : ℕ) (p : Dict N W) (repository : Dict ℕ (Dict N W))
      → lookup j (if due i p then remove i repository else repository)
        ≡ (if i == j && due j p then none else lookup j repository)
  swept_here due i j p repository = elim (Bool-cases (i == j)) [
    | inl same ↦
        rw (same, (==_iff i j).0 same)
          (elim (Bool-cases (due j p)) [
            | inl e ↦ rw e (lookup-remove j j repository ∙ rw ((==_iff j j).1 refl) refl)
            | inr e ↦ rw e refl
          ])
    | inr differ ↦ rw differ (elim (Bool-cases (due i p)) [
      | inl e ↦ rw e (lookup-remove i j repository ∙ rw differ refl)
      | inr e ↦ rw e refl
    ])
  ]

  expire_each_lem :
      (due : ℕ → Dict N W → Bool) (entries repository : Dict ℕ (Dict N W)) (j : ℕ)
      → HasUniqueKeys entries
      → lookup j (expire_each due entries repository)
        ≡ (if is_due (due j) (lookup j entries) then none else lookup j repository)
  unfolding expire_each lookup
  expire_each_lem due [] repository j u = refl
  expire_each_lem due ((i, p) ∷ rest) repository j u =
      expire_each_lem due rest (if due i p then remove i repository else repository) j u.1
      ∙ (ap (λ o. if is_due (due j) (lookup j rest) then none else o)
            (swept_here due i j p repository)
          ∙ elim (Bool-cases (i == j)) [
            | inr differ ↦ rw differ refl
            | inl same ↦
                let gone : lookup j rest ≡ none =
                  absent (lookup j rest)
                    (ap (λ k. contains k rest) (sym ((==_iff i j).0 same)) ∙ u.0) in
                rw (same, gone) refl
          ])
    where
      absent : (o : Option (Dict N W)) → is_some o ≡ false → o ≡ none
      absent none h = refl
      absent (some q) h = cc

  -- Sweeping a repository removes exactly the requests that the callback says are past due.
  pub expire_lem :
      (due : ℕ → Dict N W → Bool) (repository : Dict ℕ (Dict N W)) (j : ℕ)
      → HasUniqueKeys repository
      → lookup j (expire (some due) repository) ≡ spared (due j) (lookup j repository)
  unfolding expire
  expire_lem due repository j u =
      expire_each_lem due repository repository j u ∙ collapse (lookup j repository)
    where
      collapse : (o : Option (Dict N W)) → (if is_due (due j) o then none else o) ≡ spared (due j) o
      collapse none = refl
      collapse (some p) = refl

  -- A request that was added is taken back as it was, once: the second response to it gets `None`.
  pub add-pop :
      (index : ℕ) (params : Dict N W) (repository : Dict ℕ (Dict N W))
      → let taken = pop index (add index params repository).1 in
        (taken.0 ≡ some params) × ((pop index taken.1).0 ≡ none)
  unfolding add pop
  add-pop index params repository =
      let held : lookup index (insert index params repository) ≡ some params =
        lookup-insert index index params repository ∙ rw ((==_iff index index).1 refl) refl in
      let removed : lookup index (remove index (insert index params repository)) ≡ none =
        lookup-remove index index (insert index params repository)
        ∙ rw ((==_iff index index).1 refl) refl in
      let first = ap (pop_found index (insert index params repository)) held in
      (
        ap (λ t. t.0) first,
        ap (λ t. (pop index t.1).0) first
            ∙ ap (λ o. (pop_found index (remove index (insert index params repository)) o).0)
                removed,
      )
