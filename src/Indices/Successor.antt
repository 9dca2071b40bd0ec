-- ===== src/Indices/Successor.antt =====
-- `nextKey` finds the least key above the one it is asked about, whether or not that one is present.
use mathlib.Core.Option.{some-injective}
use pysnmp.Base.{
  All, Bool-cases, List, Option, Option-cases, [], arith, false, inl, inr, none, some, sym, true, ℕ,
  ◌∙◌, ◌∷◌, ◌≡◌,
}
use pysnmp.Base.Eq.{list_beq_iff, list_eq, nat_eq}
use pysnmp.Base.Dict.{Dict, contains}
use pysnmp.Base.Lex.{lex_irrefl, lex_lt}
use pysnmp.Base.Sort.{IsSorted}
use pysnmp.Base.Listed.{All-listed, listed}
use pysnmp.Indices.{Key, OrderedDict, above, next_key, ordered}
use pysnmp.Indices.Valid.{IsValid, ordered-IsValid, ordered_clean, ordered_mapping}

-- What the successor of `x` among the keys of a mapping is, by what they sort by.
pub data Successor {V : Type 0} (sk : Key → List ℕ) (x : List ℕ) (m : Dict Key V)
    : Option Key → Type 0 where
  past_the_last :
      ((j : Key) → contains j m ≡ true → lex_lt x (sk j) ≡ false) → Successor sk x m none
  least_above :
      (n : Key)
      → contains n m ≡ true
      → lex_lt x (sk n) ≡ true
      → ((j : Key) → contains j m ≡ true → lex_lt x (sk j) ≡ true → lex_lt (sk j) (sk n) ≡ false)
      → Successor sk x m (some n)

module _ (sk : Key → List ℕ) (x : List ℕ) where
  above-none : (ks : List Key) → above sk x ks ≡ none → All (λ j. lex_lt x (sk j) ≡ false) ks
  unfolding above
  above-none [] e = tt
  above-none (k ∷ ks) e = elim (Bool-cases (lex_lt x (sk k))) [
    | inl over ↦ absurd (let bad : some k ≡ none = rw over at e in cc)
    | inr below ↦ (below, above-none ks (rw below at e))
  ]

  above-listed : (ks : List Key) (n : Key) → above sk x ks ≡ some n → listed n ks ≡ true
  unfolding above
  above-listed [] n e = cc
  above-listed (k ∷ ks) n e = ground (arith, list_beq_iff k n, above-listed ks n)

  pub above-over : (ks : List Key) (n : Key) → above sk x ks ≡ some n → lex_lt x (sk n) ≡ true
  unfolding above
  above-over [] n e = cc
  above-over (k ∷ ks) n e = elim (Bool-cases (lex_lt x (sk k))) [
    | inl over ↦ rw (← some-injective k n (rw over at e)) over
    | inr below ↦ above-over ks n (rw below at e)
  ]

  above-least :
      (ks : List Key) (n : Key)
      → IsSorted sk ks
      → above sk x ks ≡ some n
      → All (λ j. lex_lt x (sk j) ≡ true → lex_lt (sk j) (sk n) ≡ false) ks
  unfolding above
  above-least [] n s e = tt
  above-least (k ∷ ks) n s e = elim (Bool-cases (lex_lt x (sk k))) [
    | inl over ↦
        let same = some-injective k n (rw over at e) in
        (λ h. rw (← same) (lex_irrefl (sk k)), All-map same ks s.0)
    | inr below ↦ (
      λ h. absurd (let bad : false ≡ true = sym below ∙ h in cc),
      above-least ks n s.1 (rw below at e),
    )
  ]
    where
      All-map :
          k ≡ n
          → (js : List Key) → All (λ j. lex_lt (sk j) (sk k) ≡ false) js
          → All (λ j. lex_lt x (sk j) ≡ true → lex_lt (sk j) (sk n) ≡ false) js
      All-map p [] h = tt
      All-map p (j ∷ js) h = (λ t. rw (← p) h.0, All-map p js h.1)

module _ {V : Type 0} (sk : Key → List ℕ) where
  pub above-Successor :
      (x : List ℕ) (d : OrderedDict V)
      → IsValid sk d
      → d.dirty ≡ false
      → Successor sk x d.mapping (above sk x d.keys_list)
  above-Successor x d h c = elim (Option-cases (above sk x d.keys_list)) [
    | inl e ↦ rw e (
        past_the_last λ j m.
          All-listed (λ j. lex_lt x (sk j) ≡ false) j d.keys_list (above-none sk x d.keys_list e)
            (h.listed_keys j ∙ m))
    | inr (n, e) ↦ rw e (
        least_above n (sym (h.listed_keys n) ∙ above-listed sk x d.keys_list n e)
          (above-over sk x d.keys_list n e)
          (λ j m.
            All-listed (λ j. lex_lt x (sk j) ≡ true → lex_lt (sk j) (sk n) ≡ false) j d.keys_list
              (above-least sk x d.keys_list n (h.sorted_keys c) e) (h.listed_keys j ∙ m)))
  ]

  -- `nextKey` of a valid dictionary returns the least of its keys that sorts above the key asked
  -- about, and raises `KeyError` exactly where there is none.
  pub next_key-Successor :
      (k : Key) (d : OrderedDict V)
      → IsValid sk d
      → Successor sk (sk k) d.mapping (next_key sk k d).0
  unfolding next_key
  next_key-Successor k d h =
      rw (ordered_mapping sk d) at
        (above-Successor (sk k) (ordered sk d) (ordered-IsValid sk d h) (ordered_clean sk d))
