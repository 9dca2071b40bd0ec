-- ===== src/ReadCache/LeastRead.antt =====
-- An eviction is fair: no entry that it drops was read more often than one that it keeps.
use mathlib.Core.Option.{some-injective}
use pysnmp.Base.{
  All, Bool-cases, [], arith, false, inl, inr, refl, some, suc, take, true, zero, ℕ, ◌∙◌, ◌∷◌, ◌≡◌,
  ◌≤◌,
}
use pysnmp.Base.Eq.{Eq}
use pysnmp.Base.Dict.{Dict, contains, lookup}
use pysnmp.Base.Lex.{lex_lt}
use pysnmp.Base.Sort.{IsSorted, sort, sort-IsSorted}
use pysnmp.ReadCache.{Cache, least_read, reads}
use pysnmp.ReadCache.Bound.{IsValid}
use pysnmp.ReadCache.Evict.{lookup-sort}

module _ {K : Type 0} ⦃e : Eq K⦄ where
  -- In a sorted dictionary the first entry is read no more often than any other.
  first_least :
      (n i : ℕ) (k : K) (d : Dict K ℕ)
      → All (λ p. lex_lt (reads p) (n ∷ []) ≡ false) d
      → lookup k d ≡ some i
      → n ≤ i
  unfolding lookup lex_lt
  first_least n i k [] h f = cc
  first_least n i k ((j, m) ∷ d) h f = elim (Bool-cases (e.beq j k)) [
    | inl same ↦
        let here : m ≡ i = some-injective m i (rw same at f) in let low = h.0 in ground arith
    | inr differ ↦ first_least n i k d h.1 (rw differ at f)
  ]

  cut_least :
      (n a b : ℕ) (j i : K) (d : Dict K ℕ)
      → IsSorted reads d
      → lookup j (take n d) ≡ some a
      → contains i (take n d) ≡ false
      → lookup i d ≡ some b
      → a ≤ b
  unfolding lookup
  cut_least zero a b j i d s f out g = cc
  cut_least (suc n) a b j i [] s f out g = cc
  cut_least (suc n) a b j i ((k, m) ∷ d) s f out g = elim (Bool-cases (e.beq k j)) [
    | inl same ↦
        let here : m ≡ a = some-injective m a (rw same at f) in
        let other : e.beq k i ≡ false = ground arith in
        rw (← here) (first_least m b i d s.0 (rw other at g))
    | inr differ ↦
        let other : e.beq k i ≡ false = ground arith in
        cut_least n a b j i d s.1 (rw differ at f) (rw other at out) (rw other at g)
  ]

  lookup-take :
      (n : ℕ) (j : K) (d : Dict K ℕ)
      → contains j (take n d) ≡ true
      → lookup j (take n d) ≡ lookup j d
  unfolding lookup
  lookup-take zero j d h = cc
  lookup-take (suc n) j [] h = refl
  lookup-take (suc n) j (x ∷ d) h = ground (arith, lookup-take n j d)

  module _ {V : Type 0} where
    -- Of a valid cache, an entry that is among the least read, which an eviction drops, was read at
    -- most as often as an entry that is not.
    pub least_read_lem :
        (s : Cache K V) (j i : K) (a b : ℕ)
        → IsValid s
        → contains j (least_read s) ≡ true
        → contains i (least_read s) ≡ false
        → lookup j s.usage ≡ some a
        → lookup i s.usage ≡ some b
        → a ≤ b
    least_read_lem s j i a b h dropped kept fj fi =
        let sorted = sort reads s.usage in
        cut_least s.chop_size a b j i sorted (sort-IsSorted reads s.usage)
          (lookup-take s.chop_size j sorted dropped ∙ (lookup-sort j s.usage h.unique_usage ∙ fj))
          kept (lookup-sort i s.usage h.unique_usage ∙ fi)
