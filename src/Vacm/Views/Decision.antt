-- ===== src/Vacm/Views/Decision.antt =====
-- The family with the greatest subtree that holds the name decides.
use mathlib.Core.List.{Memᴰ}
use mathlib.Core.List.Memᴰ
use mathlib.Core.Option.{some-injective}
use pysnmp.Base.{
  All-mem, Bool, Bool-cases, List, Option-cases, [], false, if◌then◌else◌, inl, inr, none, refl,
  some, sym, true, ◌∙◌, ◌∷◌, ◌≡◌,
}
use pysnmp.Base.Lex.{lex_irrefl, lex_lt}
use pysnmp.Base.Sort.{IsSorted}
use pysnmp.Vacm.Views.{Family, Oid, check_families, family_key, zero_all}

module _ (is_prefix_of : Oid → Oid → Bool) (name : Oid) where
  -- The name, its ignored sub-identifiers set to 0, starts with the subtree of the family.
  abbrev pub Holds : Family → Type 0
  Holds f =
      (normalized : Oid) × (zero_all f.ignored name ≡ some normalized)
      × (is_prefix_of f.subtree normalized ≡ true)

  -- The families of a list decide: one that holds the name, and above which no family that holds
  -- the name stands; or the default, where none holds it.
  pub data Decides (default : Bool) (fs : List Family) (verdict : Bool) : Type 0 where
    by_default :
        ((f : Family) → Memᴰ f fs → ¬ Holds f) → verdict ≡ default → Decides default fs verdict
    by_family :
        (f : Family)
        → Memᴰ f fs
        → Holds f
        → ((g : Family) → Memᴰ g fs → Holds g → lex_lt (family_key f) (family_key g) ≡ false)
        → verdict ≡ f.included
        → Decides default fs verdict

  pub check_nil : (allowed : Bool) → check_families is_prefix_of name allowed [] ≡ some allowed
  unfolding check_families
  check_nil allowed = refl

  pub check_step :
      (allowed : Bool) (f : Family) (fs : List Family) (n : Oid)
      → zero_all f.ignored name ≡ some n
      → check_families is_prefix_of name allowed (f ∷ fs)
        ≡ check_families is_prefix_of name
            (if is_prefix_of f.subtree n then f.included else allowed)
            fs
  unfolding check_families
  check_step allowed f fs n e = rw (e, check_families)

  pub check_fail :
      (allowed : Bool) (f : Family) (fs : List Family)
      → zero_all f.ignored name ≡ none
      → check_families is_prefix_of name allowed (f ∷ fs) ≡ none
  unfolding check_families
  check_fail allowed f fs e = rw (e, check_families)

  -- A family that holds the name, before the families that decided so far.
  held :
      (allowed verdict : Bool) (f : Family) (fs : List Family)
      → Holds f
      → IsSorted family_key (f ∷ fs)
      → Decides f.included fs verdict
      → Decides allowed (f ∷ fs) verdict
  held allowed verdict f fs h s (by_default others e) =
      by_family f (Memᴰ.head refl) h
        (λ g m k. elim (Memᴰ.cases_cons m) [
          | inl same ↦ rw same (lex_irrefl (family_key f))
          | inr n ↦ absurd (others g n k)
        ])
        e
  held allowed verdict f fs h s (by_family g m k top e) =
      by_family g (Memᴰ.tail m) k
        (λ g' m' k'. elim (Memᴰ.cases_cons m') [
          | inl same ↦
              rw same (All-mem (λ y. lex_lt (family_key y) (family_key f) ≡ false) g fs s.0 m)
          | inr n ↦ top g' n k'
        ])
        e

  -- A family that does not hold the name changes nothing.
  passed :
      (allowed verdict : Bool) (f : Family) (fs : List Family)
      → ¬ Holds f
      → Decides allowed fs verdict
      → Decides allowed (f ∷ fs) verdict
  passed allowed verdict f fs h (by_default others e) =
      by_default
        (λ g m k. elim (Memᴰ.cases_cons m) [ inl same ↦ h (rw same at k) | inr n ↦ others g n k ]) e
  passed allowed verdict f fs h (by_family g m k top e) =
      by_family g (Memᴰ.tail m) k
        (λ g' m' k'. elim (Memᴰ.cases_cons m') [
          | inl same ↦ absurd (h (rw same at k'))
          | inr n ↦ top g' n k'
        ])
        e

  not-Holds :
      (f : Family) (n : Oid)
      → zero_all f.ignored name ≡ some n
      → is_prefix_of f.subtree n ≡ false
      → ¬ Holds f
  not-Holds f n e miss (n', e', hit) = cc

  pub check-Decides :
      (allowed verdict : Bool) (fs : List Family)
      → IsSorted family_key fs
      → check_families is_prefix_of name allowed fs ≡ some verdict
      → Decides allowed fs verdict
  unfolding check_families
  check-Decides allowed verdict [] s h =
      by_default (λ f m. absurd (Memᴰ.not-nil m)) (some-injective verdict allowed (sym h))
  check-Decides allowed verdict (f ∷ fs) s h = elim (Option-cases (zero_all f.ignored name)) [
    | inl e ↦ absurd (let bad : none ≡ some verdict = sym (check_fail allowed f fs e) ∙ h in cc)
    | inr (n, e) ↦
        let next = sym (check_step allowed f fs n e) ∙ h in
        elim (Bool-cases (is_prefix_of f.subtree n)) [
          | inl hit ↦
              held allowed verdict f fs (n, e, hit) s
                (check-Decides f.included verdict fs s.1 (rw hit at next))
          | inr miss ↦
              passed allowed verdict f fs (not-Holds f n e miss)
                (check-Decides allowed verdict fs s.1 (rw miss at next))
        ]
  ]
