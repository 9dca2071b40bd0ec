-- ===== src/Base/Listed.antt =====
-- Membership as a test, lists without repetition, and how sorting keeps both.
use Prim.Native.Nat.{ℕ}
use mathlib.Core.Path.{◌≡◌, refl, ◌∙◌}
use mathlib.Core.Bool.{Bool, true, false, ◌||◌}
use mathlib.Core.List.{List, [], ◌∷◌, ◌++◌}
use mathlib.Core.Logic.{inl, inr}
use native.Mathlib.Omega.{arith}
use pysnmp.Base.Tests.{Bool-cases, if◌then◌else◌}
use pysnmp.Base.Eq.{Eq}
use pysnmp.Base.Lists.{All}
use pysnmp.Base.Lex.{lex_lt}
use pysnmp.Base.Sort.{insert_sorted, sort}

module _ {A : Type 0} ⦃e : Eq A⦄ where
  -- `x in l`
  abbrev pub listed : A → List A → Bool
  listed a [] = false
  listed a (x ∷ xs) = e.beq x a || listed a xs

  abbrev pub IsUnique : List A → Type 0
  IsUnique [] = Unit
  IsUnique (x ∷ xs) = (listed x xs ≡ false) × IsUnique xs

  -- `l.remove(x)`: the first occurrence.
  unfoldable pub remove_first : A → List A → List A
  remove_first a [] = []
  remove_first a (x ∷ xs) = let rest = remove_first a xs in if e.beq x a then xs else x ∷ rest

  pub listed-append : (a : A) (xs ys : List A) → listed a (xs ++ ys) ≡ (listed a xs || listed a ys)
  listed-append a [] ys = refl
  listed-append a (x ∷ xs) ys = ground (arith, listed-append a xs ys)

  pub IsUnique-append :
      (a : A) (xs : List A) → listed a xs ≡ false → IsUnique xs → IsUnique (xs ++ a ∷ [])
  IsUnique-append a [] n u = (refl, tt)
  IsUnique-append a (x ∷ xs) n u = (
    ground (arith, listed-append x xs (a ∷ []), e.beq_iff a x, e.beq_iff x a, u.0),
    IsUnique-append a xs (ground arith) u.1,
  )

  pub listed-remove_first :
      (a b : A) (xs : List A)
      → IsUnique xs
      → listed b (remove_first a xs) ≡ (if e.beq a b then false else listed b xs)
  unfolding remove_first
  listed-remove_first a b [] u = ground arith
  listed-remove_first a b (x ∷ xs) u =
      ground
        (arith, e.beq_iff a b, e.beq_iff x a, e.beq_iff x b, u.0, listed-remove_first a b xs u.1)

  pub IsUnique-remove_first : (a : A) (xs : List A) → IsUnique xs → IsUnique (remove_first a xs)
  unfolding remove_first
  IsUnique-remove_first a [] u = tt
  IsUnique-remove_first a (x ∷ xs) u = elim (Bool-cases (e.beq x a)) [
    | inl same ↦ rw same u.1
    | inr differ ↦ rw differ (
      ground (arith, listed-remove_first a x xs u.1, e.beq_iff a x, u.0),
      IsUnique-remove_first a xs u.1,
    )
  ]

  pub All-listed : (P : A → Type 0) (a : A) (xs : List A) → All P xs → listed a xs ≡ true → P a
  All-listed P a [] h m = cc
  All-listed P a (x ∷ xs) h m = elim (Bool-cases (e.beq x a)) [
    | inl same ↦ rw (← (e.beq_iff x a).0 same) h.0
    | inr differ ↦ All-listed P a xs h.1 (rw differ at m)
  ]

  module _ (key : A → List ℕ) where
    listed-insert_sorted :
        (a x : A) (ys : List A) → listed a (insert_sorted key x ys) ≡ (e.beq x a || listed a ys)
    unfolding insert_sorted
    listed-insert_sorted a x [] = refl
    listed-insert_sorted a x (y ∷ ys) = ground (arith, listed-insert_sorted a x ys)

    pub listed-sort : (a : A) (xs : List A) → listed a (sort key xs) ≡ listed a xs
    unfolding sort
    listed-sort a [] = refl
    listed-sort a (x ∷ xs) =
        ground (arith, listed-insert_sorted a x (sort key xs), listed-sort a xs)

    insert_sorted-IsUnique :
        (x : A) (ys : List A)
        → listed x ys ≡ false
        → IsUnique ys
        → IsUnique (insert_sorted key x ys)
    unfolding insert_sorted
    insert_sorted-IsUnique x [] n u = (refl, tt)
    insert_sorted-IsUnique x (y ∷ ys) n u = elim (Bool-cases (lex_lt (key y) (key x))) [
      | inl below ↦ rw below (
        ground (arith, listed-insert_sorted y x ys, u.0, e.beq_iff x y, e.beq_iff y x),
        insert_sorted-IsUnique x ys (ground arith) u.1,
      )
      | inr above ↦ rw above (n, u)
    ]

    pub sort-IsUnique : (xs : List A) → IsUnique xs → IsUnique (sort key xs)
    unfolding sort
    sort-IsUnique [] u = tt
    sort-IsUnique (x ∷ xs) u =
        insert_sorted-IsUnique x (sort key xs) (listed-sort x xs ∙ u.0) (sort-IsUnique xs u.1)
