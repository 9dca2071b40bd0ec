-- ===== src/Base/Sort.antt =====
-- `list.sort(key=…)` over keys that are sequences of numbers: stable, in Python's order on tuples.
use Prim.Native.Nat.{ℕ}
use mathlib.Core.Path.{◌≡◌}
use mathlib.Core.Logic.{inl, inr}
use mathlib.Core.Bool.{false}
use mathlib.Core.List.{List, [], ◌∷◌, Perm, Memᴰ}
use mathlib.Core.List.Perm
use mathlib.Core.List.Memᴰ
use pysnmp.Base.Tests.{Bool-cases, if◌then◌else◌}
use pysnmp.Base.Lists.{All}
use pysnmp.Base.Lex.{lex_asym, lex_le_trans, lex_lt}

module _ {ℓ} {A : Type ℓ} (key : A → List ℕ) where
  -- `x` stood before the sorted rest, so it goes in front of what is equal to it.
  unfoldable pub insert_sorted : A → List A → List A
  insert_sorted x [] = x ∷ []
  insert_sorted x (y ∷ ys) =
      let rest = insert_sorted x ys in if lex_lt (key y) (key x) then y ∷ rest else x ∷ y ∷ ys

  unfoldable pub sort : List A → List A
  unfolding insert_sorted
  sort [] = []
  sort (x ∷ xs) = insert_sorted x (sort xs)

  -- No element is above a later one.
  abbrev pub IsSorted : List A → Type 0
  IsSorted [] = Unit
  IsSorted (x ∷ xs) = All (λ y. lex_lt (key y) (key x) ≡ false) xs × IsSorted xs

  insert_sorted-All :
      (P : A → Type 0) (x : A) (ys : List A) → P x → All P ys → All P (insert_sorted x ys)
  unfolding insert_sorted
  insert_sorted-All P x [] p h = (p, tt)
  insert_sorted-All P x (y ∷ ys) p h = elim (Bool-cases (lex_lt (key y) (key x))) [
    | inl below ↦ rw below (h.0, insert_sorted-All P x ys p h.1)
    | inr above ↦ rw above (p, h)
  ]

  below-All :
      (x y : A) (ys : List A)
      → lex_lt (key y) (key x) ≡ false
      → All (λ z. lex_lt (key z) (key y) ≡ false) ys
      → All (λ z. lex_lt (key z) (key x) ≡ false) ys
  below-All x y [] h k = tt
  below-All x y (z ∷ zs) h k = (lex_le_trans (key x) (key y) (key z) h k.0, below-All x y zs h k.1)

  insert_sorted-IsSorted : (x : A) (ys : List A) → IsSorted ys → IsSorted (insert_sorted x ys)
  unfolding insert_sorted
  insert_sorted-IsSorted x [] h = (tt, tt)
  insert_sorted-IsSorted x (y ∷ ys) h = elim (Bool-cases (lex_lt (key y) (key x))) [
    | inl below ↦ rw below (
      insert_sorted-All (λ z. lex_lt (key z) (key y) ≡ false) x ys (lex_asym (key y) (key x) below)
          h.0,
      insert_sorted-IsSorted x ys h.1,
    )
    | inr above ↦ rw above ((above, below-All x y ys above h.0), h)
  ]

  pub sort-IsSorted : (xs : List A) → IsSorted (sort xs)
  unfolding sort
  sort-IsSorted [] = tt
  sort-IsSorted (x ∷ xs) = insert_sorted-IsSorted x (sort xs) (sort-IsSorted xs)

  insert_sorted-perm : (x : A) (ys : List A) → Perm (insert_sorted x ys) (x ∷ ys)
  unfolding insert_sorted
  insert_sorted-perm x [] = Perm.refl (x ∷ [])
  insert_sorted-perm x (y ∷ ys) = elim (Bool-cases (lex_lt (key y) (key x))) [
    | inl below ↦ rw below (Perm.trans (Perm.cons y (insert_sorted-perm x ys)) (Perm.swap x y ys))
    | inr above ↦ rw above (Perm.refl (x ∷ y ∷ ys))
  ]

  pub sort-perm : (xs : List A) → Perm (sort xs) xs
  unfolding sort
  sort-perm [] = Perm.refl []
  sort-perm (x ∷ xs) = Perm.trans (insert_sorted-perm x (sort xs)) (Perm.cons x (sort-perm xs))

  insert_sorted-mem : (a x : A) (ys : List A) → Memᴰ a (insert_sorted x ys) → Memᴰ a (x ∷ ys)
  unfolding insert_sorted
  insert_sorted-mem a x [] m = m
  insert_sorted-mem a x (y ∷ ys) m = elim (Bool-cases (lex_lt (key y) (key x))) [
    | inr above ↦ rw above at m
    | inl below ↦ elim (Memᴰ.cases_cons (rw below at m)) [
      | inl e ↦ Memᴰ.tail (Memᴰ.head e)
      | inr n ↦ elim (Memᴰ.cases_cons (insert_sorted-mem a x ys n)) [
        | inl e ↦ Memᴰ.head e
        | inr k ↦ Memᴰ.tail (Memᴰ.tail k)
      ]
    ]
  ]

  mem-insert_sorted : (a x : A) (ys : List A) → Memᴰ a (x ∷ ys) → Memᴰ a (insert_sorted x ys)
  unfolding insert_sorted
  mem-insert_sorted a x [] m = m
  mem-insert_sorted a x (y ∷ ys) m = elim (Bool-cases (lex_lt (key y) (key x))) [
    | inr above ↦ rw above m
    | inl below ↦ rw below (elim (Memᴰ.cases_cons m) [
      | inl e ↦ Memᴰ.tail (mem-insert_sorted a x ys (Memᴰ.head e))
      | inr n ↦ elim (Memᴰ.cases_cons n) [
        | inl e ↦ Memᴰ.head e
        | inr k ↦ Memᴰ.tail (mem-insert_sorted a x ys (Memᴰ.tail k))
      ]
    ])
  ]

  -- Sorting keeps the elements.
  pub sort-mem : (a : A) (xs : List A) → Memᴰ a (sort xs) → Memᴰ a xs
  unfolding sort
  sort-mem a [] m = m
  sort-mem a (x ∷ xs) m = elim (Memᴰ.cases_cons (insert_sorted-mem a x (sort xs) m)) [
    | inl e ↦ Memᴰ.head e
    | inr n ↦ Memᴰ.tail (sort-mem a xs n)
  ]

  pub mem-sort : (a : A) (xs : List A) → Memᴰ a xs → Memᴰ a (sort xs)
  unfolding sort
  mem-sort a [] m = m
  mem-sort a (x ∷ xs) m = elim (Memᴰ.cases_cons m) [
    | inl e ↦ mem-insert_sorted a x (sort xs) (Memᴰ.head e)
    | inr n ↦ mem-insert_sorted a x (sort xs) (Memᴰ.tail (mem-sort a xs n))
  ]
