-- ===== src/Vacm/Views/Mask.antt =====
-- Families under a mask: when the loops raise `IndexError`, and which names a family holds.
pub mod Bits
use mathlib.Core.Option
use mathlib.Core.Option.{some-injective}
use pysnmp.Base.{
  All, Bool, Bool-cases, List, [], ap, arith, get_elem?, if◌then◌else◌, inl, inr, length, ltb, none,
  refl, some, suc, sym, true, zero, ℕ, ◌<◌, ◌↔◌, ◌∙◌, ◌∷◌, ◌≡◌, ◌≤◌,
}
use pysnmp.Vacm.Views.{
  Family, Oid, ViewRow, family_of, ignored_sub_oids, make_family, zero_all, zero_at,
}
use Bits.{All-weaken, mask_bit, member, member-ignored_sub_oids, ignored_sub_oids_in}
use pysnmp.Vacm.Views.Decision.{Holds}

-- The list with the listed positions set to 0.
abbrev pub Zeroed : List ℕ → Oid → Oid → Type 0
Zeroed is l l' =
    (length l' ≡ length l)
    × ((j : ℕ) → j < length l → get_elem? l' j ≡ (if member j is then some 0 else get_elem? l j))

Zeroed-head : (x : ℕ) (xs : Oid) → Zeroed (0 ∷ []) (x ∷ xs) (0 ∷ xs)
Zeroed-head x xs = (refl, at)
  where
    at :
        (j : ℕ)
        → j < length (x ∷ xs)
        → get_elem? (0 ∷ xs) j ≡ (if member j (0 ∷ []) then some 0 else get_elem? (x ∷ xs) j)
    at zero h = ground arith
    at (suc j) h = ground arith

Zeroed-tail :
    (i x : ℕ) (xs ys : Oid) → Zeroed (i ∷ []) xs ys → Zeroed (suc i ∷ []) (x ∷ xs) (x ∷ ys)
Zeroed-tail i x xs ys (size, tail) = (ap suc size, at)
  where
    at :
        (j : ℕ)
        → j < length (x ∷ xs)
        → get_elem? (x ∷ ys) j ≡ (if member j (suc i ∷ []) then some 0 else get_elem? (x ∷ xs) j)
    at zero h = ground arith
    at (suc j) h = ground (arith, tail j (omega arith))

zero_at_in :
    (i : ℕ) (l : Oid) → i < length l → (l' : Oid) × (zero_at i l ≡ some l') × Zeroed (i ∷ []) l l'
unfolding zero_at
zero_at_in i [] h = absurd (omega arith)
zero_at_in zero (x ∷ xs) h = (0 ∷ xs, refl, Zeroed-head x xs)
zero_at_in (suc i) (x ∷ xs) h =
    let (l', e, z) = zero_at_in i xs (omega arith) in (x ∷ l', rw e, Zeroed-tail i x xs l' z)

zero_at_out : (i : ℕ) (l : Oid) → length l ≤ i → zero_at i l ≡ none
unfolding zero_at
zero_at_out i [] h = refl
zero_at_out zero (x ∷ xs) h = absurd (omega arith)
zero_at_out (suc i) (x ∷ xs) h = rw (zero_at_out i xs (omega arith))

zero_all_step :
    (i : ℕ) (is : List ℕ) (l l' : Oid)
    → zero_at i l ≡ some l'
    → zero_all (i ∷ is) l ≡ zero_all is l'
unfolding zero_all
zero_all_step i is l l' e = rw (e, zero_all)

Zeroed-cons :
    (i : ℕ) (is : List ℕ) (l m n : Oid) → Zeroed (i ∷ []) l m → Zeroed is m n → Zeroed (i ∷ is) l n
Zeroed-cons i is l m n (size, first) (size', rest) =
    (size' ∙ size, λ j h. ground (arith, first j h, rest j (omega arith)))

zero_all_in :
    (is : List ℕ) (l : Oid)
    → All (λ i. i < length l) is
    → (l' : Oid) × (zero_all is l ≡ some l') × Zeroed is l l'
zero_all_in [] l h = unfold zero_all in (l, refl, (refl, λ j k. refl))
zero_all_in (i ∷ is) l h =
    let (m, e, z) = zero_at_in i l h.0 in
    let (n, e', z') = zero_all_in is m (rw z.0 h.1) in
    (n, zero_all_step i is l m e ∙ e', Zeroed-cons i is l m n z z')

-- An index past the end makes the loop raise `IndexError`.
pub zero_all_out :
    (is : List ℕ) (l : Oid) (i : ℕ) → member i is ≡ true → length l ≤ i → zero_all is l ≡ none
unfolding zero_all
zero_all_out [] l i m h = cc
zero_all_out (k ∷ is) l i m h = elim (Bool-cases (ltb k (length l))) [
  | inr past ↦ rw (zero_at_out k l (ground arith), zero_all)
  | inl within ↦
      let (l', e, z) = zero_at_in k l (ground arith) in
      let later : member i is ≡ true = ground arith in
      zero_all_step k is l l' e ∙ zero_all_out is l' i later (omega (arith, z.0))
]

-- Building a family never raises `IndexError`: the positions that are set to 0 lie in the subtree.
pub make_family_total :
    (r : ViewRow)
    → (p : Oid) × (make_family r ≡ some (family_of r (ignored_sub_oids r.mask r.subtree) p))
      × Zeroed (ignored_sub_oids r.mask r.subtree) r.subtree p
unfolding make_family
make_family_total r =
    let is = ignored_sub_oids r.mask r.subtree in
    let (p, e, z) = zero_all_in is r.subtree (ignored_sub_oids_in r.mask r.subtree) in (p, rw e, z)

-- `isPrefixOf` of pyasn1: the subtree is no longer than the name, and agrees with it throughout.
abbrev pub PrefixLaw : (Oid → Oid → Bool) → Type 0
PrefixLaw is_prefix_of =
    (s n : Oid)
    → (is_prefix_of s n ≡ true)
      ↔ ((length s ≤ length n) × ((j : ℕ) → j < length s → get_elem? s j ≡ get_elem? n j))

-- The name lies in the family of a row (RFC 3415, vacmViewTreeFamilyTable): it is as long as the
-- subtree at least, and agrees with it wherever the mask has a 1.
abbrev pub InFamily : ViewRow → Oid → Type 0
InFamily r name =
    (length r.subtree ≤ length name)
    × ((j : ℕ)
        → j < length r.subtree
        → mask_bit r.mask j ≡ true
        → get_elem? r.subtree j ≡ get_elem? name j)

module _ (is_prefix_of : Oid → Oid → Bool) (law : PrefixLaw is_prefix_of) where
  Zeroed-agree :
      (r : ViewRow) (name p n : Oid)
      → All (λ o. o < 256) r.mask
      → length r.subtree ≤ length name
      → Zeroed (ignored_sub_oids r.mask r.subtree) r.subtree p
      → Zeroed (ignored_sub_oids r.mask r.subtree) name n
      → (is_prefix_of p n ≡ true) ↔ InFamily r name
  Zeroed-agree r name p n octets long z zn = (
    (λ hit.
        let (_, agree) = (law p n).0 hit in
        (
          long,
          (λ j h b. ground (
            arith,
            member-ignored_sub_oids r.mask r.subtree j octets h,
            agree j (omega (arith, z.0)),
            z.1 j h,
            zn.1 j (omega arith),
          )),
        )),
    (λ inside. (law p n).1 (
      omega (arith, z.0, zn.0),
      (λ j h.
          let k : j < length r.subtree = omega (arith, z.0) in
          ground (
            arith,
            member-ignored_sub_oids r.mask r.subtree j octets k,
            inside.1 j k,
            z.1 j k,
            zn.1 j (omega arith),
          )),
    )),
  )

  -- Over a name that is at least as long as the subtree of a row, the family that `isAccessAllowed`
  -- makes of the row holds the name exactly when the name lies in the family as RFC 3415 defines it.
  pub make_family-Holds :
      (r : ViewRow) (name : Oid) (f : Family)
      → All (λ o. o < 256) r.mask
      → make_family r ≡ some f
      → length r.subtree ≤ length name
      → Holds is_prefix_of name f ↔ InFamily r name
  make_family-Holds r name f octets e long =
      let is = ignored_sub_oids r.mask r.subtree in
      let (p, made, z) = make_family_total r in
      let (n, normal, zn) = zero_all_in is name (
        All-weaken (length r.subtree) (length name) is long
          (ignored_sub_oids_in r.mask r.subtree)) in
      let same : family_of r is p ≡ f = some-injective (family_of r is p) f (sym made ∙ e) in
      rw (← same) (
        (λ (m, e', hit).
            (Zeroed-agree r name p n octets long z zn).0
              (rw (some-injective m n (sym e' ∙ normal)) at hit)),
        (λ h. (n, normal, (Zeroed-agree r name p n octets long z zn).1 h)),
      )
