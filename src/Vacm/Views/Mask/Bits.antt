-- ===== src/Vacm/Views/Mask/Bits.antt =====
-- Which sub-identifiers `ignoredSubOids` lists: those whose bit of the mask is 0.
use Prim.Native.Nat.{bit_and}
use pysnmp.Base.{
  All, All-append, Bool, Bool-cases, List, Option, [], arith, false, get_elem?, get_elem?_past,
  if◌then◌else◌, inl, inr, length, ltb, min, none, not, refl, some, suc, true, zero, ℕ, ◌%◌, ◌&&◌,
  ◌*◌, ◌++◌, ◌+◌, ◌-◌, ◌/◌, ◌<◌, ◌==◌, ◌^◌, ◌||◌, ◌∷◌, ◌≡◌, ◌≤◌,
}
use pysnmp.Vacm.Views.{Oid, ignored_bits, ignored_octets, ignored_sub_oids, powers_of_two}

-- The bit of the mask for a sub-identifier, most significant bit of the first octet first; the mask
-- is extended with ones (RFC 3415, vacmViewTreeFamilyMask).
pub mask_bit : List ℕ → ℕ → Bool
mask_bit [] k = true
mask_bit (o ∷ mask) k =
    let rest = mask_bit mask (k - 8) in if ltb k 8 then o / 2 ^ (7 - k) % 2 == 1 else rest

abbrev pub member : ℕ → List ℕ → Bool
member j [] = false
member j (x ∷ xs) = j == x || member j xs

pub member-append : (j : ℕ) (xs ys : List ℕ) → member j (xs ++ ys) ≡ (member j xs || member j ys)
member-append j [] ys = refl
member-append j (x ∷ xs) ys = ground (arith, member-append j xs ys)

abbrev zero_bit : Option ℕ → ℕ → Bool
zero_bit none o = false
zero_bit (some b) o = bit_and b o == 0

module _ (ml o : ℕ) where
  ignored_bits_below :
      (pos j : ℕ) (bits : List ℕ) → j < pos → member j (ignored_bits ml o pos bits) ≡ false
  unfolding ignored_bits
  ignored_bits_below pos j [] h = refl
  ignored_bits_below pos j (b ∷ bits) h = ground (arith, ignored_bits_below (pos + 1) j bits)

  ignored_bits_at :
      (pos j k : ℕ) (bits : List ℕ)
      → j ≡ pos + k
      → member j (ignored_bits ml o pos bits) ≡ (ltb j ml && zero_bit (get_elem? bits k) o)
  unfolding ignored_bits
  ignored_bits_at pos j k [] h = ground arith
  ignored_bits_at pos j zero (b ∷ bits) h = ground (arith, ignored_bits_below (pos + 1) j bits)
  ignored_bits_at pos j (suc k) (b ∷ bits) h = ground (arith, ignored_bits_at (pos + 1) j k bits)

-- Over octets, a test of a bit by `&` is a test of a binary digit.
checks_under : (ℕ → Bool) → ℕ → Bool
checks_under test zero = true
checks_under test (suc top) = checks_under test top && test top

checks_under_lem :
    (test : ℕ → Bool) (octet bound : ℕ)
    → octet < bound
    → checks_under test bound ≡ true
    → test octet ≡ true
unfolding checks_under
checks_under_lem test octet zero low ok = absurd (omega arith)
checks_under_lem test octet (suc top) low ok = ground (arith, checks_under_lem test octet top)

abbrev same : Bool → Bool → Bool
same true b = b
same false b = not b

same_eq : (a b : Bool) → same a b ≡ true → a ≡ b
same_eq a b h = ground arith

abbrev bit_agrees : ℕ → ℕ → Bool
bit_agrees k o = same (zero_bit (get_elem? powers_of_two k) o) (not (o / 2 ^ (7 - k) % 2 == 1))

bit_table : (k : ℕ) → k < 8 → checks_under (bit_agrees k) 256 ≡ true
unfolding checks_under
bit_table zero h = refl
bit_table (suc zero) h = refl
bit_table (suc (suc zero)) h = refl
bit_table (suc (suc (suc zero))) h = refl
bit_table (suc (suc (suc (suc zero)))) h = refl
bit_table (suc (suc (suc (suc (suc zero))))) h = refl
bit_table (suc (suc (suc (suc (suc (suc zero)))))) h = refl
bit_table (suc (suc (suc (suc (suc (suc (suc zero))))))) h = refl
bit_table (suc (suc (suc (suc (suc (suc (suc (suc k)))))))) h = absurd (omega arith)

zero_bit-digit :
    (k o : ℕ)
    → k < 8
    → o < 256
    → zero_bit (get_elem? powers_of_two k) o ≡ not (o / 2 ^ (7 - k) % 2 == 1)
zero_bit-digit k o h l = same_eq _ _ (checks_under_lem (bit_agrees k) o 256 l (bit_table k h))

ignored_octets_below :
    (ml pos j : ℕ) (mask : List ℕ) → j < pos → member j (ignored_octets ml pos mask) ≡ false
unfolding ignored_octets
ignored_octets_below ml pos j [] h = refl
ignored_octets_below ml pos j (o ∷ mask) h = ground (
  arith,
  member-append j (ignored_bits ml o pos powers_of_two) (ignored_octets ml (pos + 8) mask),
  ignored_bits_below ml o pos j powers_of_two,
  ignored_octets_below ml (pos + 8) j mask,
)

member-ignored_octets :
    (ml pos j k : ℕ) (mask : List ℕ)
    → All (λ o. o < 256) mask
    → j ≡ pos + k
    → member j (ignored_octets ml pos mask) ≡ (ltb j ml && not (mask_bit mask k))
unfolding ignored_octets mask_bit
member-ignored_octets ml pos j k [] h e = ground arith
member-ignored_octets ml pos j k (o ∷ mask) h e = elim (Bool-cases (ltb k 8)) [
  | inl low ↦ ground (
    arith,
    member-append j (ignored_bits ml o pos powers_of_two) (ignored_octets ml (pos + 8) mask),
    ignored_bits_at ml o pos j k powers_of_two,
    zero_bit-digit k o,
    ignored_octets_below ml (pos + 8) j mask,
  )
  | inr high ↦ ground (
    arith,
    member-append j (ignored_bits ml o pos powers_of_two) (ignored_octets ml (pos + 8) mask),
    ignored_bits_at ml o pos j k powers_of_two,
    get_elem?_past powers_of_two k (ground arith),
    member-ignored_octets ml (pos + 8) j (k - 8) mask,
  )
]

mask_bit_past : (mask : List ℕ) (k : ℕ) → length mask * 8 ≤ k → mask_bit mask k ≡ true
unfolding mask_bit
mask_bit_past [] k h = refl
mask_bit_past (o ∷ mask) k h = ground (arith, mask_bit_past mask (k - 8))

-- Within the subtree, a sub-identifier is ignored exactly when its bit of the mask is 0.
pub member-ignored_sub_oids :
    (mask : List ℕ) (subtree : Oid) (j : ℕ)
    → All (λ o. o < 256) mask
    → j < length subtree
    → member j (ignored_sub_oids mask subtree) ≡ not (mask_bit mask j)
member-ignored_sub_oids mask subtree j h l = ground (
  arith,
  member-ignored_octets (min (length mask * 8) (length subtree)) 0 j j mask h,
  mask_bit_past mask j,
)

ignored_bits_in : (ml o pos : ℕ) (bits : List ℕ) → All (λ j. j < ml) (ignored_bits ml o pos bits)
unfolding ignored_bits
ignored_bits_in ml o pos [] = tt
ignored_bits_in ml o pos (b ∷ bits) = ground (arith, ignored_bits_in ml o (pos + 1) bits)

ignored_octets_in : (ml pos : ℕ) (mask : List ℕ) → All (λ j. j < ml) (ignored_octets ml pos mask)
unfolding ignored_octets
ignored_octets_in ml pos [] = tt
ignored_octets_in ml pos (o ∷ mask) =
    All-append (λ j. j < ml) (ignored_bits ml o pos powers_of_two)
      (ignored_octets ml (pos + 8) mask) (ignored_bits_in ml o pos powers_of_two)
      (ignored_octets_in ml (pos + 8) mask)

pub All-weaken : (n m : ℕ) (xs : List ℕ) → n ≤ m → All (λ j. j < n) xs → All (λ j. j < m) xs
All-weaken n m [] h a = tt
All-weaken n m (x ∷ xs) h a = (omega arith, All-weaken n m xs h a.1)

-- No ignored sub-identifier lies outside the subtree.
pub ignored_sub_oids_in :
    (mask : List ℕ) (subtree : Oid) → All (λ j. j < length subtree) (ignored_sub_oids mask subtree)
ignored_sub_oids_in mask subtree =
    All-weaken (min (length mask * 8) (length subtree)) (length subtree)
      (ignored_sub_oids mask subtree) (omega arith)
      (ignored_octets_in (min (length mask * 8) (length subtree)) 0 mask)
