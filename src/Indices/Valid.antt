-- ===== src/Indices/Valid.antt =====
-- The invariant of the ordered dictionaries: the list of keys holds the keys of the mapping, each
-- once, and where it is not marked dirty it is in order. Here it is shown
-- for the empty dictionary, setting an item and deleting one, and for putting the keys in order.
use mathlib.Core.Option.{some-injective}
use pysnmp.Base.{Bool-cases, List, [], arith, false, inl, inr, refl, some, true, ℕ, ◌∙◌, ◌∷◌, ◌≡◌}
use pysnmp.Base.Eq.{list_beq_iff, list_eq, nat_eq}
use pysnmp.Base.Dict.{contains, contains-insert, contains-remove, lookup-empty, remove}
use pysnmp.Base.Sort.{IsSorted, sort-IsSorted}
use pysnmp.Base.Listed.{
  IsUnique, IsUnique-append, IsUnique-remove_first, listed, listed-append, listed-remove_first,
  listed-sort, remove_first, sort-IsUnique,
}
use pysnmp.Indices.{Key, OrderedDict, del_item, distinct_lens, empty, order, ordered, set_item}

pub record IsValid {V : Type 0} (sk : Key → List ℕ) (d : OrderedDict V) : Type 0 where
  pub listed_keys : (k : Key) → listed k d.keys_list ≡ contains k d.mapping
  pub unique_keys : IsUnique d.keys_list
  pub sorted_keys : d.dirty ≡ false → IsSorted sk d.keys_list
  pub lens_keys : d.dirty ≡ false → d.keys_lens ≡ distinct_lens d.keys_list

module _ {V : Type 0} (sk : Key → List ℕ) where
  pub empty-IsValid : IsValid sk (empty {V = V})
  empty-IsValid = record {
    listed_keys = λ k. rw (lookup-empty {V = V} k) refl;
    unique_keys = tt;
    sorted_keys = λ e. cc;
    lens_keys = λ e. cc;
  }

  pub set_item-IsValid :
      (k : Key) (v : V) (d : OrderedDict V) → IsValid sk d → IsValid sk (set_item k v d)
  unfolding set_item
  set_item-IsValid k v d h = elim (Bool-cases (contains k d.mapping)) [
    | inl old ↦ rw old (record {
      listed_keys = λ j. ground (
        arith,
        h.listed_keys j,
        h.listed_keys k,
        contains-insert k j v d.mapping,
        list_beq_iff k j,
        old,
      );
      unique_keys = h.unique_keys;
      sorted_keys = h.sorted_keys;
      lens_keys = h.lens_keys;
    })
    | inr new ↦ rw new (record {
      listed_keys = λ j. ground (
        arith,
        h.listed_keys j,
        contains-insert k j v d.mapping,
        listed-append j d.keys_list (k ∷ []),
      );
      unique_keys = IsUnique-append k d.keys_list (h.listed_keys k ∙ new) h.unique_keys;
      sorted_keys = λ e. cc;
      lens_keys = λ e. cc;
    })
  ]

  -- Deletion succeeds exactly for the keys that are there, and keeps the invariant.
  pub del_item-IsValid :
      (k : Key) (d d' : OrderedDict V) → IsValid sk d → del_item k d ≡ some d' → IsValid sk d'
  unfolding del_item
  del_item-IsValid k d d' h e = elim (Bool-cases (contains k d.mapping)) [
    | inr missing ↦ cc
    | inl found ↦
        rw
          (← some-injective
            (record d {
              keys_list = remove_first k d.keys_list;
              dirty = true;
              mapping = remove k d.mapping;
            })
            d' (rw found at e))
          (record {
            listed_keys = λ j. ground (
              arith,
              h.listed_keys j,
              contains-remove k j d.mapping,
              listed-remove_first k j d.keys_list h.unique_keys,
            );
            unique_keys = IsUnique-remove_first k d.keys_list h.unique_keys;
            sorted_keys = λ e'. cc;
            lens_keys = λ e'. cc;
          })
  ]

  ordered_fixed : (d : OrderedDict V) → d.dirty ≡ false → ordered sk d ≡ d
  unfolding ordered
  ordered_fixed d e = rw e refl

  ordered_dirty : (d : OrderedDict V) → d.dirty ≡ true → ordered sk d ≡ order sk d
  unfolding ordered
  ordered_dirty d e = rw e refl

  order-IsValid : (d : OrderedDict V) → IsValid sk d → IsValid sk (order sk d)
  unfolding order
  order-IsValid d h = record {
    listed_keys = λ k. listed-sort sk k d.keys_list ∙ h.listed_keys k;
    unique_keys = sort-IsUnique sk d.keys_list h.unique_keys;
    sorted_keys = λ e'. sort-IsSorted sk d.keys_list;
    lens_keys = λ e'. refl;
  }

  pub ordered-IsValid : (d : OrderedDict V) → IsValid sk d → IsValid sk (ordered sk d)
  ordered-IsValid d h = elim (Bool-cases d.dirty) [
    | inr e ↦ rw (ordered_fixed d e) h
    | inl e ↦ rw (ordered_dirty d e) (order-IsValid d h)
  ]

  pub ordered_clean : (d : OrderedDict V) → (ordered sk d).dirty ≡ false
  unfolding order
  ordered_clean d = elim (Bool-cases d.dirty) [
    | inl e ↦ rw (ordered_dirty d e) refl
    | inr e ↦ rw (ordered_fixed d e) e
  ]

  pub ordered_mapping : (d : OrderedDict V) → (ordered sk d).mapping ≡ d.mapping
  unfolding order
  ordered_mapping d = elim (Bool-cases d.dirty) [
    | inl e ↦ rw (ordered_dirty d e) refl
    | inr e ↦ rw (ordered_fixed d e) refl
  ]

  -- A second read finds the order done.
  pub ordered_twice : (d : OrderedDict V) → ordered sk (ordered sk d) ≡ ordered sk d
  ordered_twice d = ordered_fixed (ordered sk d) (ordered_clean d)
