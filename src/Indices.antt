-- ===== src/Indices.antt =====
-- pysnmp/smi/indices.py: `OrderedDict` and `OidOrderedDict`, with tuples of sub-identifiers for keys.
pub mod Valid
pub mod Successor
pub mod Walk
mod Tests
use mathlib.Core.Option
use pysnmp.Base.{
  Bool, List, Option, [], false, if◌then◌else◌, length, ltb, map, none, some, true, ℕ, ◌++◌, ◌==◌,
  ◌∷◌,
}
use pysnmp.Base.Eq.{list_eq, nat_eq}
use pysnmp.Base.Dict.{Dict, contains, insert, lookup, remove}
use pysnmp.Base.Lex.{lex_lt}
use pysnmp.Base.Sort.{sort}
use pysnmp.Base.Listed.{remove_first}

abbrev pub Key : Type 0
Key = List ℕ

-- `OrderedDict`: the mapping itself and the attributes beside it.
pub record OrderedDict (V : Type 0) : Type 0 where
  pub mapping : Dict Key V
  pub keys_list : List Key
  pub dirty : Bool
  pub keys_lens : List ℕ

-- One number put into a descending list without repetition.
unfoldable pub insert_len : ℕ → List ℕ → List ℕ
insert_len n [] = n ∷ []
insert_len n (m ∷ ms) =
    let rest = insert_len n ms in
    if ltb m n then n ∷ m ∷ ms else if n == m then m ∷ ms else m ∷ rest

-- `sorted({len(k) for k in keys}, reverse=True)`
unfoldable pub distinct_lens : List Key → List ℕ
unfolding insert_len
distinct_lens [] = []
distinct_lens (k ∷ ks) = insert_len (length k) (distinct_lens ks)

-- `keys[bisect(keys, x, key=self.sortingKey)]` on sorted keys: the first key that sorts above `x`,
-- `none` where the index is the length.
unfoldable pub above : (Key → List ℕ) → List ℕ → List Key → Option Key
above sorting_key x [] = none
above sorting_key x (k ∷ ks) =
    let rest = above sorting_key x ks in if lex_lt x (sorting_key k) then some k else rest

module _ {V : Type 0} where
  abbrev pub empty : OrderedDict V
  empty = record { mapping = []; keys_list = []; dirty = true; keys_lens = [] }

  unfoldable pub set_item : Key → V → OrderedDict V → OrderedDict V
  set_item k v d =
      let d' =
        if contains k d.mapping
        then d
        else record d { keys_list = d.keys_list ++ k ∷ []; dirty = true } in
      record d' { mapping = insert k v d'.mapping }

  -- `none` for the `KeyError` of `dict.__delitem__`.
  unfoldable pub del_item : Key → OrderedDict V → Option (OrderedDict V)
  del_item k d =
      if contains k d.mapping
      then some (record d {
        keys_list = remove_first k d.keys_list;
        dirty = true;
        mapping = remove k d.mapping;
      })
      else none

  unfoldable pub clear : OrderedDict V → OrderedDict V
  clear d = record d { mapping = []; keys_list = []; dirty = true }

  -- `update` from pairs.
  unfoldable pub update : List (Key × V) → OrderedDict V → OrderedDict V
  unfolding set_item
  update [] d = d
  update ((k, v) ∷ rest) d = update rest (set_item k v d)

  -- The values of the keys, `none` for the `KeyError` of `self[k]`.
  unfoldable pub pairs_of : List Key → Dict Key V → Option (List (Key × V))
  pairs_of [] m = some []
  pairs_of (k ∷ ks) m = elim (lookup k m) [
    | none ↦ none
    | some v ↦ Option.map (λ (t : List (Key × V)). (k, v) ∷ t) (pairs_of ks m)
  ]

  -- The methods that order first, under the `sortingKey` of the class.
  module _ (sorting_key : Key → List ℕ) where
    -- `__order`
    unfoldable pub order : OrderedDict V → OrderedDict V
    order d =
        let sorted = sort sorting_key d.keys_list in
        record d { keys_list = sorted; keys_lens = distinct_lens sorted; dirty = false }

    -- `if self.__dirty: self.__order()`
    unfoldable pub ordered : OrderedDict V → OrderedDict V
    unfolding order
    ordered d = if d.dirty then order d else d

    unfoldable pub keys : OrderedDict V → List Key × OrderedDict V
    unfolding ordered
    keys d = let d' = ordered d in (d'.keys_list, d')

    unfoldable pub items : OrderedDict V → Option (List (Key × V)) × OrderedDict V
    unfolding ordered pairs_of
    items d = let d' = ordered d in (pairs_of d'.keys_list d'.mapping, d')

    unfoldable pub values : OrderedDict V → Option (List V) × OrderedDict V
    unfolding ordered pairs_of
    values d =
        let d' = ordered d in
        (Option.map (map (λ (p : Key × V). p.1)) (pairs_of d'.keys_list d'.mapping), d')

    -- `nextKey`, `none` for its `KeyError`.
    unfoldable pub next_key : Key → OrderedDict V → Option Key × OrderedDict V
    unfolding ordered above
    next_key k d = let d' = ordered d in (above sorting_key (sorting_key k) d'.keys_list, d')

    unfoldable pub get_keys_lens : OrderedDict V → List ℕ × OrderedDict V
    unfolding ordered
    get_keys_lens d = let d' = ordered d in (d'.keys_lens, d')

-- `OidOrderedDict`: the ordered dictionary and the cache of what its keys sort by.
pub record OidOrderedDict (V : Type 0) : Type 0 where
  pub base : OrderedDict V
  pub keys_cache : Dict Key (List ℕ)

module _ {V : Type 0} where
  -- `sortingKey`; a tuple sorts by itself.
  unfoldable pub sorting_key : OidOrderedDict V → Key → List ℕ
  sorting_key d k = Option.get_or (lookup k d.keys_cache) k

  unfoldable pub oid_set_item : Key → V → OidOrderedDict V → OidOrderedDict V
  oid_set_item k v d = record {
    base = set_item k v d.base;
    keys_cache = if contains k d.keys_cache then d.keys_cache else insert k k d.keys_cache;
  }

  unfoldable pub oid_del_item : Key → OidOrderedDict V → Option (OidOrderedDict V)
  oid_del_item k d = elim (del_item k d.base) [
    | none ↦ none
    | some b ↦ some (record {
      base = b;
      keys_cache = if contains k d.keys_cache then remove k d.keys_cache else d.keys_cache;
    })
  ]

  unfoldable pub oid_next_key : Key → OidOrderedDict V → Option Key × OidOrderedDict V
  oid_next_key k d =
      let (found, b) = next_key (sorting_key d) k d.base in (found, record d { base = b })
