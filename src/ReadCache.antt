-- ===== src/ReadCache.antt =====
-- pysnmp/cache.py: `Cache`, a mapping of bounded size that evicts the entries with the fewest reads.
-- A `maxSize` of at least 1 is meant: with 0 the source counts below zero.
pub mod Evict
pub mod Bound
pub mod LeastRead
pub mod Fair
mod Tests
use mathlib.Core.Option
use pysnmp.Base.{
  Bool, List, Option, [], if◌then◌else◌, leb, none, some, take, ℕ, ◌&&◌, ◌+◌, ◌-◌, ◌/◌, ◌==◌, ◌∷◌,
}
use pysnmp.Base.Eq.{Eq}
use pysnmp.Base.Dict.{Dict, contains, insert, lookup, remove}
use pysnmp.Base.Sort.{sort}

pub record Cache (K V : Type 0) : Type 0 where
  pub max_size : ℕ
  pub size : ℕ
  pub chop_size : ℕ
  pub cache : Dict K V
  pub usage : Dict K ℕ

-- The key of `sorted`: the number of reads.
abbrev pub reads : {K : Type 0} → K × ℕ → List ℕ
reads p = p.1 ∷ []

module _ {K V : Type 0} ⦃e : Eq K⦄ where
  -- `__init__`
  abbrev pub init : ℕ → Cache K V
  init max_size = record {
    max_size = max_size;
    size = 0;
    chop_size = if max_size / 10 == 0 then 1 else max_size / 10;
    cache = [];
    usage = [];
  }

  -- `k in cache`
  abbrev pub holds : K → Cache K V → Bool
  holds k s = contains k s.cache

  -- `__getitem__`, `none` for the `KeyError`; the count is raised before the look-up.
  unfoldable pub get_item : K → Cache K V → Option (V × Cache K V)
  get_item k s = elim (lookup k s.usage) [
    | none ↦ none
    | some n ↦ elim (lookup k s.cache) [
      | none ↦ none
      | some v ↦ some (v, record s { usage = insert k (n + 1) s.usage })
    ]
  ]

  -- The loop of the eviction, `none` for a `KeyError`.
  unfoldable pub delete_each : Dict K ℕ → Dict K V × Dict K ℕ → Option (Dict K V × Dict K ℕ)
  delete_each [] (cache, usage) = some (cache, usage)
  delete_each ((k, n) ∷ keys) (cache, usage) =
      let rest = delete_each keys (remove k cache, remove k usage) in
      if contains k cache && contains k usage then rest else none

  -- `sorted(self.__usage, …)[: self.__chopSize]`, each with its count.
  abbrev pub least_read : Cache K V → Dict K ℕ
  least_read s = take s.chop_size (sort reads s.usage)

  abbrev pub chopped : Cache K V → Option (Dict K V × Dict K ℕ) → Option (Cache K V)
  chopped s none = none
  chopped s (some (cache, usage)) =
      some (record s { cache = cache; usage = usage; size = s.size - s.chop_size })

  unfoldable pub evict : Cache K V → Option (Cache K V)
  evict s = chopped s (delete_each (least_read s) (s.cache, s.usage))

  -- The end of `__setitem__`, when there is room.
  unfoldable pub store : K → V → Cache K V → Cache K V
  store k v s =
      if contains k s.cache
      then record s { cache = insert k v s.cache }
      else record s { size = s.size + 1; usage = insert k 0 s.usage; cache = insert k v s.cache }

  unfoldable pub set_item : K → V → Cache K V → Option (Cache K V)
  set_item k v s = Option.map (store k v) (if leb s.max_size s.size then evict s else some s)

  -- `__delitem__`, `none` for the `KeyError`.
  unfoldable pub del_item : K → Cache K V → Option (Cache K V)
  del_item k s =
      if contains k s.cache && contains k s.usage
      then some (record s { cache = remove k s.cache; usage = remove k s.usage; size = s.size - 1 })
      else none
