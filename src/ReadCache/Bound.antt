-- ===== src/ReadCache/Bound.antt =====
-- The invariant of the cache, its bound included, and what an assignment keeps.
use mathlib.Core.Option
use pysnmp.Base.{
  Bool, Bool-cases, Option, [], ap, arith, false, if◌then◌else◌, inl, inr, is_some, leb, length,
  length-take, none, refl, some, sym, true, ℕ, ◌&&◌, ◌+◌, ◌-◌, ◌<◌, ◌∙◌, ◌∷◌, ◌≡◌, ◌≤◌,
}
use pysnmp.Base.Eq.{Eq, beq_refl}
use pysnmp.Base.Dict.{
  Dict, HasUniqueKeys, contains, contains-insert, contains-remove, insert, insert-HasUniqueKeys,
  lookup, lookup-insert, lookup-remove, remove, remove-HasUniqueKeys,
}
use pysnmp.Base.Sort.{sort}
use pysnmp.ReadCache.{Cache, chopped, delete_each, evict, least_read, reads, set_item, store}
use pysnmp.ReadCache.Evict.{
  contains-take, length-insert, length-remove, length-sort, lookup-sort, sort-HasUniqueKeys,
  take-HasUniqueKeys,
}

module _ {K V : Type 0} ⦃e : Eq K⦄ where
  -- Every entry is counted, once; the size is the number of entries and within the bound.
  pub record IsValid (s : Cache K V) : Type 0 where
    pub unique_cache : HasUniqueKeys s.cache
    pub unique_usage : HasUniqueKeys s.usage
    pub counted : (k : K) → contains k s.usage ≡ contains k s.cache
    pub size_cache : length s.cache ≡ s.size
    pub size_usage : length s.usage ≡ s.size
    pub bounded : s.size ≤ s.max_size
    pub chop_some : 1 ≤ s.chop_size
    pub chop_within : s.chop_size ≤ s.max_size

  delete_each_lem :
      (keys : Dict K ℕ) (cache : Dict K V) (usage : Dict K ℕ)
      → HasUniqueKeys keys
      → HasUniqueKeys cache
      → HasUniqueKeys usage
      → ((j : K) → contains j keys ≡ true → (contains j cache ≡ true) × (contains j usage ≡ true))
      → (cache' : Dict K V) × (usage' : Dict K ℕ) × (delete_each keys (cache, usage)
          ≡ some (cache', usage'))
        × HasUniqueKeys cache'
        × HasUniqueKeys usage'
        × (length cache' + length keys ≡ length cache)
        × (length usage' + length keys ≡ length usage)
        × ((j : K) → lookup j cache' ≡ (if contains j keys then none else lookup j cache))
        × ((j : K) → lookup j usage' ≡ (if contains j keys then none else lookup j usage))
  unfolding delete_each lookup
  delete_each_lem [] cache usage uk uc uu h =
      (cache, usage, refl, uc, uu, omega arith, omega arith, λ j. refl, λ j. refl)
  delete_each_lem ((k, n) ∷ keys) cache usage uk uc uu h =
      let (hc, hu) = h k (rw (beq_refl k) refl) in
      let (cache', usage', d, uc', uu', lc, lu, c, u) =
        delete_each_lem keys (remove k cache) (remove k usage) uk.1
          (remove-HasUniqueKeys k cache uc) (remove-HasUniqueKeys k usage uu)
          (λ j m. (
            ground (arith, contains-remove k j cache, e.beq_iff k j, uk.0, h j),
            ground (arith, contains-remove k j usage, e.beq_iff k j, uk.0, h j),
          )) in
      (
        cache',
        usage',
        rw (hc, hu) d,
        uc',
        uu',
        omega (arith, lc, length-remove k cache uc hc),
        omega (arith, lu, length-remove k usage uu hu),
        λ j. ground (arith, c j, lookup-remove k j cache),
        λ j. ground (arith, u j, lookup-remove k j usage),
      )

  -- What an eviction keeps of a cache that is full.
  pub evict_lem :
      (s : Cache K V)
      → IsValid s
      → s.max_size ≤ s.size
      → (s' : Cache K V) × (evict s ≡ some s')
        × IsValid s'
        × (s'.size + s.chop_size ≡ s.size)
        × (s'.max_size ≡ s.max_size)
        × ((j : K)
            → lookup j s'.cache ≡ (if contains j (least_read s) then none else lookup j s.cache))
  unfolding evict
  evict_lem s h full =
      let sorted = sort reads s.usage in
      let present : (j : K) → contains j (least_read s) ≡ true → contains j s.usage ≡ true = λ j m.
        ap is_some (sym (lookup-sort j s.usage h.unique_usage))
        ∙ contains-take s.chop_size j sorted m in
      let cut : length (least_read s) ≡ s.chop_size =
        length-take s.chop_size sorted
          (omega (arith, length-sort s.usage, h.size_usage, h.chop_within, full)) in
      let (cache, usage, d, uc, uu, lc, lu, c, u) =
        delete_each_lem (least_read s) s.cache s.usage
          (take-HasUniqueKeys s.chop_size sorted (sort-HasUniqueKeys s.usage h.unique_usage))
          h.unique_cache h.unique_usage (λ j m. (sym (h.counted j) ∙ present j m, present j m)) in
      (
        record s { cache = cache; usage = usage; size = s.size - s.chop_size },
        ap (chopped s) d,
        record {
          unique_cache = uc;
          unique_usage = uu;
          counted =
              λ k. ap is_some (u k) ∙ (both k (contains k (least_read s)) ∙ sym (ap is_some (c k)));
          size_cache = omega (arith, lc, cut, h.size_cache);
          size_usage = omega (arith, lu, cut, h.size_usage);
          bounded = omega (arith, h.bounded);
          chop_some = h.chop_some;
          chop_within = h.chop_within;
        },
        omega (arith, h.chop_within, full),
        refl,
        c,
      )
    where
      both :
          (k : K) (b : Bool)
          → is_some (if b then none else lookup k s.usage)
            ≡ is_some (if b then none else lookup k s.cache)
      both k true = refl
      both k false = h.counted k

  store_lem :
      (k : K) (v : V) (s : Cache K V) → IsValid s → s.size < s.max_size → IsValid (store k v s)
  unfolding store
  store_lem k v s h room = elim (Bool-cases (contains k s.cache)) [
    | inl old ↦ rw old (record {
      unique_cache = insert-HasUniqueKeys k v s.cache h.unique_cache;
      unique_usage = h.unique_usage;
      counted = λ j.
          ground
            (arith, h.counted j, h.counted k, contains-insert k j v s.cache, e.beq_iff k j, old);
      size_cache = length-insert k v s.cache ∙ rw old h.size_cache;
      size_usage = h.size_usage;
      bounded = h.bounded;
      chop_some = h.chop_some;
      chop_within = h.chop_within;
    })
    | inr new ↦ rw new (record {
      unique_cache = insert-HasUniqueKeys k v s.cache h.unique_cache;
      unique_usage = insert-HasUniqueKeys k 0 s.usage h.unique_usage;
      counted = λ j.
          ground (arith, h.counted j, contains-insert k j v s.cache, contains-insert k j 0 s.usage);
      size_cache = length-insert k v s.cache ∙ rw new (omega (arith, h.size_cache));
      size_usage = length-insert k 0 s.usage ∙ rw (h.counted k ∙ new) (omega (arith, h.size_usage));
      bounded = omega arith;
      chop_some = h.chop_some;
      chop_within = h.chop_within;
    })
  ]

  store_cache : (k : K) (v : V) (s : Cache K V) → (store k v s).cache ≡ insert k v s.cache
  unfolding store
  store_cache k v s = elim (Bool-cases (contains k s.cache)) [
    | inl h ↦ rw h refl
    | inr h ↦ rw h refl
  ]

  -- What is stored after an assignment: `v` under `k`, nothing under the least read of a full cache, and
  -- what was stored before under every other key.
  abbrev pub stored_after : K → V → Cache K V → K → Option V
  stored_after k v s j =
      if e.beq k j
      then some v
      else if leb s.max_size s.size && contains j (least_read s)
      then none
      else lookup j s.cache

  store-lookup :
      (k j : K) (v : V) (s : Cache K V)
      → lookup j (store k v s).cache ≡ (if e.beq k j then some v else lookup j s.cache)
  store-lookup k j v s = ap (lookup j) (store_cache k v s) ∙ lookup-insert k j v s.cache

  store_size :
      (k : K) (v : V) (s : Cache K V)
      → (s.size ≤ (store k v s).size) × ((store k v s).size ≤ s.size + 1)
  unfolding store
  store_size k v s = elim (Bool-cases (contains k s.cache)) [
    | inl h ↦ rw h (omega arith, omega arith)
    | inr h ↦ rw h (omega arith, omega arith)
  ]

  -- What an assignment leaves, in terms of the keys that an eviction takes.
  pub set_item_lem :
      (k : K) (v : V) (s : Cache K V)
      → IsValid s
      → (s' : Cache K V) × (set_item k v s ≡ some s')
        × IsValid s'
        × ((j : K) → lookup j s'.cache ≡ stored_after k v s j)
        × (s.size ≤ s'.size + s.chop_size)
        × (s.max_size ≤ s.size → s'.size + s.chop_size ≤ s.size + 1)
  unfolding set_item
  set_item_lem k v s h = elim (Bool-cases (leb s.max_size s.size)) [
    | inl full ↦
        let (t, d, ht, less, same, c) = evict_lem s h (ground arith) in
        (
          store k v t,
          rw full (ap (λ o. Option.map (store k v) o) d),
          store_lem k v t ht (omega (arith, h.chop_some, h.bounded)),
          λ j. rw full (store-lookup k j v t ∙ ap (λ o. if e.beq k j then some v else o) (c j)),
          omega (arith, (store_size k v t).0, less),
          λ f. omega (arith, (store_size k v t).1, less),
        )
    | inr room ↦ (
      store k v s,
      rw room refl,
      store_lem k v s h (ground arith),
      λ j. rw room (store-lookup k j v s),
      omega (arith, (store_size k v s).0),
      λ full. absurd (ground arith),
    )
  ]
