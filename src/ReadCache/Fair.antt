-- ===== src/ReadCache/Fair.antt =====
-- What `cache[k] = v` leaves in the cache, and which entries of a full cache it costs.
use pysnmp.Base.{ap, arith, false, is_some, leb, refl, some, true, ℕ, ◌+◌, ◌<◌, ◌∙◌, ◌≡◌, ◌≤◌}
use pysnmp.Base.Eq.{Eq, beq_refl}
use pysnmp.Base.Dict.{contains, lookup}
use pysnmp.ReadCache.{Cache, least_read, set_item}
use pysnmp.ReadCache.Bound.{IsValid, set_item_lem, stored_after}
use pysnmp.ReadCache.LeastRead.{least_read_lem}

module _ {K V : Type 0} ⦃e : Eq K⦄ where
  -- From a cache to the one after an assignment: `k` holds `v`, the other entries hold what they held, none
  -- is lost while there is room, and a full cache shrinks by `chopSize` entries, or one less, and loses none
  -- that was read more often than another entry that stays.
  pub record IsAssigned (k : K) (v : V) (s s' : Cache K V) : Type 0 where
    pub assigned : lookup k s'.cache ≡ some v
    pub unchanged :
        (j : K) (w : V) → e.beq k j ≡ false → lookup j s'.cache ≡ some w → lookup j s.cache ≡ some w
    pub room_for_all :
        s.size < s.max_size → (j : K) → e.beq k j ≡ false → lookup j s'.cache ≡ lookup j s.cache
    pub few_lost : s.size ≤ s'.size + s.chop_size
    pub enough_lost : s.max_size ≤ s.size → s'.size + s.chop_size ≤ s.size + 1
    pub fair :
        (i j : K) (a b : ℕ)
        → contains j s.cache ≡ true
        → contains j s'.cache ≡ false
        → e.beq k i ≡ false
        → contains i s'.cache ≡ true
        → lookup j s.usage ≡ some a
        → lookup i s.usage ≡ some b
        → a ≤ b

  -- A key that the assignment costs is among the least read of a full cache.
  lost_lem :
      (k : K) (v : V) (s s' : Cache K V)
      → ((j : K) → lookup j s'.cache ≡ stored_after k v s j)
      → (j : K) → contains j s.cache ≡ true
      → contains j s'.cache ≡ false
      → (leb s.max_size s.size ≡ true) × (contains j (least_read s) ≡ true)
  lost_lem k v s s' after j there gone =
      let left = ap is_some (after j) in (ground (arith, left), ground (arith, left))

  kept_lem :
      (k : K) (v : V) (s s' : Cache K V)
      → ((j : K) → lookup j s'.cache ≡ stored_after k v s j)
      → leb s.max_size s.size ≡ true
      → (i : K) → e.beq k i ≡ false
      → contains i s'.cache ≡ true
      → contains i (least_read s) ≡ false
  kept_lem k v s s' after full i other there =
      let left = ap is_some (after i) in ground (arith, left)

  -- `cache[k] = v` on a valid cache never raises: afterwards the invariant holds, so that the cache counts
  -- its entries rightly and holds at most `maxSize` of them; `k` holds `v` and the other entries hold what
  -- they held; while there is room none is lost, and a full cache shrinks by `chopSize` entries, or one less
  -- where `k` comes in new, and loses none that was read more often than another entry that stays.
  pub set_item-IsAssigned :
      (k : K) (v : V) (s : Cache K V)
      → IsValid s
      → (s' : Cache K V) × (set_item k v s ≡ some s') × IsValid s' × IsAssigned k v s s'
  set_item-IsAssigned k v s h =
      let (s', set, valid, after, few, enough) = set_item_lem k v s h in
      (
        s',
        set,
        valid,
        record {
          assigned = after k ∙ rw (beq_refl k) refl;
          unchanged = λ j w other f. ground (arith, after j);
          room_for_all = λ room j other. ground (arith, after j);
          few_lost = few;
          enough_lost = enough;
          fair = λ i j a b there gone other stays fj fi.
              let (full, dropped) = lost_lem k v s s' after j there gone in
              least_read_lem s j i a b h dropped (kept_lem k v s s' after full i other stays) fj fi;
        },
      )
