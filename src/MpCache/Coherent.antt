-- ===== src/MpCache/Coherent.antt =====
-- The invariant of the cache: an entry of an index is on the expiration queue exactly under its tick,
-- which has not passed. What a push and a pop of one index keep of it.
pub mod Push
use pysnmp.Base.{
  ==_iff, Bool, Bool-cases, Option, ap, arith, false, if◌then◌else◌, inl, inr, is_some, none, refl,
  some, true, ℕ, ◌+◌, ◌==◌, ◌∙◌, ◌≡◌, ◌≤◌,
}
use pysnmp.Base.Eq.{nat_eq}
use pysnmp.Base.Dict.{
  Dict, HasUniqueKeys, contains, insert, lookup, lookup-insert, lookup-remove, remove,
}
use pysnmp.MpCache.{
  Cache, Kind, Queue, keys_at, kind_beq, kind_beq_iff, kind_eq, msg_id, schedule, slot_at,
  state_reference, unschedule,
}
use pysnmp.MpCache.Queue.{queued, queued-schedule, queued-unschedule}

module _ {M : Type 0} where
  -- Whether what is found expires at a tick.
  abbrev pub due : ℕ → Option (M × ℕ) → Bool
  due e none = false
  due e (some (info, expire_at)) = expire_at == e

  -- What is left of it when that tick is over.
  abbrev pub survives : ℕ → Option (M × ℕ) → Option (M × ℕ)
  survives t o = if due t o then none else o

  unfoldable pub IsLinked : Kind → Dict ℕ (M × ℕ) → Queue → Type 0
  IsLinked k index q = (e key : ℕ) → queued k e key q ≡ due e (lookup key index)

  unfoldable pub IsAhead : ℕ → Dict ℕ (M × ℕ) → Type 0
  IsAhead t index = (e key : ℕ) → due e (lookup key index) ≡ true → t ≤ e

  pub record IsCoherent (s : Cache M) : Type 0 where
    pub refs_linked : IsLinked state_reference s.state_reference_index s.expiration_queue
    pub ids_linked : IsLinked msg_id s.msg_id_index s.expiration_queue
    pub refs_ahead : IsAhead s.expiration_timer s.state_reference_index
    pub ids_ahead : IsAhead s.expiration_timer s.msg_id_index
    pub unique_keys : (k : Kind) (e : ℕ) → HasUniqueKeys (keys_at k (slot_at e s.expiration_queue))

  pub due-insert :
      (e key j t : ℕ) (info : M) (index : Dict ℕ (M × ℕ))
      → due e (lookup j (insert key (info, t) index))
        ≡ (if key == j then t == e else due e (lookup j index))
  due-insert e key j t info index =
      rw (lookup-insert key j (info, t) index)
        (elim (Bool-cases (key == j)) [ inl h ↦ rw h refl | inr h ↦ rw h refl ])

  pub due-remove :
      (e key j : ℕ) (index : Dict ℕ (M × ℕ))
      → due e (lookup j (remove key index)) ≡ (if key == j then false else due e (lookup j index))
  due-remove e key j index =
      rw (lookup-remove key j index)
        (elim (Bool-cases (key == j)) [ inl h ↦ rw h refl | inr h ↦ rw h refl ])

  pub due-absent : (e : ℕ) (o : Option (M × ℕ)) → is_some o ≡ false → due e o ≡ false
  due-absent e none h = refl
  due-absent e (some p) h = cc

  pub due-survives :
      (e t : ℕ) (o : Option (M × ℕ)) → due e (survives t o) ≡ (if t == e then false else due e o)
  due-survives e t none = ground arith
  due-survives e t (some (info, expire_at)) = ground arith

  module _ (k : Kind) (index : Dict ℕ (M × ℕ)) (q : Queue) where
    pub IsLinked-push :
        (key t : ℕ) (info : M)
        → IsLinked k index q
        → contains key index ≡ false
        → IsLinked k (insert key (info, t) index) (schedule k t key q)
    unfolding IsLinked
    IsLinked-push key t info h n e j = ground (
      arith,
      queued-schedule k k t e key j q,
      h e j,
      due-insert e key j t info index,
      due-absent e (lookup key index) n,
      ==_iff key j,
      (kind_beq_iff k k).1 refl,
    )

    pub IsLinked-push_other :
        (k' : Kind) (key t : ℕ)
        → IsLinked k index q
        → kind_beq k' k ≡ false
        → IsLinked k index (schedule k' t key q)
    unfolding IsLinked
    IsLinked-push_other k' key t h n e j = ground (arith, queued-schedule k' k t e key j q, h e j)

    pub IsLinked-pop :
        (key t : ℕ) (q' : Queue)
        → IsLinked k index q
        → due t (lookup key index) ≡ true
        → unschedule k t key q ≡ some q'
        → IsLinked k (remove key index) q'
    unfolding IsLinked
    IsLinked-pop key t q' h n u e j = ground (
      arith,
      queued-unschedule k k t e key j q q' (h t key ∙ n) u,
      h e j,
      due-remove e key j index,
      ==_iff key j,
      (kind_beq_iff k k).1 refl,
    )

  pub IsLinked-pop_other :
      (k k' : Kind) (index : Dict ℕ (M × ℕ)) (q q' : Queue) (key t : ℕ)
      → IsLinked k index q
      → kind_beq k' k ≡ false
      → queued k' t key q ≡ true
      → unschedule k' t key q ≡ some q'
      → IsLinked k index q'
  unfolding IsLinked
  IsLinked-pop_other k k' index q q' key t h n w u e j =
      ground (arith, queued-unschedule k' k t e key j q q' w u, h e j)

  pub IsLinked-at :
      (k : Kind) (index : Dict ℕ (M × ℕ)) (q : Queue) (e key : ℕ)
      → IsLinked k index q
      → queued k e key q ≡ due e (lookup key index)
  unfolding IsLinked
  IsLinked-at k index q e key h = h e key

  -- An entry that is held waits on the queue.
  pub IsLinked-waits :
      (k : Kind) (index : Dict ℕ (M × ℕ)) (q : Queue) (key t : ℕ) (info : M)
      → IsLinked k index q
      → lookup key index ≡ some (info, t)
      → queued k t key q ≡ true
  unfolding IsLinked
  IsLinked-waits k index q key t info h found = h t key ∙ (ap (due t) found ∙ (==_iff t t).1 refl)

  pub IsAhead-push :
      (t key : ℕ) (info : M) (index : Dict ℕ (M × ℕ))
      → IsAhead t index
      → IsAhead t (insert key (info, t + 600) index)
  unfolding IsAhead
  IsAhead-push t key info index h e j d =
      ground (arith, due-insert e key j (t + 600) info index, h e j)

  pub IsAhead-pop :
      (t key : ℕ) (index : Dict ℕ (M × ℕ)) → IsAhead t index → IsAhead t (remove key index)
  unfolding IsAhead
  IsAhead-pop t key index h e j d = ground (arith, due-remove e key j index, h e j)
