-- ===== src/MpCache/Expiry.antt =====
-- The clock of the cache: what one tick sweeps away.
use mathlib.Core.Option
use pysnmp.Base.{
  ==_iff, Bool-cases, Option, Option-cases, [], ap, ap₂, arith, false, if◌then◌else◌, inl, inr,
  is_some, none, refl, some, sym, true, ℕ, ◌+◌, ◌==◌, ◌∙◌, ◌≡◌,
}
use pysnmp.Base.Eq.{nat_eq}
use pysnmp.Base.Dict.{Dict, HasUniqueKeys, contains, lookup, lookup-empty, remove}
use pysnmp.MpCache.{
  Cache, Kind, Queue, Slot, delete_kind, done, expire_caches, expire_slot, expired, keys_at,
  kind_eq, msg_id, slot_at, state_reference,
}
use pysnmp.MpCache.Queue.{delete_keys_lem, keys_at-remove}
use pysnmp.MpCache.Coherent.{
  IsAhead, IsCoherent, IsLinked, IsLinked-at, due, due-survives, survives,
}

module _ {M : Type 0} where
  -- What the cache is after a tick.
  pub record IsSwept (s s' : Cache M) : Type 0 where
    pub refs_swept :
        (key : ℕ)
        → lookup key s'.state_reference_index
          ≡ survives s.expiration_timer (lookup key s.state_reference_index)
    pub ids_swept :
        (key : ℕ)
        → lookup key s'.msg_id_index ≡ survives s.expiration_timer (lookup key s.msg_id_index)
    pub handles_kept : s'.send_pdu_handle_idx ≡ s.send_pdu_handle_idx
    pub ticked : s'.expiration_timer ≡ s.expiration_timer + 1

  IsUnqueued : Cache M → Cache M → Type 0
  IsUnqueued s s' =
      (k : Kind) (e : ℕ)
      → keys_at k (slot_at e s'.expiration_queue)
        ≡ (if s.expiration_timer == e then [] else keys_at k (slot_at e s.expiration_queue))

  -- One of the two loops.
  delete_kind_lem :
      (k : Kind) (index : Dict ℕ (M × ℕ)) (q : Queue) (t : ℕ)
      → HasUniqueKeys (keys_at k (slot_at t q))
      → IsLinked k index q
      → (index' : Dict ℕ (M × ℕ)) × (delete_kind k (slot_at t q) index ≡ some index')
        × ((key : ℕ) → lookup key index' ≡ survives t (lookup key index))
  unfolding delete_kind IsLinked
  delete_kind_lem k index q t u h =
      let (index', e, l) =
        delete_keys_lem (keys_at k (slot_at t q)) index u
          (λ j m. due_present t (lookup j index) (sym (h t j) ∙ m)) in
      (index', e, λ j. l j ∙ ap (λ b. if b then none else lookup j index) (h t j))
    where
      due_present : (t : ℕ) (o : Option (M × ℕ)) → due t o ≡ true → is_some o ≡ true
      due_present t none d = cc
      due_present t (some p) d = refl

  IsLinked-swept :
      (k : Kind) (t : ℕ) (index index' : Dict ℕ (M × ℕ)) (q q' : Queue)
      → IsLinked k index q
      → ((key : ℕ) → lookup key index' ≡ survives t (lookup key index))
      → ((e : ℕ) → keys_at k (slot_at e q') ≡ (if t == e then [] else keys_at k (slot_at e q)))
      → IsLinked k index' q'
  unfolding IsLinked
  IsLinked-swept k t index index' q q' h l r e key =
      ap (contains key) (r e)
      ∙ (elim (Bool-cases (t == e)) [
        | inl same ↦ rw (same, lookup-empty {V = ℕ} key) refl
        | inr differ ↦ rw differ (h e key)
      ]
          ∙ (sym (due-survives e t (lookup key index)) ∙ sym (ap (due e) (l key))))

  IsAhead-swept :
      (t t' : ℕ) (index index' : Dict ℕ (M × ℕ))
      → IsAhead t index
      → t' ≡ t + 1
      → ((key : ℕ) → lookup key index' ≡ survives t (lookup key index))
      → IsAhead t' index'
  unfolding IsAhead
  IsAhead-swept t t' index index' h p l e key d =
      let left : due e (survives t (lookup key index)) ≡ true = sym (ap (due e) (l key)) ∙ d in
      ground (arith, due-survives e t (lookup key index), h e key)

  IsCoherent-swept :
      (s s' : Cache M) → IsCoherent s → IsSwept s s' → IsUnqueued s s' → IsCoherent s'
  unfolding IsUnqueued
  IsCoherent-swept s s' h w u = record {
    refs_linked =
        IsLinked-swept state_reference s.expiration_timer s.state_reference_index
          s'.state_reference_index s.expiration_queue s'.expiration_queue h.refs_linked w.refs_swept
          (u state_reference);
    ids_linked =
        IsLinked-swept msg_id s.expiration_timer s.msg_id_index s'.msg_id_index s.expiration_queue
          s'.expiration_queue h.ids_linked w.ids_swept (u msg_id);
    refs_ahead =
        IsAhead-swept s.expiration_timer s'.expiration_timer s.state_reference_index
          s'.state_reference_index h.refs_ahead w.ticked w.refs_swept;
    ids_ahead =
        IsAhead-swept s.expiration_timer s'.expiration_timer s.msg_id_index s'.msg_id_index
          h.ids_ahead w.ticked w.ids_swept;
    unique_keys = λ k e. rw (u k e) (elim (Bool-cases (s.expiration_timer == e)) [
      | inl same ↦ rw same tt
      | inr differ ↦ rw differ (h.unique_keys k e)
    ]);
  }

  -- The clock never lets a `KeyError` escape: one tick removes from both indices what expires at the
  -- tick that is over, nothing else, advances the clock and keeps the invariant.
  pub expire_caches_lem :
      (s : Cache M)
      → IsCoherent s
      → (s' : Cache M) × (expire_caches s ≡ done s') × IsSwept s s' × IsCoherent s'
  unfolding expire_caches IsUnqueued
  expire_caches_lem s h = elim (Option-cases (lookup s.expiration_timer s.expiration_queue)) [
    | inl e ↦
        let s' = record s { expiration_timer = s.expiration_timer + 1 } in
        let idle : (k : Kind) → keys_at k (slot_at s.expiration_timer s.expiration_queue) ≡ [] =
          λ k. rw e (ap (λ o. Option.get_or o []) (lookup-empty {V = Dict ℕ ℕ} k)) in
        let w : IsSwept s s' = record {
          refs_swept = λ key. sym (
              none_due s.expiration_timer (lookup key s.state_reference_index) (
                linked_none state_reference s.state_reference_index s.expiration_queue
                  s.expiration_timer key h.refs_linked (idle state_reference)));
          ids_swept = λ key. sym (
              none_due s.expiration_timer (lookup key s.msg_id_index) (
                linked_none msg_id s.msg_id_index s.expiration_queue s.expiration_timer key
                  h.ids_linked (idle msg_id)));
          handles_kept = refl;
          ticked = refl;
        } in
        (
          s',
          ap (expire_slot s) e,
          w,
          IsCoherent-swept s s' h w (λ k i. elim (Bool-cases (s.expiration_timer == i)) [
            | inl same ↦ rw same (rw (← (==_iff s.expiration_timer i).0 same) (idle k))
            | inr differ ↦ rw differ refl
          ]),
        )
    | inr (slot, e) ↦
        let t = s.expiration_timer in
        let (refs, er, lr) =
          delete_kind_lem state_reference s.state_reference_index s.expiration_queue t
            (h.unique_keys state_reference t) h.refs_linked in
        let (ids, ei, li) =
          delete_kind_lem msg_id s.msg_id_index s.expiration_queue t (h.unique_keys msg_id t)
            h.ids_linked in
        let s' = record s {
          state_reference_index = refs;
          msg_id_index = ids;
          expiration_queue = remove t s.expiration_queue;
          expiration_timer = t + 1;
        } in
        let w : IsSwept s s' = record {
          refs_swept = lr;
          ids_swept = li;
          handles_kept = refl;
          ticked = refl;
        } in
        let same : slot_at t s.expiration_queue ≡ slot = ap (λ o. Option.get_or o []) e in
        (
          s',
          ap (expire_slot s) e
              ∙ ap₂ (expired s)
                  (ap (λ (u : Slot). delete_kind state_reference u s.state_reference_index)
                      (sym same)
                    ∙ er)
                  (ap (λ (u : Slot). delete_kind msg_id u s.msg_id_index) (sym same) ∙ ei),
          w,
          IsCoherent-swept s s' h w (λ k i. keys_at-remove k t i s.expiration_queue),
        )
  ]
    where
      none_due : (t : ℕ) (o : Option (M × ℕ)) → due t o ≡ false → survives t o ≡ o
      none_due t o d = rw d refl

      linked_none :
          (k : Kind) (index : Dict ℕ (M × ℕ)) (q : Queue) (t key : ℕ)
          → IsLinked k index q
          → keys_at k (slot_at t q) ≡ []
          → due t (lookup key index) ≡ false
      linked_none k index q t key l e =
          sym (IsLinked-at k index q t key l)
          ∙ (ap (contains key) e ∙ ap is_some (lookup-empty {V = ℕ} key))
