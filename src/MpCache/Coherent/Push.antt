-- ===== src/MpCache/Coherent/Push.antt =====
-- The invariant of the cache is kept by its pushes and pops.
use pysnmp.Base.{==_iff, ap, false, refl, some, true, ℕ, ◌+◌, ◌∙◌, ◌≡◌}
use pysnmp.Base.Eq.{nat_eq}
use pysnmp.Base.Dict.{contains, insert, lookup, remove}
use pysnmp.MpCache.{
  Cache, done, init, keys_at, kind_eq, msg_id, pop_by_msg_id, pop_by_state_ref, pop_id_entry,
  pop_ref_entry, popped_id, popped_ref, push_by_msg_id, push_by_state_ref, schedule, slot_at,
  state_reference,
}
use pysnmp.MpCache.Queue.{schedule-HasUniqueKeys, unschedule-HasUniqueKeys, unschedule-queued}
use pysnmp.MpCache.Coherent.{
  IsAhead, IsAhead-pop, IsAhead-push, IsCoherent, IsLinked, IsLinked-pop, IsLinked-pop_other,
  IsLinked-push, IsLinked-push_other, IsLinked-waits, due,
}

module _ {M : Type 0} where
  pub init-IsCoherent : IsCoherent (init {M = M})
  unfolding lookup IsLinked IsAhead
  init-IsCoherent = record {
    refs_linked = λ e key. refl;
    ids_linked = λ e key. refl;
    refs_ahead = λ e key h. cc;
    ids_ahead = λ e key h. cc;
    unique_keys = λ k e. tt;
  }

  -- A push under a new reference succeeds and keeps the invariant.
  pub push_by_state_ref_lem :
      (ref : ℕ) (info : M) (s : Cache M)
      → IsCoherent s
      → contains ref s.state_reference_index ≡ false
      → (s' : Cache M) × (push_by_state_ref ref info s ≡ done s')
        × IsCoherent s'
        × (s'.state_reference_index
            ≡ insert ref (info, s.expiration_timer + 600) s.state_reference_index)
        × (s'.expiration_timer ≡ s.expiration_timer)
  unfolding push_by_state_ref
  push_by_state_ref_lem ref info s h n =
      let t = s.expiration_timer + 600 in
      let s' = record s {
        state_reference_index = insert ref (info, t) s.state_reference_index;
        expiration_queue = schedule state_reference t ref s.expiration_queue;
      } in
      (
        s',
        rw n refl,
        record {
          refs_linked =
              IsLinked-push state_reference s.state_reference_index s.expiration_queue ref t info
                h.refs_linked n;
          ids_linked =
              IsLinked-push_other msg_id s.msg_id_index s.expiration_queue state_reference ref t
                h.ids_linked refl;
          refs_ahead =
              IsAhead-push s.expiration_timer ref info s.state_reference_index h.refs_ahead;
          ids_ahead = h.ids_ahead;
          unique_keys = λ k e.
              schedule-HasUniqueKeys state_reference k t e ref s.expiration_queue h.unique_keys;
        },
        refl,
        refl,
      )

  -- A pop of a reference that is held returns what was pushed, and the reference is gone.
  pub pop_by_state_ref_lem :
      (ref : ℕ) (s : Cache M) (info : M) (t : ℕ)
      → IsCoherent s
      → lookup ref s.state_reference_index ≡ some (info, t)
      → (s' : Cache M) × (pop_by_state_ref ref s ≡ done (info, s'))
        × IsCoherent s'
        × (s'.state_reference_index ≡ remove ref s.state_reference_index)
  unfolding pop_by_state_ref
  pop_by_state_ref_lem ref s info t h found =
      let q = s.expiration_queue in
      let waiting =
        IsLinked-waits state_reference s.state_reference_index q ref t info h.refs_linked found in
      let e = unschedule-queued state_reference t ref q waiting in
      let q' =
        insert t
          (insert state_reference (remove ref (keys_at state_reference (slot_at t q)))
            (slot_at t q))
          q in
      let held : due t (lookup ref s.state_reference_index) ≡ true =
        ap (due t) found ∙ (==_iff t t).1 refl in
      (
        record s {
          state_reference_index = remove ref s.state_reference_index;
          expiration_queue = q';
        },
        ap (pop_ref_entry ref s) found ∙ ap (popped_ref ref info s) e,
        record {
          refs_linked =
              IsLinked-pop state_reference s.state_reference_index q ref t q' h.refs_linked held e;
          ids_linked =
              IsLinked-pop_other msg_id state_reference s.msg_id_index q q' ref t h.ids_linked refl
                waiting e;
          refs_ahead = IsAhead-pop s.expiration_timer ref s.state_reference_index h.refs_ahead;
          ids_ahead = h.ids_ahead;
          unique_keys = λ k i.
              unschedule-HasUniqueKeys state_reference k t i ref q q' waiting e h.unique_keys;
        },
        refl,
      )

  module _ (send_pdu_handle : M → ℕ) where
    pub push_by_msg_id_lem :
        (id : ℕ) (info : M) (s : Cache M)
        → IsCoherent s
        → contains id s.msg_id_index ≡ false
        → (s' : Cache M) × (push_by_msg_id send_pdu_handle id info s ≡ done s')
          × IsCoherent s'
          × (s'.msg_id_index ≡ insert id (info, s.expiration_timer + 600) s.msg_id_index)
          × (s'.send_pdu_handle_idx ≡ insert (send_pdu_handle info) id s.send_pdu_handle_idx)
          × (s'.expiration_timer ≡ s.expiration_timer)
    unfolding push_by_msg_id
    push_by_msg_id_lem id info s h n =
        let t = s.expiration_timer + 600 in
        let s' = record s {
          msg_id_index = insert id (info, t) s.msg_id_index;
          send_pdu_handle_idx = insert (send_pdu_handle info) id s.send_pdu_handle_idx;
          expiration_queue = schedule msg_id t id s.expiration_queue;
        } in
        (
          s',
          rw n refl,
          record {
            refs_linked =
                IsLinked-push_other state_reference s.state_reference_index s.expiration_queue
                  msg_id id t h.refs_linked refl;
            ids_linked =
                IsLinked-push msg_id s.msg_id_index s.expiration_queue id t info h.ids_linked n;
            refs_ahead = h.refs_ahead;
            ids_ahead = IsAhead-push s.expiration_timer id info s.msg_id_index h.ids_ahead;
            unique_keys =
                λ k e. schedule-HasUniqueKeys msg_id k t e id s.expiration_queue h.unique_keys;
          },
          refl,
          refl,
          refl,
        )

    -- A pop of a message ID that is held returns what was pushed, if its handle is still known.
    pub pop_by_msg_id_lem :
        (id : ℕ) (s : Cache M) (info : M) (t : ℕ)
        → IsCoherent s
        → lookup id s.msg_id_index ≡ some (info, t)
        → contains (send_pdu_handle info) s.send_pdu_handle_idx ≡ true
        → (s' : Cache M) × (pop_by_msg_id send_pdu_handle id s ≡ done (info, s'))
          × IsCoherent s'
          × (s'.msg_id_index ≡ remove id s.msg_id_index)
    unfolding pop_by_msg_id
    pop_by_msg_id_lem id s info t h found known =
        let q = s.expiration_queue in
        let waiting = IsLinked-waits msg_id s.msg_id_index q id t info h.ids_linked found in
        let e = unschedule-queued msg_id t id q waiting in
        let q' =
          insert t (insert msg_id (remove id (keys_at msg_id (slot_at t q))) (slot_at t q)) q in
        let held : due t (lookup id s.msg_id_index) ≡ true =
          ap (due t) found ∙ (==_iff t t).1 refl in
        (
          record s {
            msg_id_index = remove id s.msg_id_index;
            send_pdu_handle_idx = remove (send_pdu_handle info) s.send_pdu_handle_idx;
            expiration_queue = q';
          },
          ap (pop_id_entry send_pdu_handle id s) found
              ∙ (rw known refl ∙ ap (popped_id send_pdu_handle id info s) e),
          record {
            refs_linked =
                IsLinked-pop_other state_reference msg_id s.state_reference_index q q' id t
                  h.refs_linked refl waiting e;
            ids_linked = IsLinked-pop msg_id s.msg_id_index q id t q' h.ids_linked held e;
            refs_ahead = h.refs_ahead;
            ids_ahead = IsAhead-pop s.expiration_timer id s.msg_id_index h.ids_ahead;
            unique_keys =
                λ k i. unschedule-HasUniqueKeys msg_id k t i id q q' waiting e h.unique_keys;
          },
          refl,
        )
