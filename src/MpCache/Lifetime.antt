-- ===== src/MpCache/Lifetime.antt =====
-- How long a message in progress is remembered, and what is left of it when it is not.
use pysnmp.Base.{
  ==_iff, ap, ap₂, arith, false, if◌then◌else◌, leb, none, refl, some, true, ℕ, ◌+◌, ◌<◌, ◌∙◌, ◌≡◌,
  ◌≤◌,
}
use pysnmp.Base.Eq.{nat_eq}
use pysnmp.Base.Dict.{contains, contains-insert, lookup, lookup-insert, lookup-remove}
use pysnmp.MpCache.{
  Cache, Outcome, done, dropped, pop_by_msg_id, pop_by_send_pdu_handle, pop_handle_entry,
  pop_id_entry, protocol_error, push_by_msg_id, push_by_state_ref,
}
use pysnmp.MpCache.Coherent.{IsCoherent}
use pysnmp.MpCache.Coherent.Push.{pop_by_msg_id_lem, push_by_msg_id_lem, push_by_state_ref_lem}
use pysnmp.MpCache.Ticks.{left_after, ticks, ticks_lem}

module _ {M : Type 0} where
  -- A call that returns in a state where a property holds.
  abbrev pub ReturnsIn : (Cache M → Type 0) → Outcome (Cache M) → Type 0
  ReturnsIn P o = (s' : Cache M) × (o ≡ done s') × P s'

  -- A request pushed under a new state reference is there through 600 ticks and gone after the next.
  pub state_ref_lifetime :
      (ref : ℕ) (info : M) (s : Cache M) (n : ℕ)
      → IsCoherent s
      → contains ref s.state_reference_index ≡ false
      → ReturnsIn
          (λ pushed.
            ReturnsIn
              (λ s'.
                lookup ref s'.state_reference_index
                ≡ (if leb n 600 then some (info, s.expiration_timer + 600) else none))
              (ticks n pushed))
          (push_by_state_ref ref info s)
  state_ref_lifetime ref info s n h new =
      let (p, e, c, i, t) = push_by_state_ref_lem ref info s h new in
      let (s', e', c', t', k, r, d) = ticks_lem n p c in
      let found : lookup ref p.state_reference_index ≡ some (info, s.expiration_timer + 600) =
        ap (lookup ref) i
        ∙ (lookup-insert ref ref (info, s.expiration_timer + 600) s.state_reference_index
            ∙ rw ((==_iff ref ref).1 refl) refl) in
      (p, e, (s', e', r ref ∙ (ap₂ (left_after n) t found ∙ left)))
    where
      left :
          left_after n s.expiration_timer (some (info, s.expiration_timer + 600))
          ≡ (if leb n 600 then some (info, s.expiration_timer + 600) else none)
      left = ground arith

  module _ (send_pdu_handle : M → ℕ) where
    -- A message ID that is not held raises `ProtocolError`, and so does a handle that names it.
    missing_id_raises :
        (handle id : ℕ) (s : Cache M)
        → lookup handle s.send_pdu_handle_idx ≡ some id
        → lookup id s.msg_id_index ≡ none
        → pop_by_send_pdu_handle send_pdu_handle handle s ≡ protocol_error
    unfolding pop_by_send_pdu_handle pop_by_msg_id
    missing_id_raises handle id s k e =
        ap (pop_handle_entry send_pdu_handle s) k
        ∙ ap (λ o. dropped send_pdu_handle (pop_id_entry send_pdu_handle id s o)) e

    -- Expiry does not forget the handle of a message: from the 601st tick on, releasing a request by
    -- its handle raises `ProtocolError`.
    pub stale_handle_raises :
        (id : ℕ) (info : M) (s : Cache M) (n : ℕ)
        → IsCoherent s
        → contains id s.msg_id_index ≡ false
        → 600 < n
        → ReturnsIn
            (λ pushed.
              ReturnsIn
                (λ s'.
                  pop_by_send_pdu_handle send_pdu_handle (send_pdu_handle info) s' ≡ protocol_error)
                (ticks n pushed))
            (push_by_msg_id send_pdu_handle id info s)
    stale_handle_raises id info s n h new late =
        let t0 = s.expiration_timer + 600 in
        let (p, e, c, i, k, t) = push_by_msg_id_lem send_pdu_handle id info s h new in
        let (s', e', c', t', k', r, d) = ticks_lem n p c in
        let found : lookup id p.msg_id_index ≡ some (info, t0) =
          ap (lookup id) i
          ∙ (lookup-insert id id (info, t0) s.msg_id_index ∙ rw ((==_iff id id).1 refl) refl) in
        let named : lookup (send_pdu_handle info) s'.send_pdu_handle_idx ≡ some id =
          ap (lookup (send_pdu_handle info)) (k' ∙ k)
          ∙ (lookup-insert (send_pdu_handle info) (send_pdu_handle info) id s.send_pdu_handle_idx
              ∙ rw ((==_iff (send_pdu_handle info) (send_pdu_handle info)).1 refl) refl) in
        let raised =
          missing_id_raises (send_pdu_handle info) id s' named
            (d id ∙ (ap₂ (left_after n) t found ∙ gone)) in
        (p, e, (s', e', raised))
      where
        gone : left_after n s.expiration_timer (some (info, s.expiration_timer + 600)) ≡ none
        gone = ground arith

    -- Between push and pop: a message popped by its ID after at most 600 ticks is the one pushed, and
    -- popping it again raises `ProtocolError`.
    pub push-pop_by_msg_id :
        (id : ℕ) (info : M) (s : Cache M) (n : ℕ)
        → IsCoherent s
        → contains id s.msg_id_index ≡ false
        → n ≤ 600
        → ReturnsIn
            (λ pushed.
              ReturnsIn
                (λ s'.
                  (s'' : Cache M) × (pop_by_msg_id send_pdu_handle id s' ≡ done (info, s''))
                  × (pop_by_msg_id send_pdu_handle id s'' ≡ protocol_error))
                (ticks n pushed))
            (push_by_msg_id send_pdu_handle id info s)
    unfolding pop_by_msg_id
    push-pop_by_msg_id id info s n h new soon =
        let t0 = s.expiration_timer + 600 in
        let (p, e, c, i, k, t) = push_by_msg_id_lem send_pdu_handle id info s h new in
        let (s', e', c', t', k', r, d) = ticks_lem n p c in
        let found : lookup id p.msg_id_index ≡ some (info, t0) =
          ap (lookup id) i
          ∙ (lookup-insert id id (info, t0) s.msg_id_index ∙ rw ((==_iff id id).1 refl) refl) in
        let named : contains (send_pdu_handle info) s'.send_pdu_handle_idx ≡ true =
          ap (contains (send_pdu_handle info)) (k' ∙ k)
          ∙ (contains-insert (send_pdu_handle info) (send_pdu_handle info) id s.send_pdu_handle_idx
              ∙ rw ((==_iff (send_pdu_handle info) (send_pdu_handle info)).1 refl) refl) in
        let (s'', e'', c'', i'') =
          pop_by_msg_id_lem send_pdu_handle id s' info t0 c'
            (d id ∙ (ap₂ (left_after n) t found ∙ kept)) named in
        let removed : lookup id s''.msg_id_index ≡ none =
          ap (lookup id) i''
          ∙ (lookup-remove id id s'.msg_id_index ∙ rw ((==_iff id id).1 refl) refl) in
        let again : pop_by_msg_id send_pdu_handle id s'' ≡ protocol_error =
          ap (pop_id_entry send_pdu_handle id s'') removed in
        (p, e, (s', e', (s'', e'', again)))
      where
        kept :
            left_after n s.expiration_timer (some (info, s.expiration_timer + 600))
            ≡ some (info, s.expiration_timer + 600)
        kept = ground arith
