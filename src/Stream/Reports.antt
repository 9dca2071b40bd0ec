-- ===== src/Stream/Reports.antt =====
-- What the loss of a connection, or a failure to connect, drops is reported to the error callback; closing
-- the transport drops messages without a report.
use pysnmp.Stream.State.{
  Address, Carrier, Connection, Reason, closed, is_connection, is_empty_list, not_connected, report,
  waiting_for,
}
use pysnmp.Base.Eq.{Eq, nat_eq}
use pysnmp.Base.Dict.{lookup}
use pysnmp.Base.{
  Bool-cases, List, Option, [], ap, false, inl, inr, none, refl, some, true, ℕ, ◌++◌, ◌∙◌, ◌∷◌, ◌≡◌,
  ◌≢◌,
}
use pysnmp.Stream.{
  close_protocol, connect_failed, connect_finished, connection_lost, discard_queued_messages,
  fail_queued_messages, forget_connection, lost_of, report_error,
}
use pysnmp.Stream.Order.{waiting_for-still_waiting}
use pysnmp.Stream.Events.{
  Event, closed_down, drops, finished, gave_up, is_shutdown, loses, lost, made, received, send,
  step, unreachable,
}

non_empty : {A : Type 0} (xs : List A) → xs ≢ [] → is_empty_list xs ≡ false
non_empty [] some_wait = absurd (some_wait refl)
non_empty (x ∷ xs) some_wait = refl

module _ {K M : Type 0} ⦃ek : Eq K⦄ where
  -- One report to a peer has been added, and nothing waits for the peer.
  pub record IsReported (k : K) (s t : Carrier K M) : Type 0 where
    pub address : Address K
    pub reason : Reason
    pub of_peer : address.key ≡ k
    pub reported : t.scheduled ≡ s.scheduled ++ report address reason ∷ []
    pub dropped : waiting_for k t.write_queue ≡ []

  report-scheduled :
      (a : Address K) (reason : Reason) (s : Carrier K M)
      → s.has_error_callback ≡ true
      → (report_error a reason s).scheduled ≡ s.scheduled ++ report a reason ∷ []
  unfolding report_error
  report-scheduled a reason s heard = rw heard refl

  report-waiting :
      (k : K) (a : Address K) (reason : Reason) (s : Carrier K M)
      → waiting_for k (report_error a reason s).write_queue ≡ waiting_for k s.write_queue
  unfolding report_error
  report-waiting k a reason s = elim (Bool-cases s.has_error_callback) [
    | inl heard ↦ rw heard refl
    | inr unheard ↦ rw unheard refl
  ]

  discard-waiting :
      (k j : K) (s : Carrier K M)
      → ek.beq j k ≡ true
      → waiting_for k (discard_queued_messages j s).write_queue ≡ []
  discard-waiting k j s same = rw (waiting_for-still_waiting k j s.write_queue, same) refl

  forget_lem :
      (id : ℕ) (j : K) (s : Carrier K M)
      → ((forget_connection id j s).scheduled ≡ s.scheduled)
        × ((forget_connection id j s).has_error_callback ≡ s.has_error_callback)
  forget_lem id j s = elim (Bool-cases (is_connection (lookup j s.connections) id)) [
    | inl same ↦ rw same (refl, refl)
    | inr differ ↦ rw differ (refl, refl)
  ]

  lost-IsReported :
      (k : K) (id : ℕ) (s : Carrier K M)
      → s.has_error_callback ≡ true
      → drops k (lost id) s ≡ true
      → IsReported k s (connection_lost id s)
  unfolding connection_lost
  lost-IsReported k id s heard = of_found (lookup id s.protocols)
    where
      of_found :
          (found : Option (Connection K))
          → loses k found ≡ true
          → IsReported k s (lost_of id found s)
      of_found none gone = cc
      of_found (some c) gone =
          let rest : Carrier K M = forget_connection id c.address.key (close_protocol id s) in
          let same = forget_lem id c.address.key (close_protocol id s) in
          record {
            address = c.address;
            reason = closed;
            of_peer = (ek.beq_iff c.address.key k).0 gone;
            reported =
                report-scheduled c.address closed (discard_queued_messages c.address.key rest)
                  (same.1 ∙ heard)
                ∙ ap (λ l. l ++ report c.address closed ∷ []) same.0;
            dropped =
                report-waiting k c.address closed (discard_queued_messages c.address.key rest)
                ∙ discard-waiting k c.address.key rest gone;
          }

  unreachable-IsReported :
      (k : K) (a : Address K) (s : Carrier K M)
      → s.has_error_callback ≡ true
      → waiting_for k s.write_queue ≢ []
      → ek.beq a.key k ≡ true
      → IsReported k s (connect_failed a s)
  unfolding connect_failed fail_queued_messages connect_finished
  unreachable-IsReported k a s heard waits same =
      let found : is_empty_list (waiting_for a.key s.write_queue) ≡ false =
        rw ((ek.beq_iff a.key k).0 same) (non_empty _ waits) in
      let rest : Carrier K M = discard_queued_messages a.key s in
      rw found record {
        address = a;
        reason = not_connected;
        of_peer = (ek.beq_iff a.key k).0 same;
        reported = report-scheduled a not_connected rest heard;
        dropped = report-waiting k a not_connected rest ∙ discard-waiting k a.key s same;
      }

  -- If an event other than closing the transport drops messages of the stream carrier that wait for a peer (a
  -- connection of it is lost, or none could be made), and an error callback is registered, then exactly one
  -- report goes to it, with an address of the peer, and nothing waits for the peer any more.
  pub dropped-IsReported :
      (k : K) (e : Event K M) (s : Carrier K M)
      → is_shutdown e ≡ false
      → s.has_error_callback ≡ true
      → waiting_for k s.write_queue ≢ []
      → drops k e s ≡ true
      → IsReported k s (step e s).1
  unfolding step
  dropped-IsReported k (send m a) s running heard waits d = cc
  dropped-IsReported k (made id a) s running heard waits d = cc
  dropped-IsReported k (lost id) s running heard waits d = lost-IsReported k id s heard d
  dropped-IsReported k (gave_up id reason) s running heard waits d = cc
  dropped-IsReported k (received id m) s running heard waits d = cc
  dropped-IsReported k (finished j) s running heard waits d = cc
  dropped-IsReported k (unreachable a) s running heard waits d =
      unreachable-IsReported k a s heard waits d
  dropped-IsReported k closed_down s running heard waits d = cc
