-- ===== src/Stream/Account.antt =====
-- Any sequence of calls on the stream carrier: what has been written to a peer and what waits for it are the
-- messages to it that were taken, in order.
use mathlib.Core.List.{append_assoc, append-nil}
use pysnmp.Stream.State.{
  Address, Carrier, Connection, Reason, closed, is_connection, is_empty_list, not_connected,
  waiting_for,
}
use pysnmp.Base.Eq.{Eq, nat_eq}
use pysnmp.Base.{
  Bool-cases, List, Option, [], ap, false, inl, inr, is_some, none, not, refl, some, sym, true, ℕ,
  ◌++◌, ◌∙◌, ◌∷◌, ◌≡◌,
}
use pysnmp.Stream.{
  close_protocol, connect_failed, connect_finished, connection_failed, connection_lost,
  discard_queued_messages, fail_queued_messages, failed_of, forget_connection, lost_of,
  message_received, received_of, report_error,
}
use pysnmp.Stream.Events.{
  Event, Keeps, all_taken, closed_down, drops, finished, gave_up, is_new, loses, lost, made,
  received, run, send, step, taken, unreachable,
}
use pysnmp.Stream.Order.{
  IsOrderly, account, made-IsOrderly, made-account, waiting_for-still_waiting,
}
use pysnmp.Base.Dict.{lookup}
use pysnmp.Stream.Open.{is_open_to}
use pysnmp.Stream.Kept.{
  finished-IsOrderly, gave_up-IsOrderly, lost-IsOrderly, received-IsOrderly, unreachable-IsOrderly,
}
use pysnmp.Stream.Sent.{send-IsOrderly, send-account}

nothing_there : {A : Type 0} (found : Option A) → not (is_some found) ≡ true → found ≡ none
nothing_there none e = refl
nothing_there (some x) e = cc

module _ {K M : Type 0} ⦃ek : Eq K⦄ where
  step-IsOrderly :
      (k : K) (e : Event K M) (s : Carrier K M)
      → is_new e s ≡ true
      → drops k e s ≡ false
      → IsOrderly s
      → IsOrderly (step e s).1
  unfolding step
  step-IsOrderly k (send m a) s n d o = send-IsOrderly m a s o
  step-IsOrderly k (made id a) s n d o = made-IsOrderly id a s (nothing_there _ n) o
  step-IsOrderly k (lost id) s n d o = lost-IsOrderly id s o
  step-IsOrderly k (gave_up id reason) s n d o = gave_up-IsOrderly id reason s o
  step-IsOrderly k (received id m) s n d o = received-IsOrderly id m s o
  step-IsOrderly k (finished j) s n d o = finished-IsOrderly j s o
  step-IsOrderly k (unreachable a) s n d o = unreachable-IsOrderly a s o
  step-IsOrderly k closed_down s n d o = cc

  report-account :
      (k : K) (a : Address K) (reason : Reason) (s : Carrier K M)
      → account k (report_error a reason s) ≡ account k s
  unfolding report_error
  report-account k a reason s = elim (Bool-cases s.has_error_callback) [
    | inl heard ↦ rw heard refl
    | inr unheard ↦ rw unheard refl
  ]

  discard-account :
      (k j : K) (s : Carrier K M)
      → ek.beq j k ≡ false
      → account k (discard_queued_messages j s) ≡ account k s
  discard-account k j s other = rw (waiting_for-still_waiting k j s.write_queue, other) refl

  forget-account :
      (k j : K) (id : ℕ) (s : Carrier K M) → account k (forget_connection id j s) ≡ account k s
  forget-account k j id s = elim (Bool-cases (is_connection (lookup j s.connections) id)) [
    | inl same ↦ rw same refl
    | inr differ ↦ rw differ refl
  ]

  lost-account :
      (k : K) (id : ℕ) (s : Carrier K M)
      → drops k (lost id) s ≡ false
      → account k (connection_lost id s) ≡ account k s
  unfolding connection_lost
  lost-account k id s = of_found (lookup id s.protocols)
    where
      of_found :
          (found : Option (Connection K))
          → loses k found ≡ false
          → account k (lost_of id found s) ≡ account k s
      of_found none other = refl
      of_found (some c) other =
          let gone : Carrier K M = forget_connection id c.address.key (close_protocol id s) in
          report-account k c.address closed (discard_queued_messages c.address.key gone)
          ∙ discard-account k c.address.key gone other
          ∙ forget-account k c.address.key id (close_protocol id s)

  unreachable-account :
      (k : K) (a : Address K) (s : Carrier K M)
      → drops k (unreachable a) s ≡ false
      → account k (connect_failed a s) ≡ account k s
  unfolding connect_failed fail_queued_messages connect_finished
  unreachable-account k a s other =
      elim (Bool-cases (is_empty_list (waiting_for a.key s.write_queue))) [
        | inl nothing ↦ rw nothing (discard-account k a.key s other)
        | inr some_wait ↦
            rw some_wait (report-account k a not_connected _ ∙ discard-account k a.key s other)
      ]

  gave_up-account :
      (k : K) (id : ℕ) (reason : Reason) (s : Carrier K M)
      → account k (connection_failed id reason s) ≡ account k s
  unfolding connection_failed
  gave_up-account k id reason s = of_found (lookup id s.protocols)
    where
      of_found :
          (found : Option (Connection K)) → account k (failed_of id reason found s) ≡ account k s
      of_found none = refl
      of_found (some c) = report-account k c.address reason _

  received-account :
      (k : K) (id : ℕ) (m : M) (s : Carrier K M)
      → account k (message_received id m s).1 ≡ account k s
  unfolding message_received
  received-account k id m s = of_found (lookup id s.protocols)
    where
      of_found : (found : Option (Connection K)) → account k (received_of m found s).1 ≡ account k s
      of_found none = refl
      of_found (some c) = elim (Bool-cases s.has_callback) [
        | inl heard ↦ rw heard refl
        | inr unheard ↦ rw unheard refl
      ]

  step-account :
      (k : K) (e : Event K M) (s : Carrier K M)
      → IsOrderly s
      → drops k e s ≡ false
      → account k (step e s).1 ≡ account k s ++ taken k e s
  unfolding step connect_finished
  step-account k (send m a) s o d = send-account k m a s o
  step-account k (made id a) s o d = made-account k id a s ∙ sym (append-nil _)
  step-account k (lost id) s o d = lost-account k id s d ∙ sym (append-nil _)
  step-account k (gave_up id reason) s o d = gave_up-account k id reason s ∙ sym (append-nil _)
  step-account k (received id m) s o d = received-account k id m s ∙ sym (append-nil _)
  step-account k (finished j) s o d = sym (append-nil _)
  step-account k (unreachable a) s o d = unreachable-account k a s d ∙ sym (append-nil _)
  step-account k closed_down s o d = cc

  -- If the stream carrier is orderly (connections in the table belong to the peers that they are listed for,
  -- and nothing waits for a peer whose connection is open), if every connection that is made is a new one,
  -- and if no event drops what waits for the peer k, then after any sequence of events what has been written
  -- to k followed by what waits for k is what it was before, followed by the messages to k whose sending
  -- returned, in order; and if the connection to k is open, nothing waits.
  pub messages_leave_in_order :
      (k : K) (es : List (Event K M)) (s : Carrier K M)
      → IsOrderly s
      → Keeps k es s
      → (account k (run es s) ≡ account k s ++ all_taken k es s)
        × (is_open_to k (run es s) ≡ true → waiting_for k (run es s).write_queue ≡ [])
  unfolding run all_taken
  messages_leave_in_order k [] s o keeps = (sym (append-nil _), o.drained k)
  messages_leave_in_order k (e ∷ es) s o (new, kept, keeps) =
      let rest =
        messages_leave_in_order k es (step e s).1 (step-IsOrderly k e s new kept o) keeps in
      (
        rest.0
            ∙ ap (λ t. t ++ all_taken k es (step e s).1) (step-account k e s o kept)
            ∙ append_assoc (account k s) (taken k e s) (all_taken k es (step e s).1),
        rest.1,
      )
