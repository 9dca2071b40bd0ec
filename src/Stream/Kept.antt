-- ===== src/Stream/Kept.antt =====
-- What the other steps of the stream carrier keep of its order: a closing socket, a forgotten connection,
-- a dropped queue and a message that is sent.
use pysnmp.Stream.State.{
  Address, Carrier, Connection, Reason, closed, is_connection, is_empty_list, not_connected,
  waiting_for,
}
use pysnmp.Base.Eq.{Eq, nat_eq}
use pysnmp.Base.Dict.{lookup, lookup-remove, remove}
use pysnmp.Base.{Bool-cases, Option, arith, false, inl, inr, none, some, true, ℕ, ◌==◌, ◌≡◌}
use pysnmp.Stream.Order.{IsOrderly, waiting_for-still_waiting}
use pysnmp.Stream.{
  close_protocol, connect_failed, connect_finished, connection_failed, connection_lost,
  discard_queued_messages, fail_queued_messages, failed_of, forget_connection, lost_of,
  message_received, received_of, report_error,
}
use pysnmp.Stream.Open.{is_open_at-shut, is_open_listed, is_open_to, key_of, key_of-shut}

module _ {K M : Type 0} ⦃ek : Eq K⦄ where
  close-is_open_listed :
      (id : ℕ) (s : Carrier K M) (entry : Option ℕ)
      → is_open_listed entry (close_protocol id s).protocols ≡ true
      → is_open_listed entry s.protocols ≡ true
  close-is_open_listed id s none was = was
  close-is_open_listed id s (some j) was = elim (Bool-cases (id == j)) [
    | inl same ↦
        let closes : false ≡ true = rw (is_open_at-shut id j s.protocols, same) at was in cc
    | inr differ ↦ rw (is_open_at-shut id j s.protocols, differ) at was
  ]

  close-IsOrderly : (id : ℕ) (s : Carrier K M) → IsOrderly s → IsOrderly (close_protocol id s)
  unfolding is_open_to
  close-IsOrderly id s o = record {
    listed_as = λ k j e. rw (key_of-shut id j s.protocols) (o.listed_as k j e);
    drained = λ k opened. o.drained k (close-is_open_listed id s (lookup k s.connections) opened);
  }

  -- A table with fewer connections.
  fewer-is_open_to :
      (k j : K) (s : Carrier K M)
      → is_open_to k (record s { connections = remove j s.connections }) ≡ true
      → is_open_to k s ≡ true
  unfolding is_open_to
  fewer-is_open_to k j s was = elim (Bool-cases (ek.beq j k)) [
    | inl same ↦ let closes : false ≡ true = rw (lookup-remove j k s.connections, same) at was in cc
    | inr differ ↦ rw (lookup-remove j k s.connections, differ) at was
  ]

  fewer-listed_as :
      (j : K) (s : Carrier K M)
      → IsOrderly s
      → (k : K) (id : ℕ) → lookup k (remove j s.connections) ≡ some id
      → key_of (lookup id s.protocols) ≡ some k
  fewer-listed_as j s o k id e = elim (Bool-cases (ek.beq j k)) [
    | inl same ↦ let gone : none ≡ some id = rw (lookup-remove j k s.connections, same) at e in cc
    | inr differ ↦ o.listed_as k id (rw (lookup-remove j k s.connections, differ) at e)
  ]

  fewer-IsOrderly :
      (j : K) (s : Carrier K M)
      → IsOrderly s
      → IsOrderly (record s { connections = remove j s.connections })
  fewer-IsOrderly j s o = record {
    listed_as = fewer-listed_as j s o;
    drained = λ k opened. o.drained k (fewer-is_open_to k j s opened);
  }

  forget-IsOrderly :
      (id : ℕ) (j : K) (s : Carrier K M) → IsOrderly s → IsOrderly (forget_connection id j s)
  forget-IsOrderly id j s o = elim (Bool-cases (is_connection (lookup j s.connections) id)) [
    | inl same ↦ rw same (fewer-IsOrderly j s o)
    | inr differ ↦ rw differ o
  ]

  discard-IsOrderly :
      (j : K) (s : Carrier K M) → IsOrderly s → IsOrderly (discard_queued_messages j s)
  unfolding is_open_to
  discard-IsOrderly j s o = record {
    listed_as = o.listed_as;
    drained = λ k opened.
        rw (waiting_for-still_waiting k j s.write_queue, o.drained k opened) (ground arith);
  }

  report-IsOrderly :
      (a : Address K) (reason : Reason) (s : Carrier K M)
      → IsOrderly s
      → IsOrderly (report_error a reason s)
  unfolding report_error is_open_to
  report-IsOrderly a reason s o = elim (Bool-cases s.has_error_callback) [
    | inl heard ↦ rw heard record { listed_as = o.listed_as; drained = o.drained }
    | inr unheard ↦ rw unheard record { listed_as = o.listed_as; drained = o.drained }
  ]

  pub lost-IsOrderly : (id : ℕ) (s : Carrier K M) → IsOrderly s → IsOrderly (connection_lost id s)
  unfolding connection_lost
  lost-IsOrderly id s o = of_found (lookup id s.protocols)
    where
      of_found : (found : Option (Connection K)) → IsOrderly (lost_of id found s)
      of_found none = o
      of_found (some c) = report-IsOrderly c.address closed _ (
          discard-IsOrderly c.address.key _
            (forget-IsOrderly id c.address.key _ (close-IsOrderly id s o)))

  pub gave_up-IsOrderly :
      (id : ℕ) (reason : Reason) (s : Carrier K M)
      → IsOrderly s
      → IsOrderly (connection_failed id reason s)
  unfolding connection_failed
  gave_up-IsOrderly id reason s o = of_found (lookup id s.protocols)
    where
      of_found : (found : Option (Connection K)) → IsOrderly (failed_of id reason found s)
      of_found none = o
      of_found (some c) = report-IsOrderly c.address reason _ (close-IsOrderly id s o)

  pub received-IsOrderly :
      (id : ℕ) (m : M) (s : Carrier K M) → IsOrderly s → IsOrderly (message_received id m s).1
  unfolding message_received is_open_to
  received-IsOrderly id m s o = of_found (lookup id s.protocols)
    where
      of_found : (found : Option (Connection K)) → IsOrderly (received_of m found s).1
      of_found none = o
      of_found (some c) = elim (Bool-cases s.has_callback) [
        | inl heard ↦ rw heard record { listed_as = o.listed_as; drained = o.drained }
        | inr unheard ↦ rw unheard record { listed_as = o.listed_as; drained = o.drained }
      ]

  pub finished-IsOrderly :
      (j : K) (s : Carrier K M) → IsOrderly s → IsOrderly (connect_finished j s)
  unfolding connect_finished is_open_to
  finished-IsOrderly j s o = record { listed_as = o.listed_as; drained = o.drained }

  pub unreachable-IsOrderly :
      (a : Address K) (s : Carrier K M) → IsOrderly s → IsOrderly (connect_failed a s)
  unfolding connect_failed fail_queued_messages
  unreachable-IsOrderly a s o =
      let rest = discard-IsOrderly a.key s o in
      elim (Bool-cases (is_empty_list (waiting_for a.key s.write_queue))) [
        | inl nothing ↦ rw nothing (finished-IsOrderly a.key _ rest)
        | inr some_wait ↦
            rw some_wait (finished-IsOrderly a.key _ (report-IsOrderly a not_connected _ rest))
      ]
