-- ===== src/Stream.antt =====
-- pysnmp/carrier/asyncio/stream/base.py: `StreamAsyncioTransport`, which keeps one connection for each
-- peer and the messages that wait for one. An address is the peer's and the local one that rides along;
-- connections are numbered. What is written to a socket and what is handed to `call_soon` are lists, in
-- order; sockets, the event loop and the tasks that run on it are outside.
pub mod Account
pub mod Events
pub mod Kept
pub mod Open
pub mod Sent
pub mod Order
pub mod Reports
pub mod State
mod Tests
use mathlib.Core.Option
use pysnmp.Stream.State.{
  Address, Carrier, Connection, Outcome, Reason, carrier_error, closed, deliver, is_connection,
  is_empty_list, not_connected, open_of, report, returned, shut, shut_all, still_waiting,
  waiting_for, without_key, writes,
}
use pysnmp.Base.Eq.{Eq, nat_eq}
use pysnmp.Base.Listed.{listed}
use pysnmp.Base.{Bool, Option, [], false, if◌then◌else◌, none, some, true, ℕ, ◌++◌, ◌∷◌}
use pysnmp.Base.Dict.{insert, lookup, remove}

module _ {K M : Type 0} ⦃ek : Eq K⦄ where
  -- `_reportError`
  unfoldable pub report_error : Address K → Reason → Carrier K M → Carrier K M
  report_error a reason s =
      if s.has_error_callback
      then record s { scheduled = s.scheduled ++ report a reason ∷ [] }
      else s

  -- `connection_made` of a new protocol and `_connectionMade`; the address carries the name of the socket.
  unfoldable pub connection_made : ℕ → Address K → Carrier K M → Carrier K M
  connection_made id a s = record s {
    protocols = insert id (record { address = a; is_open = true }) s.protocols;
    connections = insert a.key id s.connections;
    written = s.written ++ writes id a (waiting_for a.key s.write_queue);
    write_queue = still_waiting a.key s.write_queue;
  }

  abbrev pub close_protocol : ℕ → Carrier K M → Carrier K M
  close_protocol id s = record s { protocols = shut id (lookup id s.protocols) s.protocols }

  -- `_discardQueuedMessages`
  abbrev pub discard_queued_messages : K → Carrier K M → Carrier K M
  discard_queued_messages k s = record s { write_queue = still_waiting k s.write_queue }

  abbrev pub forget_connection : ℕ → K → Carrier K M → Carrier K M
  forget_connection id k s =
      if is_connection (lookup k s.connections) id
      then record s { connections = remove k s.connections }
      else s

  abbrev pub lost_of : ℕ → Option (Connection K) → Carrier K M → Carrier K M
  lost_of id none s = s
  lost_of id (some c) s = report_error c.address closed (
      discard_queued_messages c.address.key
        (forget_connection id c.address.key (close_protocol id s)))

  -- `_connectionLost`
  unfoldable pub connection_lost : ℕ → Carrier K M → Carrier K M
  connection_lost id s = lost_of id (lookup id s.protocols) s

  abbrev pub failed_of : ℕ → Reason → Option (Connection K) → Carrier K M → Carrier K M
  failed_of id reason none s = s
  failed_of id reason (some c) s = report_error c.address reason (close_protocol id s)

  -- `_connectionFailed`
  unfoldable pub connection_failed : ℕ → Reason → Carrier K M → Carrier K M
  connection_failed id reason s = failed_of id reason (lookup id s.protocols) s

  abbrev pub received_of : M → Option (Connection K) → Carrier K M → Outcome × Carrier K M
  received_of m none s = (returned, s)
  received_of m (some c) s =
      if s.has_callback
      then (returned, record s { scheduled = s.scheduled ++ deliver c.address m ∷ [] })
      else (carrier_error, s)

  -- `_messageReceived`
  unfoldable pub message_received : ℕ → M → Carrier K M → Outcome × Carrier K M
  message_received id m s = received_of m (lookup id s.protocols) s

  -- `_connect`: one task for each address.
  unfoldable pub connect : K → Carrier K M → Carrier K M
  connect k s = record s {
    connect_tasks = if listed k s.connect_tasks then s.connect_tasks else s.connect_tasks ++ k ∷ [];
  }

  -- The `finally` of `_connectAndFlush`.
  unfoldable pub connect_finished : K → Carrier K M → Carrier K M
  connect_finished k s = record s { connect_tasks = without_key k s.connect_tasks }

  -- `_failQueuedMessages`: a report only if something waited.
  unfoldable pub fail_queued_messages : Address K → Reason → Carrier K M → Carrier K M
  fail_queued_messages a reason s =
      let rest = discard_queued_messages a.key s in
      if is_empty_list (waiting_for a.key s.write_queue) then rest else report_error a reason rest

  -- `_connectAndFlush` where the connection could not be made.
  unfoldable pub connect_failed : Address K → Carrier K M → Carrier K M
  connect_failed a s = connect_finished a.key (fail_queued_messages a not_connected s)

  -- `getLocalAddress`
  abbrev pub get_local_address : Carrier K M → Option ℕ
  get_local_address s = elim s.server_address [ none ↦ s.unbound_address | some l ↦ some l ]

  -- `normalizeAddress`
  abbrev pub normalize_address : Address K → Carrier K M → Address K
  normalize_address a s = elim a.local [
    | none ↦ record a { local = get_local_address s }
    | some l ↦ a
  ]

  -- The connection to a peer, if it is open.
  abbrev pub connection_of : Carrier K M → Option ℕ → Option (ℕ × Connection K)
  connection_of s none = none
  connection_of s (some id) = Option.map (λ c. (id, c)) (open_of (lookup id s.protocols))

  abbrev pub open_connection : K → Carrier K M → Option (ℕ × Connection K)
  open_connection k s = connection_of s (lookup k s.connections)

  -- A message waits for a connection that a client dials.
  abbrev pub queue_for : Bool → M → Address K → Carrier K M → Outcome × Carrier K M
  queue_for true m a s =
      (returned, connect a.key (record s { write_queue = s.write_queue ++ (m, a) ∷ [] }))
  queue_for false m a s = (carrier_error, s)

  abbrev pub send_over :
      M → Address K → Option (ℕ × Connection K) → Carrier K M → Outcome × Carrier K M
  send_over m a (some (id, c)) s =
      (returned, record s { written = s.written ++ writes id c.address (m ∷ []) })
  send_over m a none s = queue_for s.client_mode m a s

  -- `sendMessage`
  unfoldable pub send_message : M → Address K → Carrier K M → Outcome × Carrier K M
  send_message m a s =
      let peer = normalize_address a s in send_over m peer (open_connection peer.key s) s

  -- `openClientMode`
  unfoldable pub open_client_mode : Carrier K M → Carrier K M
  open_client_mode s = record s { client_mode = true }

  -- `openServerMode` where the loop does not run yet: the address that was bound, if one was.
  unfoldable pub open_server_mode : Option ℕ → Carrier K M → Outcome × Carrier K M
  open_server_mode none s = (carrier_error, s)
  open_server_mode (some bound) s = (returned, record s { server_address = some bound })

  -- `closeTransport`
  unfoldable pub close_transport : Carrier K M → Carrier K M
  close_transport s = record s {
    connect_tasks = [];
    protocols = shut_all s.connections s.protocols;
    connections = [];
    server_address = none;
    write_queue = [];
    has_callback = false;
    has_error_callback = false;
  }
