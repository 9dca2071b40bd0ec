-- ===== src/Stream/Tests.antt =====
-- Runs of the stream carrier on a peer that connects late, and on one that does not.
use pysnmp.Base.{List, [], false, none, refl, some, true, ℕ, ◌++◌, ◌∷◌, ◌≡◌}
use pysnmp.Stream.State.{Address, Carrier, carrier_error, closed, init, report, waiting_for}
use pysnmp.Base.Eq.{nat_eq}
use pysnmp.Base.Dict.{insert, lookup, remove}
use pysnmp.Stream.{
  connect, connect_failed, connect_finished, connection_lost, connection_made, fail_queued_messages,
  report_error, send_message,
}
use pysnmp.Stream.Open.{is_open_to}
use pysnmp.Stream.Events.{Event, Keeps, all_taken, finished, made, run, send, step, unreachable}
use pysnmp.Stream.Order.{IsOrderly, account}
use pysnmp.Stream.Account.{messages_leave_in_order}
use pysnmp.Stream.Reports.{IsReported, dropped-IsReported}

abbrev peer : Address ℕ
peer = record { key = 7; local = none }

abbrev another : Address ℕ
another = record { key = 8; local = some 1 }

abbrev client : Carrier ℕ ℕ
client = record (init (some 0)) { client_mode = true; has_error_callback = true }

-- Two messages wait, are written when the connection is made, and a third follows directly.
abbrev session : List (Event ℕ ℕ)
session =
    send 100 peer
    ∷ send 101 peer
    ∷ send 200 another
    ∷ made 1 peer
    ∷ finished 7
    ∷ send 102 peer
    ∷ unreachable another
    ∷ []

client-IsOrderly : IsOrderly client
unfolding lookup is_open_to
client-IsOrderly = record { listed_as = λ k id e. cc; drained = λ k opened. refl }

session-Keeps : Keeps 7 session client
unfolding step send_message connect connect_finished connection_made lookup insert
session-Keeps = (
  refl,
  refl,
  (refl, refl, (refl, refl, (refl, refl, (refl, refl, (refl, refl, (refl, refl, tt)))))),
)

session_taken : all_taken 7 session client ≡ 100 ∷ 101 ∷ 102 ∷ []
unfolding all_taken step send_message connection_made connection_lost connect connect_finished
    connect_failed fail_queued_messages report_error lookup insert
session_taken = refl

messages_leave_in_order_example :
    (account 7 (run session client) ≡ account 7 client ++ all_taken 7 session client)
    × (is_open_to 7 (run session client) ≡ true
        → waiting_for 7 (run session client).write_queue ≡ [])
messages_leave_in_order_example =
    messages_leave_in_order 7 session client client-IsOrderly session-Keeps

abbrev waiting : Carrier ℕ ℕ
waiting = record client { write_queue = (100, peer) ∷ (200, another) ∷ [] }

dropped-IsReported_example : IsReported 7 waiting (step (unreachable peer) waiting).1
dropped-IsReported_example =
    dropped-IsReported 7 (unreachable peer) waiting refl refl (λ e. cc) refl

-- The server side does not dial: sending to a peer without a connection raises and queues nothing.
server_refuses :
    send_message 100 peer (record client { client_mode = false })
    ≡ (carrier_error, record client { client_mode = false })
unfolding send_message lookup
server_refuses = refl

-- A peer that closes is reported, and its connection is forgotten.
closed_is_reported :
    (connection_lost 1 (connection_made 1 peer client)).scheduled ≡ report peer closed ∷ []
unfolding connection_made connection_lost report_error lookup insert remove
closed_is_reported = refl
