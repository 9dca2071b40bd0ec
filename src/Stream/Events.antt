-- ===== src/Stream/Events.antt =====
-- What can happen to `StreamAsyncioTransport`, as sequences of calls from above and from the event loop.
use pysnmp.Stream.State.{
  Address, Carrier, Connection, Outcome, Reason, Write, carrier_error, returned,
}
use pysnmp.Base.Eq.{Eq, nat_eq}
use pysnmp.Base.Dict.{contains, lookup}
use pysnmp.Base.{
  Bool, List, Option, [], false, if◌then◌else◌, none, not, some, true, ℕ, ◌++◌, ◌∷◌, ◌≡◌,
}
use pysnmp.Stream.{
  close_transport, connect_failed, connect_finished, connection_failed, connection_lost,
  connection_made, message_received, send_message,
}

-- A message is sent; the transport is closed; a connection is made, lost, given up or brings a message; a connecting task ends with
-- a connection or without one.
pub data Event (K M : Type 0) : Type 0 where
  send : M → Address K → Event K M
  made : ℕ → Address K → Event K M
  lost : ℕ → Event K M
  gave_up : ℕ → Reason → Event K M
  received : ℕ → M → Event K M
  finished : K → Event K M
  unreachable : Address K → Event K M
  closed_down : Event K M

abbrev pub if_returned {ℓ} : {M : Type ℓ} → Bool → M → Outcome → List M
if_returned same m returned = if same then m ∷ [] else []
if_returned same m carrier_error = []

module _ {K : Type 0} ⦃ek : Eq K⦄ where
  abbrev pub loses : K → Option (Connection K) → Bool
  loses k none = false
  loses k (some c) = ek.beq c.address.key k

module _ {K M : Type 0} ⦃ek : Eq K⦄ where
  unfoldable pub step : Event K M → Carrier K M → Outcome × Carrier K M
  step (send m a) s = send_message m a s
  step (made id a) s = (returned, connection_made id a s)
  step (lost id) s = (returned, connection_lost id s)
  step (gave_up id reason) s = (returned, connection_failed id reason s)
  step (received id m) s = message_received id m s
  step (finished k) s = (returned, connect_finished k s)
  step (unreachable a) s = (returned, connect_failed a s)
  step closed_down s = (returned, close_transport s)

  unfoldable pub run : List (Event K M) → Carrier K M → Carrier K M
  unfolding step
  run [] s = s
  run (e ∷ es) s = run es (step e s).1

  -- The messages to a peer whose sending returned, in order.
  abbrev pub taken : K → Event K M → Carrier K M → List M
  taken k (send m a) s = if_returned (ek.beq a.key k) m (send_message m a s).0
  taken k (made id a) s = []
  taken k (lost id) s = []
  taken k (gave_up id reason) s = []
  taken k (received id m) s = []
  taken k (finished j) s = []
  taken k (unreachable a) s = []
  taken k closed_down s = []

  unfoldable pub all_taken : K → List (Event K M) → Carrier K M → List M
  all_taken k [] s = []
  all_taken k (e ∷ es) s = taken k e s ++ all_taken k es (step e s).1

  -- The messages that were written to the connections of a peer, in order.
  abbrev pub written_to : K → List (Write K M) → List M
  written_to k [] = []
  written_to k (w ∷ ws) =
      if ek.beq w.address.key k then w.message ∷ written_to k ws else written_to k ws

  -- An event drops what waits for a peer: a connection of it is lost, or none could be made, or the
  -- transport is closed.
  abbrev pub drops : K → Event K M → Carrier K M → Bool
  drops k (send m a) s = false
  drops k (made id a) s = false
  drops k (lost id) s = loses k (lookup id s.protocols)
  drops k (gave_up id reason) s = false
  drops k (received id m) s = false
  drops k (finished j) s = false
  drops k (unreachable a) s = ek.beq a.key k
  drops k closed_down s = true

  -- A connection that is made is a new protocol object.
  abbrev pub is_new : Event K M → Carrier K M → Bool
  is_new (made id a) s = not (contains id s.protocols)
  is_new (send m a) s = true
  is_new (lost id) s = true
  is_new (gave_up id reason) s = true
  is_new (received id m) s = true
  is_new (finished j) s = true
  is_new (unreachable a) s = true
  is_new closed_down s = true

  abbrev pub is_shutdown : Event K M → Bool
  is_shutdown closed_down = true
  is_shutdown (made id a) = false
  is_shutdown (send m a) = false
  is_shutdown (lost id) = false
  is_shutdown (gave_up id reason) = false
  is_shutdown (received id m) = false
  is_shutdown (finished j) = false
  is_shutdown (unreachable a) = false

  -- Events among which nothing is dropped that waits for a peer.
  abbrev pub Keeps : K → List (Event K M) → Carrier K M → Type 0
  Keeps k [] s = Unit
  Keeps k (e ∷ es) s = (is_new e s ≡ true) × (drops k e s ≡ false) × Keeps k es (step e s).1
