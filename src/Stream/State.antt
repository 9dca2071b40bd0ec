-- ===== src/Stream/State.antt =====
-- The state of the stream carrier: addresses, connections, the queue and what has been handed on.
use pysnmp.Base.Eq.{Eq, nat_eq}
use pysnmp.Base.{Bool, List, Option, [], false, if◌then◌else◌, none, some, true, ℕ, ◌==◌, ◌∷◌}
use pysnmp.Base.Dict.{Dict, insert, lookup}

pub record Address (K : Type 0) : Type 0 where
  pub key : K
  pub local : Option ℕ

-- Why a peer's transport is reported as failed.
pub data Reason : Type 0 where
  closed not_connected : Reason
  framing : ℕ → Reason

-- `loop.call_soon` of the receive callback and of the error callback.
pub data Scheduled (K M : Type 0) : Type 0 where
  deliver : Address K → M → Scheduled K M
  report : Address K → Reason → Scheduled K M

pub record Connection (K : Type 0) : Type 0 where
  pub address : Address K
  pub is_open : Bool

-- `transport.write`
pub record Write (K M : Type 0) : Type 0 where
  pub connection : ℕ
  pub address : Address K
  pub message : M

pub record Carrier (K M : Type 0) : Type 0 where
  pub write_queue : List (M × Address K)
  pub connections : Dict K ℕ
  pub connect_tasks : List K
  pub protocols : Dict ℕ (Connection K)
  pub client_mode : Bool
  pub server_address : Option ℕ
  pub unbound_address : Option ℕ
  pub has_callback : Bool
  pub has_error_callback : Bool
  pub scheduled : List (Scheduled K M)
  pub written : List (Write K M)

-- A call returns, or raises `CarrierError`.
pub data Outcome : Type 0 where
  returned carrier_error : Outcome

abbrev pub is_connection : Option ℕ → ℕ → Bool
is_connection none id = false
is_connection (some j) id = j == id

abbrev pub is_empty_list {ℓ} : {A : Type ℓ} → List A → Bool
is_empty_list [] = true
is_empty_list (m ∷ ms) = false

module _ {K : Type 0} where
  -- The socket of a connection is closing.
  abbrev pub shut : ℕ → Option (Connection K) → Dict ℕ (Connection K) → Dict ℕ (Connection K)
  shut id none d = d
  shut id (some c) d = insert id (record c { is_open = false }) d

  abbrev pub shut_all : Dict K ℕ → Dict ℕ (Connection K) → Dict ℕ (Connection K)
  shut_all [] d = d
  shut_all ((k, id) ∷ rest) d = shut_all rest (shut id (lookup id d) d)

  abbrev pub open_of : Option (Connection K) → Option (Connection K)
  open_of none = none
  open_of (some c) = if c.is_open then some c else none

module _ {K : Type 0} ⦃ek : Eq K⦄ where
  -- A key is gone from the connecting tasks.
  abbrev pub without_key : K → List K → List K
  without_key k [] = []
  without_key k (j ∷ js) = if ek.beq j k then without_key k js else j ∷ without_key k js

module _ {K M : Type 0} ⦃ek : Eq K⦄ where
  -- `__init__`
  abbrev pub init : Option ℕ → Carrier K M
  init unbound = record {
    write_queue = [];
    connections = [];
    connect_tasks = [];
    protocols = [];
    client_mode = false;
    server_address = none;
    unbound_address = unbound;
    has_callback = false;
    has_error_callback = false;
    scheduled = [];
    written = [];
  }

  -- `_connectionKey(address) == key`
  abbrev pub has_key : K → M × Address K → Bool
  has_key k (m, a) = ek.beq a.key k

  -- What waits for a connection to an address, and what waits for others.
  abbrev pub waiting_for : K → List (M × Address K) → List M
  waiting_for k [] = []
  waiting_for k ((m, a) ∷ rest) =
      if has_key k (m, a) then m ∷ waiting_for k rest else waiting_for k rest

  abbrev pub still_waiting : K → List (M × Address K) → List (M × Address K)
  still_waiting k [] = []
  still_waiting k (item ∷ rest) =
      if has_key k item then still_waiting k rest else item ∷ still_waiting k rest

  -- `protocol.send` of each message.
  abbrev pub writes : ℕ → Address K → List M → List (Write K M)
  writes id a [] = []
  writes id a (m ∷ ms) = record { connection = id; address = a; message = m } ∷ writes id a ms
