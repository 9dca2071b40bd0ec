-- ===== src/PduDispatch.antt =====
-- pysnmp/proto/rfc3412.py: `MsgAndPduDispatcher`, between the message processing models, the transports
-- and the applications. The models and their state are a parameter, with what each of their calls returns
-- or raises; so is what an application does when it is called. Applications, their contexts and suspended
-- work are numbers; what is handed to a transport and to an application is kept as lists, in order.
-- Observers of the execution points are outside.
pub mod Send
pub mod Receive
pub mod Expire
mod Tests
pub mod Sample
use pysnmp.Base.Eq.{list_eq, nat_eq, pair_eq}
use pysnmp.Base.Dict.{Dict, insert, lookup, remove}
use pysnmp.Base.{Bool, List, Option, [], false, if◌then◌else◌, none, some, true, ℕ, ◌++◌, ◌∷◌}
use pysnmp.NextId.{Integer}

abbrev pub Octets : Type 0
Octets = List ℕ

pub data Indication : Type 0 where
  unsupported_msg_processing_model unknown_pdu_handler request_timed_out : Indication
  too_big transport_failure : Indication
  other_indication : ℕ → Indication

-- The details of a `StatusInformation` that are read here.
pub record Status : Type 0 where
  pub indication : Option Indication
  pub send_pdu_handle : Option ℕ
  pub value : Option ℕ

-- What is raised: `StatusInformation` and `ProtocolError` are errors of pysnmp and of pyasn1 both;
-- `carrier_error` stands for those of pysnmp alone.
pub data Raised : Type 0 where
  status_information : Status → Raised
  protocol_error carrier_error asn1_error other_error : Raised

pub data Result (A : Type 0) : Type 0 where
  ok : A → Result A
  raised : Raised → Result A

-- `isinstance(e, PySnmpError)`, `isinstance(e, PyAsn1Error)`
abbrev pub is_pysnmp_error : Raised → Bool
is_pysnmp_error (status_information st) = true
is_pysnmp_error protocol_error = true
is_pysnmp_error carrier_error = true
is_pysnmp_error asn1_error = false
is_pysnmp_error other_error = false

abbrev pub is_asn1_error : Raised → Bool
is_asn1_error (status_information st) = true
is_asn1_error protocol_error = true
is_asn1_error carrier_error = false
is_asn1_error asn1_error = true
is_asn1_error other_error = false

pub record Outgoing : Type 0 where
  pub domain : Octets
  pub address : Octets
  pub message : Octets

-- The arguments of `sendPdu` that are kept for a retry.
pub record Request (P : Type 0) : Type 0 where
  pub domain : Octets
  pub address : Octets
  pub model : ℕ
  pub security_model : ℕ
  pub security_name : Octets
  pub security_level : ℕ
  pub context_engine_id : Octets
  pub context_name : Octets
  pub pdu_version : ℕ
  pub pdu : P

-- What the cache holds of a request; `request` comes when it was sent.
pub record Pending (P : Type 0) : Type 0 where
  pub model : ℕ
  pub handle : ℕ
  pub timeout : ℕ
  pub callback : ℕ
  pub context : ℕ
  pub request : Option (Request P)

-- What `prepareDataElements` returns.
pub record DataElements (P : Type 0) : Type 0 where
  pub model : ℕ
  pub security_model : ℕ
  pub security_name : Octets
  pub security_level : ℕ
  pub context_engine_id : Octets
  pub context_name : Octets
  pub pdu_version : ℕ
  pub pdu : P
  pub pdu_type : ℕ
  pub send_pdu_handle : Option ℕ
  pub max_size : ℕ
  pub status : Option Status
  pub state_reference : Option ℕ

-- A response callback is called, with the message or without one, or a registered application.
pub data Call (P : Type 0) : Type 0 where
  answer : ℕ → ℕ → ℕ → Option (DataElements P) → Option Status → Call P
  serve : ℕ → DataElements P → Call P

-- Work that an application has suspended, and where its request came from.
pub record Deferred : Type 0 where
  pub work : ℕ
  pub state_reference : Option ℕ
  pub origin : Octets × Octets

pub record Counters : Type 0 where
  pub in_pkts : ℕ
  pub in_asn_parse_errs : ℕ
  pub in_bad_versions : ℕ
  pub unknown_pdu_handlers : ℕ
  pub silent_drops : ℕ

-- The dispatcher, the counters of the datastore, the state of the models, and the transport dispatcher
-- with its clock.
pub record Engine (X P : Type 0) : Type 0 where
  pub cache : Dict ℕ (Pending P)
  pub apps : Dict (Octets × ℕ) ℕ
  pub handles : Integer
  pub transport_info : Dict ℕ (Octets × Octets)
  pub counters : Counters
  pub models : X
  pub has_transport : Bool
  pub now : ℕ
  pub max_message_size : ℕ
  pub sent : List Outgoing
  pub calls : List (Call P)
  pub deferred : List Deferred

-- The message processing models: which there are, and their calls.
pub record Models (X P : Type 0) : Type 0 where
  pub has_model : ℕ → Bool
  pub prepare_outgoing_message : Request P → Bool → ℕ → X → Result Outgoing × X
  pub prepare_response_message : DataElements P → Option Status → X → Result Outgoing × X
  pub prepare_data_elements : ℕ → Octets → Octets → Octets → X → Result (DataElements P) × X
  pub release_state_information : ℕ → ℕ → X → Result (Unit {0}) × X

-- What stands around the dispatcher: the version of a message if it can be read, the transports' answer
-- to a message (`none` where it went out), whether work can be deferred, and what applications do.
pub record World (X P : Type 0) : Type 0 where
  pub models : Models X P
  pub message_version : Octets → Option ℕ
  pub send_message : Outgoing → Option Raised
  pub can_defer : Bool
  pub respond : Call P → Engine X P → Result (Unit {0}) × Engine X P
  pub process_pdu : Call P → Engine X P → Result (Option ℕ) × Engine X P
  pub resume : ℕ → Engine X P → Result (Unit {0}) × Engine X P

abbrev pub plain_status : Indication → Status
plain_status why = record { indication = some why; send_pdu_handle = none; value = none }

abbrev pub and_then : {S A B : Type 0} → Result A × S → (A → S → Result B × S) → Result B × S
and_then (ok a, s) next = next a s
and_then (raised e, s) next = (raised e, s)

module _ {X P : Type 0} where
  abbrev pub with_models : X → Engine X P → Engine X P
  with_models x s = record s { models = x }

  -- `__cache.pop`, of which the caller reads the entry first.
  abbrev pub drop_request : ℕ → Engine X P → Engine X P
  drop_request h s = record s { cache = remove h s.cache }

  abbrev pub send_out : Outgoing → Engine X P → Engine X P
  send_out out s = record s { sent = s.sent ++ out ∷ [] }

  abbrev pub then_drop : ℕ → Result (Unit {0}) × X → Engine X P → Result (Unit {0}) × Engine X P
  then_drop h (ok u, x) s = (ok tt, drop_request h (with_models x s))
  then_drop h (raised e, x) s = (raised e, with_models x s)

  -- `registerContextEngineId`, one PDU type after the other.
  unfoldable pub register_context_engine_id :
      Octets → List ℕ → ℕ → Engine X P → Result (Unit {0}) × Engine X P
  register_context_engine_id context [] app s = (ok tt, s)
  register_context_engine_id context (t ∷ types) app s =
      let rest =
        register_context_engine_id context types app
          (record s { apps = insert (context, t) app s.apps }) in
      elim (lookup (context, t) s.apps) [ none ↦ rest | some other ↦ (raised protocol_error, s) ]

  -- `unregisterContextEngineId` of a context that is given.
  unfoldable pub unregister_context_engine_id : Octets → List ℕ → Engine X P → Engine X P
  unregister_context_engine_id context [] s = s
  unregister_context_engine_id context (t ∷ types) s =
      unregister_context_engine_id context types (record s { apps = remove (context, t) s.apps })

  -- `unregisterContextEngineId` of no context: the scalar that is read in its place compares by value and
  -- has no hash, so that it can be no key.
  unfoldable pub unregister_default_context : List ℕ → Engine X P → Result (Unit {0}) × Engine X P
  unregister_default_context [] s = (ok tt, s)
  unregister_default_context (t ∷ types) s = (raised other_error, s)

  -- `getRegisteredApp`: the context's own, or one for any.
  unfoldable pub get_registered_app : Octets → ℕ → Engine X P → Option ℕ
  get_registered_app context t s = elim (lookup (context, t) s.apps) [
    | none ↦ lookup ([], t) s.apps
    | some app ↦ some app
  ]

  -- `getTransportInfo`
  unfoldable pub get_transport_info : ℕ → Engine X P → Result (Octets × Octets)
  get_transport_info reference s = elim (lookup reference s.transport_info) [
    | none ↦ raised protocol_error
    | some origin ↦ ok origin
  ]

module _ {X P : Type 0} (world : World X P) where
  -- `releaseStateInformation`
  unfoldable pub release_state_information : ℕ → ℕ → Engine X P → Result (Unit {0}) × Engine X P
  release_state_information h model s =
      if world.models.has_model model
      then then_drop h (world.models.release_state_information model h s.models) s
      else (ok tt, drop_request h s)
