-- ===== src/PduDispatch/Send.antt =====
-- pysnmp/proto/rfc3412.py: `sendPdu` and `returnResponsePdu`.
pub mod Settled
use pysnmp.Base.Eq.{list_eq, nat_eq}
use pysnmp.Base.Dict.{insert, lookup}
use pysnmp.Base.{Bool, Option, if◌then◌else◌, length, ltb, none, not, some, ℕ, ◌&&◌, ◌+◌, ◌==◌}
use pysnmp.NextId.{Integer, call}
use pysnmp.PduDispatch.{
  DataElements, Engine, Octets, Outgoing, Pending, Raised, Request, Result, Status, World, and_then,
  carrier_error, drop_request, is_pysnmp_error, ok, other_error, plain_status, protocol_error,
  raised, release_state_information, send_out, status_information, too_big,
  unsupported_msg_processing_model, with_models,
}

-- A request: its arguments, whether a response is expected, the timeout, the callback and its context.
pub record Sending (P : Type 0) : Type 0 where
  pub request : Request P
  pub expect_response : Bool
  pub timeout : ℕ
  pub callback : ℕ
  pub context : ℕ

abbrev pub is_oversized : ℕ → Octets → Bool
is_oversized limit message = not (limit == 0) && ltb limit (length message)

module _ {P : Type 0} where
  abbrev pub pending_of : Sending P → ℕ → ℕ → Pending P
  pending_of q now h = record {
    model = q.request.model;
    handle = h;
    timeout = q.timeout + now;
    callback = q.callback;
    context = q.context;
    request = none;
  }

module _ {X P : Type 0} where
  -- `__cache.update` with the arguments of the call.
  abbrev pub updated : Sending P → ℕ → Option (Pending P) → Engine X P → Result ℕ × Engine X P
  updated q h none s = (raised protocol_error, s)
  updated q h (some p) s =
      (ok h, record s { cache = insert h (record p { request = some q.request }) s.cache })

  unfoldable pub remember_request : Sending P → ℕ → Engine X P → Result ℕ × Engine X P
  remember_request q h s = if q.expect_response then updated q h (lookup h s.cache) s else (ok h, s)

  abbrev pub dropped_if : Bool → ℕ → Engine X P → Engine X P
  dropped_if expected h s = if expected then drop_request h s else s

  abbrev pub drop_silently : Engine X P → Engine X P
  drop_silently s = record s {
    counters = record s.counters { silent_drops = s.counters.silent_drops + 1 };
  }

  abbrev pub response_sent : Outgoing → Option Raised → Engine X P → Result (Unit {0}) × Engine X P
  response_sent out none s = (ok tt, send_out out s)
  response_sent out (some e) s = (raised e, s)

  abbrev pub transmitted :
      Sending P → ℕ → Outgoing → Option Raised → Engine X P → Result ℕ × Engine X P
  transmitted q h out none s = remember_request q h (send_out out s)
  transmitted q h out (some e) s =
      (raised e, dropped_if (is_pysnmp_error e && q.expect_response) h s)

module _ {X P : Type 0} (world : World X P) where
  -- 4.1.1.6
  unfoldable pub transmit : Sending P → ℕ → Outgoing → Engine X P → Result ℕ × Engine X P
  transmit q h out s =
      if s.has_transport
      then transmitted q h out (world.send_message out) s
      else (raised carrier_error, dropped_if q.expect_response h s)

  abbrev pub prepared : Sending P → ℕ → Engine X P → Result Outgoing × X → Result ℕ × Engine X P
  prepared q h s (ok out, x) = transmit q h out (with_models x s)
  prepared q h s (raised e, x) =
      if is_pysnmp_error e && q.expect_response
      then and_then
          (release_state_information world h q.request.model (drop_request h (with_models x s)))
          (λ u t. (raised e, t))
      else (raised e, with_models x s)

  -- 4.1.1.4
  unfoldable pub prepare : Sending P → ℕ → Engine X P → Result ℕ × Engine X P
  prepare q h s =
      prepared q h s (world.models.prepare_outgoing_message q.request q.expect_response h s.models)

  -- 4.1.1.3; the clock is the transport dispatcher's, and there may be none.
  abbrev pub with_handle : Sending P → Option (ℕ × Integer) → Engine X P → Result ℕ × Engine X P
  with_handle q none s = (raised other_error, s)
  with_handle q (some (h, next)) s =
      if not q.expect_response
      then prepare q h (record s { handles = next })
      else if s.has_transport
      then prepare q h
          (record s { handles = next; cache = insert h (pending_of q s.now h) s.cache })
      else (raised other_error, record s { handles = next })

  -- `sendPdu`
  unfoldable pub send_pdu : Sending P → Engine X P → Result ℕ × Engine X P
  send_pdu q s =
      if world.models.has_model q.request.model
      then with_handle q (call s.handles) s
      else (raised (status_information (plain_status unsupported_msg_processing_model)), s)

  abbrev pub respond_with : Outgoing → Engine X P → Result (Unit {0}) × Engine X P
  respond_with out s =
      if is_oversized s.max_message_size out.message
      then (raised (status_information (plain_status too_big)), drop_silently s)
      else if s.has_transport
      then response_sent out (world.send_message out) s
      else (raised other_error, s)

  abbrev pub response_prepared : Engine X P → Result Outgoing × X → Result (Unit {0}) × Engine X P
  response_prepared s (ok out, x) = respond_with out (with_models x s)
  response_prepared s (raised e, x) = (raised e, with_models x s)

  -- `returnResponsePdu`
  unfoldable pub return_response_pdu :
      DataElements P → Option Status → Engine X P → Result (Unit {0}) × Engine X P
  return_response_pdu d status s =
      if world.models.has_model d.model
      then response_prepared s (world.models.prepare_response_message d status s.models)
      else (raised (status_information (plain_status unsupported_msg_processing_model)), s)
