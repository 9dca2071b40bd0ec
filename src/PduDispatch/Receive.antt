-- ===== src/PduDispatch/Receive.antt =====
-- pysnmp/proto/rfc3412.py: `receiveMessage`, and requests that an application suspends.
pub mod Response
use pysnmp.Base.Eq.{list_eq, nat_eq}
use pysnmp.Base.Dict.{insert, lookup, remove}
use pysnmp.Base.{Option, [], if◌then◌else◌, none, some, ℕ, ◌&&◌, ◌++◌, ◌+◌, ◌∷◌}
use pysnmp.PduDispatch.{
  DataElements, Deferred, Engine, Octets, Outgoing, Pending, Raised, Result, Status, World,
  and_then, answer, asn1_error, carrier_error, drop_request, get_registered_app, is_pysnmp_error,
  ok, other_error, plain_status, protocol_error, raised, send_out, serve, status_information,
  unknown_pdu_handler, with_models,
}
use pysnmp.PduDispatch.Expire.{call_back, expire_request}

module _ {X P : Type 0} where
  abbrev pub count_packet : Engine X P → Engine X P
  count_packet s = record s { counters = record s.counters { in_pkts = s.counters.in_pkts + 1 } }

  abbrev pub count_parse_error : Engine X P → Engine X P
  count_parse_error s = record s {
    counters = record s.counters { in_asn_parse_errs = s.counters.in_asn_parse_errs + 1 };
  }

  abbrev pub count_bad_version : Engine X P → Engine X P
  count_bad_version s = record s {
    counters = record s.counters { in_bad_versions = s.counters.in_bad_versions + 1 };
  }

  abbrev pub count_unknown_handler : Engine X P → Engine X P
  count_unknown_handler s = record s {
    counters = record s.counters { unknown_pdu_handlers = s.counters.unknown_pdu_handlers + 1 };
  }

  -- The legacy transport info of a request with a state reference.
  abbrev pub with_origin : Option ℕ → Octets × Octets → Engine X P → Engine X P
  with_origin none origin s = s
  with_origin (some reference) origin s = record s {
    transport_info = insert reference origin s.transport_info;
  }

  abbrev pub without_origin : Option ℕ → Engine X P → Engine X P
  without_origin none s = s
  without_origin (some reference) s = record s {
    transport_info = remove reference s.transport_info;
  }

module _ {X P : Type 0} (world : World X P) where
  -- A report is sent if it can be; what pysnmp raises then is swallowed.
  abbrev pub report_sent : Outgoing → Option Raised → Engine X P → Result (Unit {0}) × Engine X P
  report_sent out none s = (ok tt, send_out out s)
  report_sent out (some e) s = (if is_pysnmp_error e then ok tt else raised e, s)

  abbrev pub report_prepared : Engine X P → Result Outgoing × X → Result (Unit {0}) × Engine X P
  report_prepared s (ok out, x) =
      if s.has_transport
      then report_sent out (world.send_message out) (with_models x s)
      else (raised other_error, with_models x s)
  report_prepared s (raised e, x) = (if is_pysnmp_error e then ok tt else raised e, with_models x s)

  abbrev pub unknown_handler_status : Engine X P → Status
  unknown_handler_status s = record (plain_status unknown_pdu_handler) {
    value = some s.counters.unknown_pdu_handlers;
  }

  -- 4.2.2.1.2
  unfoldable pub report_unknown_handler :
      DataElements P → Engine X P → Result (Unit {0}) × Engine X P
  report_unknown_handler d s =
      let t = count_unknown_handler s in
      report_prepared t
        (world.models.prepare_response_message d (some (unknown_handler_status t)) t.models)

  -- `__deferRequest`
  unfoldable pub defer_request :
      ℕ → Option ℕ → Octets × Octets → Engine X P → Result (Unit {0}) × Engine X P
  defer_request work reference origin s =
      if s.has_transport && world.can_defer
      then (
        ok tt,
        record s {
          deferred =
              s.deferred
              ++ record { work = work; state_reference = reference; origin = origin } ∷ [];
        },
      )
      else (raised other_error, without_origin reference s)

  -- The `finally`, and what is deferred.
  abbrev pub served :
      Option ℕ → Octets × Octets → Result (Option ℕ) × Engine X P → Result (Unit {0}) × Engine X P
  served reference origin (ok none, s) = (ok tt, without_origin reference s)
  served reference origin (ok (some work), s) = defer_request work reference origin s
  served reference origin (raised e, s) = (raised e, without_origin reference s)

  abbrev pub serve_request :
      DataElements P → Octets × Octets → Option ℕ → Engine X P → Result (Unit {0}) × Engine X P
  serve_request d origin none s = report_unknown_handler d s
  serve_request d origin (some app) s =
      let t = with_origin d.state_reference origin s in
      served d.state_reference origin
        (world.process_pdu (serve app d) (record t { calls = t.calls ++ serve app d ∷ [] }))

  -- 4.2.2.2.2 and on
  abbrev pub deliver_response :
      DataElements P → ℕ → Option (Pending P) → Engine X P → Result (Unit {0}) × Engine X P
  deliver_response d h none s = (ok tt, count_unknown_handler s)
  deliver_response d h (some p) s =
      call_back world (answer p.callback p.context p.handle (some d) d.status) (drop_request h s)

  abbrev pub processed :
      DataElements P → Octets × Octets → Option ℕ → Engine X P → Result (Unit {0}) × Engine X P
  processed d origin none s =
      serve_request d origin (get_registered_app d.context_engine_id d.pdu_type s) s
  processed d origin (some h) s = deliver_response d h (lookup h s.cache) s

  -- A dropped report; `None` has no `timeout`.
  abbrev pub force_retry :
      Status → ℕ → Option (Pending P) → Engine X P → Result (Unit {0}) × Engine X P
  force_retry st h none s = (raised other_error, s)
  force_retry st h (some p) s =
      and_then (expire_request world p (some st) (drop_request h s)) (λ expired t. (ok tt, t))

  abbrev pub status_failed : Status → Option ℕ → Engine X P → Result (Unit {0}) × Engine X P
  status_failed st none s = (ok tt, s)
  status_failed st (some h) s = force_retry st h (lookup h s.cache) s

  abbrev pub undecoded : Raised → Engine X P → Result (Unit {0}) × Engine X P
  undecoded (status_information st) s = status_failed st st.send_pdu_handle s
  undecoded protocol_error s = (ok tt, count_parse_error s)
  undecoded asn1_error s = (ok tt, count_parse_error s)
  undecoded carrier_error s = (raised carrier_error, s)
  undecoded other_error s = (raised other_error, s)

  abbrev pub received :
      Octets × Octets → Engine X P → Result (DataElements P) × X → Result (Unit {0}) × Engine X P
  received origin s (ok d, x) = processed d origin d.send_pdu_handle (with_models x s)
  received origin s (raised e, x) = undecoded e (with_models x s)

  abbrev pub dispatched :
      Octets × Octets → Octets → Option ℕ → Engine X P → Result (Unit {0}) × Engine X P
  dispatched origin message none s = (ok tt, count_parse_error s)
  dispatched origin message (some v) s =
      if world.models.has_model v
      then received origin s
          (world.models.prepare_data_elements v origin.0 origin.1 message s.models)
      else (ok tt, count_bad_version s)

  -- `receiveMessage`
  unfoldable pub receive_message :
      Octets × Octets → Octets → Engine X P → Result (Unit {0}) × Engine X P
  receive_message origin message s =
      dispatched origin message (world.message_version message) (count_packet s)

  -- `__completeRequest`, of the work that was deferred.
  unfoldable pub complete_request : Deferred → Engine X P → Result (Unit {0}) × Engine X P
  complete_request d s =
      let done = world.resume d.work (with_origin d.state_reference d.origin s) in
      (done.0, without_origin d.state_reference done.1)
