-- ===== src/PduDispatch/Tests.antt =====
-- Requests, responses, ticks and errors at the dispatcher of PduDispatch/Sample.
use pysnmp.PduDispatch.Sample.{busy, elements_of, engine, pending, sending, world}
use pysnmp.Base.Eq.{list_eq, nat_eq, pair_eq}
use pysnmp.Base.Dict.{contains, insert, lookup, remove}
use pysnmp.Base.{
  ==_iff, Bool, Bool-cases, [], false, inl, inr, none, refl, some, true, ℕ, ◌==◌, ◌∷◌, ◌≡◌,
}
use pysnmp.NextId.{Integer, call}
use pysnmp.PduDispatch.{
  Engine, get_registered_app, ok, plain_status, register_context_engine_id,
  release_state_information, request_timed_out, transport_failure, with_models,
}
use pysnmp.PduDispatch.Send.{prepare, remember_request, send_pdu, transmit}
use pysnmp.PduDispatch.Send.Settled.{IsSettled, send_pdu-IsSettled}
use pysnmp.PduDispatch.Receive.{count_packet, count_unknown_handler, receive_message}
use pysnmp.PduDispatch.Receive.Response.{
  IsResponse, answered_by, on_response, response_is_delivered_once,
}
use pysnmp.PduDispatch.Expire.{
  call_back, expire_request, receive_timer_tick, receive_transport_error,
}
use pysnmp.PduDispatch.Expire.{call_back}
use pysnmp.PduDispatch.{get_registered_app, register_context_engine_id, release_state_information}
use pysnmp.PduDispatch.Expire.Sweeps.{
  IsCalmError, IsCalmTick, IsDue, IsFor, receive_timer_tick_lem, receive_transport_error_lem,
}
use pysnmp.PduDispatch.Expire.Loop.{IsKeyed, Swept}

request_is_sent :
    (send_pdu world (sending 1) engine).1.sent
    ≡ record { domain = 1 ∷ []; address = 2 ∷ []; message = 5 ∷ [] } ∷ []
unfolding send_pdu call prepare transmit remember_request lookup insert
request_is_sent = refl

empty-Fresh :
    (h : ℕ) (next : Integer) → call engine.handles ≡ some (h, next) → lookup h engine.cache ≡ none
unfolding lookup
empty-Fresh h next e = refl

send_pdu-IsSettled_example : IsSettled world (sending 9) engine (send_pdu world (sending 9) engine)
send_pdu-IsSettled_example = send_pdu-IsSettled world (sending 9) engine empty-Fresh

response-IsResponse : IsResponse world (1 ∷ [], 2 ∷ []) (5 ∷ []) 5 busy
response-IsResponse = record {
  version = 3;
  elements = elements_of 5;
  models = 0;
  versioned = refl;
  has_model = refl;
  prepared = refl;
  handled = refl;
}

seven_is_new : (j : ℕ) → contains j busy.cache ≡ true → (7 == j) ≡ false
unfolding lookup
seven_is_new j e = elim (Bool-cases (7 == j)) [
  | inr differ ↦ differ
  | inl same ↦ let there : contains 7 busy.cache ≡ true = rw (← ((==_iff 7 j).0 same)) at e in cc
]

eight_is_new : (j : ℕ) → contains j busy.cache ≡ true → (8 == j) ≡ false
unfolding lookup
eight_is_new j e = elim (Bool-cases (8 == j)) [
  | inr differ ↦ differ
  | inl same ↦ let there : contains 8 busy.cache ≡ true = rw (← ((==_iff 8 j).0 same)) at e in cc
]

-- The tick fails the request 5, whose callback sends it again under the handle 7.
busy-IsCalmTick : IsCalmTick world busy
unfolding expire_request call_back release_state_information send_pdu call prepare transmit
    remember_request lookup insert remove
busy-IsCalmTick = (
  λ e. record {
    releases = refl;
    responds = refl;
    leaves = λ j there. rw (seven_is_new j there) refl;
    keeps_calls = λ j there. refl;
    keeps_clock = refl;
    keeps_transport = refl;
  },
  (λ e. cc, tt),
)

-- The error fails both requests, which are sent again under the handles 7 and 8.
busy-IsCalmError : IsCalmError world (1 ∷ []) (2 ∷ []) busy
unfolding expire_request call_back release_state_information send_pdu call prepare transmit
    remember_request lookup insert remove
busy-IsCalmError = (
  λ e. record {
    releases = refl;
    responds = refl;
    leaves = λ j there. rw (seven_is_new j there) refl;
    keeps_calls = λ j there. refl;
    keeps_clock = refl;
    keeps_transport = refl;
  },
  (
    λ e. record {
      releases = refl;
      responds = refl;
      leaves = λ j there. rw (seven_is_new j there, eight_is_new j there) refl;
      keeps_calls = λ j there. refl;
      keeps_clock = refl;
      keeps_transport = refl;
    },
    tt,
  ),
)

abbrev after_response : Engine ℕ ℕ
after_response = (receive_message world (1 ∷ [], 2 ∷ []) (5 ∷ []) busy).1

response_drops : lookup 5 after_response.cache ≡ none
unfolding receive_message call_back lookup remove insert send_pdu call prepare transmit
    remember_request
response_drops = refl

duplicate-IsResponse : IsResponse world (1 ∷ [], 2 ∷ []) (5 ∷ []) 5 after_response
unfolding receive_message call_back lookup send_pdu call prepare transmit remember_request insert
    remove
duplicate-IsResponse = record {
  version = 3;
  elements = elements_of 5;
  models = 1;
  versioned = refl;
  has_model = refl;
  prepared = refl;
  handled = refl;
}

five_is_pending : lookup 5 busy.cache ≡ some (pending 5 9)
unfolding lookup
five_is_pending = refl

response_is_delivered_once_example :
    (receive_message world (1 ∷ [], 2 ∷ []) (5 ∷ []) busy
      ≡ world.respond (answered_by (pending 5 9) response-IsResponse.elements) (
          on_response 5 response-IsResponse.elements response-IsResponse.models (pending 5 9) busy))
    × (lookup 5
          (on_response 5 response-IsResponse.elements response-IsResponse.models
            (pending 5 9)
            busy).cache
        ≡ none)
    × (receive_message world (1 ∷ [], 2 ∷ []) (5 ∷ []) after_response ≡ (
      ok tt,
      count_unknown_handler (with_models duplicate-IsResponse.models (count_packet after_response)),
    ))
response_is_delivered_once_example =
    response_is_delivered_once world (1 ∷ [], 2 ∷ []) (1 ∷ [], 2 ∷ []) (5 ∷ []) (5 ∷ []) 5 busy
      (pending 5 9) five_is_pending response-IsResponse response_drops duplicate-IsResponse

busy-Keyed : IsKeyed busy.cache
unfolding lookup
busy-Keyed = (refl, refl, (refl, refl, tt))

receive_timer_tick_lem_example :
    ((receive_timer_tick world busy).0 ≡ ok tt)
    × (hit : Bool) × IsDue busy.now (pending 5 9) hit
    × Swept 5 hit (plain_status request_timed_out) busy (receive_timer_tick world busy).1
receive_timer_tick_lem_example =
    receive_timer_tick_lem world busy busy-IsCalmTick busy-Keyed refl 5 (pending 5 9)
      five_is_pending

receive_transport_error_lem_example :
    ((receive_transport_error world (1 ∷ []) (2 ∷ []) busy).0 ≡ ok tt)
    × (hit : Bool) × IsFor (1 ∷ []) (2 ∷ []) (pending 5 9).request hit
    × Swept 5 hit
        (plain_status transport_failure)
        busy
        (receive_transport_error world (1 ∷ []) (2 ∷ []) busy).1
receive_transport_error_lem_example =
    receive_transport_error_lem world busy (1 ∷ []) (2 ∷ []) busy-IsCalmError busy-Keyed refl 5
      (pending 5 9) five_is_pending

-- A second registration for the same PDU type is refused, after those in front of it were made.
registered_in_part :
    get_registered_app
      (8 ∷ [])
      1
      (register_context_engine_id
        (8 ∷ [])
        (1 ∷ 2 ∷ [])
        90
        (record engine { apps = ((8 ∷ [], 2), 91) ∷ [] })).1
    ≡ some 90
unfolding get_registered_app register_context_engine_id lookup insert
registered_in_part = refl
