-- ===== src/Dispatcher.antt =====
-- pysnmp/carrier/base.py: `AbstractTransportDispatcher`, which owns the transports and routes what
-- comes in. Transports, domains and callbacks are numbered; the routing function, addresses and
-- messages are parameters, and what a callback does is outside. Of a timer
-- callback only its registration is modelled: when it is called is left out.
pub mod Wiring
pub mod Close
pub mod Jobs
mod Tests
use pysnmp.Base.{
  Bool, List, Option, [], if◌then◌else◌, is_some, map, none, some, true, ℕ, ◌++◌, ◌∷◌,
}
use pysnmp.Base.Eq.{nat_eq, option_eq}
use pysnmp.Base.Listed.{listed, remove_first}
use pysnmp.Base.Dict.{Dict, contains, insert, lookup, remove}

-- A call returns, raises `CarrierError`, or lets a `KeyError` or a `ValueError` escape.
pub data Outcome (A : Type 0) : Type 0 where
  done : A → Outcome A
  carrier_error key_error value_error : Outcome A

abbrev pub then_do : {B C : Type 0} → Outcome B → (B → Outcome C) → Outcome C
then_do (done b) f = f b
then_do carrier_error f = carrier_error
then_do key_error f = key_error
then_do value_error f = value_error

-- The dispatcher's attributes, and of each transport whether its two callbacks are set.
pub record Dispatcher (A M : Type 0) : Type 0 where
  pub transports : Dict ℕ ℕ
  pub domain_map : Dict ℕ ℕ
  pub attached : Dict ℕ Bool
  pub error_attached : Dict ℕ Bool
  pub recv_callables : Dict (Option ℕ) ℕ
  pub error_callables : Dict (Option ℕ) ℕ
  pub timer_callables : List ℕ
  pub routing : Option (ℕ → A → M → Option ℕ)

-- A call of a receive callback, or of an error callback with the failure in place of the message.
pub record Call (A M : Type 0) : Type 0 where
  pub callback : ℕ
  pub domain : ℕ
  pub address : A
  pub content : M

module _ {A M : Type 0} where
  -- `__init__`, among transports that nobody holds.
  abbrev pub init : Dispatcher A M
  init = record {
    transports = [];
    domain_map = [];
    attached = [];
    error_attached = [];
    recv_callables = [];
    error_callables = [];
    timer_callables = [];
    routing = none;
  }

  abbrev pub recv_id : Option (ℕ → A → M → Option ℕ) → ℕ → A → M → Option ℕ
  recv_id none domain address message = none
  recv_id (some route) domain address message = route domain address message

  abbrev pub call_with : ℕ → A → M → Option ℕ → Outcome (Call A M)
  call_with domain address message none = carrier_error
  call_with domain address message (some cb) =
      done (record { callback = cb; domain = domain; address = address; content = message })

  -- The message of a transport whose domain was found.
  abbrev pub route_from : Dispatcher A M → A → M → Option ℕ → Outcome (Call A M)
  route_from s address message none = carrier_error
  route_from s address message (some domain) =
      call_with domain address message
        (lookup (recv_id s.routing domain address message) s.recv_callables)

  -- `_cbFun`
  unfoldable pub cb_fun : ℕ → A → M → Dispatcher A M → Outcome (Call A M)
  cb_fun transport address message s = route_from s address message (lookup transport s.domain_map)

  -- `_errorCbFun`: the calls in the order of registration.
  unfoldable pub error_cb_fun : {F : Type 0} → ℕ → A → F → Dispatcher A M → List (Call A F)
  error_cb_fun transport address failure s = elim (lookup transport s.domain_map) [
    | none ↦ []
    | some domain ↦
        map
          (λ (p : Option ℕ × ℕ). record {
            callback = p.1;
            domain = domain;
            address = address;
            content = failure;
          })
          s.error_callables
  ]

  unfoldable pub register_routing_cb_fun :
      (ℕ → A → M → Option ℕ) → Dispatcher A M → Outcome (Dispatcher A M)
  register_routing_cb_fun route s =
      if is_some s.routing then carrier_error else done (record s { routing = some route })

  unfoldable pub unregister_routing_cb_fun : Dispatcher A M → Dispatcher A M
  unregister_routing_cb_fun s = record s { routing = none }

  unfoldable pub register_recv_cb_fun : ℕ → Option ℕ → Dispatcher A M → Outcome (Dispatcher A M)
  register_recv_cb_fun cb id s =
      if contains id s.recv_callables
      then carrier_error
      else done (record s { recv_callables = insert id cb s.recv_callables })

  unfoldable pub unregister_recv_cb_fun : Option ℕ → Dispatcher A M → Dispatcher A M
  unregister_recv_cb_fun id s = record s { recv_callables = remove id s.recv_callables }

  unfoldable pub register_error_cb_fun : ℕ → Option ℕ → Dispatcher A M → Outcome (Dispatcher A M)
  register_error_cb_fun cb id s =
      if contains id s.error_callables
      then carrier_error
      else done (record s { error_callables = insert id cb s.error_callables })

  unfoldable pub unregister_error_cb_fun : Option ℕ → Dispatcher A M → Dispatcher A M
  unregister_error_cb_fun id s = record s { error_callables = remove id s.error_callables }

  unfoldable pub register_timer_cb_fun : ℕ → Dispatcher A M → Dispatcher A M
  register_timer_cb_fun cb s = record s { timer_callables = s.timer_callables ++ cb ∷ [] }

  -- All timer callbacks, or the first registration of the given one, by `list.remove`.
  unfoldable pub unregister_timer_cb_fun : Option ℕ → Dispatcher A M → Outcome (Dispatcher A M)
  unregister_timer_cb_fun none s = done (record s { timer_callables = [] })
  unregister_timer_cb_fun (some cb) s =
      if listed cb s.timer_callables
      then done (record s { timer_callables = remove_first cb s.timer_callables })
      else value_error

  -- `registerTransport`; a transport whose receive callback is set refuses another.
  unfoldable pub register_transport : ℕ → ℕ → Dispatcher A M → Outcome (Dispatcher A M)
  register_transport domain transport s =
      if contains domain s.transports
      then carrier_error
      else if contains transport s.attached
      then carrier_error
      else done (record s {
        attached = insert transport true s.attached;
        error_attached = insert transport true s.error_attached;
        transports = insert domain transport s.transports;
        domain_map = insert transport domain s.domain_map;
      })

  abbrev pub release : ℕ → ℕ → Dispatcher A M → Dispatcher A M
  release domain transport s = record s {
    attached = remove transport s.attached;
    error_attached = remove transport s.error_attached;
    transports = remove domain s.transports;
    domain_map = remove transport s.domain_map;
  }

  abbrev pub unregister_found : ℕ → Dispatcher A M → Option ℕ → Outcome (Dispatcher A M)
  unregister_found domain s none = carrier_error
  unregister_found domain s (some transport) =
      if contains transport s.domain_map then done (release domain transport s) else key_error

  unfoldable pub unregister_transport : ℕ → Dispatcher A M → Outcome (Dispatcher A M)
  unregister_transport domain s = unregister_found domain s (lookup domain s.transports)

  unfoldable pub get_transport : ℕ → Dispatcher A M → Outcome ℕ
  get_transport domain s = elim (lookup domain s.transports) [
    | none ↦ carrier_error
    | some transport ↦ done transport
  ]

  -- `closeTransport` of one transport; the socket is outside.
  abbrev pub close_transport : ℕ → Dispatcher A M → Dispatcher A M
  close_transport transport s = record s {
    attached = remove transport s.attached;
    error_attached = remove transport s.error_attached;
  }

  abbrev pub close_found : ℕ → Dispatcher A M → Option ℕ → Outcome (Dispatcher A M)
  close_found domain s none = key_error
  close_found domain s (some transport) = unregister_transport domain (close_transport transport s)

  -- The loop over `list(self.__transports)`.
  unfoldable pub close_each : Dict ℕ ℕ → Dispatcher A M → Outcome (Dispatcher A M)
  close_each [] s = done s
  close_each ((domain, t) ∷ rest) s =
      then_do (close_found domain s (lookup domain s.transports)) (close_each rest)

  -- `closeDispatcher` after its loop.
  abbrev pub closed : Dispatcher A M → Outcome (Dispatcher A M)
  closed s =
      unregister_timer_cb_fun none
        (unregister_error_cb_fun none (unregister_recv_cb_fun none (record s { transports = [] })))

  unfoldable pub close_dispatcher : Dispatcher A M → Outcome (Dispatcher A M)
  close_dispatcher s = then_do (close_each s.transports s) closed
