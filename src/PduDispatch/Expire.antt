-- ===== src/PduDispatch/Expire.antt =====
-- pysnmp/proto/rfc3412.py: `__expireRequest`, and the sweeps over the pending requests at a tick of the
-- clock and at a transport error.
pub mod Loop
pub mod Timer
pub mod Sweeps
use pysnmp.Base.Eq.{list_beq, list_eq, nat_eq}
use pysnmp.Base.Dict.{Dict}
use pysnmp.Base.{
  Bool, Option, [], false, if◌then◌else◌, ltb, none, not, some, true, ℕ, ◌&&◌, ◌++◌, ◌∷◌,
}
use pysnmp.PduDispatch.{
  Call, Engine, Octets, Pending, Request, Result, Status, World, and_then, answer, drop_request, ok,
  other_error, plain_status, raised, release_state_information, request_timed_out,
  transport_failure,
}

abbrev pub status_or_timeout : Option Status → Status
status_or_timeout none = plain_status request_timed_out
status_or_timeout (some st) = st

module _ {P : Type 0} where
  abbrev pub failed_with : Pending P → Option Status → Call P
  failed_with p status = answer p.callback p.context p.handle none (some (status_or_timeout status))

  -- `_sameTransportAddress` and the test of the domain.
  abbrev pub is_bound_for : Octets → Octets → Option (Request P) → Bool
  is_bound_for domain address none = false
  is_bound_for domain address (some r) = list_beq r.domain domain && list_beq r.address address

module _ {X P : Type 0} where
  abbrev pub is_early : Pending P → Option Status → Engine X P → Bool
  is_early p none s = ltb s.now p.timeout
  is_early p (some st) s = false

  abbrev pub removed_if : Bool → ℕ → Engine X P → Engine X P
  removed_if expired h s = if expired then drop_request h s else s

  -- The loop of `Cache.expire`, over the entries there were when it began.
  unfoldable pub expire_loop :
      (Pending P → Engine X P → Result Bool × Engine X P)
      → Dict ℕ (Pending P)
      → Engine X P
      → Result (Unit {0}) × Engine X P
  expire_loop due [] s = (ok tt, s)
  expire_loop due ((h, p) ∷ rest) s =
      and_then (due p s) (λ expired t. expire_loop due rest (removed_if expired h t))

module _ {X P : Type 0} (world : World X P) where
  -- A callback is called.
  unfoldable pub call_back : Call P → Engine X P → Result (Unit {0}) × Engine X P
  call_back c s = world.respond c (record s { calls = s.calls ++ c ∷ [] })

  -- `__expireRequest`; it reads the clock of the transport dispatcher first.
  unfoldable pub expire_request : Pending P → Option Status → Engine X P → Result Bool × Engine X P
  expire_request p status s =
      if not s.has_transport
      then (raised other_error, s)
      else if is_early p status s
      then (ok false, s)
      else and_then (release_state_information world p.handle p.model s)
          (λ u t. and_then (call_back (failed_with p status) t) (λ v w. (ok true, w)))

  -- `receiveTimerTick`
  unfoldable pub receive_timer_tick : Engine X P → Result (Unit {0}) × Engine X P
  receive_timer_tick s = expire_loop (λ p. expire_request p none) s.cache s

  abbrev pub fail_matching : Octets → Octets → Pending P → Engine X P → Result Bool × Engine X P
  fail_matching domain address p s =
      if is_bound_for domain address p.request
      then expire_request p (some (plain_status transport_failure)) s
      else (ok false, s)

  -- `receiveTransportError`
  unfoldable pub receive_transport_error :
      Octets → Octets → Engine X P → Result (Unit {0}) × Engine X P
  receive_transport_error domain address s = expire_loop (fail_matching domain address) s.cache s
