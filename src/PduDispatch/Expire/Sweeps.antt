-- ===== src/PduDispatch/Expire/Sweeps.antt =====
-- What a tick of the clock and a transport error do to each pending request, while the callbacks return and
-- leave the other pending requests alone.
use pysnmp.Base.Eq.{list_beq, list_beq_iff, list_eq, nat_eq}
use pysnmp.Base.Dict.{lookup}
use pysnmp.Base.{
  Bool, Bool-cases, Option, ap, arith, false, inl, inr, is_some, ltb, none, not, refl, some, true,
  ℕ, ◌<◌, ◌≡◌, ◌≢◌, ◌≤◌,
}
use pysnmp.PduDispatch.{
  Engine, Octets, Pending, Request, World, ok, plain_status, request_timed_out, transport_failure,
}
use pysnmp.PduDispatch.Expire.{
  expire_request, fail_matching, is_bound_for, receive_timer_tick, receive_transport_error,
}
use pysnmp.PduDispatch.Expire.Loop.{AtEachHit, IsKeyed, Swept, loop-Swept}
use pysnmp.PduDispatch.Expire.Timer.{CallbackReturns, error-Due, tick-Due}

-- Whether the timeout of a request has come.
pub data IsDue {P : Type 0} (now : ℕ) (p : Pending P) : Bool → Type 0 where
  due : p.timeout ≤ now → IsDue now p true
  early : now < p.timeout → IsDue now p false

-- Whether a request was sent to a domain and an address; one that is not sent yet was not.
pub data IsFor {P : Type 0} (domain address : Octets) : Option (Request P) → Bool → Type 0 where
  same_address :
      (r : Request P) → r.domain ≡ domain → r.address ≡ address → IsFor domain address (some r) true
  other_domain : (r : Request P) → r.domain ≢ domain → IsFor domain address (some r) false
  other_address : (r : Request P) → r.address ≢ address → IsFor domain address (some r) false
  not_sent : IsFor domain address none false

IsDue_lem : {P : Type 0} (now : ℕ) (p : Pending P) → IsDue now p (not (ltb now p.timeout))
IsDue_lem now p = elim (Bool-cases (ltb now p.timeout)) [
  | inl e ↦ rw e (early (ground arith))
  | inr e ↦ rw e (due (ground arith))
]

differs : (a b : Octets) → list_beq a b ≡ false → a ≢ b
differs a b e same = let equal = (list_beq_iff a b).1 same in ground arith

IsFor_lem :
    {P : Type 0} (domain address : Octets) (o : Option (Request P))
    → IsFor domain address o (is_bound_for domain address o)
IsFor_lem domain address none = not_sent
IsFor_lem domain address (some r) = elim (Bool-cases (list_beq r.domain domain)) [
  | inr d ↦ rw d (other_domain r (differs r.domain domain d))
  | inl d ↦ elim (Bool-cases (list_beq r.address address)) [
    | inr a ↦ rw (d, a) (other_address r (differs r.address address a))
    | inl a ↦
        rw (d, a)
          (same_address r ((list_beq_iff r.domain domain).0 d)
            ((list_beq_iff r.address address).0 a))
  ]
]

module _ {X P : Type 0} (world : World X P) where
  -- A tick of the clock that comes to `s` fails requests whose releases and callbacks return, each in the
  -- state that the tick has reached by then.
  abbrev pub IsCalmTick : Engine X P → Type 0
  IsCalmTick s =
      AtEachHit (λ p. expire_request world p none) (λ p. not (ltb s.now p.timeout))
        (CallbackReturns world s.cache none) s.cache s

  abbrev pub IsCalmError : Octets → Octets → Engine X P → Type 0
  IsCalmError domain address s =
      AtEachHit (fail_matching world domain address) (λ p. is_bound_for domain address p.request)
        (CallbackReturns world s.cache (some (plain_status transport_failure))) s.cache s

  -- Suppose that pending requests are kept under their handles, that there is a transport dispatcher, and
  -- that each request that a tick of the clock fails, in the state that the tick has then reached, has its
  -- state information released and its callback return, the callback leaving alone the requests that were
  -- pending when the tick came, the calls recorded for them, the clock and the transport. Then the tick
  -- returns; and for each request that was pending: if its timeout has come, it is pending no more and its
  -- callback has been called once more, with requestTimedOut; otherwise it is pending as before and its
  -- callback has not been called.
  pub receive_timer_tick_lem :
      (s : Engine X P)
      → IsCalmTick s
      → IsKeyed s.cache
      → s.has_transport ≡ true
      → (j : ℕ) (p : Pending P) → lookup j s.cache ≡ some p
      → ((receive_timer_tick world s).0 ≡ ok tt)
        × (hit : Bool) × IsDue s.now p hit
        × Swept j hit (plain_status request_timed_out) s (receive_timer_tick world s).1
  unfolding receive_timer_tick
  receive_timer_tick_lem s calm keyed on j p found =
      let swept =
        loop-Swept (λ p. expire_request world p none) (λ p. not (ltb s.now p.timeout))
          (CallbackReturns world s.cache none) (plain_status request_timed_out) s.now j s.cache s
          (tick-Due world s.cache s.now j (ap is_some found)) calm keyed on refl in
      (swept.0, not (ltb s.now p.timeout), IsDue_lem s.now p, rw found at swept.1)

  -- Suppose that pending requests are kept under their handles, that there is a transport dispatcher, and
  -- that each request that the handling of a transport error fails, in the state then reached, has its
  -- state information released and its callback return, the callback leaving alone the requests that were
  -- pending when the error came, the calls recorded for them, the clock and the transport. Then the
  -- handling returns; and for each request that was pending: if it was sent to the domain and the address
  -- that failed, it is pending no more and its callback has been called once more, with the transport
  -- failure; if it was sent to another domain or another address, or not yet sent, it is pending as before
  -- and its callback has not been called.
  pub receive_transport_error_lem :
      (s : Engine X P) (domain address : Octets)
      → IsCalmError domain address s
      → IsKeyed s.cache
      → s.has_transport ≡ true
      → (j : ℕ) (p : Pending P) → lookup j s.cache ≡ some p
      → ((receive_transport_error world domain address s).0 ≡ ok tt)
        × (hit : Bool) × IsFor domain address p.request hit
        × Swept j hit
            (plain_status transport_failure)
            s
            (receive_transport_error world domain address s).1
  unfolding receive_transport_error
  receive_transport_error_lem s domain address calm keyed on j p found =
      let swept =
        loop-Swept (fail_matching world domain address) (λ p. is_bound_for domain address p.request)
          (CallbackReturns world s.cache (some (plain_status transport_failure)))
          (plain_status transport_failure) s.now j s.cache s
          (error-Due world s.cache s.now j domain address (ap is_some found)) calm keyed on refl in
      (
        swept.0,
        is_bound_for domain address p.request,
        IsFor_lem domain address p.request,
        rw found at swept.1,
      )
