-- ===== src/PduDispatch/Expire/Timer.antt =====
-- What failing a pending request does, at a tick of the clock and at a transport error.
use pysnmp.Base.Eq.{nat_eq}
use pysnmp.Base.Dict.{Dict, contains, lookup, lookup-remove, remove}
use pysnmp.Base.{
  Bool, Bool-cases, Option, [], ap, false, if◌then◌else◌, inl, inr, ltb, none, not, refl, some,
  true, ℕ, ◌&&◌, ◌++◌, ◌==◌, ◌∙◌, ◌∷◌, ◌≡◌,
}
use pysnmp.PduDispatch.{
  Engine, Octets, Pending, Result, Status, World, and_then, drop_request, ok, plain_status, raised,
  release_state_information, request_timed_out, then_drop, transport_failure, with_models,
}
use pysnmp.PduDispatch.Expire.{
  call_back, expire_request, fail_matching, failed_with, is_bound_for, is_early, status_or_timeout,
}
use pysnmp.PduDispatch.Expire.Loop.{Due, Swept, Swept-left_alone, answers_of, answers_of-append}

-- Of a request that is failed in the state `s`: the release of its state information returns, and so does
-- its callback, which may send new requests but leaves alone those that were pending when the sweep began
-- and the record of the calls of their callbacks, the clock and the transport.
pub record CallbackReturns {X P : Type 0} (world : World X P) (initial : Dict ℕ (Pending P))
    (status : Option Status) (p : Pending P) (s : Engine X P) : Type 0 where
  pub releases : (world.models.release_state_information p.model p.handle s.models).0 ≡ ok tt
  pub responds :
      (call_back world
        (failed_with p status)
        (release_state_information world p.handle p.model s).1).0
      ≡ ok tt
  pub leaves :
      (j : ℕ)
      → contains j initial ≡ true
      → lookup j
          (call_back world
            (failed_with p status)
            (release_state_information world p.handle p.model s).1).1.cache
        ≡ lookup j (release_state_information world p.handle p.model s).1.cache
  pub keeps_calls :
      (j : ℕ)
      → contains j initial ≡ true
      → answers_of j
          (call_back world
            (failed_with p status)
            (release_state_information world p.handle p.model s).1).1.calls
        ≡ answers_of j (s.calls ++ failed_with p status ∷ [])
  pub keeps_clock :
      (call_back world
        (failed_with p status)
        (release_state_information world p.handle p.model s).1).1.now
      ≡ s.now
  pub keeps_transport :
      (call_back world
        (failed_with p status)
        (release_state_information world p.handle p.model s).1).1.has_transport
      ≡ s.has_transport

pub if_true : {A : Type 0} (b : Bool) (x y : A) → b ≡ true → (if b then x else y) ≡ x
if_true b x y e = rw e refl

pub if_false : {A : Type 0} (b : Bool) (x y : A) → b ≡ false → (if b then x else y) ≡ y
if_false b x y e = rw e refl

pub and_then-ok :
    {S A B : Type 0} (r : Result A × S) (a : A) (next : A → S → Result B × S)
    → r.0 ≡ ok a
    → and_then r next ≡ next a r.1
and_then-ok (ok b, s) a next e = let same : b ≡ a = cc in rw same refl
and_then-ok (raised x, s) a next e = cc

pub and_false : (b : Bool) → (b && false) ≡ false
and_false true = refl
and_false false = refl

and_true : (b : Bool) → (b && true) ≡ b
and_true true = refl
and_true false = refl

module _ {X P : Type 0} where
  then_drop-ok :
      (h : ℕ) (r : Result (Unit {0}) × X) (s : Engine X P)
      → r.0 ≡ ok tt
      → then_drop h r s ≡ (ok tt, drop_request h (with_models r.1 s))
  then_drop-ok h (ok tt, x) s e = refl
  then_drop-ok h (raised w, x) s e = cc

module _ {X P : Type 0} (world : World X P) where
  -- A release that returns drops the request and changes nothing else but the state of the models.
  release_returns :
      (h model : ℕ) (s : Engine X P)
      → (world.models.release_state_information model h s.models).0 ≡ ok tt
      → (x : X) × (release_state_information world h model s
          ≡ (ok tt, record s { models = x; cache = remove h s.cache }))
  unfolding release_state_information
  release_returns h model s releases = elim (Bool-cases (world.models.has_model model)) [
    | inr absent ↦ (s.models, rw absent refl)
    | inl present ↦ (
      (world.models.release_state_information model h s.models).1,
      rw present (then_drop-ok h _ s releases),
    )
  ]

  -- A request that is past its time, or whose status is given, is answered and dropped.
  expired-Swept :
      (initial : Dict ℕ (Pending P)) (j : ℕ)
      → contains j initial ≡ true
      → (p : Pending P) (status : Option Status) (s : Engine X P) → s.has_transport ≡ true
      → is_early p status s ≡ false
      → CallbackReturns world initial status p s
      → (u : Engine X P) × (expire_request world p status s ≡ (ok true, u))
        × Swept j (p.handle == j) (status_or_timeout status) s u
  unfolding expire_request answers_of
  expired-Swept initial j pending p status s on late calm =
      let released = release_returns p.handle p.model s calm.releases in
      let t : Engine X P = record s { models = released.0; cache = remove p.handle s.cache } in
      let reached : (release_state_information world p.handle p.model s).1 ≡ t =
        ap (λ (r : Result (Unit {0}) × Engine X P). r.1) released.1 in
      let c = failed_with p status in
      let called = call_back world c (release_state_information world p.handle p.model s).1 in
      (
        called.1,
        if_false (not s.has_transport) _ _ (ap not on)
            ∙ if_false (is_early p status s) _ _ late
            ∙ and_then-ok (release_state_information world p.handle p.model s) tt
                (λ v w. and_then (call_back world c w) (λ o z. (ok true, z)))
                (ap (λ (r : Result (Unit {0}) × Engine X P). r.0) released.1)
            ∙ and_then-ok called tt (λ o z. (ok true, z)) calm.responds,
        record {
          left =
              calm.leaves j pending
              ∙ ap (λ (u : Engine X P). lookup j u.cache) reached
              ∙ lookup-remove p.handle j s.cache;
          answered = calm.keeps_calls j pending ∙ answers_of-append j s.calls (c ∷ []);
          clock = calm.keeps_clock;
          transport = calm.keeps_transport;
        },
      )

  pub tick-Due :
      (initial : Dict ℕ (Pending P)) (now j : ℕ)
      → contains j initial ≡ true
      → Due
          (λ p. expire_request world p none)
          (λ p. not (ltb now p.timeout))
          (CallbackReturns world initial none)
          (plain_status request_timed_out)
          now
          j
  unfolding expire_request
  tick-Due initial now j pending p s on at calm = elim (Bool-cases (ltb now p.timeout)) [
    | inl early ↦ (
      s,
      rw early (
          if_false (not s.has_transport) _ _ (ap not on)
          ∙ if_true (ltb s.now p.timeout) _ _ (rw at early)),
      rw (early, and_false (p.handle == j)) (Swept-left_alone j _ s),
    )
    | inr late ↦
        let expired =
          expired-Swept initial j pending p none s on (rw at late) (calm (ap not late)) in
        (expired.0, rw late expired.1, rw (late, and_true (p.handle == j)) expired.2)
  ]

  pub error-Due :
      (initial : Dict ℕ (Pending P)) (now j : ℕ) (domain address : Octets)
      → contains j initial ≡ true
      → Due
          (fail_matching world domain address)
          (λ p. is_bound_for domain address p.request)
          (CallbackReturns world initial (some (plain_status transport_failure)))
          (plain_status transport_failure)
          now
          j
  error-Due initial now j domain address pending p s on at calm =
      elim (Bool-cases (is_bound_for domain address p.request)) [
        | inr other ↦
            (s, rw other refl, rw (other, and_false (p.handle == j)) (Swept-left_alone j _ s))
        | inl bound ↦
            let expired =
              expired-Swept initial j pending p (some (plain_status transport_failure)) s on refl
                (calm bound) in
            (expired.0, rw bound expired.1, rw (bound, and_true (p.handle == j)) expired.2)
      ]
