-- ===== src/PduDispatch/Receive/Response.antt =====
-- Responses: each goes to the request that waits for it, once.
use pysnmp.Base.Eq.{beq_refl, nat_eq}
use pysnmp.Base.Dict.{lookup, lookup-remove}
use pysnmp.Base.{[], ap, none, some, true, ℕ, ◌++◌, ◌==◌, ◌∙◌, ◌∷◌, ◌≡◌}
use pysnmp.PduDispatch.{
  Call, DataElements, Engine, Octets, Pending, World, answer, drop_request, ok, with_models,
}
use pysnmp.PduDispatch.Receive.{
  count_packet, count_unknown_handler, deliver_response, dispatched, processed, receive_message,
  received,
}
use pysnmp.PduDispatch.Expire.{call_back}
use pysnmp.PduDispatch.Expire.Timer.{if_true}

module _ {P : Type 0} where
  abbrev pub answered_by : Pending P → DataElements P → Call P
  answered_by p d = answer p.callback p.context p.handle (some d) d.status

module _ {X P : Type 0} where
  -- The state in which the callback of a response is called.
  abbrev pub on_response : ℕ → DataElements P → X → Pending P → Engine X P → Engine X P
  on_response h d x p s = record (drop_request h (with_models x (count_packet s))) {
    calls = s.calls ++ answered_by p d ∷ [];
  }

module _ {X P : Type 0} (world : World X P) where
  -- A message is a response: its model finds the handle of a request for it.
  pub record IsResponse (origin : Octets × Octets) (message : Octets) (h : ℕ) (s : Engine X P)
      : Type 0 where
    pub version : ℕ
    pub elements : DataElements P
    pub models : X
    pub versioned : world.message_version message ≡ some version
    pub has_model : world.models.has_model version ≡ true
    pub prepared :
        world.models.prepare_data_elements version origin.0 origin.1 message s.models
        ≡ (ok elements, models)
    pub handled : elements.send_pdu_handle ≡ some h

  -- A response is handed on with what is in the cache under its handle.
  response_reaches :
      (origin : Octets × Octets) (message : Octets) (h : ℕ) (s : Engine X P)
      → (m : IsResponse origin message h s)
      → receive_message world origin message s
        ≡ deliver_response world m.elements h
            (lookup h s.cache)
            (with_models m.models (count_packet s))
  unfolding receive_message
  response_reaches origin message h s m =
      ap (λ v. dispatched world origin message v (count_packet s)) m.versioned
      ∙ if_true (world.models.has_model m.version) _ _ m.has_model
      ∙ ap (received world origin (count_packet s)) m.prepared
      ∙ ap (λ k. processed world m.elements origin k (with_models m.models (count_packet s)))
          m.handled

  first_response :
      (origin : Octets × Octets) (message : Octets) (h : ℕ) (s : Engine X P) (p : Pending P)
      → (m : IsResponse origin message h s) → lookup h s.cache ≡ some p
      → receive_message world origin message s
        ≡ world.respond (answered_by p m.elements) (on_response h m.elements m.models p s)
  unfolding call_back
  first_response origin message h s p m pending =
      response_reaches origin message h s m
      ∙ ap (λ o. deliver_response world m.elements h o (with_models m.models (count_packet s)))
          pending

  stray_response :
      (origin : Octets × Octets) (message : Octets) (h : ℕ) (s : Engine X P)
      → (m : IsResponse origin message h s) → lookup h s.cache ≡ none
      → receive_message world origin message s
        ≡ (ok tt, count_unknown_handler (with_models m.models (count_packet s)))
  stray_response origin message h s m missing =
      response_reaches origin message h s m
      ∙ ap (λ o. deliver_response world m.elements h o (with_models m.models (count_packet s)))
          missing

  -- A request is pending under the handle h and a message is a response for h. Then receiving it calls the
  -- callback of the request, with the message, in a state in which the request is pending no more, and that
  -- call's outcome is the outcome. If the callback has not sent another request under h, then a second
  -- response for h calls nothing: it returns, counts as a packet and as one for an unknown handler, and
  -- leaves everything but the counters and the state of the models.
  pub response_is_delivered_once :
      (origin again : Octets × Octets) (message duplicate : Octets) (h : ℕ) (s : Engine X P)
      (p : Pending P)
      → lookup h s.cache ≡ some p
      → (m : IsResponse origin message h s)
      → let t = (receive_message world origin message s).1 in
        lookup h t.cache ≡ none
        → (n : IsResponse again duplicate h t)
        → (receive_message world origin message s
            ≡ world.respond (answered_by p m.elements) (on_response h m.elements m.models p s))
          × (lookup h (on_response h m.elements m.models p s).cache ≡ none)
          × (receive_message world again duplicate t
              ≡ (ok tt, count_unknown_handler (with_models n.models (count_packet t))))
  response_is_delivered_once origin again message duplicate h s p pending m gone n = (
    first_response origin message h s p m pending,
    lookup-remove h h s.cache ∙ if_true (h == h) _ _ (beq_refl h),
    stray_response again duplicate h _ n gone,
  )
