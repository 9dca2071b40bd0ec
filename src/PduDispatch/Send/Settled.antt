-- ===== src/PduDispatch/Send/Settled.antt =====
-- What `sendPdu` leaves in the cache of pending requests, however it ends.
use mathlib.Core.Path.{subst}
use pysnmp.Base.Eq.{beq_refl, nat_eq}
use pysnmp.Base.Dict.{Dict, insert, lookup, lookup-insert, lookup-remove, remove}
use pysnmp.Base.{
  ==_iff, Bool, Bool-cases, Option, ap, false, if◌then◌else◌, inl, inr, none, not, refl, some, sym,
  true, ℕ, ◌&&◌, ◌==◌, ◌∙◌, ◌≡◌,
}
use pysnmp.PduDispatch.{
  Engine, Outgoing, Pending, Raised, Result, World, and_then, drop_request, is_pysnmp_error, ok,
  raised, release_state_information, send_out, then_drop, with_models,
}
use pysnmp.PduDispatch.Send.{
  Sending, dropped_if, pending_of, prepare, prepared, remember_request, send_pdu, transmit,
  transmitted, updated, with_handle,
}
use pysnmp.PduDispatch.Expire.Timer.{and_false, if_false, if_true}
use pysnmp.NextId.{Integer, call}

module _ {X P : Type 0} (world : World X P) where
  abbrev pub kept : Sending P → ℕ → ℕ → Pending P
  kept q now h = record (pending_of q now h) { request = some q.request }

  -- With a response expected the request is pending, with all that was asked; nothing else has changed.
  -- After an error of pysnmp no request is pending that was not before.
  abbrev pub IsSettled : Sending P → Engine X P → Result ℕ × Engine X P → Type 0
  IsSettled q s (ok h, t) =
      (j : ℕ)
      → lookup j t.cache
        ≡ (if q.expect_response && h == j then some (kept q s.now h) else lookup j s.cache)
  IsSettled q s (raised e, t) =
      is_pysnmp_error e ≡ true → (j : ℕ) → lookup j t.cache ≡ lookup j s.cache

  -- The new request is in the cache while it is prepared and sent.
  abbrev HasEntry : Sending P → ℕ → Engine X P → Dict ℕ (Pending P) → Type 0
  HasEntry q h s cache =
      (j : ℕ)
      → lookup j cache
        ≡ (if q.expect_response && h == j then some (pending_of q s.now h) else lookup j s.cache)

  module _ (q : Sending P) (h : ℕ) (s : Engine X P) (fresh : lookup h s.cache ≡ none) where
    dropped-restores :
        (cache : Dict ℕ (Pending P))
        → HasEntry q h s cache
        → (j : ℕ) → lookup j (remove h cache) ≡ lookup j s.cache
    dropped-restores cache has j = elim (Bool-cases (h == j)) [
      | inl same ↦ rw (lookup-remove h j cache, same) (rw (← ((==_iff h j).0 same)) (sym fresh))
      | inr differ ↦
          rw (lookup-remove h j cache, differ)
            (has j ∙ rw (differ, and_false q.expect_response) refl)
    ]

    dropped_if-restores :
        (b : Bool) (t : Engine X P)
        → HasEntry q h s t.cache
        → b ≡ q.expect_response
        → (j : ℕ) → lookup j (dropped_if b h t).cache ≡ lookup j s.cache
    dropped_if-restores true t has e j = dropped-restores t.cache has j
    dropped_if-restores false t has e j = has j ∙ rw (← e) refl

    remember_request-IsSettled :
        (t : Engine X P) → HasEntry q h s t.cache → IsSettled q s (remember_request q h t)
    unfolding remember_request
    remember_request-IsSettled t has = elim (Bool-cases q.expect_response) [
      | inr no_answer ↦ subst (IsSettled q s) (sym (if_false q.expect_response _ _ no_answer)) (λ j.
          has j
          ∙ if_false _ _ _ (ap (λ b. b && h == j) no_answer)
          ∙ sym (if_false _ _ _ (ap (λ b. b && h == j) no_answer)))
      | inl answer_expected ↦
          let here : (q.expect_response && h == h) ≡ true = rw (answer_expected, beq_refl h) refl in
          let found : lookup h t.cache ≡ some (pending_of q s.now h) = has h ∙ if_true _ _ _ here in
          subst (IsSettled q s)
            (sym (if_true q.expect_response _ _ answer_expected ∙ ap (λ o. updated q h o t) found))
            (λ j. lookup-insert h j _ t.cache ∙ elim (Bool-cases (h == j)) [
              | inl same ↦ rw same (sym (if_true _ _ _ (ap (λ b. b && true) answer_expected)))
              | inr differ ↦ rw differ (
                  (rw differ at (has j))
                  ∙ if_false _ _ _ (and_false q.expect_response)
                  ∙ sym (if_false _ _ _ (and_false q.expect_response)))
            ])
    ]

    transmit-IsSettled :
        (out : Outgoing) (t : Engine X P)
        → HasEntry q h s t.cache
        → IsSettled q s (transmit world q h out t)
    unfolding transmit
    transmit-IsSettled out t has = elim (Bool-cases t.has_transport) [
      | inr off ↦
          subst (IsSettled q s) (sym (if_false t.has_transport _ _ off))
            (λ py j. dropped_if-restores q.expect_response t has refl j)
      | inl on ↦
          subst (IsSettled q s) (sym (if_true t.has_transport _ _ on))
            (of_answer (world.send_message out))
    ]
      where
        of_answer : (a : Option Raised) → IsSettled q s (transmitted q h out a t)
        of_answer none = remember_request-IsSettled (send_out out t) has
        of_answer (some e) = λ py j.
            dropped_if-restores (is_pysnmp_error e && q.expect_response) t has
              (ap (λ b. b && q.expect_response) py) j

    release-restores :
        (t : Engine X P)
        → ((j : ℕ) → lookup j t.cache ≡ lookup j s.cache)
        → (j : ℕ)
        → lookup j (release_state_information world h q.request.model t).1.cache ≡ lookup j s.cache
    unfolding release_state_information
    release-restores t same j = elim (Bool-cases (world.models.has_model q.request.model)) [
      | inr absent ↦ rw absent without
      | inl present ↦
          rw present
            (of_release (world.models.release_state_information q.request.model h t.models))
    ]
      where
        without : lookup j (remove h t.cache) ≡ lookup j s.cache
        without = elim (Bool-cases (h == j)) [
          | inl here ↦
              rw (lookup-remove h j t.cache, here) (rw (← ((==_iff h j).0 here)) (sym fresh))
          | inr differ ↦ rw (lookup-remove h j t.cache, differ) (same j)
        ]

        of_release :
            (r : Result (Unit {0}) × X) → lookup j (then_drop h r t).1.cache ≡ lookup j s.cache
        of_release (ok u, x) = without
        of_release (raised e, x) = same j

    raised_anyway :
        (e : Raised) (r : Result (Unit {0}) × Engine X P)
        → ((j : ℕ) → lookup j r.1.cache ≡ lookup j s.cache)
        → IsSettled q s (and_then r (λ u t. (raised e, t)))
    raised_anyway e (ok u, t) same = λ py j. same j
    raised_anyway e (raised w, t) same = λ py j. same j

    prepare-IsSettled :
        (t : Engine X P) → HasEntry q h s t.cache → IsSettled q s (prepare world q h t)
    unfolding prepare
    prepare-IsSettled t has =
        of_result (world.models.prepare_outgoing_message q.request q.expect_response h t.models)
      where
        of_result : (r : Result Outgoing × X) → IsSettled q s (prepared world q h t r)
        of_result (ok out, x) = transmit-IsSettled out (with_models x t) has
        of_result (raised e, x) = elim (Bool-cases (is_pysnmp_error e && q.expect_response)) [
          | inl caught ↦ subst (IsSettled q s) (sym (if_true _ _ _ caught)) (
              raised_anyway e
                (release_state_information world h q.request.model
                  (drop_request h (with_models x t)))
                (release-restores (drop_request h (with_models x t))
                  (dropped-restores t.cache has)))
          | inr passed ↦ subst (IsSettled q s) (sym (if_false _ _ _ passed)) (λ py j.
              dropped_if-restores false t has (sym passed ∙ ap (λ b. b && q.expect_response) py) j)
        ]

  -- If the handle that comes next is not that of a pending request, then sendPdu leaves in the cache: where
  -- it returns a handle, the entries there were, and if a response is expected also the request under that
  -- handle, with all that was asked and its timeout counted from now; where it raises an error of pysnmp,
  -- at whatever step, the entries there were.
  pub send_pdu-IsSettled :
      (q : Sending P) (s : Engine X P)
      → ((h : ℕ) (next : Integer) → call s.handles ≡ some (h, next) → lookup h s.cache ≡ none)
      → IsSettled q s (send_pdu world q s)
  unfolding send_pdu
  send_pdu-IsSettled q s fresh = elim (Bool-cases (world.models.has_model q.request.model)) [
    | inr absent ↦ subst (IsSettled q s) (sym (if_false _ _ _ absent)) (λ py j. refl)
    | inl present ↦
        subst (IsSettled q s) (sym (if_true _ _ _ present)) (of_handle (call s.handles) refl)
  ]
    where
      of_handle :
          (c : Option (ℕ × Integer)) → call s.handles ≡ c → IsSettled q s (with_handle world q c s)
      of_handle none e = λ py j. refl
      of_handle (some (h, next)) e = elim (Bool-cases q.expect_response) [
        | inr no_answer ↦ subst (IsSettled q s) (sym (if_true _ _ _ (ap not no_answer))) (
            prepare-IsSettled q h s (fresh h next e) (record s { handles = next })
              (λ j. sym (if_false _ _ _ (ap (λ b. b && h == j) no_answer))))
        | inl answer_expected ↦
            subst (IsSettled q s) (sym (if_false _ _ _ (ap not answer_expected)))
              (elim (Bool-cases s.has_transport) [
                | inr off ↦ subst (IsSettled q s) (sym (if_false _ _ _ off)) (λ py j. refl)
                | inl on ↦ subst (IsSettled q s) (sym (if_true _ _ _ on)) (
                    prepare-IsSettled q h s (fresh h next e)
                      (record s { handles = next; cache = insert h (pending_of q s.now h) s.cache })
                      (λ j.
                        lookup-insert h j (pending_of q s.now h) s.cache
                        ∙ ap
                            (λ b.
                              if b && h == j then some (pending_of q s.now h) else lookup j s.cache)
                            (sym answer_expected)))
              ])
      ]
