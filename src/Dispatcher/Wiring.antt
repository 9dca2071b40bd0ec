-- ===== src/Dispatcher/Wiring.antt =====
-- The two maps of the dispatcher are inverse to each other, and a registered transport answers to it,
-- in every state that its operations reach.
use pysnmp.Base.{
  ==_iff, Bool-cases, Option, Option-cases, [], ap, arith, false, inl, inr, is_some, none, refl,
  some, sym, true, ℕ, ◌↔◌, ◌∙◌, ◌≡◌,
}
use pysnmp.Base.Eq.{nat_eq, option_eq}
use pysnmp.Base.Listed.{listed, remove_first}
use pysnmp.Base.Dict.{
  HasUniqueKeys, contains, contains-insert, contains-remove, insert, insert-HasUniqueKeys, lookup,
  lookup-insert, lookup-remove, remove-HasUniqueKeys,
}
use pysnmp.Dispatcher.{
  Dispatcher, carrier_error, done, init, key_error, register_error_cb_fun, register_recv_cb_fun,
  register_routing_cb_fun, register_timer_cb_fun, register_transport, release,
  unregister_error_cb_fun, unregister_found, unregister_recv_cb_fun, unregister_routing_cb_fun,
  unregister_timer_cb_fun, unregister_transport, value_error,
}

done-injective : {B : Type 0} {a b : B} → done a ≡ done b → a ≡ b
done-injective {a} e =
    ap (λ o. elim o [ done x ↦ x | carrier_error ↦ a | key_error ↦ a | value_error ↦ a ]) e

module _ {A M : Type 0} where
  pub record IsWired (s : Dispatcher A M) : Type 0 where
    pub inverse : (d t : ℕ) → (lookup d s.transports ≡ some t) ↔ (lookup t s.domain_map ≡ some d)
    pub held : (t : ℕ) → contains t s.domain_map ≡ true → contains t s.attached ≡ true
    pub unique_domains : HasUniqueKeys s.transports

  pub init-IsWired : IsWired (init {A = A} {M = M})
  unfolding lookup
  init-IsWired = record { inverse = λ d t. ground arith; held = λ t h. cc; unique_domains = tt }

  -- The state in which a registration that is not refused ends.
  abbrev attach : ℕ → ℕ → Dispatcher A M → Dispatcher A M
  attach d t s = record s {
    attached = insert t true s.attached;
    error_attached = insert t true s.error_attached;
    transports = insert d t s.transports;
    domain_map = insert t d s.domain_map;
  }

  attach-IsWired :
      (d t : ℕ) (s : Dispatcher A M)
      → IsWired s
      → contains d s.transports ≡ false
      → contains t s.attached ≡ false
      → IsWired (attach d t s)
  attach-IsWired d t s h free loose = record {
    inverse = λ i u. ground (
      arith,
      lookup-insert d i t s.transports,
      lookup-insert t u d s.domain_map,
      h.inverse i u,
      h.inverse d u,
      h.inverse i t,
      h.held t,
      ==_iff d i,
      ==_iff t u,
    );
    held = λ u m.
        ground (
          arith,
          contains-insert t u d s.domain_map,
          contains-insert t u true s.attached,
          h.held u,
        );
    unique_domains = insert-HasUniqueKeys d t s.transports h.unique_domains;
  }

  register_transport-IsWired :
      (d t : ℕ) (s s' : Dispatcher A M)
      → IsWired s
      → register_transport d t s ≡ done s'
      → IsWired s'
  unfolding register_transport
  register_transport-IsWired d t s s' h e = elim (Bool-cases (contains d s.transports)) [
    | inl taken ↦ absurd (let bad : carrier_error ≡ done s' = rw taken at e in cc)
    | inr free ↦ elim (Bool-cases (contains t s.attached)) [
      | inl busy ↦ absurd (let bad : carrier_error ≡ done s' = rw (free, busy) at e in cc)
      | inr loose ↦
          let same : attach d t s ≡ s' = done-injective (rw (free, loose) at e) in
          rw (← same) (attach-IsWired d t s h free loose)
    ]
  ]

  pub release-IsWired :
      (d t : ℕ) (s : Dispatcher A M)
      → IsWired s
      → lookup d s.transports ≡ some t
      → IsWired (release d t s)
  release-IsWired d t s h found = record {
    inverse = λ i u. ground (
      arith,
      lookup-remove d i s.transports,
      lookup-remove t u s.domain_map,
      h.inverse i u,
      h.inverse d u,
      h.inverse i t,
      ==_iff d i,
      ==_iff t u,
    );
    held = λ u m.
        ground (arith, contains-remove t u s.domain_map, contains-remove t u s.attached, h.held u);
    unique_domains = remove-HasUniqueKeys d s.transports h.unique_domains;
  }

  -- A registered domain is released, without a `KeyError`.
  pub unregister_transport_lem :
      (d t : ℕ) (s : Dispatcher A M)
      → IsWired s
      → lookup d s.transports ≡ some t
      → unregister_transport d s ≡ done (release d t s)
  unfolding unregister_transport
  unregister_transport_lem d t s h found =
      let known : contains t s.domain_map ≡ true = ap is_some ((h.inverse d t).0 found) in
      ap (unregister_found d s) found ∙ rw known refl

  unregister_transport-IsWired :
      (d : ℕ) (s s' : Dispatcher A M) → IsWired s → unregister_transport d s ≡ done s' → IsWired s'
  unfolding unregister_transport
  unregister_transport-IsWired d s s' h e = elim (Option-cases (lookup d s.transports)) [
    | inl none_there ↦
        absurd
          (let bad : carrier_error ≡ done s' = sym (ap (unregister_found d s) none_there) ∙ e in cc)
    | inr (t, found) ↦
        let same : release d t s ≡ s' =
          done-injective (sym (unregister_transport_lem d t s h found) ∙ e) in
        rw (← same) (release-IsWired d t s h found)
  ]

  -- The calls that succeed, as steps from a state to the next.
  pub data Step : Dispatcher A M → Dispatcher A M → Type 0 where
    registers : (d t : ℕ) {s s' : Dispatcher A M} → register_transport d t s ≡ done s' → Step s s'
    unregisters : (d : ℕ) {s s' : Dispatcher A M} → unregister_transport d s ≡ done s' → Step s s'
    receives :
        (cb : ℕ) (id : Option ℕ) {s s' : Dispatcher A M}
        → register_recv_cb_fun cb id s ≡ done s'
        → Step s s'
    ignores : (id : Option ℕ) {s : Dispatcher A M} → Step s (unregister_recv_cb_fun id s)
    hears :
        (cb : ℕ) (id : Option ℕ) {s s' : Dispatcher A M}
        → register_error_cb_fun cb id s ≡ done s'
        → Step s s'
    unhears : (id : Option ℕ) {s : Dispatcher A M} → Step s (unregister_error_cb_fun id s)
    routes :
        (route : ℕ → A → M → Option ℕ) {s s' : Dispatcher A M}
        → register_routing_cb_fun route s ≡ done s'
        → Step s s'
    unroutes : {s : Dispatcher A M} → Step s (unregister_routing_cb_fun s)
    ticks : (cb : ℕ) {s : Dispatcher A M} → Step s (register_timer_cb_fun cb s)
    unticks :
        (cb : Option ℕ) {s s' : Dispatcher A M} → unregister_timer_cb_fun cb s ≡ done s' → Step s s'

  pub data Reachable : Dispatcher A M → Type 0 where
    start : Reachable init
    after : {s s' : Dispatcher A M} → Reachable s → Step s s' → Reachable s'

  -- A change that leaves the transports alone.
  same_wires :
      (s s' : Dispatcher A M)
      → s'.transports ≡ s.transports
      → s'.domain_map ≡ s.domain_map
      → s'.attached ≡ s.attached
      → IsWired s
      → IsWired s'
  same_wires s s' a b c h = record {
    inverse = λ d t. rw (a, b) (h.inverse d t);
    held = λ t m. rw c (h.held t (rw b at m));
    unique_domains = rw a h.unique_domains;
  }

  recv-same :
      (cb : ℕ) (id : Option ℕ) (s s' : Dispatcher A M)
      → register_recv_cb_fun cb id s ≡ done s'
      → IsWired s
      → IsWired s'
  unfolding register_recv_cb_fun
  recv-same cb id s s' e h = elim (Bool-cases (contains id s.recv_callables)) [
    | inl taken ↦ absurd (let bad : carrier_error ≡ done s' = rw taken at e in cc)
    | inr free ↦
        let same : record s { recv_callables = insert id cb s.recv_callables } ≡ s' =
          done-injective (rw free at e) in
        rw (← same) (same_wires s _ refl refl refl h)
  ]

  error-same :
      (cb : ℕ) (id : Option ℕ) (s s' : Dispatcher A M)
      → register_error_cb_fun cb id s ≡ done s'
      → IsWired s
      → IsWired s'
  unfolding register_error_cb_fun
  error-same cb id s s' e h = elim (Bool-cases (contains id s.error_callables)) [
    | inl taken ↦ absurd (let bad : carrier_error ≡ done s' = rw taken at e in cc)
    | inr free ↦
        let same : record s { error_callables = insert id cb s.error_callables } ≡ s' =
          done-injective (rw free at e) in
        rw (← same) (same_wires s _ refl refl refl h)
  ]

  route-same :
      (route : ℕ → A → M → Option ℕ) (s s' : Dispatcher A M)
      → register_routing_cb_fun route s ≡ done s'
      → IsWired s
      → IsWired s'
  unfolding register_routing_cb_fun
  route-same route s s' e h = elim (Bool-cases (is_some s.routing)) [
    | inl taken ↦ absurd (let bad : carrier_error ≡ done s' = rw taken at e in cc)
    | inr free ↦
        let same : record s { routing = some route } ≡ s' = done-injective (rw free at e) in
        rw (← same) (same_wires s _ refl refl refl h)
  ]

  timer-same :
      (cb : Option ℕ) (s s' : Dispatcher A M)
      → unregister_timer_cb_fun cb s ≡ done s'
      → IsWired s
      → IsWired s'
  unfolding unregister_timer_cb_fun
  timer-same none s s' e h =
      let same : record s { timer_callables = [] } ≡ s' = done-injective e in
      rw (← same) (same_wires s _ refl refl refl h)
  timer-same (some cb) s s' e h = elim (Bool-cases (listed cb s.timer_callables)) [
    | inl there ↦
        let same : record s { timer_callables = remove_first cb s.timer_callables } ≡ s' =
          done-injective (rw there at e) in
        rw (← same) (same_wires s _ refl refl refl h)
    | inr absent ↦ absurd (let bad : value_error ≡ done s' = rw absent at e in cc)
  ]

  Step-IsWired : {s s' : Dispatcher A M} → Step s s' → IsWired s → IsWired s'
  unfolding unregister_recv_cb_fun unregister_error_cb_fun unregister_routing_cb_fun
      register_timer_cb_fun
  Step-IsWired {s} {s'} (registers d t e) h = register_transport-IsWired d t s s' h e
  Step-IsWired {s} {s'} (unregisters d e) h = unregister_transport-IsWired d s s' h e
  Step-IsWired {s} {s'} (receives cb id e) h = recv-same cb id s s' e h
  Step-IsWired {s} {s'} (ignores id) h = same_wires s s' refl refl refl h
  Step-IsWired {s} {s'} (hears cb id e) h = error-same cb id s s' e h
  Step-IsWired {s} {s'} (unhears id) h = same_wires s s' refl refl refl h
  Step-IsWired {s} {s'} (routes route e) h = route-same route s s' e h
  Step-IsWired {s} {s'} unroutes h = same_wires s s' refl refl refl h
  Step-IsWired {s} {s'} (ticks cb) h = same_wires s s' refl refl refl h
  Step-IsWired {s} {s'} (unticks cb e) h = timer-same cb s s' e h

  -- In every state that registrations and releases reach, a transport is registered for a domain
  -- exactly if the domain is found for the transport, and its receive callback is set.
  pub Reachable-IsWired : {s : Dispatcher A M} → Reachable s → IsWired s
  Reachable-IsWired start = init-IsWired
  Reachable-IsWired (after r step) = Step-IsWired step (Reachable-IsWired r)
