-- ===== src/Dispatcher/Close.antt =====
-- Receiving from a transport that was just registered, and what `closeDispatcher` leaves behind.
use pysnmp.Base.{
  ==_iff, Bool-cases, Option-cases, [], ap, arith, false, inl, inr, is_some, none, refl, some, sym,
  true, ℕ, ◌==◌, ◌∙◌, ◌∷◌, ◌≡◌,
}
use pysnmp.Base.Eq.{nat_eq, option_eq}
use pysnmp.Base.Dict.{
  Dict, HasUniqueKeys, contains, contains-remove, lookup, lookup-remove, remove,
  remove-HasUniqueKeys,
}
use pysnmp.Dispatcher.{
  Dispatcher, call_with, carrier_error, cb_fun, close_dispatcher, close_each, close_found,
  close_transport, closed, done, recv_id, release, route_from, then_do, unregister_error_cb_fun,
  unregister_found, unregister_recv_cb_fun, unregister_timer_cb_fun, unregister_transport,
}
use pysnmp.Dispatcher.Wiring.{IsWired, Reachable, Reachable-IsWired}

module _ {A M : Type 0} where
  -- In a reachable state, a message of a transport that is registered goes, under the transport's
  -- domain, to the callback of the receiver that the routing function names (the default one without
  -- a routing function), and raises `CarrierError` if there is none.
  pub cb_fun_lem :
      (s : Dispatcher A M)
      → Reachable s
      → (d t : ℕ) (address : A) (message : M) → lookup d s.transports ≡ some t
      → cb_fun t address message s
        ≡ call_with d address message
            (lookup (recv_id s.routing d address message) s.recv_callables)
  unfolding cb_fun
  cb_fun_lem s r d t address message found =
      ap (route_from s address message) (((Reachable-IsWired r).inverse d t).0 found)

  -- What the loop of `closeDispatcher` keeps and empties.
  pub record IsReleased (s s' : Dispatcher A M) : Type 0 where
    pub no_domain : (d : ℕ) → contains d s'.transports ≡ false
    pub still_free : (t : ℕ) → contains t s.attached ≡ false → contains t s'.attached ≡ false
    pub freed : (t : ℕ) → contains t s.domain_map ≡ true → contains t s'.attached ≡ false
    pub still_wired : IsWired s'
    pub same_recv : s'.recv_callables ≡ s.recv_callables
    pub same_error : s'.error_callables ≡ s.error_callables
    pub same_routing : s'.routing ≡ s.routing

  -- A transport that is closed before it is released.
  close_found_lem :
      (d t : ℕ) (s : Dispatcher A M)
      → IsWired s
      → lookup d s.transports ≡ some t
      → (s' : Dispatcher A M) × (close_found d s (lookup d s.transports) ≡ done s')
        × IsWired s'
        × (s'.transports ≡ remove d s.transports)
        × (s'.domain_map ≡ remove t s.domain_map)
        × (s'.attached ≡ remove t (remove t s.attached))
        × (s'.recv_callables ≡ s.recv_callables)
        × (s'.error_callables ≡ s.error_callables)
        × (s'.routing ≡ s.routing)
  unfolding unregister_transport
  close_found_lem d t s h found =
      let c = close_transport t s in
      let known : contains t s.domain_map ≡ true = ap is_some ((h.inverse d t).0 found) in
      (
        release d t c,
        ap (close_found d s) found ∙ (ap (unregister_found d c) found ∙ rw known refl),
        record {
          inverse = λ i u. ground (
            arith,
            lookup-remove d i s.transports,
            lookup-remove t u s.domain_map,
            h.inverse i u,
            h.inverse d u,
            h.inverse i t,
            ==_iff d i,
            ==_iff t u,
          );
          held = λ u m. ground (
            arith,
            contains-remove t u s.domain_map,
            contains-remove t u (remove t s.attached),
            contains-remove t u s.attached,
            h.held u,
          );
          unique_domains = remove-HasUniqueKeys d s.transports h.unique_domains;
        },
        refl,
        refl,
        refl,
        refl,
        refl,
        refl,
      )

  close_each_lem :
      (ds : Dict ℕ ℕ) (s : Dispatcher A M)
      → HasUniqueKeys ds
      → ((d : ℕ) → contains d s.transports ≡ contains d ds)
      → IsWired s
      → (s' : Dispatcher A M) × (close_each ds s ≡ done s') × IsReleased s s'
  unfolding close_each lookup
  close_each_lem [] s u h w = (
    s,
    refl,
    record {
      no_domain = h;
      still_free = λ u free. free;
      freed = λ u mapped. elim (Option-cases (lookup u s.domain_map)) [
        | inl e ↦ absurd (let bad : false ≡ true = sym (ap is_some e) ∙ mapped in cc)
        | inr (d, e) ↦ absurd (
            let there : contains d s.transports ≡ true = ap is_some ((w.inverse d u).1 e) in
            let bad : false ≡ true = sym (h d) ∙ there in cc)
      ];
      still_wired = w;
      same_recv = refl;
      same_error = refl;
      same_routing = refl;
    },
  )
  close_each_lem ((d, x) ∷ rest) s u h w = elim (Option-cases (lookup d s.transports)) [
    | inl e ↦
        let there : contains d s.transports ≡ true = h d ∙ rw ((==_iff d d).1 refl) refl in
        absurd (let bad : false ≡ true = sym (ap is_some e) ∙ there in cc)
    | inr (t, e) ↦
        let (s1, c, w1, t1, m1, a1, r1, e1, o1) = close_found_lem d t s w e in
        let (s2, c2, rel) =
          close_each_lem rest s1 u.1
            (λ j.
              ap (contains j) t1
              ∙ ground (arith, contains-remove d j s.transports, h j, u.0, ==_iff d j))
            w1 in
        (
          s2,
          ap (λ o. then_do o (close_each rest)) c ∙ c2,
          record {
            no_domain = rel.no_domain;
            still_free = λ u free. rel.still_free u (
                ap (contains u) a1
                ∙ ground (
                  arith,
                  contains-remove t u (remove t s.attached),
                  contains-remove t u s.attached,
                  free,
                ));
            freed = λ u mapped. elim (Bool-cases (t == u)) [
              | inl same ↦ rel.still_free u (
                  ap (contains u) a1
                  ∙ ground (arith, contains-remove t u (remove t s.attached), same))
              | inr other ↦ rel.freed u (
                  ap (contains u) m1
                  ∙ ground (arith, contains-remove t u s.domain_map, other, mapped))
            ];
            still_wired = rel.still_wired;
            same_recv = rel.same_recv ∙ r1;
            same_error = rel.same_error ∙ e1;
            same_routing = rel.same_routing ∙ o1;
          },
        )
  ]

  -- What the calls after the loop leave.
  abbrev after_closing : Dispatcher A M → Dispatcher A M
  after_closing s = record s {
    transports = [];
    recv_callables = remove none s.recv_callables;
    error_callables = remove none s.error_callables;
    timer_callables = [];
  }

  -- Closing a reachable dispatcher never raises. Afterwards no transport is registered, so that every
  -- message raises `CarrierError`, and none that was registered has its receive callback any more. Of the
  -- receivers and of the error callbacks only the default one is gone; all timer callbacks are gone, and
  -- the routing function stays.
  pub close_dispatcher_lem :
      (s : Dispatcher A M)
      → Reachable s
      → (s' : Dispatcher A M) × (close_dispatcher s ≡ done s')
        × (s'.transports ≡ [])
        × ((d t : ℕ) → lookup d s.transports ≡ some t → contains t s'.attached ≡ false)
        × ((t : ℕ) (address : A) (message : M) → cb_fun t address message s' ≡ carrier_error)
        × (s'.recv_callables ≡ remove none s.recv_callables)
        × (s'.error_callables ≡ remove none s.error_callables)
        × (s'.timer_callables ≡ [])
        × (s'.routing ≡ s.routing)
  unfolding close_dispatcher unregister_recv_cb_fun unregister_error_cb_fun cb_fun
      unregister_timer_cb_fun
  close_dispatcher_lem s r =
      let w = Reachable-IsWired r in
      let (t, c, rel) = close_each_lem s.transports s w.unique_domains (λ d. refl) w in
      (
        after_closing t,
        ap (λ o. then_do o closed) c,
        refl,
        λ d u found. rel.freed u (ap is_some ((w.inverse d u).0 found)),
        λ u address message. elim (Option-cases (lookup u t.domain_map)) [
          | inl e ↦ ap (route_from (after_closing t) address message) e
          | inr (d, e) ↦ absurd (
              let bad : true ≡ false =
                sym (ap is_some ((rel.still_wired.inverse d u).1 e)) ∙ rel.no_domain d in
              cc)
        ],
        ap (remove none) rel.same_recv,
        ap (remove none) rel.same_error,
        refl,
        rel.same_routing,
      )
