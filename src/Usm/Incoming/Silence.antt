-- ===== src/Usm/Incoming/Silence.antt =====
-- A silent peer is forgotten: a removal of it is always ahead while it is remembered.
use pysnmp.Base.Eq.{list_beq, list_beq_iff, list_eq, nat_eq}
use pysnmp.Base.{
  ==_ne, Bool-cases, List, Option-cases, [], ap, arith, false, inl, inr, none, refl, some, sym,
  true, ℕ, ◌+◌, ◌<◌, ◌∙◌, ◌∷◌, ◌≡◌, ◌≢◌, ◌≤◌,
}
use pysnmp.Base.Dict.{lookup, lookup-empty, lookup-insert}
use pysnmp.Usm.Mac.{Octets}
use pysnmp.Usm.State.{Estimate, Usm}
use pysnmp.Usm.Checks.{store_estimate}
use pysnmp.Usm.Incoming.Timeline.{
  Event, IsSilent, due, due-heard, due-run, due-tick, heard, lookup-tick, run, step, tick, ticks,
  timer-run, timer-tick,
}
use pysnmp.Usm.Incoming.{expire_timeline_info}

-- A peer is remembered only while a removal of it is ahead, at a number up to `deadline`.
pub IsScheduled : Octets → ℕ → Usm → Type 0
IsScheduled id deadline s =
    lookup id s.timeline ≢ none
    → (at : ℕ) × (s.expiration_timer ≤ at) × (at ≤ deadline) × (due id at s ≡ true)

module _ (lifetime : ℕ) where
  tick-IsScheduled :
      (id : Octets) (deadline : ℕ) (s : Usm)
      → IsScheduled id deadline s
      → IsScheduled id deadline (expire_timeline_info s)
  unfolding IsScheduled
  tick-IsScheduled id deadline s h known = elim (Bool-cases (due id s.expiration_timer s)) [
    | inl gone ↦ absurd (known (lookup-tick id s ∙ rw gone refl))
    | inr kept ↦
        let (at, ahead, bound, d) = h (λ e. known (lookup-tick id s ∙ rw kept e)) in
        let other : s.expiration_timer ≢ at =
          λ e. let bad : true ≡ false = sym d ∙ (ap (λ n. due id n s) (sym e) ∙ kept) in cc in
        let clock = timer-tick s in
        (
          at,
          rw clock (omega arith),
          bound,
          due-tick id at s ∙ rw (==_ne s.expiration_timer at other) d,
        )
  ]

  heard-IsScheduled :
      (id j : Octets) (e : Estimate) (deadline : ℕ) (s : Usm)
      → IsScheduled id deadline s
      → list_beq j id ≡ false
      → IsScheduled id deadline (store_estimate j e lifetime s)
  unfolding IsScheduled run step
  heard-IsScheduled id j e deadline s h other known =
      let (at, ahead, bound, d) =
        h (λ gone. known (lookup-insert j id e s.timeline ∙ rw other gone)) in
      (at, ahead, bound, due-run lifetime id at (heard j e ∷ []) s (omega arith) d)

  -- While a peer is silent, the last removal of it does not move.
  silent-IsScheduled :
      (id : Octets) (deadline : ℕ) (es : List Event) (s : Usm)
      → IsSilent id es
      → IsScheduled id deadline s
      → IsScheduled id deadline (run lifetime es s)
  unfolding run step
  silent-IsScheduled id deadline [] s q h = h
  silent-IsScheduled id deadline (heard j e ∷ es) s q h =
      silent-IsScheduled id deadline es (store_estimate j e lifetime s) q.1
        (heard-IsScheduled id j e deadline s h q.0)
  silent-IsScheduled id deadline (tick ∷ es) s q h =
      silent-IsScheduled id deadline es (expire_timeline_info s) q
        (tick-IsScheduled id deadline s h)

  later-IsScheduled :
      (id : Octets) (m n : ℕ) (s : Usm) → m ≤ n → IsScheduled id m s → IsScheduled id n s
  unfolding IsScheduled
  later-IsScheduled id m n s le h known =
      let (at, ahead, bound, d) = h known in (at, ahead, omega arith, d)

  self-IsScheduled :
      (id : Octets) (e : Estimate) (s : Usm)
      → IsScheduled id (s.expiration_timer + lifetime) (store_estimate id e lifetime s)
  unfolding IsScheduled
  self-IsScheduled id e s known =
      (s.expiration_timer + lifetime, omega arith, omega arith, due-heard lifetime id e s)

  -- At any time a peer that is remembered has a removal within the lifetime ahead of it.
  run-IsScheduled :
      (id : Octets) (es : List Event) (s : Usm)
      → IsScheduled id (s.expiration_timer + lifetime) s
      → IsScheduled id ((run lifetime es s).expiration_timer + lifetime) (run lifetime es s)
  unfolding run step
  run-IsScheduled id [] s h = h
  run-IsScheduled id (heard j e ∷ es) s h =
      run-IsScheduled id es (store_estimate j e lifetime s) (elim (Bool-cases (list_beq j id)) [
        | inr other ↦ heard-IsScheduled id j e (s.expiration_timer + lifetime) s h other
        | inl same ↦ rw ((list_beq_iff j id).0 same) (self-IsScheduled id e s)
      ])
  run-IsScheduled id (tick ∷ es) s h = run-IsScheduled id es (expire_timeline_info s) (
      later-IsScheduled id (s.expiration_timer + lifetime)
        ((expire_timeline_info s).expiration_timer + lifetime) (expire_timeline_info s)
        (omega (arith, timer-tick s)) (tick-IsScheduled id (s.expiration_timer + lifetime) s h))

  -- From a start at which nothing is remembered, and whatever has been heard since: once a peer has been
  -- silent for more ticks than the lifetime, nothing is remembered of it.
  pub silent_is_forgotten :
      (id : Octets) (es quiet : List Event) (s : Usm)
      → s.timeline ≡ []
      → IsSilent id quiet
      → lifetime < ticks quiet
      → lookup id (run lifetime quiet (run lifetime es s)).timeline ≡ none
  unfolding IsScheduled
  silent_is_forgotten id es quiet s empty q h =
      let nothing : IsScheduled id (s.expiration_timer + lifetime) s =
        unfold IsScheduled in λ known. absurd (known (ap (lookup id) empty ∙ lookup-empty id)) in
      let before = run lifetime es s in
      overdue before (
        silent-IsScheduled id (before.expiration_timer + lifetime) quiet before q
          (run-IsScheduled id es s nothing))
    where
      overdue :
          (t : Usm)
          → IsScheduled id (t.expiration_timer + lifetime) (run lifetime quiet t)
          → lookup id (run lifetime quiet t).timeline ≡ none
      overdue t k = elim (Option-cases (lookup id (run lifetime quiet t).timeline)) [
        | inl gone ↦ gone
        | inr (e, kept) ↦
            let (at, ahead, bound, d) =
              k (λ gone. let bad : some e ≡ none = sym kept ∙ gone in cc) in
            absurd (omega (arith, timer-run lifetime quiet t))
      ]
