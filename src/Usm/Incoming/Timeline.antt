-- ===== src/Usm/Incoming/Timeline.antt =====
-- How long a peer's clock is remembered: what `processIncomingMsg` stores of it, over any sequence of
-- messages and of ticks of the timer, and what `__expireTimelineInfo` then removes.
use pysnmp.Base.Eq.{list_beq, list_beq_iff, list_eq, nat_eq}
use pysnmp.Base.{
  ==_iff, Bool, Bool-cases, List, Option, [], ap, arith, false, if◌then◌else◌, inl, inr, none, refl,
  suc, true, ℕ, ◌++◌, ◌+◌, ◌==◌, ◌||◌, ◌∙◌, ◌∷◌, ◌≡◌, ◌≤◌,
}
use pysnmp.Base.Dict.{Dict, lookup, lookup-insert, lookup-remove, remove}
use pysnmp.Base.Listed.{listed, listed-append}
use pysnmp.Usm.Mac.{Octets}
use pysnmp.Usm.State.{Estimate, Usm}
use pysnmp.Usm.Checks.{or_empty, store_estimate}
use pysnmp.Usm.Incoming.{expire_timeline_info, forget}

-- A peer's clock is read from an authenticated message, or the timer ticks.
pub data Event : Type 0 where
  heard : Octets → Estimate → Event
  tick : Event

module _ (lifetime : ℕ) where
  unfoldable pub step : Event → Usm → Usm
  step (heard id e) s = store_estimate id e lifetime s
  step tick s = expire_timeline_info s

  unfoldable pub run : List Event → Usm → Usm
  unfolding step
  run [] s = s
  run (e ∷ es) s = run es (step e s)

abbrev pub ticks : List Event → ℕ
ticks [] = 0
ticks (heard id e ∷ es) = ticks es
ticks (tick ∷ es) = suc (ticks es)

-- No message of the peer is among the events.
abbrev pub IsSilent : Octets → List Event → Type 0
IsSilent id [] = Unit
IsSilent id (heard j e ∷ es) = (list_beq j id ≡ false) × IsSilent id es
IsSilent id (tick ∷ es) = IsSilent id es

-- The peer is removed when the timer stands at `at`.
abbrev pub due : Octets → ℕ → Usm → Bool
due id at s = listed id (or_empty (lookup at s.expirations))

pub due-store :
    (j id : Octets) (at lifetime : ℕ) (e : Estimate) (s : Usm)
    → due j at (store_estimate id e lifetime s)
      ≡ (if s.expiration_timer + lifetime == at then due j at s || list_beq id j else due j at s)
due-store j id at lifetime e s =
    ap (λ o. listed j (or_empty o))
      (lookup-insert (s.expiration_timer + lifetime) at
        (or_empty (lookup (s.expiration_timer + lifetime) s.expirations) ++ id ∷ []) s.expirations)
    ∙ elim (Bool-cases (s.expiration_timer + lifetime == at)) [
      | inl same ↦
          let k : s.expiration_timer + lifetime ≡ at = (==_iff _ at).0 same in
          rw same (
            rw k (
              listed-append j (or_empty (lookup at s.expirations)) (id ∷ [])
              ∙ or_last (due j at s) (list_beq id j)))
      | inr differ ↦ rw differ refl
    ]
  where
    or_last : (a b : Bool) → (a || (b || false)) ≡ (a || b)
    or_last a b = ground arith

pub due-tick :
    (j : Octets) (at : ℕ) (s : Usm)
    → due j at (expire_timeline_info s) ≡ (if s.expiration_timer == at then false else due j at s)
unfolding expire_timeline_info
due-tick j at s =
    ap (λ o. listed j (or_empty o)) (lookup-remove s.expiration_timer at s.expirations)
    ∙ elim (Bool-cases (s.expiration_timer == at)) [
      | inl same ↦ rw same refl
      | inr differ ↦ rw differ refl
    ]

either_gone :
    (a b : Bool) (o : Option Estimate)
    → (if a then none else if b then none else o) ≡ (if b || a then none else o)
either_gone true true o = refl
either_gone true false o = refl
either_gone false true o = refl
either_gone false false o = refl

lookup-forget :
    (j : Octets) (ids : List Octets) (d : Dict Octets Estimate)
    → lookup j (forget ids d) ≡ (if listed j ids then none else lookup j d)
lookup-forget j [] d = refl
lookup-forget j (id ∷ ids) d =
    lookup-forget j ids (remove id d)
    ∙ rw (lookup-remove id j d) (either_gone (listed j ids) (list_beq id j) (lookup j d))

pub lookup-tick :
    (j : Octets) (s : Usm)
    → lookup j (expire_timeline_info s).timeline
      ≡ (if due j s.expiration_timer s then none else lookup j s.timeline)
unfolding expire_timeline_info
lookup-tick j s = lookup-forget j (or_empty (lookup s.expiration_timer s.expirations)) s.timeline

pub timer-tick : (s : Usm) → (expire_timeline_info s).expiration_timer ≡ s.expiration_timer + 1
unfolding expire_timeline_info
timer-tick s = refl

module _ (lifetime : ℕ) where
  -- A removal that is ahead stays so, whatever is heard.
  pub due-run :
      (id : Octets) (at : ℕ) (es : List Event) (s : Usm)
      → s.expiration_timer + ticks es ≤ at
      → due id at s ≡ true
      → due id at (run lifetime es s) ≡ true
  unfolding run step
  due-run id at [] s h d = d
  due-run id at (heard j e ∷ es) s h d =
      due-run id at es (store_estimate j e lifetime s) h
        (due-store id j at lifetime e s ∙ still (s.expiration_timer + lifetime == at))
    where
      still : (b : Bool) → (if b then due id at s || list_beq j id else due id at s) ≡ true
      still true = rw d refl
      still false = d
  due-run id at (tick ∷ es) s h d =
      due-run id at es (expire_timeline_info s) (let t = timer-tick s in rw t (omega arith)) (
        let later : (s.expiration_timer == at) ≡ false = ground arith in
        due-tick id at s ∙ rw later d)

  pub timer-run :
      (es : List Event) (s : Usm)
      → (run lifetime es s).expiration_timer ≡ s.expiration_timer + ticks es
  unfolding run step
  timer-run [] s = omega arith
  timer-run (heard j e ∷ es) s = timer-run es (store_estimate j e lifetime s)
  timer-run (tick ∷ es) s = omega (arith, timer-run es (expire_timeline_info s), timer-tick s)

  run-append :
      (es fs : List Event) (s : Usm)
      → run lifetime (es ++ fs) s ≡ run lifetime fs (run lifetime es s)
  unfolding run
  run-append [] fs s = refl
  run-append (e ∷ es) fs s = run-append es fs (step lifetime e s)

  pub due-heard :
      (id : Octets) (e : Estimate) (s : Usm)
      → due id (s.expiration_timer + lifetime) (store_estimate id e lifetime s) ≡ true
  due-heard id e s =
      due-store id id (s.expiration_timer + lifetime) lifetime e s
      ∙ rw ((==_iff (s.expiration_timer + lifetime) _).1 refl, (list_beq_iff id id).1 refl)
          (last (due id (s.expiration_timer + lifetime) s))
    where
      last : (a : Bool) → (a || true) ≡ true
      last a = ground arith

  -- A peer is forgotten when as many ticks as the lifetime have passed since a message of it and the
  -- next one comes, even if it has been heard of again and again in between.
  pub heard_is_forgotten :
      (id : Octets) (e : Estimate) (es : List Event) (s : Usm)
      → ticks es ≡ lifetime
      → lookup id (run lifetime (heard id e ∷ (es ++ tick ∷ [])) s).timeline ≡ none
  unfolding run step
  heard_is_forgotten id e es s h =
      let first = store_estimate id e lifetime s in
      let last = run lifetime es first in
      let clock : last.expiration_timer ≡ s.expiration_timer + lifetime =
        timer-run es first ∙ ap (λ n. s.expiration_timer + n) h in
      let still : due id (s.expiration_timer + lifetime) last ≡ true =
        due-run id (s.expiration_timer + lifetime) es first (omega (arith, h)) (due-heard id e s) in
      ap (λ (t : Usm). lookup id t.timeline) (run-append es (tick ∷ []) first)
      ∙ (lookup-tick id last ∙ rw (clock, still) refl)
