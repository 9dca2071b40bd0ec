-- ===== src/PduDispatch/Expire/Loop.antt =====
-- The sweep over pending requests, whatever its test: an entry is failed once or left alone, and what
-- the callbacks start meanwhile does not change that while they leave the requests alone that were pending.
use mathlib.Core.Path.{subst}
use mathlib.Core.List.{append-nil}
use pysnmp.Base.Eq.{nat_eq}
use pysnmp.Base.Dict.{Dict, contains, lookup, lookup-remove}
use pysnmp.Base.{
  ==_iff, Bool, Bool-cases, List, Option, [], ap, false, if◌then◌else◌, inl, inr, is_some, none,
  refl, some, sym, true, ℕ, ◌&&◌, ◌++◌, ◌==◌, ◌||◌, ◌∙◌, ◌∷◌, ◌≡◌,
}
use pysnmp.PduDispatch.{Call, Engine, Pending, Result, Status, answer, ok, serve}
use pysnmp.PduDispatch.Expire.{expire_loop, removed_if}

module _ {P : Type 0} where
  -- The statuses with which the callback of a request has been called.
  unfoldable pub answers_of : ℕ → List (Call P) → List (Option Status)
  answers_of h [] = []
  answers_of h (serve app d ∷ calls) = answers_of h calls
  answers_of h (answer callback context i d status ∷ calls) =
      let rest = answers_of h calls in if i == h then status ∷ rest else rest

  pub answers_of-append :
      (h : ℕ) (calls more : List (Call P))
      → answers_of h (calls ++ more) ≡ answers_of h calls ++ answers_of h more
  unfolding answers_of
  answers_of-append h [] more = refl
  answers_of-append h (serve app d ∷ calls) more = answers_of-append h calls more
  answers_of-append h (answer callback context i d status ∷ calls) more =
      elim (Bool-cases (i == h)) [
        | inl same ↦ rw same (ap (◌∷◌ status) (answers_of-append h calls more))
        | inr differ ↦ rw differ (answers_of-append h calls more)
      ]

  -- A request is failed by the test.
  abbrev pub is_hit : (Pending P → Bool) → Option (Pending P) → Bool
  is_hit test none = false
  is_hit test (some p) = test p

  -- Every entry is kept under its handle.
  abbrev pub IsKeyed : Dict ℕ (Pending P) → Type 0
  IsKeyed [] = Unit
  IsKeyed ((h, p) ∷ d) = (p.handle ≡ h) × (contains h d ≡ false) × IsKeyed d

not_there : {A : Type 0} (found : Option A) → is_some found ≡ false → found ≡ none
not_there none e = refl
not_there (some x) e = cc

or_false : (b : Bool) → (b || false) ≡ b
or_false true = refl
or_false false = refl

module _ {X P : Type 0} where
  -- From one state to a later one a request is failed with a status, or left alone; the clock stands.
  pub record Swept (j : ℕ) (hit : Bool) (status : Status) (s t : Engine X P) : Type 0 where
    pub left : lookup j t.cache ≡ (if hit then none else lookup j s.cache)
    pub answered :
        answers_of j t.calls ≡ answers_of j s.calls ++ (if hit then some status ∷ [] else [])
    pub clock : t.now ≡ s.now
    pub transport : t.has_transport ≡ s.has_transport

  pub Swept-left_alone : (j : ℕ) (status : Status) (s : Engine X P) → Swept j false status s s
  Swept-left_alone j status s = record {
    left = refl;
    answered = sym (append-nil _);
    clock = refl;
    transport = refl;
  }

  Swept-then :
      (j : ℕ) (a b : Bool) (status : Status) (s t u : Engine X P)
      → (b ≡ true → a ≡ false)
      → Swept j a status s t
      → Swept j b status t u
      → Swept j (a || b) status s u
  Swept-then j true true status s t u once p q = let both : true ≡ false = once refl in cc
  Swept-then j false b status s t u once p q = record {
    left = rw q.left (rw p.left refl);
    answered = rw q.answered (rw p.answered (rw (append-nil (answers_of j s.calls)) refl));
    clock = q.clock ∙ p.clock;
    transport = q.transport ∙ p.transport;
  }
  Swept-then j true false status s t u once p q = record {
    left = rw q.left p.left;
    answered = rw q.answered (rw p.answered (append-nil _));
    clock = q.clock ∙ p.clock;
    transport = q.transport ∙ p.transport;
  }

  -- A condition holds of each entry that the sweep fails, at the state in which it comes to it.
  abbrev pub AtEachHit :
      (Pending P → Engine X P → Result Bool × Engine X P)
      → (Pending P → Bool)
      → (Pending P → Engine X P → Type 0)
      → Dict ℕ (Pending P)
      → Engine X P
      → Type 0
  AtEachHit due test Good [] s = Unit
  AtEachHit due test Good ((h, p) ∷ rest) s =
      (test p ≡ true → Good p s) × AtEachHit due test Good rest (removed_if (test p) h (due p s).1)

  -- What one round of the loop does to a request.
  abbrev pub Due :
      (Pending P → Engine X P → Result Bool × Engine X P)
      → (Pending P → Bool)
      → (Pending P → Engine X P → Type 0)
      → Status
      → ℕ
      → ℕ
      → Type 0
  Due due test Good status now j =
      (p : Pending P) (s : Engine X P)
      → s.has_transport ≡ true
      → s.now ≡ now
      → (test p ≡ true → Good p s)
      → (u : Engine X P) × (due p s ≡ (ok (test p), u))
        × Swept j (p.handle == j && test p) status s u

  removed-Swept :
      (j h : ℕ) (hit : Bool) (status : Status) (s u : Engine X P)
      → Swept j (h == j && hit) status s u
      → Swept j (h == j && hit) status s (removed_if hit h u)
  removed-Swept j h false status s u sw = sw
  removed-Swept j h true status s u sw = record {
    left = elim (Bool-cases (h == j)) [
      | inl same ↦ rw (lookup-remove h j u.cache, same) refl
      | inr differ ↦ rw (lookup-remove h j u.cache, differ) (rw differ at sw.left)
    ];
    answered = sw.answered;
    clock = sw.clock;
    transport = sw.transport;
  }

  -- A hit at the head of the entries, and a hit further on.
  head_or_rest :
      (test : Pending P → Bool) (j h : ℕ) (p : Pending P) (rest : Dict ℕ (Pending P))
      (status : Status) (s t u : Engine X P)
      → contains h rest ≡ false
      → Swept j (h == j && test p) status s t
      → Swept j (is_hit test (lookup j rest)) status t u
      → Swept j (is_hit test (if h == j then some p else lookup j rest)) status s u
  head_or_rest test j h p rest status s t u unique a b = elim (Bool-cases (h == j)) [
    | inr differ ↦ rw differ (
        Swept-then j false (is_hit test (lookup j rest)) status s t u (λ e. refl) (rw differ at a)
          b)
    | inl same ↦
        let gone : lookup j rest ≡ none =
          not_there (lookup j rest) (rw ((==_iff h j).0 same) at unique) in
        rw same (
          rw (or_false (test p)) at
            (Swept-then j (test p) false status s t u (λ e. cc) (rw same at a) (rw gone at b)))
  ]

  pub loop-Swept :
      (due : Pending P → Engine X P → Result Bool × Engine X P) (test : Pending P → Bool)
      (Good : Pending P → Engine X P → Type 0) (status : Status) (now j : ℕ)
      (entries : Dict ℕ (Pending P)) (s : Engine X P)
      → Due due test Good status now j
      → AtEachHit due test Good entries s
      → IsKeyed entries
      → s.has_transport ≡ true
      → s.now ≡ now
      → ((expire_loop due entries s).0 ≡ ok tt)
        × Swept j (is_hit test (lookup j entries)) status s (expire_loop due entries s).1
  unfolding expire_loop lookup
  loop-Swept due test Good status now j [] s step calm keyed on at =
      (refl, Swept-left_alone j status s)
  loop-Swept due test Good status now j ((h, p) ∷ rest) s step calm (named, unique, keyed) on at =
      let found = step p s on at calm.0 in
      let once : Swept j (h == j && test p) status s (removed_if (test p) h found.0) =
        removed-Swept j h (test p) status s found.0
          (subst (λ k. Swept j (k == j && test p) status s found.0) named found.2) in
      let next =
        loop-Swept due test Good status now j rest (removed_if (test p) h found.0) step
          (subst (λ (u : Engine X P). AtEachHit due test Good rest (removed_if (test p) h u))
            (ap (λ (r : Result Bool × Engine X P). r.1) found.1) calm.1)
          keyed (once.transport ∙ on) (once.clock ∙ at) in
      rw found.1 (
        next.0,
        head_or_rest test j h p rest status s (removed_if (test p) h found.0) _ unique once next.1,
      )
