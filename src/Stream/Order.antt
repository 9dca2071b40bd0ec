-- ===== src/Stream/Order.antt =====
-- The messages to a peer leave in the order in which they were handed in: written to a connection of the
-- peer, or still waiting for one.
use pysnmp.Base.Dict.{lookup, lookup-insert}
use pysnmp.Base.{
  ==_iff, Bool-cases, List, Option, [], ap, arith, false, if◌then◌else◌, inl, inr, none, refl, some,
  true, ℕ, ◌++◌, ◌==◌, ◌∙◌, ◌∷◌, ◌≡◌,
}
use mathlib.Core.List.{append-nil}
use pysnmp.Stream.State.{Address, Carrier, Write, still_waiting, waiting_for, writes}
use pysnmp.Base.Eq.{Eq, beq_refl, nat_eq}
use pysnmp.Stream.{connection_made}
use pysnmp.Stream.Events.{written_to}
use pysnmp.Stream.Open.{is_open_at, is_open_to, key_of}

module _ {K M : Type 0} ⦃ek : Eq K⦄ where
  -- What is settled and what is pending for a peer.
  abbrev pub account : K → Carrier K M → List M
  account k s = written_to k s.written ++ waiting_for k s.write_queue

  pub waiting_for-append :
      (k : K) (q : List (M × Address K)) (m : M) (a : Address K)
      → waiting_for k (q ++ (m, a) ∷ [])
        ≡ waiting_for k q ++ (if ek.beq a.key k then m ∷ [] else [])
  waiting_for-append k [] m a = refl
  waiting_for-append k ((n, b) ∷ q) m a = elim (Bool-cases (ek.beq b.key k)) [
    | inl same ↦ rw same (ap (◌∷◌ n) (waiting_for-append k q m a))
    | inr differ ↦ rw differ (waiting_for-append k q m a)
  ]

  pub waiting_for-still_waiting :
      (k j : K) (q : List (M × Address K))
      → waiting_for k (still_waiting j q) ≡ (if ek.beq j k then [] else waiting_for k q)
  waiting_for-still_waiting k j [] = ground arith
  waiting_for-still_waiting k j ((n, b) ∷ q) = ground (
    arith,
    ek.beq_iff b.key j,
    ek.beq_iff b.key k,
    ek.beq_iff j k,
    waiting_for-still_waiting k j q,
  )

  pub written_to-append :
      (k : K) (ws vs : List (Write K M))
      → written_to k (ws ++ vs) ≡ written_to k ws ++ written_to k vs
  written_to-append k [] vs = refl
  written_to-append k (w ∷ ws) vs = elim (Bool-cases (ek.beq w.address.key k)) [
    | inl same ↦ rw same (ap (◌∷◌ w.message) (written_to-append k ws vs))
    | inr differ ↦ rw differ (written_to-append k ws vs)
  ]

  pub written_to-writes :
      (k : K) (id : ℕ) (a : Address K) (ms : List M)
      → written_to k (writes id a ms) ≡ (if ek.beq a.key k then ms else [])
  written_to-writes k id a [] = ground arith
  written_to-writes k id a (m ∷ ms) = elim (Bool-cases (ek.beq a.key k)) [
    | inl same ↦ rw same (ap (◌∷◌ m) (written_to-writes k id a ms ∙ rw same refl))
    | inr differ ↦ rw differ (written_to-writes k id a ms ∙ rw differ refl)
  ]

  pub made-account :
      (k : K) (id : ℕ) (a : Address K) (s : Carrier K M)
      → account k (connection_made id a s) ≡ account k s
  unfolding connection_made
  made-account k id a s =
      rw
        (
          written_to-append k s.written (writes id a (waiting_for a.key s.write_queue)),
          written_to-writes k id a (waiting_for a.key s.write_queue),
          waiting_for-still_waiting k a.key s.write_queue,
        )
        (elim (Bool-cases (ek.beq a.key k)) [
          | inl same ↦ rw (same, (ek.beq_iff a.key k).0 same) (append-nil _)
          | inr differ ↦ rw differ (ap (λ t. t ++ waiting_for k s.write_queue) (append-nil _))
        ])

  -- Nothing waits for a peer that has an open connection.
  abbrev pub IsDrained : K → Carrier K M → Type 0
  IsDrained k s = is_open_to k s ≡ true → waiting_for k s.write_queue ≡ []

  pub record IsOrderly (s : Carrier K M) : Type 0 where
    pub listed_as :
        (k : K) (id : ℕ)
        → lookup k s.connections ≡ some id
        → key_of (lookup id s.protocols) ≡ some k
    pub drained : (k : K) → IsDrained k s

  -- A new connection takes nobody's place in the table of connections but that of its own peer.
  made_elsewhere :
      (id : ℕ) (a : Address K) (s : Carrier K M) (k : K) (j : ℕ)
      → lookup id s.protocols ≡ none
      → key_of (lookup j s.protocols) ≡ some k
      → lookup j (connection_made id a s).protocols ≡ lookup j s.protocols
  unfolding connection_made
  made_elsewhere id a s k j fresh e = elim (Bool-cases (id == j)) [
    | inl same ↦
        let gone : key_of (lookup id s.protocols) ≡ some k = rw ((==_iff id j).0 same) e in
        let nothing : none ≡ some k = rw fresh at gone in cc
    | inr differ ↦ rw (lookup-insert id j _ s.protocols, differ) refl
  ]

  made-listed_as :
      (id : ℕ) (a : Address K) (s : Carrier K M)
      → lookup id s.protocols ≡ none
      → IsOrderly s
      → (k : K) (j : ℕ) → lookup k (connection_made id a s).connections ≡ some j
      → key_of (lookup j (connection_made id a s).protocols) ≡ some k
  unfolding connection_made
  made-listed_as id a s fresh o k j found = elim (Bool-cases (ek.beq a.key k)) [
    | inl same ↦
        let new : some id ≡ some j = rw (lookup-insert a.key k id s.connections, same) at found in
        let at_id : id ≡ j = cc in
        rw (← at_id) (
          rw (lookup-insert id id _ s.protocols, beq_refl id)
            (ap some ((ek.beq_iff a.key k).0 same)))
    | inr differ ↦
        let old : lookup k s.connections ≡ some j =
          rw (lookup-insert a.key k id s.connections, differ) at found in
        rw (made_elsewhere id a s k j fresh (o.listed_as k j old)) (o.listed_as k j old)
  ]

  -- Another peer's connection is not opened by it.
  made-is_open_to :
      (id : ℕ) (a : Address K) (s : Carrier K M) (k : K)
      → lookup id s.protocols ≡ none
      → IsOrderly s
      → ek.beq a.key k ≡ false
      → is_open_to k (connection_made id a s) ≡ is_open_to k s
  unfolding connection_made is_open_to
  made-is_open_to id a s k fresh o differ = of_listed (lookup k s.connections) refl
    where
      of_listed :
          (entry : Option ℕ)
          → lookup k s.connections ≡ entry
          → is_open_to k (connection_made id a s) ≡ is_open_to k s
      of_listed none e = rw (lookup-insert a.key k id s.connections, differ, e) refl
      of_listed (some j) e =
          rw (lookup-insert a.key k id s.connections, differ, e)
            (ap is_open_at (made_elsewhere id a s k j fresh (o.listed_as k j e)))

  pub made-IsOrderly :
      (id : ℕ) (a : Address K) (s : Carrier K M)
      → lookup id s.protocols ≡ none
      → IsOrderly s
      → IsOrderly (connection_made id a s)
  unfolding connection_made
  made-IsOrderly id a s fresh o = record {
    listed_as = made-listed_as id a s fresh o;
    drained = λ k opened.
        rw (waiting_for-still_waiting k a.key s.write_queue) (elim (Bool-cases (ek.beq a.key k)) [
          | inl same ↦ rw same refl
          | inr differ ↦
              rw differ (o.drained k (rw (made-is_open_to id a s k fresh o differ) at opened))
        ]);
  }
