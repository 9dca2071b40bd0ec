-- ===== src/Stream/Sent.antt =====
-- `sendMessage` of the stream carrier: a message is written to the open connection of its peer, or it waits
-- behind the others, and nothing else of the order changes.
use mathlib.Core.List.{append_assoc, append-nil}
use mathlib.Core.Path.{subst}
use pysnmp.Base.{
  Bool, Bool-cases, Option, [], false, if◌then◌else◌, inl, inr, none, refl, some, sym, true, ℕ,
  ◌++◌, ◌∙◌, ◌∷◌, ◌≡◌,
}
use pysnmp.Stream.State.{Address, Carrier, Outcome, waiting_for, writes}
use pysnmp.Base.Eq.{Eq, nat_eq}
use pysnmp.Stream.Events.{if_returned, send, taken, written_to}
use pysnmp.Stream.Order.{
  IsOrderly, account, waiting_for-append, written_to-append, written_to-writes,
}
use pysnmp.Stream.Open.{Channel, is_open_to, open_connection-cases}
use pysnmp.Stream.{connect, normalize_address, open_connection, queue_for, send_message, send_over}

module _ {K M : Type 0} ⦃ek : Eq K⦄ where
  normalize_address-key : (a : Address K) (s : Carrier K M) → (normalize_address a s).key ≡ a.key
  normalize_address-key a s = of_local a.local refl
    where
      of_local : (l : Option ℕ) → a.local ≡ l → (normalize_address a s).key ≡ a.key
      of_local none e = rw e refl
      of_local (some x) e = rw e refl

  -- The two ways in which a message is taken.
  over_open-account :
      (k : K) (m : M) (p : Address K) (s : Carrier K M)
      → IsOrderly s
      → is_open_to p.key s ≡ true
      → (ch : Channel p.key s)
      → account k (send_over m p (some (ch.id, ch.connection)) s).1
        ≡ account k s ++ (if ek.beq p.key k then m ∷ [] else [])
  over_open-account k m p s o opened ch =
      let named : some ch.connection.address.key ≡ some p.key =
        rw ch.found at (o.listed_as p.key ch.id ch.is_listed) in
      let same_key : ch.connection.address.key ≡ p.key = cc in
      rw
        (
          written_to-append k s.written (writes ch.id ch.connection.address (m ∷ [])),
          written_to-writes k ch.id ch.connection.address (m ∷ []),
          same_key,
        )
        (elim (Bool-cases (ek.beq p.key k)) [
          | inl same ↦
              rw same (
                rw (← ((ek.beq_iff p.key k).0 same), o.drained p.key opened) (simp append-nil refl))
          | inr differ ↦ rw differ (simp append-nil refl)
        ])

  queue_for-account :
      (k : K) (m : M) (p : Address K) (s : Carrier K M) (dials : Bool)
      → account k (queue_for dials m p s).1
        ≡ account k s ++ if_returned (ek.beq p.key k) m (queue_for dials m p s).0
  unfolding connect
  queue_for-account k m p s false = sym (append-nil _)
  queue_for-account k m p s true = rw (waiting_for-append k s.write_queue m p) (
      sym (
        append_assoc (written_to k s.written) (waiting_for k s.write_queue)
          (if ek.beq p.key k then m ∷ [] else [])))

  queue_for-IsOrderly :
      (m : M) (p : Address K) (s : Carrier K M)
      → is_open_to p.key s ≡ false
      → IsOrderly s
      → (dials : Bool) → IsOrderly (queue_for dials m p s).1
  unfolding connect is_open_to
  queue_for-IsOrderly m p s down o false = o
  queue_for-IsOrderly m p s down o true = record {
    listed_as = o.listed_as;
    drained = λ k opened.
        rw (waiting_for-append k s.write_queue m p) (elim (Bool-cases (ek.beq p.key k)) [
          | inl same ↦
              let other : false ≡ true =
                sym down ∙ rw (← ((ek.beq_iff p.key k).0 same)) at opened in
              cc
          | inr differ ↦ rw (differ, o.drained k opened) refl
        ]);
  }

  -- What a call of `sendMessage` does to the account of a peer, on each branch.
  sent-account :
      (k : K) (m : M) (p : Address K) (s : Carrier K M)
      → IsOrderly s
      → let sent : Outcome × Carrier K M = send_over m p (open_connection p.key s) s in
        account k sent.1 ≡ account k s ++ if_returned (ek.beq p.key k) m sent.0
  sent-account k m p s o = elim (open_connection-cases p.key s) [
    | inr (opened, ch) ↦ rw ch.chosen (over_open-account k m p s o opened ch)
    | inl (down, nowhere) ↦ rw nowhere (queue_for-account k m p s s.client_mode)
  ]

  pub send-account :
      (k : K) (m : M) (a : Address K) (s : Carrier K M)
      → IsOrderly s
      → account k (send_message m a s).1 ≡ account k s ++ taken k (send m a) s
  unfolding send_message
  send-account k m a s o =
      subst
        (λ j.
          account k (send_message m a s).1
          ≡ account k s ++ if_returned (ek.beq j k) m (send_message m a s).0)
        (normalize_address-key a s) (sent-account k m (normalize_address a s) s o)

  sent-IsOrderly :
      (m : M) (p : Address K) (s : Carrier K M)
      → IsOrderly s
      → IsOrderly (send_over m p (open_connection p.key s) s).1
  unfolding is_open_to
  sent-IsOrderly m p s o = elim (open_connection-cases p.key s) [
    | inr (opened, ch) ↦ rw ch.chosen record { listed_as = o.listed_as; drained = o.drained }
    | inl (down, nowhere) ↦ rw nowhere (queue_for-IsOrderly m p s down o s.client_mode)
  ]

  pub send-IsOrderly :
      (m : M) (a : Address K) (s : Carrier K M) → IsOrderly s → IsOrderly (send_message m a s).1
  unfolding send_message
  send-IsOrderly m a s o = sent-IsOrderly m (normalize_address a s) s o
