-- ===== src/MpCache/Tests.antt =====
-- A cache whose remembered arguments are the handle alone, and the theorems at it.
use pysnmp.Base.{[], arith, false, none, refl, ℕ, ◌∷◌, ◌≡◌}
use pysnmp.Base.Eq.{nat_eq}
use pysnmp.Base.Dict.{contains, lookup}
use pysnmp.MpCache.{
  Cache, done, expire_caches, init, pop_by_send_pdu_handle, protocol_error, push_by_msg_id,
  push_by_state_ref,
}
use pysnmp.MpCache.Coherent.{IsCoherent}
use pysnmp.MpCache.Coherent.Push.{init-IsCoherent}
use pysnmp.MpCache.Ticks.{ticks}
use pysnmp.MpCache.Expiry.{IsSwept, expire_caches_lem}
use pysnmp.MpCache.Lifetime.{ReturnsIn, stale_handle_raises, state_ref_lifetime}

abbrev handle_of : ℕ → ℕ
handle_of h = h

nothing_held : (k : ℕ) → contains {V = ℕ × ℕ} k [] ≡ false
unfolding lookup
nothing_held k = refl

-- A second push of a message ID is refused.
twice_refused :
    push_by_msg_id handle_of 5 8 (record (init {M = ℕ}) { msg_id_index = (5, (7, 600)) ∷ [] })
    ≡ protocol_error
unfolding push_by_msg_id lookup
twice_refused = refl

expire_caches_lem_example :
    (s' : Cache ℕ) × (expire_caches init ≡ done s') × IsSwept init s' × IsCoherent s'
expire_caches_lem_example = expire_caches_lem init init-IsCoherent

state_ref_lifetime_example :
    ReturnsIn
      (λ pushed. ReturnsIn (λ s'. lookup 3 s'.state_reference_index ≡ none) (ticks 601 pushed))
      (push_by_state_ref 3 9 (init {M = ℕ}))
state_ref_lifetime_example = state_ref_lifetime 3 9 init 601 init-IsCoherent (nothing_held 3)

stale_handle_raises_example :
    ReturnsIn
      (λ pushed.
        ReturnsIn (λ s'. pop_by_send_pdu_handle handle_of 9 s' ≡ protocol_error) (ticks 601 pushed))
      (push_by_msg_id handle_of 3 9 init)
stale_handle_raises_example =
    stale_handle_raises handle_of 3 9 init 601 init-IsCoherent (nothing_held 3) (omega arith)
