-- ===== src/MpCache/Ticks.antt =====
-- Many ticks of the cache's clock: how long an entry lasts.
use pysnmp.Base.{
  ==_iff, Option, ap, ap₂, arith, if◌then◌else◌, ltb, none, refl, some, suc, true, zero, ℕ, ◌+◌,
  ◌∙◌, ◌≡◌, ◌≤◌,
}
use pysnmp.Base.Eq.{nat_eq}
use pysnmp.Base.Dict.{lookup}
use pysnmp.MpCache.{Cache, Outcome, done, expire_caches, key_error, protocol_error}
use pysnmp.MpCache.Coherent.{IsAhead, IsCoherent, due, survives}
use pysnmp.MpCache.Expiry.{expire_caches_lem}

module _ {M : Type 0} where
  abbrev chain : (Cache M → Outcome (Cache M)) → Outcome (Cache M) → Outcome (Cache M)
  chain next (done s) = next s
  chain next protocol_error = protocol_error
  chain next key_error = key_error

  -- `n` ticks of the clock.
  pub ticks : ℕ → Cache M → Outcome (Cache M)
  ticks zero s = done s
  ticks (suc n) s = chain (ticks n) (expire_caches s)

  -- An entry that expires at `t` outlasts the ticks before it and not the tick `t` itself.
  abbrev pub left_after : ℕ → ℕ → Option (M × ℕ) → Option (M × ℕ)
  left_after n now none = none
  left_after n now (some (info, t)) = if ltb t (now + n) then none else some (info, t)

  left_after_step :
      (n now : ℕ) (o : Option (M × ℕ))
      → ((e : ℕ) → due e o ≡ true → now ≤ e)
      → left_after n (now + 1) (survives now o) ≡ left_after (suc n) now o
  left_after_step n now none b = refl
  left_after_step n now (some (info, t)) b =
      let ahead : now ≤ t = b t ((==_iff t t).1 refl) in ground arith

  left_after-zero :
      (now : ℕ) (o : Option (M × ℕ))
      → ((e : ℕ) → due e o ≡ true → now ≤ e)
      → o ≡ left_after zero now o
  left_after-zero now none b = refl
  left_after-zero now (some (info, t)) b =
      let ahead : now ≤ t = b t ((==_iff t t).1 refl) in ground arith

  -- Any number of ticks succeeds, and leaves in both indices exactly what expires later.
  pub ticks_lem :
      (n : ℕ) (s : Cache M)
      → IsCoherent s
      → (s' : Cache M) × (ticks n s ≡ done s')
        × IsCoherent s'
        × (s'.expiration_timer ≡ s.expiration_timer + n)
        × (s'.send_pdu_handle_idx ≡ s.send_pdu_handle_idx)
        × ((key : ℕ)
            → lookup key s'.state_reference_index
              ≡ left_after n s.expiration_timer (lookup key s.state_reference_index))
        × ((key : ℕ)
            → lookup key s'.msg_id_index
              ≡ left_after n s.expiration_timer (lookup key s.msg_id_index))
  unfolding ticks IsAhead
  ticks_lem zero s h = (
    s,
    refl,
    h,
    omega arith,
    refl,
    λ key.
        left_after-zero s.expiration_timer (lookup key s.state_reference_index)
          (λ e. h.refs_ahead e key),
    λ key. left_after-zero s.expiration_timer (lookup key s.msg_id_index) (λ e. h.ids_ahead e key),
  )
  ticks_lem (suc n) s h =
      let (s1, e1, w, h1) = expire_caches_lem s h in
      let (s2, e2, h2, t2, k2, r2, i2) = ticks_lem n s1 h1 in
      (
        s2,
        ap (chain (ticks n)) e1 ∙ e2,
        h2,
        omega (arith, t2, w.ticked),
        k2 ∙ w.handles_kept,
        λ key.
            r2 key
            ∙ (ap₂ (left_after n) w.ticked (w.refs_swept key)
                ∙ left_after_step n s.expiration_timer (lookup key s.state_reference_index)
                    (λ e. h.refs_ahead e key)),
        λ key.
            i2 key
            ∙ (ap₂ (left_after n) w.ticked (w.ids_swept key)
                ∙ left_after_step n s.expiration_timer (lookup key s.msg_id_index)
                    (λ e. h.ids_ahead e key)),
      )
