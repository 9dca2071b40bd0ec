-- ===== src/Usm/Outgoing/Finished.antt =====
-- What the remaining steps of `__generateRequestOrResponseMsg` have established where they return: the level
-- is served, the message is signed, and its sender is one that is known.
use pysnmp.Base.Eq.{nat_eq}
use pysnmp.Base.{
  Bool-cases, Option, [], ap, arith, false, inl, inr, none, refl, some, sym, true, ℕ, ◌&&◌, ◌==◌,
  ◌||◌, ◌∙◌, ◌≡◌, ◌⊎◌,
}
use pysnmp.Usm.Mac.{
  Hashes, Octets, Outcome, attribute_error, authenticate_outgoing, digest_length, done, is_no_auth,
  protocol_error, status_information, zeros,
}
use pysnmp.Usm.State.{
  >>=-returns, Engine, Library, Result, SecurityData, Usm, continue_with, ok, pure,
}
use pysnmp.Usm.User.{has_auth_service, is_authenticated, is_empty, is_no_priv}
use pysnmp.Usm.User.Returns.{is_empty_lem}
use pysnmp.Usm.Sender.{Localizer, of_outcome, peer_user}
use pysnmp.Usm.Outgoing.{
  Encoder, Outgoing, ScopedData, Sending, digest_step, discovering, encoded, from_cache, message_of,
  parameters_sent, sender_for, sender_step, signed_whole, supported_step,
}
use pysnmp.Base.Dict.{lookup}
use pysnmp.Usm.Outgoing.Returns.{encoded-returns}

module _ {G S P : Type 0} (hashes : Hashes) (library : Library S P) (encoder : Encoder G P)
    (localizer : Localizer) (engine : Engine) where
  pub supported-returns :
      (x : Sending G P) (s s1 : Usm)
      → supported_step hashes library encoder localizer engine x s ≡ (ok tt, s1)
      → (is_authenticated x.level ≡ true → is_no_auth x.user.auth_protocol ≡ false) × (s1 ≡ s)
  unfolding supported_step
  supported-returns x s s1 h =
      elim (Bool-cases (
        (x.level == 3 && (is_no_auth x.user.auth_protocol || is_no_priv x.user.priv_protocol))
        || (is_authenticated x.level && is_no_auth x.user.auth_protocol))) [
          | inl bad ↦ let refused = rw bad at h in cc
          | inr fine ↦
              let e : ◌≡◌ {A = Result P (Unit {0}) × Usm} (ok tt, s) (ok tt, s1) = rw fine at h in
              (λ asked. ground arith, cc)
        ]

  -- The digest that the parameters were encoded with, and what was done with the message.
  abbrev pub IsFinished :
      Sending G P → ℕ × ℕ → ScopedData P → Octets → Octets → Octets → Octets → Octets → Type 0
  IsFinished x clock scoped salt octets whole digest unsigned =
      (encoder.encode_parameters
          (parameters_sent hashes library encoder localizer engine x clock salt digest)
        ≡ some octets)
      × (encoder.encode_msg (message_of hashes library encoder localizer engine x scoped octets)
          ≡ some unsigned)
      × (is_authenticated x.level ≡ true
          → (digest ≡ zeros (digest_length x.user.auth_protocol))
            × (authenticate_outgoing hashes x.user.auth_protocol x.user.auth_key unsigned
                ≡ done whole))
      × (is_authenticated x.level ≡ false → (digest ≡ []) × (whole ≡ unsigned))

  signed-returns :
      (x : Sending G P) (first unsigned : Octets) (s : Usm) (octets whole : Octets) (s1 : Usm)
      → signed_whole hashes library encoder localizer engine x (first, unsigned) s
        ≡ (ok (octets, whole), s1)
      → (first ≡ octets)
        × (authenticate_outgoing hashes x.user.auth_protocol x.user.auth_key unsigned ≡ done whole)
  signed-returns x first unsigned s octets whole s1 h =
      go (authenticate_outgoing hashes x.user.auth_protocol x.user.auth_key unsigned) h
    where
      go :
          (o : Outcome Octets)
          → (continue_with {P = P} {B = Octets × Octets}
              (of_outcome library localizer engine o s)
              (λ w. pure (first, w)))
            ≡ (ok (octets, whole), s1)
          → (first ≡ octets) × (o ≡ done whole)
      go (done w) k = (cc, cc)
      go (status_information i) k = cc
      go protocol_error k = cc
      go attribute_error k = cc

  pub digest-returns :
      (x : Sending G P) (clock : ℕ × ℕ) (scoped : ScopedData P) (salt : Octets) (s : Usm)
      (octets whole : Octets) (s1 : Usm)
      → digest_step hashes library encoder localizer engine x clock scoped salt s
        ≡ (ok (octets, whole), s1)
      → (digest : Octets) × (unsigned : Octets) × IsFinished x clock scoped salt octets whole digest
          unsigned
  unfolding digest_step
  digest-returns x clock scoped salt s octets whole s1 h =
      elim (Bool-cases (is_authenticated x.level)) [
        | inr bare ↦
            let (e, w, same) =
              encoded-returns hashes library encoder localizer engine x clock scoped salt [] s
                octets whole s1 (rw bare at h) in
            (
              [],
              whole,
              (
                e,
                w,
                λ asked. let b : true ≡ false = sym asked ∙ bare in cc,
                λ not_asked. (refl, refl),
              ),
            )
        | inl asked ↦ elim (Bool-cases (has_auth_service x.user.auth_protocol)) [
          | inr missing ↦ let bad = rw (asked, missing) at h in cc
          | inl service ↦
              let ((first, unsigned), s2, e, k) =
                >>=-returns
                  (encoded hashes library encoder localizer engine x clock scoped salt
                    (zeros (digest_length x.user.auth_protocol)) s)
                  (signed_whole hashes library encoder localizer engine x)
                  (rw (asked, service) at h) in
              let (f, w, same) =
                encoded-returns hashes library encoder localizer engine x clock scoped salt
                  (zeros (digest_length x.user.auth_protocol)) s first unsigned s2 e in
              let (same_first, d) = signed-returns x first unsigned s2 octets whole s1 k in
              (
                zeros (digest_length x.user.auth_protocol),
                unsigned,
                (
                  f ∙ ap some same_first,
                  rw same_first at w,
                  λ still_asked. (refl, d),
                  λ bare. let b : true ≡ false = sym asked ∙ bare in cc,
                ),
              )
        ]
      ]

  pub sender-returns :
      (call : Outgoing G P) (s : Usm) (x : Sending G P) (t : Usm)
      → sender_step hashes library encoder localizer engine call s ≡ (ok x, t)
      → (x.level ≡ call.security_level) ⊎ ((x.level ≡ 1) × (call.security_engine_id ≡ []))
  unfolding sender_step
  sender-returns call s x t h = by_reference call.state_reference h
    where
      held :
          (reference : ℕ) (o : Option SecurityData)
          → from_cache hashes library encoder localizer engine call reference o s ≡ (ok x, t)
          → x.level ≡ call.security_level
      held reference none k = cc
      held reference (some d) k = ground arith

      by_reference :
          (o : Option ℕ)
          → sender_for hashes library encoder localizer engine call o s ≡ (ok x, t)
          → (x.level ≡ call.security_level) ⊎ ((x.level ≡ 1) × (call.security_engine_id ≡ []))
      by_reference (some reference) k = inl (held reference (lookup reference s.cache) k)
      by_reference none k = elim (Bool-cases (is_empty call.security_engine_id)) [
        | inl empty ↦
            let e : ◌≡◌ {A = Result P (Sending G P) × Usm}
                (ok (discovering hashes library encoder localizer engine call), s) (ok x, t) =
              rw empty at k in
            inr (ground arith, is_empty_lem call.security_engine_id empty)
        | inr peer ↦
            let (user, t1, e, f) =
              >>=-returns
                (peer_user library localizer engine call.security_engine_id call.security_name s) _
                (rw peer at k) in
            inl (ground arith)
      ]
