-- ===== src/Usm/Outgoing/Returns.antt =====
-- What the steps of `__generateRequestOrResponseMsg` have settled where they return.
use pysnmp.Base.Eq.{nat_eq}
use pysnmp.Base.{
  ==_iff, Bool-cases, Option, [], ap, false, inl, inr, none, refl, some, sym, true, ℕ, ◌==◌, ◌∙◌,
  ◌≡◌, ◌≢◌,
}
use pysnmp.Usm.Mac.{Hashes, Octets, serialization_error}
use pysnmp.Usm.State.{Engine, Library, Result, Usm, continue_with, ok, plain_status, pure}
use pysnmp.Usm.User.{has_priv_service, is_no_priv}
use pysnmp.Usm.Sender.{Localizer, or_raise}
use pysnmp.Usm.Outgoing.{
  Encoder, ScopedData, Sending, encoded, encoded_with, encrypt_pdu, encrypted_data, in_cipher,
  in_plain, message_of, parameters_sent, privacy_step,
}

module _ {G S P : Type 0} (hashes : Hashes) (library : Library S P) (encoder : Encoder G P)
    (localizer : Localizer) (engine : Engine) where
  -- The PDU under the user's privacy protocol and key.
  abbrev pub IsSecret : Sending G P → ℕ × ℕ → ScopedData P → Octets → Type 0
  IsSecret x clock scoped salt =
      (plain : Octets) × (octets : Octets) × (encoder.encode_pdu x.pdu ≡ some plain)
      × (is_no_priv x.user.priv_protocol ≡ false)
      × (encoder.encrypt x.user.priv_protocol x.user.priv_key clock.0 clock.1 plain
          ≡ some (octets, salt))
      × (scoped ≡ in_cipher octets)

  pub privacy-returns :
      (x : Sending G P) (clock : ℕ × ℕ) (s : Usm) (scoped : ScopedData P) (salt : Octets) (s1 : Usm)
      → privacy_step hashes library encoder localizer engine x clock s ≡ (ok (scoped, salt), s1)
      → (x.level ≡ 3 → IsSecret x clock scoped salt)
        × (x.level ≢ 3 → scoped ≡ in_plain x.pdu)
        × (s1 ≡ s)
  unfolding privacy_step
  privacy-returns x clock s scoped salt s1 h = elim (Bool-cases (x.level == 3)) [
    | inr open_text ↦
        let e : ◌≡◌ {A = Result P (ScopedData P × Octets) × Usm} (ok (in_plain x.pdu, []), s)
            (ok (scoped, salt), s1) =
          rw open_text at h in
        (
          λ is_3. let b : true ≡ false = sym ((==_iff x.level 3).1 is_3) ∙ open_text in cc,
          λ not_3. cc,
          cc,
        )
    | inl secret ↦ elim (Bool-cases (has_priv_service x.user.priv_protocol)) [
      | inr missing ↦ let bad = rw (secret, missing) at h in cc
      | inl service ↦
          let (e, same) =
            encoded_case (encoder.encode_pdu x.pdu) refl (rw (secret, service) at h) in
          (λ is_3. e, λ not_3. absurd (not_3 ((==_iff x.level 3).0 secret)), same)
    ]
  ]
    where
      encrypted_case :
          (plain : Octets)
          → encoder.encode_pdu x.pdu ≡ some plain
          → is_no_priv x.user.priv_protocol ≡ false
          → (o : Option (Octets × Octets))
          → encoder.encrypt x.user.priv_protocol x.user.priv_key clock.0 clock.1 plain ≡ o
          → encrypted_data hashes library encoder localizer engine o s ≡ (ok (scoped, salt), s1)
          → IsSecret x clock scoped salt × (s1 ≡ s)
      encrypted_case plain e private none f k = cc
      encrypted_case plain e private (some (octets, used)) f k =
          let same_salt : used ≡ salt = cc in
          ((plain, octets, e, private, rw same_salt at f, cc), cc)

      encoded_case :
          (o : Option Octets)
          → encoder.encode_pdu x.pdu ≡ o
          → encrypt_pdu hashes library encoder localizer engine x clock o s
            ≡ (ok (scoped, salt), s1)
          → IsSecret x clock scoped salt × (s1 ≡ s)
      encoded_case none e k = cc
      encoded_case (some plain) e k = elim (Bool-cases (is_no_priv x.user.priv_protocol)) [
        | inl refused ↦ let bad = rw refused at k in cc
        | inr private ↦
            encrypted_case plain e private
              (encoder.encrypt x.user.priv_protocol x.user.priv_key clock.0 clock.1 plain) refl
              (rw private at k)
      ]

  pub encoded-returns :
      (x : Sending G P) (clock : ℕ × ℕ) (scoped : ScopedData P) (salt digest : Octets) (s : Usm)
      (octets whole : Octets) (s1 : Usm)
      → encoded hashes library encoder localizer engine x clock scoped salt digest s
        ≡ (ok (octets, whole), s1)
      → (encoder.encode_parameters
            (parameters_sent hashes library encoder localizer engine x clock salt digest)
          ≡ some octets)
        × (encoder.encode_msg (message_of hashes library encoder localizer engine x scoped octets)
            ≡ some whole)
        × (s1 ≡ s)
  encoded-returns x clock scoped salt digest s octets whole s1 h =
      with_parameters
        (encoder.encode_parameters
          (parameters_sent hashes library encoder localizer engine x clock salt digest))
        h
    where
      with_message :
          (first : Octets) (o : Option Octets)
          → (continue_with {P = P} {B = Octets × Octets}
              (or_raise library localizer engine o (plain_status serialization_error none) s)
              (λ w. pure (first, w)))
            ≡ (ok (octets, whole), s1)
          → (first ≡ octets) × (o ≡ some whole) × (s1 ≡ s)
      with_message first none k = cc
      with_message first (some w) k = (cc, cc, cc)

      with_parameters :
          (o : Option Octets)
          → encoded_with hashes library encoder localizer engine x scoped o s
            ≡ (ok (octets, whole), s1)
          → (o ≡ some octets)
            × (encoder.encode_msg
                  (message_of hashes library encoder localizer engine x scoped octets)
                ≡ some whole)
            × (s1 ≡ s)
      with_parameters none k = cc
      with_parameters (some first) k =
          let (e, w, same) =
            with_message first
              (encoder.encode_msg
                (message_of hashes library encoder localizer engine x scoped first))
              k in
          (ap some e, rw e at w, same)
