-- ===== src/Usm/Outgoing/Sent.antt =====
-- What a message is that `__generateRequestOrResponseMsg` returns: as secret and as genuine as its level
-- says.
use pysnmp.Base.Eq.{nat_eq}
use pysnmp.Base.{[], false, some, true, ◌≡◌, ◌≢◌, ◌⊎◌}
use pysnmp.Usm.Mac.{Hashes, Octets, authenticate_outgoing, digest_length, done, is_no_auth, zeros}
use pysnmp.Usm.State.{>>=-returns, Engine, Library, Usm, ok}
use pysnmp.Usm.User.{is_authenticated}
use pysnmp.Usm.Sender.{Localizer}
use pysnmp.Usm.Outgoing.{
  Encoder, Outgoing, ScopedData, Sending, clock_of, generate_msg, in_plain, message_of,
  parameters_sent, privacy_step, sender_step, supported_step,
}
use pysnmp.Usm.Outgoing.Finished.{digest-returns, sender-returns, supported-returns}
use pysnmp.Usm.Outgoing.Returns.{IsSecret, privacy-returns}

module _ {G S P : Type 0} (hashes : Hashes) (library : Library S P) (encoder : Encoder G P)
    (localizer : Localizer) (engine : Engine) where
  -- What was decided of a message, and its octets before and after the digest was put in.
  pub record IsSent (call : Outgoing G P) (s : Usm) (octets whole : Octets) : Type 0 where
    pub x : Sending G P
    pub t : Usm
    pub scoped : ScopedData P
    pub salt : Octets
    pub digest : Octets
    pub unsigned : Octets
    pub decided : sender_step hashes library encoder localizer engine call s ≡ (ok x, t)
    pub asked : (x.level ≡ call.security_level) ⊎ ((x.level ≡ 1) × (call.security_engine_id ≡ []))
    pub private :
        x.level ≡ 3
        → IsSecret hashes library encoder localizer engine x
            (clock_of hashes library encoder localizer engine x t)
            scoped
            salt
    pub open_text : x.level ≢ 3 → scoped ≡ in_plain x.pdu
    pub described :
        encoder.encode_parameters (
          parameters_sent hashes library encoder localizer engine x
            (clock_of hashes library encoder localizer engine x t)
            salt
            digest)
        ≡ some octets
    pub serialized :
        encoder.encode_msg (message_of hashes library encoder localizer engine x scoped octets)
        ≡ some unsigned
    pub signed :
        is_authenticated x.level ≡ true
        → (is_no_auth x.user.auth_protocol ≡ false)
          × (digest ≡ zeros (digest_length x.user.auth_protocol))
          × (authenticate_outgoing hashes x.user.auth_protocol x.user.auth_key unsigned
              ≡ done whole)
    pub bare : is_authenticated x.level ≡ false → (digest ≡ []) × (whole ≡ unsigned)

  -- A message that is sent has the level that was asked for, but for the discovery of an engine, which
  -- goes at level 1; at level 3 its PDU is there only as the ciphertext under the user's key, and at
  -- levels 2 and 3 its digest is put in by the user's service, over what was encoded with zeros for it.
  pub generate_msg-IsSent :
      (call : Outgoing G P) (s s' : Usm) (octets whole : Octets)
      → generate_msg hashes library encoder localizer engine call s ≡ (ok (octets, whole), s')
      → IsSent call s octets whole
  unfolding generate_msg
  generate_msg-IsSent call s s' octets whole h =
      let (x, t, e1, h1) =
        >>=-returns (sender_step hashes library encoder localizer engine call s) _ h in
      let (u, t2, e2, h2) =
        >>=-returns (supported_step hashes library encoder localizer engine x t) _ h1 in
      let ((scoped, salt), t3, e3, h3) =
        >>=-returns
          (privacy_step hashes library encoder localizer engine x
            (clock_of hashes library encoder localizer engine x t2) t2)
          _ h2 in
      let (supported, same2) =
        supported-returns hashes library encoder localizer engine x t t2 e2 in
      let (private, open_text, same3) =
        privacy-returns hashes library encoder localizer engine x
          (clock_of hashes library encoder localizer engine x t2) t2 scoped salt t3 e3 in
      let (digest, unsigned, (described, serialized, signed, bare)) =
        digest-returns hashes library encoder localizer engine x
          (clock_of hashes library encoder localizer engine x t2) scoped salt t3 octets whole s'
          h3 in
      record {
        x = x;
        t = t2;
        scoped = scoped;
        salt = salt;
        digest = digest;
        unsigned = unsigned;
        decided = rw same2 e1;
        asked = sender-returns hashes library encoder localizer engine call s x t e1;
        private = private;
        open_text = open_text;
        described = described;
        serialized = serialized;
        signed = λ a. (supported a, (signed a).0, (signed a).1);
        bare = bare;
      }
