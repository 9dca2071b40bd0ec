-- ===== src/Usm/Outgoing.antt =====
-- `__generateRequestOrResponseMsg` of pysnmp/proto/secmod/rfc3414/service.py, which `generateRequestMsg`
-- and `generateResponseMsg` call, the first without a state reference.
pub mod Returns
pub mod Finished
pub mod Sent
use pysnmp.Base.Eq.{list_eq, nat_eq}
use pysnmp.Base.{Bool, Option, [], false, if◌then◌else◌, none, some, true, ℕ, ◌&&◌, ◌==◌, ◌||◌}
use pysnmp.Base.Dict.{lookup, remove}
use pysnmp.Usm.Mac.{
  AuthProtocol, Hashes, Octets, authenticate_outgoing, authentication_failure, digest_length,
  encryption_error, is_no_auth, no_auth, serialization_error, unsupported_security_level, zeros,
}
use pysnmp.Usm.State.{
  Engine, Estimate, Library, M, PrivProtocol, SecurityData, SecurityParameters, UserInfo, Usm,
  no_priv, ok, plain_status, protocol_exception, pure, raise, ◌>>=◌, ◌>>◌,
}
use pysnmp.Usm.User.{
  blank_user, has_auth_service, has_priv_service, is_authenticated, is_empty, is_no_priv,
}
use pysnmp.Usm.Sender.{Localizer, of_outcome, or_default, or_raise, peer_user}

-- The arguments of a call. An engine identifier that is `None` is empty.
pub record Outgoing (G P : Type 0) : Type 0 where
  pub global_data : G
  pub security_engine_id : Octets
  pub security_name : Octets
  pub security_level : ℕ
  pub scoped_pdu : P
  pub state_reference : Option ℕ

-- The message: its header, its security parameters, and its PDU in plain or as a ciphertext.
pub data ScopedData (P : Type 0) : Type 0 where
  in_plain : P → ScopedData P
  in_cipher : Octets → ScopedData P

pub record Message (G P : Type 0) : Type 0 where
  pub header : G
  pub parameters : Octets
  pub scoped_data : ScopedData P

-- The tags of the PDUs, which the versions of the protocol share, and `unconfirmedClassPDUs`.
pub data PduType : Type 0 where
  get_request get_next_request get_bulk_request set_request inform_request : PduType
  response trap report v2_trap : PduType

abbrev pub is_unconfirmed_class : PduType → Bool
is_unconfirmed_class get_request = false
is_unconfirmed_class get_next_request = false
is_unconfirmed_class get_bulk_request = false
is_unconfirmed_class set_request = false
is_unconfirmed_class inform_request = false
is_unconfirmed_class response = true
is_unconfirmed_class trap = true
is_unconfirmed_class report = true
is_unconfirmed_class v2_trap = true

-- pyasn1's encoder, with `none` for `PyAsn1Error`; the ciphers, with `none` for `StatusInformation`; the
-- header with its flags cleared, the PDU emptied for discovery; and the tag of a PDU.
pub record Encoder (G P : Type 0) : Type 0 where
  pub encode_pdu : P → Option Octets
  pub encode_parameters : SecurityParameters → Option Octets
  pub encode_msg : Message G P → Option Octets
  pub encrypt : PrivProtocol → Option Octets → ℕ → ℕ → Octets → Option (Octets × Octets)
  pub clear_flags : G → G
  pub blank_pdu : P → P
  pub pdu_type : P → PduType

-- What steps 3.1.1 to 3.1.6 settle before anything is encoded.
pub record Sending (G P : Type 0) : Type 0 where
  pub header : G
  pub engine_id : Octets
  pub level : ℕ
  pub pdu : P
  pub user : UserInfo

abbrev pub or_auth : Option AuthProtocol → AuthProtocol
or_auth none = no_auth
or_auth (some a) = a

abbrev pub or_priv : Option PrivProtocol → PrivProtocol
or_priv none = no_priv
or_priv (some p) = p

-- The user that `_cache` holds, with the defaults of what it does not hold.
abbrev pub cached_user : SecurityData → UserInfo
cached_user d = record {
  user_name = d.msg_user_name;
  security_name = or_default d.msg_user_name d.security_name;
  auth_protocol = or_auth d.auth_protocol;
  auth_key = d.auth_key;
  priv_protocol = or_priv d.priv_protocol;
  priv_key = d.priv_key;
}

module _ {G S P : Type 0} (hashes : Hashes) (library : Library S P) (encoder : Encoder G P)
    (localizer : Localizer) (engine : Engine) where
  -- 3.1.1a
  abbrev pub from_cache : Outgoing G P → ℕ → Option SecurityData → M P (Sending G P)
  from_cache call reference none = raise protocol_exception
  from_cache call reference (some d) = λ s. (
    ok (record {
      header = call.global_data;
      engine_id = engine.engine_id;
      level = call.security_level;
      pdu = call.scoped_pdu;
      user = cached_user d;
    }),
    record s { cache = remove reference s.cache },
  )

  -- 3.1.1b, and section 4: without an engine identifier the message asks for it.
  abbrev pub to_peer : Outgoing G P → M P (Sending G P)
  to_peer call =
      peer_user library localizer engine call.security_engine_id call.security_name >>= λ user.
      pure (record {
        header = call.global_data;
        engine_id = call.security_engine_id;
        level = call.security_level;
        pdu = call.scoped_pdu;
        user = user;
      })

  abbrev pub discovering : Outgoing G P → Sending G P
  discovering call = record {
    header = encoder.clear_flags call.global_data;
    engine_id = [];
    level = 1;
    pdu = encoder.blank_pdu call.scoped_pdu;
    user = blank_user;
  }

  abbrev pub sender_for : Outgoing G P → Option ℕ → M P (Sending G P)
  sender_for call (some reference) = λ s. from_cache call reference (lookup reference s.cache) s
  sender_for call none =
      if is_empty call.security_engine_id then pure (discovering call) else to_peer call

  unfoldable pub sender_step : Outgoing G P → M P (Sending G P)
  sender_step call = sender_for call call.state_reference

  -- 3.1.2 and 3.1.3
  unfoldable pub supported_step : Sending G P → M P (Unit {0})
  supported_step x =
      if (x.level == 3 && (is_no_auth x.user.auth_protocol || is_no_priv x.user.priv_protocol))
        || (is_authenticated x.level && is_no_auth x.user.auth_protocol)
      then raise (plain_status unsupported_security_level none)
      else pure tt

  -- 3.1.6: the boots and the time that the message claims.
  abbrev pub estimated : Option Estimate → ℕ × ℕ
  estimated none = (0, 0)
  estimated (some e) = (e.boots, e.time)

  unfoldable pub clock_of : Sending G P → Usm → ℕ × ℕ
  clock_of x s =
      if is_authenticated x.level
      then if is_unconfirmed_class (encoder.pdu_type x.pdu)
        then (engine.boots, engine.time)
        else estimated (lookup x.engine_id s.timeline)
      else (0, 0)

  -- 3.1.4: the PDU as it is sent, and the privacy parameters.
  abbrev pub encrypted_data : Option (Octets × Octets) → M P (ScopedData P × Octets)
  encrypted_data none = raise (plain_status encryption_error none)
  encrypted_data (some (octets, salt)) = pure (in_cipher octets, salt)

  abbrev pub encrypt_pdu : Sending G P → ℕ × ℕ → Option Octets → M P (ScopedData P × Octets)
  encrypt_pdu x clock none = raise (plain_status serialization_error none)
  encrypt_pdu x clock (some octets) =
      if is_no_priv x.user.priv_protocol
      then raise (plain_status encryption_error none)
      else encrypted_data
          (encoder.encrypt x.user.priv_protocol x.user.priv_key clock.0 clock.1 octets)

  unfoldable pub privacy_step : Sending G P → ℕ × ℕ → M P (ScopedData P × Octets)
  privacy_step x clock =
      if x.level == 3
      then if has_priv_service x.user.priv_protocol
        then encrypt_pdu x clock (encoder.encode_pdu x.pdu)
        else raise (plain_status encryption_error none)
      else pure (in_plain x.pdu, [])

  -- 3.1.5 and 3.1.7
  abbrev pub parameters_sent : Sending G P → ℕ × ℕ → Octets → Octets → SecurityParameters
  parameters_sent x clock salt digest = record {
    engine_id = x.engine_id;
    boots = clock.0;
    time = clock.1;
    user_name = x.user.user_name;
    authentication = digest;
    privacy = salt;
  }

  abbrev pub message_of : Sending G P → ScopedData P → Octets → Message G P
  message_of x scoped octets = record {
    header = x.header;
    parameters = octets;
    scoped_data = scoped;
  }

  -- The security parameters and the message in octets, before the digest is put in.
  abbrev pub encoded_with : Sending G P → ScopedData P → Option Octets → M P (Octets × Octets)
  encoded_with x scoped none = raise (plain_status serialization_error none)
  encoded_with x scoped (some octets) =
      or_raise library localizer engine (encoder.encode_msg (message_of x scoped octets))
        (plain_status serialization_error none)
      >>= λ whole. pure (octets, whole)

  abbrev pub encoded : Sending G P → ℕ × ℕ → ScopedData P → Octets → Octets → M P (Octets × Octets)
  encoded x clock scoped salt digest =
      encoded_with x scoped (encoder.encode_parameters (parameters_sent x clock salt digest))

  -- 3.1.8
  abbrev pub signed_whole : Sending G P → Octets × Octets → M P (Octets × Octets)
  signed_whole x (octets, whole) =
      of_outcome library localizer engine
        (authenticate_outgoing hashes x.user.auth_protocol x.user.auth_key whole)
      >>= λ signed. pure (octets, signed)

  unfoldable pub digest_step : Sending G P → ℕ × ℕ → ScopedData P → Octets → M P (Octets × Octets)
  digest_step x clock scoped salt =
      if is_authenticated x.level
      then if has_auth_service x.user.auth_protocol
        then (encoded x clock scoped salt (zeros (digest_length x.user.auth_protocol)) >>= λ pair.
            signed_whole x pair)
        else raise (plain_status authentication_failure none)
      else encoded x clock scoped salt []

  -- The security parameters as they were encoded, and the whole message.
  unfoldable pub generate_msg : Outgoing G P → M P (Octets × Octets)
  generate_msg call s =
      (sender_step call >>= λ x. supported_step x >> λ t.
      (let clock = clock_of x t in
        (privacy_step x clock >>= λ (pair : ScopedData P × Octets).
        digest_step x clock pair.0 pair.1)
          t))
        s
