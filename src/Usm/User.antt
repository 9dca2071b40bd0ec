-- ===== src/Usm/User.antt =====
-- `processIncomingMsg` of pysnmp/proto/secmod/rfc3414/service.py up to the user: steps 3.2.1 to 3.2.4 of
-- RFC 3414, the cached reference, and `__getUserInfo`.
pub mod Returns
use pysnmp.Base.Eq.{list_beq, list_eq, nat_eq, pair_eq}
use pysnmp.Base.Int.{pos, sub_nat, ℤ}
use pysnmp.Base.Dict.{contains, insert, lookup, remove}
use pysnmp.Base.{
  Bool, Option, [], false, if◌then◌else◌, length, ltb, none, some, true, ℕ, ◌&&◌, ◌==◌, ◌||◌, ◌∷◌,
}
use pysnmp.Usm.Mac.{
  AuthProtocol, Octets, hmac_md5, hmac_sha, hmac_sha224, hmac_sha256, hmac_sha384, hmac_sha512,
  invalid_msg, no_auth, other_auth, parse_error, unknown_engine_id, unknown_security_name,
}
use pysnmp.Usm.State.{
  Counter, Decoded, Engine, KeyRow, Library, M, PrivProtocol, Report, Result, SecurityData,
  SecurityParameters, UserInfo, UserRow, Usm, aes, aes192, aes192_blumenthal, aes256,
  aes256_blumenthal, asn1_exception, attribute_exception, count_up, decoded, des, des3,
  end_of_octets, in_gen_errs, no_priv, no_such_instance, ok, other_priv, plain_status,
  protocol_exception, pure, raise, raise_report, raise_usm_error, raised, status, undecodable,
  unknown_engine_ids, unknown_user_names, ◌>>=◌,
}

-- The arguments of a call: the message as it came, and its choice of plain or encrypted data.
pub record Incoming (S : Type 0) : Type 0 where
  pub max_message_size : ℕ
  pub security_parameters : Octets
  pub security_level : ℕ
  pub whole_msg : Octets
  pub scoped_pdu_data : S

abbrev pub is_no_priv : PrivProtocol → Bool
is_no_priv no_priv = true
is_no_priv des = false
is_no_priv des3 = false
is_no_priv aes = false
is_no_priv aes192_blumenthal = false
is_no_priv aes256_blumenthal = false
is_no_priv aes192 = false
is_no_priv aes256 = false
is_no_priv (other_priv n) = false

-- `protocol in self.authServices`, `protocol in self.privServices`
abbrev pub has_auth_service : AuthProtocol → Bool
has_auth_service no_auth = true
has_auth_service hmac_md5 = true
has_auth_service hmac_sha = true
has_auth_service hmac_sha224 = true
has_auth_service hmac_sha256 = true
has_auth_service hmac_sha384 = true
has_auth_service hmac_sha512 = true
has_auth_service (other_auth n) = false

abbrev pub has_priv_service : PrivProtocol → Bool
has_priv_service no_priv = true
has_priv_service des = true
has_priv_service des3 = true
has_priv_service aes = true
has_priv_service aes192_blumenthal = true
has_priv_service aes256_blumenthal = true
has_priv_service aes192 = true
has_priv_service aes256 = true
has_priv_service (other_priv n) = false

abbrev pub is_empty : Octets → Bool
is_empty [] = true
is_empty (x ∷ xs) = false

abbrev pub is_authenticated : ℕ → Bool
is_authenticated level = level == 2 || level == 3

-- `wildcardSecurityEngineId`
abbrev pub wildcard : Octets
wildcard = 0 ∷ 0 ∷ 0 ∷ 0 ∷ 0 ∷ []

-- The user that an empty name stands for.
abbrev pub blank_user : UserInfo
blank_user = record {
  user_name = [];
  security_name = [];
  auth_protocol = no_auth;
  auth_key = none;
  priv_protocol = no_priv;
  priv_key = none;
}

abbrev pub user_info : UserRow → KeyRow → UserInfo
user_info u k = record {
  user_name = u.user_name;
  security_name = u.security_name;
  auth_protocol = u.auth_protocol;
  auth_key = some k.auth_localized;
  priv_protocol = u.priv_protocol;
  priv_key = some k.priv_localized;
}

-- `maxSizeResponseScopedPDU`
abbrev pub max_size_response : {S : Type 0} → Incoming S → ℤ
max_size_response call =
    sub_nat (sub_nat (pos call.max_message_size) (length call.security_parameters)) 48

-- What most reports carry: a counter, the cached reference, a level, and the own engine's context.
abbrev pub report_of : {S P : Type 0} → Engine → Incoming S → Counter → ℕ → ℕ → ℕ → Report P
report_of engine call counter reference level count = record {
  counter = counter;
  value = count;
  state_reference = reference;
  security_level = level;
  context_engine_id = engine.engine_id;
  context_name = [];
  max_size = max_size_response call;
  security_engine_id = none;
  scoped_pdu = none;
  pdu = none;
}

module _ {S P : Type 0} (library : Library S P) (engine : Engine) where
  -- `__getUserInfo`
  abbrev pub with_rows : Option UserRow → Option KeyRow → M P UserInfo
  with_rows none k = raise no_such_instance
  with_rows (some u) none = raise no_such_instance
  with_rows (some u) (some k) = pure (user_info u k)

  unfoldable pub get_user_info : Octets → Octets → M P UserInfo
  get_user_info engine_id user_name s =
      if library.index_fits engine_id user_name
      then with_rows (lookup (engine_id, user_name) s.users)
          (lookup (engine_id, user_name) s.user_keys) s
      else raise asn1_exception s

  -- 3.2.1
  abbrev pub parameters_of : Decoded SecurityParameters → M P SecurityParameters
  parameters_of (decoded p) = pure p
  parameters_of end_of_octets = raise (plain_status parse_error none)
  parameters_of undecodable = raise asn1_exception

  unfoldable pub decode_step : Octets → M P SecurityParameters
  decode_step octets = parameters_of (library.decode_parameters octets)

  abbrev pub name_only : Octets → SecurityData
  name_only user_name = record {
    msg_user_name = user_name;
    security_name = none;
    auth_protocol = none;
    auth_key = none;
    priv_protocol = none;
    priv_key = none;
  }

  -- 3.2.2
  unfoldable pub cache_name_step : SecurityParameters → M P (Unit {0})
  cache_name_step p s =
      (ok tt, record s { cache = insert engine.first_reference (name_only p.user_name) s.cache })

  module _ (call : Incoming S) where
    -- 3.2.3b, of an engine that may be discovered: the report goes to the context of the request.
    abbrev pub discovered : Option P → M P (Unit {0})
    discovered none = raise (plain_status unknown_engine_id none)
    discovered (some pdu) = raise_report unknown_engine_ids unknown_engine_id none (λ count.
        record (report_of engine call unknown_engine_ids engine.first_reference call.security_level
          count) {
            context_engine_id = library.context_engine_id pdu;
            context_name = library.context_name pdu;
            scoped_pdu = some pdu;
          })

    -- A peer that is not synchronized yet is accepted if its identifier is well-formed.
    abbrev pub is_known : SecurityParameters → Usm → Bool
    is_known p s =
        list_beq p.engine_id engine.engine_id
        || contains p.engine_id s.timeline
        || (ltb 4 (length p.engine_id) && ltb (length p.engine_id) 33)

    -- 3.2.3
    unfoldable pub engine_step : SecurityParameters → M P (Unit {0})
    engine_step p s =
        if is_known p s
        then pure tt s
        else (count_up unknown_engine_ids >>= λ _.
              if engine.discoverable
              then discovered (library.chosen_plaintext call.scoped_pdu_data)
              else raise (plain_status unknown_engine_id none))
            s

    -- 3.2.4: the user of the peer's engine, else of the wildcard engine.
    abbrev pub wildcard_user :
        SecurityParameters → Result P UserInfo × Usm → Result P UserInfo × Usm
    wildcard_user p (ok info, s) = (ok info, s)
    wildcard_user p (raised no_such_instance, s) =
        raise_usm_error unknown_user_names unknown_security_name (some p.user_name)
          (report_of engine call unknown_user_names engine.first_reference call.security_level) s
    wildcard_user p (raised (status i), s) = (raised (status i), s)
    wildcard_user p (raised protocol_exception, s) = (raised protocol_exception, s)
    wildcard_user p (raised attribute_exception, s) = (raised attribute_exception, s)
    wildcard_user p (raised asn1_exception, s) = (raised asn1_exception, s)

    abbrev pub own_user : SecurityParameters → Result P UserInfo × Usm → Result P UserInfo × Usm
    own_user p (ok info, s) = (ok info, s)
    own_user p (raised no_such_instance, s) = wildcard_user p (get_user_info wildcard p.user_name s)
    own_user p (raised asn1_exception, s) =
        (count_up in_gen_errs >>= λ _. raise (plain_status invalid_msg none)) s
    own_user p (raised (status i), s) = (raised (status i), s)
    own_user p (raised protocol_exception, s) = (raised protocol_exception, s)
    own_user p (raised attribute_exception, s) = (raised attribute_exception, s)

    unfoldable pub user_step : SecurityParameters → M P UserInfo
    user_step p s =
        if is_empty p.user_name
        then pure blank_user s
        else own_user p (get_user_info p.engine_id p.user_name s)

    -- 3.2.11: the reference is replaced by one that remembers the user.
    abbrev pub held_data : SecurityParameters → UserInfo → SecurityData
    held_data p info = record {
      msg_user_name = p.user_name;
      security_name = some info.security_name;
      auth_protocol = some info.auth_protocol;
      auth_key = info.auth_key;
      priv_protocol = some info.priv_protocol;
      priv_key = info.priv_key;
    }

    abbrev pub recache : SecurityParameters → UserInfo → Option SecurityData → M P (Unit {0})
    recache p info none = raise protocol_exception
    recache p info (some old) = λ s. (
      ok tt,
      record s {
        cache =
            insert engine.second_reference (held_data p info)
              (remove engine.first_reference s.cache);
      },
    )

    unfoldable pub cache_user_step : SecurityParameters → UserInfo → M P (Unit {0})
    cache_user_step p info s = recache p info (lookup engine.first_reference s.cache) s
