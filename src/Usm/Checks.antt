-- ===== src/Usm/Checks.antt =====
-- `processIncomingMsg` of pysnmp/proto/secmod/rfc3414/service.py once the user is known: the level, the
-- digest, the time window and the deciphering, steps 3.2.5 to 3.2.8 of RFC 3414.
pub mod Returns
use pysnmp.Base.Eq.{list_beq, list_eq, nat_eq, pair_eq}
use pysnmp.Base.Dict.{insert, lookup}
use pysnmp.Base.{
  Bool, List, Option, [], false, if◌then◌else◌, ltb, none, not, some, ℕ, ◌&&◌, ◌++◌, ◌+◌, ◌-◌, ◌==◌,
  ◌||◌, ◌∷◌,
}
use pysnmp.Usm.Mac.{
  Hashes, Octets, Outcome, attribute_error, authenticate_incoming, authentication_failure,
  decryption_error, done, is_no_auth, not_in_time_window, protocol_error, status_information,
  unsupported_security_level,
}
use pysnmp.Usm.State.{
  Decoded, Engine, Estimate, Library, M, SecurityParameters, UserInfo, Usm, attribute_exception,
  decoded, decryption_errors, end_of_octets, not_in_time_windows, ok, plain_status,
  protocol_exception, pure, raise, raise_usm_error, undecodable, unsupported_sec_levels,
  wrong_digests, ◌>>=◌,
}
use pysnmp.Usm.User.{
  Incoming, has_auth_service, has_priv_service, is_authenticated, is_no_priv, report_of,
}

-- `abs(idle + own - claimed) > 150`, with `idle` the difference of two readings of the clock.
abbrev pub outside_window : ℕ → ℕ → ℕ → ℕ → Bool
outside_window compared updated own claimed =
    ltb 150 ((compared + own) - (updated + claimed))
    || ltb 150 ((updated + claimed) - (compared + own))

abbrev pub or_empty : Option (List Octets) → List Octets
or_empty none = []
or_empty (some ids) = ids

-- A reading of the peer's clock, and its removal when the timer comes to it.
abbrev pub store_estimate : Octets → Estimate → ℕ → Usm → Usm
store_estimate engine_id estimate lifetime s =
    let at = s.expiration_timer + lifetime in
    record s {
      timeline = insert engine_id estimate s.timeline;
      expirations = insert at (or_empty (lookup at s.expirations) ++ engine_id ∷ []) s.expirations;
    }

module _ {S P : Type 0} (hashes : Hashes) (library : Library S P) (engine : Engine) where
  module _ (call : Incoming S) where
    -- 3.2.5, with the levels numbered 1 noAuthNoPriv, 2 authNoPriv and 3 authPriv.
    abbrev pub bad_level : SecurityParameters → UserInfo → Bool
    bad_level p info =
        if call.security_level == 3
        then is_no_auth info.auth_protocol || is_no_priv info.priv_protocol
        else if call.security_level == 2
        then is_no_auth info.auth_protocol
          || (not (is_no_priv info.priv_protocol) && (not (p.boots == 0) || not (p.time == 0)))
        else if call.security_level == 1
        then not (is_no_auth info.auth_protocol) || not (is_no_priv info.priv_protocol)
        else false

    unfoldable pub level_step : SecurityParameters → UserInfo → M P (Unit {0})
    level_step p info =
        if list_beq p.engine_id engine.engine_id && bad_level p info
        then raise_usm_error unsupported_sec_levels unsupported_security_level (some p.user_name) (
            report_of engine call unsupported_sec_levels engine.second_reference
              call.security_level)
        else pure tt

    -- 3.2.6: the digest, and then the peer's clock, which is taken over as the message has it.
    abbrev pub estimate_of : SecurityParameters → ℕ → Estimate
    estimate_of p now = record {
      boots = p.boots;
      time = p.time;
      latest_received = p.time;
      updated = now;
    }

    abbrev pub synchronize : SecurityParameters → M P (Unit {0})
    synchronize p s =
        (ok tt, store_estimate p.engine_id (estimate_of p engine.synchronized_at) engine.lifetime s)

    abbrev pub authenticated : SecurityParameters → Outcome Octets → M P (Unit {0})
    authenticated p (done blank) = synchronize p
    authenticated p (status_information i) =
        raise_usm_error wrong_digests authentication_failure (some p.user_name)
          (report_of engine call wrong_digests engine.second_reference call.security_level)
    authenticated p protocol_error = raise protocol_exception
    authenticated p attribute_error = raise attribute_exception

    unfoldable pub authenticate_step : SecurityParameters → UserInfo → M P (Unit {0})
    authenticate_step p info =
        if is_authenticated call.security_level
        then if has_auth_service info.auth_protocol
          then authenticated p (
              authenticate_incoming hashes info.auth_protocol info.auth_key p.authentication
                call.whole_msg)
          else raise (plain_status authentication_failure none)
        else pure tt

    -- 3.2.7a: the window of the own engine.
    abbrev pub max_boots : ℕ
    max_boots = 2147483647

    abbrev pub outside_own_window : SecurityParameters → Bool
    outside_own_window p =
        engine.boots == max_boots
        || not (engine.boots == p.boots)
        || outside_window 0 0 engine.time p.time

    -- 3.2.7b, with the estimate that was read before the first test.
    abbrev pub is_newer : SecurityParameters → Estimate → Bool
    is_newer p e = ltb e.boots p.boots || (p.boots == e.boots && ltb e.latest_received p.time)

    abbrev pub outside_peer_window : SecurityParameters → Estimate → Bool
    outside_peer_window p e =
        e.boots == max_boots
        || ltb p.boots e.boots
        || (p.boots == e.boots && outside_window engine.compared_at e.updated e.time p.time)

    abbrev pub update_newer : SecurityParameters → Estimate → M P (Unit {0})
    update_newer p e s =
        if is_newer p e
        then (ok tt, store_estimate p.engine_id (estimate_of p engine.updated_at) engine.lifetime s)
        else (ok tt, s)

    abbrev pub peer_window : SecurityParameters → Option Estimate → M P (Unit {0})
    peer_window p none = raise protocol_exception
    peer_window p (some e) = update_newer p e >>= λ _.
        if outside_peer_window p e
        then raise (plain_status not_in_time_window (some p.user_name))
        else pure tt

    unfoldable pub window_step : SecurityParameters → M P (Unit {0})
    window_step p s =
        if is_authenticated call.security_level
        then if list_beq p.engine_id engine.engine_id
          then if outside_own_window p
            then raise_usm_error not_in_time_windows not_in_time_window (some p.user_name)
                (report_of engine call not_in_time_windows engine.second_reference 2) s
            else pure tt s
          else peer_window p (lookup p.engine_id s.timeline) s
        else pure tt s

    -- 3.2.8a
    abbrev pub decoded_pdu : SecurityParameters → Decoded P → M P P
    decoded_pdu p (decoded pdu) = pure pdu
    decoded_pdu p end_of_octets = raise (plain_status decryption_error (some p.user_name))
    decoded_pdu p undecodable = raise (plain_status decryption_error (some p.user_name))

    abbrev pub decrypted : SecurityParameters → Option Octets → M P P
    decrypted p none =
        raise_usm_error decryption_errors decryption_error (some p.user_name)
          (report_of engine call decryption_errors engine.second_reference call.security_level)
    decrypted p (some octets) = decoded_pdu p (library.decode_pdu octets)

    -- nopriv.py refuses; the other ciphers are the library's.
    abbrev pub decrypt_data : SecurityParameters → UserInfo → Octets → Option Octets
    decrypt_data p info octets =
        if is_no_priv info.priv_protocol
        then none
        else library.decrypt info.priv_protocol info.priv_key p.boots p.time p.privacy octets

    abbrev pub encrypted_pdu : SecurityParameters → UserInfo → Option Octets → M P P
    encrypted_pdu p info none = raise (plain_status decryption_error (some p.user_name))
    encrypted_pdu p info (some octets) = decrypted p (decrypt_data p info octets)

    -- 3.2.8b
    abbrev pub plain_pdu : SecurityParameters → Option P → M P P
    plain_pdu p none = raise (plain_status decryption_error (some p.user_name))
    plain_pdu p (some pdu) = pure pdu

    unfoldable pub pdu_step : SecurityParameters → UserInfo → M P P
    pdu_step p info =
        if call.security_level == 3
        then if has_priv_service info.priv_protocol
          then encrypted_pdu p info (library.ciphertext call.scoped_pdu_data)
          else raise (plain_status decryption_error (some p.user_name))
        else plain_pdu p (library.plaintext call.scoped_pdu_data)
