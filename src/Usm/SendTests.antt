-- ===== src/Usm/SendTests.antt =====
-- Sending at a concrete user, message and engine.
use pysnmp.Base.Eq.{list_eq, nat_eq, pair_eq}
use pysnmp.Base.{[], arith, none, refl, some, ℕ, ◌++◌, ◌∷◌, ◌≡◌}
use pysnmp.Base.Dict.{insert, lookup}
use pysnmp.Usm.Mac.{
  Octets, authenticate_outgoing, done, find, md5_mac, not_in_time_window, outgoing, zeros,
}
use pysnmp.Usm.State.{
  SecurityParameters, UserInfo, Usm, decoded, not_in_time_windows, ok, protocol_exception,
  raise_usm_error, raised,
}
use pysnmp.Usm.User.{get_user_info, report_of, user_info}
use pysnmp.Usm.Checks.{window_step}
use pysnmp.Usm.User.Returns.{IsUser}
use pysnmp.Usm.Sender.{Localizer, find_user, name_users, peer_user, refresh_names, sec2usr}
use pysnmp.Usm.Outgoing.{
  Encoder, Message, Outgoing, Sending, clock_of, digest_step, generate_msg, get_request,
  parameters_sent, privacy_step, sender_step, supported_step,
}
use pysnmp.Usm.Outgoing.Sent.{IsSent, generate_msg-IsSent}
use pysnmp.Usm.Exchange.{accepted_is_answered_once, idle_request_is_late}
use pysnmp.Usm.Tests.{
  after, agent, digest, engine_id, estimate, hashes, key_row, library, manager, request,
  request_accepted, result, signed_msg, start, user_name, user_row,
}

abbrev encoder : Encoder ℕ Octets
encoder = record {
  encode_pdu = λ pdu. some pdu;
  encode_parameters = λ p. some (48 ∷ 2 ∷ p.authentication);
  encode_msg = λ (m : Message ℕ Octets). some (m.parameters ++ 5 ∷ 6 ∷ []);
  encrypt = λ protocol k boots time octets. some (octets, []);
  clear_flags = λ header. header;
  blank_pdu = λ pdu. [];
  pdu_type = λ pdu. get_request;
}

abbrev localizer : Localizer
localizer = record {
  localize_auth = λ protocol master id. done (some master);
  localize_priv = λ protocol auth master id. done none;
}

accepted_is_answered_once_example :
    (p : SecurityParameters) × (info : UserInfo) × (t : Usm) × (library.decode_parameters
        request.security_parameters
      ≡ decoded p)
    × IsUser start.users start.user_keys p info
    × (sender_step hashes library encoder localizer agent
          (record {
            global_data = 7;
            security_engine_id = engine_id;
            security_name = user_name;
            security_level = 2;
            scoped_pdu = 162 ∷ [];
            state_reference = some 22;
          })
          after
        ≡ (
          ok (record {
            header = 7;
            engine_id = engine_id;
            level = 2;
            pdu = 162 ∷ [];
            user = record info { user_name = p.user_name };
          }),
          t,
        ))
    × (sender_step hashes library encoder localizer agent
          (record {
            global_data = 7;
            security_engine_id = engine_id;
            security_name = user_name;
            security_level = 2;
            scoped_pdu = 162 ∷ [];
            state_reference = some 22;
          })
          t
        ≡ (raised protocol_exception, t))
accepted_is_answered_once_example =
    accepted_is_answered_once hashes library encoder localizer agent request start after result 7
      engine_id user_name 2 (162 ∷ []) request_accepted

abbrev sending : Sending ℕ Octets
sending = record {
  header = 7;
  engine_id = engine_id;
  level = 2;
  pdu = 160 ∷ [];
  user = user_info user_row key_row;
}

-- The agent's clock stands at 1100, 200 seconds after the manager has last heard of it.
abbrev heard_before : Usm
heard_before = record start { timeline = (engine_id, record estimate { time = 900 }) ∷ [] }

idle_request_is_late_example :
    window_step hashes library agent request
      (parameters_sent hashes library encoder localizer manager sending
        (clock_of hashes library encoder localizer manager sending heard_before)
        []
        digest)
      start
    ≡ raise_usm_error not_in_time_windows not_in_time_window
        (some user_name)
        (report_of agent request not_in_time_windows 22 2)
        start
unfolding lookup
idle_request_is_late_example =
    idle_request_is_late hashes library encoder localizer manager sending heard_before
      (record estimate { time = 900 }) [] digest agent request start refl refl refl refl refl
      (omega arith)

abbrev call : Outgoing ℕ Octets
call = record {
  global_data = 7;
  security_engine_id = engine_id;
  security_name = user_name;
  security_level = 2;
  scoped_pdu = 160 ∷ [];
  state_reference = none;
}

abbrev sent : Usm
sent = (generate_msg hashes library encoder localizer manager call start).1

request_sent :
    generate_msg hashes library encoder localizer manager call start
    ≡ (ok (48 ∷ 2 ∷ zeros 12, signed_msg), sent)
unfolding generate_msg sender_step peer_user find_user sec2usr refresh_names name_users
    get_user_info supported_step clock_of privacy_step digest_step authenticate_outgoing outgoing
    find md5_mac lookup insert
request_sent = refl

generate_msg-IsSent_example :
    IsSent hashes library encoder localizer manager call start (48 ∷ 2 ∷ zeros 12) signed_msg
generate_msg-IsSent_example =
    generate_msg-IsSent hashes library encoder localizer manager call start sent (48 ∷ 2 ∷ zeros 12)
      signed_msg request_sent
