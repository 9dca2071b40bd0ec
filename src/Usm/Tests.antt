-- ===== src/Usm/Tests.antt =====
-- The user-based security model at a concrete user, message and engine.
use pysnmp.Base.Eq.{list_eq, nat_eq, pair_eq}
use pysnmp.Base.{[], ap, arith, length, none, refl, some, suc, true, zero, ℕ, ◌++◌, ◌+◌, ◌∷◌, ◌≡◌}
use pysnmp.Base.Int.{pos}
use pysnmp.Base.Dict.{insert, lookup, remove}
use pysnmp.Usm.Mac.{
  Hashes, Octets, authenticate_incoming, authenticate_outgoing, done, find, hmac_md5, incoming,
  md5_mac, zeros,
}
use pysnmp.Usm.Mac.Signed.{IsFirst, sign-verify}
use pysnmp.Usm.State.{
  Engine, Estimate, KeyRow, Library, SecurityParameters, UserRow, Usm, decoded, no_priv, ok,
}
use pysnmp.Usm.User.{
  Incoming, cache_name_step, cache_user_step, decode_step, engine_step, get_user_info, user_info,
  user_step,
}
use pysnmp.Usm.Checks.{authenticate_step, level_step, pdu_step, window_step}
use pysnmp.Usm.Incoming.{Accepted, discovery_step, process_incoming_msg}
use pysnmp.Usm.Incoming.Accepts.{IsVouched, process_incoming_msg-IsVouched}
use pysnmp.Usm.Incoming.Replay.{old_message_passes}
use pysnmp.Usm.Incoming.Silence.{silent_is_forgotten}
use pysnmp.Usm.Incoming.Timeline.{heard, heard_is_forgotten, run, tick}

-- A digest of equal octets, which depends on the length of the message.
abbrev pub copies : ℕ → ℕ → Octets
copies zero x = []
copies (suc n) x = x ∷ copies n x

abbrev pub hashes : Hashes
hashes = record {
  md5 = λ m. copies 16 (1 + length m);
  sha1 = λ m. copies 20 (1 + length m);
  hmac_sha2 = λ protocol key m. copies 64 (1 + length m);
}

abbrev pub key : Octets
key = copies 16 9

abbrev pub unsigned_msg : Octets
unsigned_msg = 48 ∷ 2 ∷ zeros 12 ++ 5 ∷ 6 ∷ []

-- The inner hash has 64 octets of key and 16 of message, the outer one 64 and 16.
abbrev pub digest : Octets
digest = copies 12 81

abbrev pub signed_msg : Octets
signed_msg = 48 ∷ 2 ∷ digest ++ 5 ∷ 6 ∷ []

first_octet : Octets → ℕ
first_octet [] = 0
first_octet (x ∷ l) = x

-- Neither the head's first octet nor its second begins twelve zero octets.
zeros-IsFirst : IsFirst (48 ∷ 2 ∷ []) (zeros 12) (5 ∷ 6 ∷ [])
unfolding first_octet
zeros-IsFirst zero below e =
    let h : ◌≡◌ {A = ℕ} 48 0 = ap first_octet e in absurd (omega (arith, h))
zeros-IsFirst (suc zero) below e =
    let h : ◌≡◌ {A = ℕ} 2 0 = ap first_octet e in absurd (omega (arith, h))
zeros-IsFirst (suc (suc i)) below e = omega (arith, below)

digest-IsFirst : IsFirst (48 ∷ 2 ∷ []) digest (5 ∷ 6 ∷ [])
unfolding first_octet
digest-IsFirst zero below e =
    let h : ◌≡◌ {A = ℕ} 48 81 = ap first_octet e in absurd (omega (arith, h))
digest-IsFirst (suc zero) below e =
    let h : ◌≡◌ {A = ℕ} 2 81 = ap first_octet e in absurd (omega (arith, h))
digest-IsFirst (suc (suc i)) below e = omega (arith, below)

sign-verify_example :
    (authenticate_outgoing hashes hmac_md5 (some key) unsigned_msg ≡ done signed_msg)
    × (authenticate_incoming hashes hmac_md5 (some key) digest signed_msg ≡ done unsigned_msg)
unfolding md5_mac
sign-verify_example =
    sign-verify hashes hmac_md5 key (48 ∷ 2 ∷ []) (5 ∷ 6 ∷ []) digest refl refl zeros-IsFirst refl
      digest-IsFirst

abbrev pub engine_id : Octets
engine_id = copies 8 1

abbrev pub user_name : Octets
user_name = 97 ∷ 98 ∷ []

abbrev pub parameters : SecurityParameters
parameters = record {
  engine_id = engine_id;
  boots = 4;
  time = 1000;
  user_name = user_name;
  authentication = digest;
  privacy = [];
}

abbrev pub library : Library Octets Octets
library = record {
  decode_parameters = λ octets. decoded parameters;
  decode_pdu = λ octets. decoded octets;
  chosen_plaintext = λ s. some s;
  plaintext = λ s. some s;
  ciphertext = λ s. some s;
  context_engine_id = λ pdu. [];
  context_name = λ pdu. [];
  decrypt = λ protocol k boots time salt octets. some octets;
  index_fits = λ e u. true;
}

abbrev pub agent : Engine
agent = record {
  engine_id = engine_id;
  boots = 4;
  time = 1100;
  discoverable = true;
  discovery = true;
  lifetime = 3;
  first_reference = 21;
  second_reference = 22;
  synchronized_at = 70;
  compared_at = 70;
  updated_at = 71;
}

abbrev pub manager : Engine
manager = record agent { engine_id = copies 8 2; boots = 1; time = 5 }

abbrev pub user_row : UserRow
user_row = record {
  user_name = user_name;
  security_name = user_name;
  auth_protocol = hmac_md5;
  priv_protocol = no_priv;
}

abbrev pub key_row : KeyRow
key_row = record { auth_localized = key; priv_localized = []; auth_master = []; priv_master = [] }

abbrev pub start : Usm
start = record {
  cache = [];
  timeline = [];
  expirations = [];
  expiration_timer = 0;
  stats = record {
    unknown_engine_ids = 0;
    unknown_user_names = 0;
    unsupported_sec_levels = 0;
    wrong_digests = 0;
    not_in_time_windows = 0;
    decryption_errors = 0;
    in_gen_errs = 0;
  };
  users = ((engine_id, user_name), user_row) ∷ [];
  user_keys = ((engine_id, user_name), key_row) ∷ [];
  branch_version = 1;
  params_branch = none;
  security_to_user = [];
}

abbrev pub request : Incoming Octets
request = record {
  max_message_size = 1500;
  security_parameters = copies 20 3;
  security_level = 2;
  whole_msg = signed_msg;
  scoped_pdu_data = 160 ∷ [];
}

abbrev pub result : Accepted Octets
result = record {
  security_engine_id = engine_id;
  security_name = user_name;
  scoped_pdu = 160 ∷ [];
  max_size = pos 1432;
  state_reference = 22;
}

abbrev pub after : Usm
after = (process_incoming_msg hashes library agent request start).1

pub request_accepted : process_incoming_msg hashes library agent request start ≡ (ok result, after)
unfolding process_incoming_msg decode_step cache_name_step engine_step user_step get_user_info
    cache_user_step level_step authenticate_step authenticate_incoming incoming find md5_mac
    window_step pdu_step discovery_step lookup insert remove
request_accepted = refl

process_incoming_msg-IsVouched_example : IsVouched hashes library agent request start result after
process_incoming_msg-IsVouched_example =
    process_incoming_msg-IsVouched hashes library agent request start after result request_accepted

-- The manager has heard of the agent at boots 9 and takes over the older boots 4 of a message.
abbrev pub heard_later : Usm
heard_later = record start {
  timeline = (engine_id, record { boots = 9; time = 50; latest_received = 50; updated = 60 }) ∷ [];
}

abbrev pub turned_back : Usm
turned_back =
    (authenticate_step hashes library manager request parameters (user_info user_row key_row)
      heard_later).1

old_message_passes_example :
    (window_step hashes library manager request parameters turned_back ≡ (ok tt, turned_back))
    × (lookup engine_id turned_back.timeline
        ≡ some (record { boots = 4; time = 1000; latest_received = 1000; updated = 70 }))
unfolding authenticate_step authenticate_incoming incoming find md5_mac lookup insert
old_message_passes_example =
    old_message_passes hashes library manager request parameters (user_info user_row key_row)
      heard_later turned_back refl refl (λ e. cc) (omega arith) (omega arith) (omega arith)

abbrev pub estimate : Estimate
estimate = record { boots = 4; time = 1000; latest_received = 1000; updated = 70 }

heard_is_forgotten_example :
    lookup engine_id
      (run 2
        (heard engine_id estimate ∷ (tick ∷ heard engine_id estimate ∷ tick ∷ [] ++ tick ∷ []))
        start).timeline
    ≡ none
heard_is_forgotten_example =
    heard_is_forgotten 2 engine_id estimate (tick ∷ heard engine_id estimate ∷ tick ∷ []) start refl

silent_is_forgotten_example :
    lookup engine_id
      (run 2
        (tick ∷ tick ∷ tick ∷ [])
        (run 2 (heard engine_id estimate ∷ tick ∷ []) start)).timeline
    ≡ none
silent_is_forgotten_example =
    silent_is_forgotten 2 engine_id (heard engine_id estimate ∷ tick ∷ []) (tick ∷ tick ∷ tick ∷ [])
      start refl tt (omega arith)
