-- ===== src/Usm/Incoming.antt =====
-- `processIncomingMsg` of pysnmp/proto/secmod/rfc3414/service.py, its steps in order, and the expiry of
-- what is known of other engines.
pub mod Steps
pub mod Accepts
pub mod Replay
pub mod Timeline
pub mod Silence
use pysnmp.Base.Eq.{list_eq, nat_eq, pair_eq}
use pysnmp.Base.Int.{ℤ}
use pysnmp.Base.Dict.{Dict, lookup, remove}
use pysnmp.Base.{List, [], if◌then◌else◌, some, ℕ, ◌&&◌, ◌+◌, ◌∷◌}
use pysnmp.Usm.Mac.{Hashes, Octets, unknown_security_name}
use pysnmp.Usm.State.{
  Engine, Estimate, Library, M, SecurityParameters, UserInfo, Usm, pure, raise_usm_error,
  unknown_user_names, ◌>>=◌, ◌>>◌,
}
use pysnmp.Usm.User.{
  Incoming, cache_name_step, cache_user_step, decode_step, engine_step, is_empty, max_size_response,
  report_of, user_step,
}
use pysnmp.Usm.Checks.{authenticate_step, level_step, or_empty, pdu_step, window_step}

pub record Accepted (P : Type 0) : Type 0 where
  pub security_engine_id : Octets
  pub security_name : Octets
  pub scoped_pdu : P
  pub max_size : ℤ
  pub state_reference : ℕ

module _ {S P : Type 0} (hashes : Hashes) (library : Library S P) (engine : Engine) where
  module _ (call : Incoming S) where
    -- 3.2.10: a discovery request has been decoded so far that the report can include it.
    unfoldable pub discovery_step : SecurityParameters → P → M P (Unit {0})
    discovery_step p scoped_pdu =
        if is_empty p.user_name && is_empty p.engine_id
        then raise_usm_error unknown_user_names unknown_security_name (some p.user_name) (λ count.
          record (report_of engine call unknown_user_names engine.second_reference
            call.security_level count) {
              security_engine_id = some p.engine_id;
              pdu = some scoped_pdu;
            })
        else pure tt

    -- 3.2.12
    abbrev pub accepted : SecurityParameters → UserInfo → P → Accepted P
    accepted p info scoped_pdu = record {
      security_engine_id = p.engine_id;
      security_name = info.security_name;
      scoped_pdu = scoped_pdu;
      max_size = max_size_response call;
      state_reference = engine.second_reference;
    }

    unfoldable pub process_incoming_msg : M P (Accepted P)
    process_incoming_msg = do
      p ← decode_step library engine call.security_parameters
      cache_name_step library engine p
      engine_step library engine call p
      info ← user_step library engine call p
      cache_user_step library engine call p info
      level_step hashes library engine call p info
      authenticate_step hashes library engine call p info
      window_step hashes library engine call p
      scoped_pdu ← pdu_step hashes library engine call p info
      discovery_step p scoped_pdu
      pure (accepted p info scoped_pdu)

-- `__expireTimelineInfo`: the engines whose time has come, some of them forgotten before.
abbrev pub forget : List Octets → Dict Octets Estimate → Dict Octets Estimate
forget [] timeline = timeline
forget (id ∷ ids) timeline = forget ids (remove id timeline)

-- `receiveTimerTick`
unfoldable pub expire_timeline_info : Usm → Usm
expire_timeline_info s = record s {
  timeline = forget (or_empty (lookup s.expiration_timer s.expirations)) s.timeline;
  expirations = remove s.expiration_timer s.expirations;
  expiration_timer = s.expiration_timer + 1;
}
