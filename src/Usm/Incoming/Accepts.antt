-- ===== src/Usm/Incoming/Accepts.antt =====
-- What an accepted message is: everything that the steps of `processIncomingMsg` have checked of it.
use pysnmp.Base.Eq.{list_beq_iff, list_eq, nat_eq}
use pysnmp.Base.{
  ==_iff, ==_ne, Bool, Bool-cases, [], ap, arith, false, inl, inr, refl, some, true, ℕ, ◌&&◌, ◌+◌,
  ◌∙◌, ◌≡◌, ◌≢◌, ◌≤◌, ◌⊎◌,
}
use pysnmp.Usm.Mac.{Hashes, is_no_auth}
use pysnmp.Usm.State.{Engine, Library, SecurityParameters, UserInfo, Usm, decoded, ok}
use pysnmp.Usm.User.{Incoming, held_data, is_authenticated, is_known, is_no_priv}
use pysnmp.Usm.Checks.{bad_level, outside_own_window}
use pysnmp.Base.Dict.{lookup}
use pysnmp.Usm.Incoming.{Accepted, accepted, process_incoming_msg}
use pysnmp.Usm.User.Returns.{IsUser, decode-returns}
use pysnmp.Usm.Incoming.Steps.{
  Steps, lookups_done, cache_of, cache_user-returns, final-returns, process-Steps,
  synchronized-cache,
}
use pysnmp.Usm.Checks.Returns.{
  HasDigest, IsDeciphered, authenticate-returns, level-returns, pdu-returns, window-returns,
}

-- The security level of a message to the own engine is the one that its user is set up for; a discovery
-- message may do without the privacy.
pub record FitsLevel (level : ℕ) (p : SecurityParameters) (info : UserInfo) : Type 0 where
  pub at_3 :
      level ≡ 3 → (is_no_auth info.auth_protocol ≡ false) × (is_no_priv info.priv_protocol ≡ false)
  pub at_2 :
      level ≡ 2
      → (is_no_auth info.auth_protocol ≡ false)
        × ((is_no_priv info.priv_protocol ≡ true) ⊎ ((p.boots ≡ 0) × (p.time ≡ 0)))
  pub at_1 :
      level ≡ 1 → (is_no_auth info.auth_protocol ≡ true) × (is_no_priv info.priv_protocol ≡ true)

-- A time that the own engine takes for now: its own boots, and at most 150 seconds off.
pub record IsFresh (engine : Engine) (p : SecurityParameters) : Type 0 where
  pub countable : engine.boots ≢ 2147483647
  pub same_boots : engine.boots ≡ p.boots
  pub not_late : engine.time ≤ p.time + 150
  pub not_early : p.time ≤ engine.time + 150

and_right : {a b : Bool} → a ≡ true → (a && b) ≡ false → b ≡ false
and_right h k = rw h at k

module _ {S P : Type 0} (hashes : Hashes) (library : Library S P) (engine : Engine)
    (call : Incoming S) where
  FitsLevel_lem :
      (p : SecurityParameters) (info : UserInfo)
      → bad_level hashes library engine call p info ≡ false
      → FitsLevel call.security_level p info
  FitsLevel_lem p info h = record {
    at_3 = λ e. ground arith;
    at_2 = λ e. (
      ground arith,
      elim (Bool-cases (is_no_priv info.priv_protocol)) [
        | inl none_set ↦ inl none_set
        | inr set ↦ inr (ground arith, ground arith)
      ],
    );
    at_1 = λ e. ground arith;
  }

  IsFresh_lem :
      (p : SecurityParameters)
      → outside_own_window hashes library engine call p ≡ false
      → IsFresh engine p
  IsFresh_lem p h = record {
    countable = λ e. ground arith;
    same_boots = ground arith;
    not_late = ground arith;
    not_early = ground arith;
  }

  -- An accepted message and what vouches for it, between the states before and after.
  pub record IsVouched (s : Usm) (a : Accepted P) (s' : Usm) : Type 0 where
    pub parameters : SecurityParameters
    pub info : UserInfo
    pub parsed : library.decode_parameters call.security_parameters ≡ decoded parameters
    pub known_engine : is_known library engine call parameters s ≡ true
    pub user : IsUser s.users s.user_keys parameters info
    pub named : parameters.user_name ≡ [] → parameters.engine_id ≢ []
    pub fits :
        parameters.engine_id ≡ engine.engine_id → FitsLevel call.security_level parameters info
    pub genuine :
        is_authenticated call.security_level ≡ true
        → HasDigest hashes library engine call parameters info
    pub fresh :
        is_authenticated call.security_level ≡ true
        → parameters.engine_id ≡ engine.engine_id
        → IsFresh engine parameters
    pub deciphered :
        call.security_level ≡ 3
        → IsDeciphered hashes library engine call parameters info a.scoped_pdu
    pub plain : call.security_level ≢ 3 → library.plaintext call.scoped_pdu_data ≡ some a.scoped_pdu
    pub engine_returned : a.security_engine_id ≡ parameters.engine_id
    pub name_returned : a.security_name ≡ info.security_name
    pub remembered :
        lookup a.state_reference s'.cache ≡ some (held_data library engine call parameters info)

  Steps-IsVouched :
      (s s' : Usm) (a : Accepted P) → Steps hashes library engine call s a s' → IsVouched s a s'
  Steps-IsVouched s s' a t =
      let (known, user) = lookups_done hashes library engine call s a s' t in
      let (parsed, same1) =
        decode-returns library engine call call.security_parameters s t.p t.s1 t.decoding in
      let held = cache_user-returns hashes library engine call t.p t.info t.s4 t.s5 t.recaching in
      let (level, same6) =
        level-returns hashes library engine call t.p t.info t.s5 t.s6 t.level_checked in
      let (digest, same7) =
        authenticate-returns hashes library engine call t.p t.info t.s6 t.s7 t.digest_checked in
      let (window, same8) =
        window-returns hashes library engine call t.p t.s7 t.s8 t.time_checked in
      let ((secret, open_text), same9) =
        pdu-returns hashes library engine call t.p t.info t.s8 t.pdu t.s9 t.pdu_read in
      let (named, x, same10) =
        final-returns hashes library engine call t.p t.pdu t.s9 s'
          (accepted hashes library engine call t.p t.info t.pdu) a t.returned in
      let cached : s'.cache ≡ t.s5.cache =
        ap cache_of same10
        ∙ (ap cache_of same9
            ∙ (same8
                ∙ (ap cache_of same7
                    ∙ (synchronized-cache hashes library engine call t.p t.s6
                        ∙ ap cache_of same6)))) in
      rw (← x) (record {
        parameters = t.p;
        info = t.info;
        parsed = parsed;
        known_engine = known;
        user = user;
        named = named;
        fits = λ local. FitsLevel_lem t.p t.info (and_right ((list_beq_iff _ _).1 local) level);
        genuine = digest;
        fresh = λ asked local. IsFresh_lem t.p (window asked ((list_beq_iff _ _).1 local));
        deciphered = λ e. secret ((==_iff call.security_level 3).1 e);
        plain = λ n. open_text (==_ne call.security_level 3 n);
        engine_returned = refl;
        name_returned = refl;
        remembered = rw cached held;
      })

  -- A message is accepted only if its parameters decode, its engine is known or well-formed, its user
  -- is in the datastore under that engine or else the wildcard engine, or its user name is empty, which
  -- stands for a blank user without protocols or keys; and, as its level asks, its digest is genuine and
  -- its PDU deciphers under that user's keys. If it is for the own engine, the level is the one that the
  -- user is set up for (a discovery message may do without the privacy), and an authenticated message's
  -- time is within 150 seconds of the own clock. The user's data is then in the cache.
  pub process_incoming_msg-IsVouched :
      (s s' : Usm) (a : Accepted P)
      → process_incoming_msg hashes library engine call s ≡ (ok a, s')
      → IsVouched s a s'
  process_incoming_msg-IsVouched s s' a h =
      Steps-IsVouched s s' a (process-Steps hashes library engine call s s' a h)
