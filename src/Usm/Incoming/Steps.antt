-- ===== src/Usm/Incoming/Steps.antt =====
-- The steps of a call of `processIncomingMsg` that returned, and the states between them.
use pysnmp.Base.Eq.{list_eq, nat_eq}
use pysnmp.Base.{
  ==_iff, Bool-cases, Option, [], false, inl, inr, none, refl, some, true, ℕ, ◌&&◌, ◌∙◌, ◌≡◌, ◌≢◌,
}
use pysnmp.Usm.Mac.{Hashes}
use pysnmp.Usm.State.{
  >>=-returns, Engine, Library, Result, SecurityData, SecurityParameters, UserInfo, Usm,
  continue_with, ok, pure,
}
use pysnmp.Usm.User.{
  Incoming, cache_name_step, cache_user_step, decode_step, engine_step, held_data, is_authenticated,
  is_empty, is_known, name_only, recache, user_step,
}
use pysnmp.Usm.Checks.{authenticate_step, level_step, pdu_step, window_step}
use pysnmp.Base.Dict.{Dict, insert, lookup, lookup-insert, remove}
use pysnmp.Usm.Incoming.{Accepted, accepted, discovery_step, process_incoming_msg}
use pysnmp.Usm.User.Returns.{IsUser, decode-returns, engine-returns, find-returns}
use pysnmp.Usm.Checks.Returns.{synchronized}

abbrev pub cache_of : Usm → Dict ℕ SecurityData
cache_of s = s.cache

module _ {S P : Type 0} (hashes : Hashes) (library : Library S P) (engine : Engine)
    (call : Incoming S) where
  cache_name-returns :
      (p : SecurityParameters) (s s1 : Usm)
      → cache_name_step library engine p s ≡ (ok tt, s1)
      → s1 ≡ record s {
        cache = insert engine.first_reference (name_only library engine p.user_name) s.cache;
      }
  unfolding cache_name_step
  cache_name-returns p s s1 h = cc

  pub cache_user-returns :
      (p : SecurityParameters) (info : UserInfo) (s s1 : Usm)
      → cache_user_step library engine call p info s ≡ (ok tt, s1)
      → (lookup engine.second_reference s1.cache ≡ some (held_data library engine call p info))
  unfolding cache_user_step
  cache_user-returns p info s s1 h = go (lookup engine.first_reference s.cache) h
    where
      go :
          (o : Option SecurityData)
          → recache library engine call p info o s ≡ (ok tt, s1)
          → (lookup engine.second_reference s1.cache ≡ some (held_data library engine call p info))
      go none k = cc
      go (some old) k =
          let e : s1 ≡ record s {
            cache =
                insert engine.second_reference (held_data library engine call p info)
                  (remove engine.first_reference s.cache);
          } =
            cc in
          rw e (
            lookup-insert engine.second_reference engine.second_reference
              (held_data library engine call p info) (remove engine.first_reference s.cache)
            ∙ rw ((==_iff engine.second_reference engine.second_reference).1 refl) refl)

  discovery-returns :
      (p : SecurityParameters) (pdu : P) (s s1 : Usm)
      → discovery_step hashes library engine call p pdu s ≡ (ok tt, s1)
      → ((p.user_name ≡ [] → p.engine_id ≢ []) × (s1 ≡ s))
  unfolding discovery_step
  discovery-returns p pdu s s1 h =
      elim (Bool-cases (is_empty p.user_name && is_empty p.engine_id)) [
        | inl blank ↦ let bad = rw blank at h in cc
        | inr named ↦
            let e : ◌≡◌ {A = Result P (Unit {0}) × Usm} (ok tt, s) (ok tt, s1) = rw named at h in
            (λ u i. let b : true ≡ false = rw (u, i) at named in cc, cc)
      ]

  -- The steps of a call that returned, and the states between them.
  pub record Steps (s : Usm) (a : Accepted P) (s' : Usm) : Type 0 where
    pub p : SecurityParameters
    pub info : UserInfo
    pub pdu : P
    pub s1 : Usm
    pub s2 : Usm
    pub s3 : Usm
    pub s4 : Usm
    pub s5 : Usm
    pub s6 : Usm
    pub s7 : Usm
    pub s8 : Usm
    pub s9 : Usm
    pub decoding : decode_step library engine call.security_parameters s ≡ (ok p, s1)
    pub caching : cache_name_step library engine p s1 ≡ (ok tt, s2)
    pub engine_known : engine_step library engine call p s2 ≡ (ok tt, s3)
    pub user_found : user_step library engine call p s3 ≡ (ok info, s4)
    pub recaching : cache_user_step library engine call p info s4 ≡ (ok tt, s5)
    pub level_checked : level_step hashes library engine call p info s5 ≡ (ok tt, s6)
    pub digest_checked : authenticate_step hashes library engine call p info s6 ≡ (ok tt, s7)
    pub time_checked : window_step hashes library engine call p s7 ≡ (ok tt, s8)
    pub pdu_read : pdu_step hashes library engine call p info s8 ≡ (ok pdu, s9)
    pub returned :
        continue_with
          (discovery_step hashes library engine call p pdu s9)
          (λ _. pure (accepted hashes library engine call p info pdu))
        ≡ (ok a, s')

  pub process-Steps :
      (s s' : Usm) (a : Accepted P)
      → process_incoming_msg hashes library engine call s ≡ (ok a, s')
      → Steps s a s'
  unfolding process_incoming_msg
  process-Steps s s' a h =
      let (p, s1, e1, h1) =
        >>=-returns (decode_step library engine call.security_parameters s) _ h in
      let (u2, s2, e2, h2) = >>=-returns (cache_name_step library engine p s1) _ h1 in
      let (u3, s3, e3, h3) = >>=-returns (engine_step library engine call p s2) _ h2 in
      let (info, s4, e4, h4) = >>=-returns (user_step library engine call p s3) _ h3 in
      let (u5, s5, e5, h5) = >>=-returns (cache_user_step library engine call p info s4) _ h4 in
      let (u6, s6, e6, h6) = >>=-returns (level_step hashes library engine call p info s5) _ h5 in
      let (u7, s7, e7, h7) =
        >>=-returns (authenticate_step hashes library engine call p info s6) _ h6 in
      let (u8, s8, e8, h8) = >>=-returns (window_step hashes library engine call p s7) _ h7 in
      let (pdu, s9, e9, h9) = >>=-returns (pdu_step hashes library engine call p info s8) _ h8 in
      record {
        p = p;
        info = info;
        pdu = pdu;
        s1 = s1;
        s2 = s2;
        s3 = s3;
        s4 = s4;
        s5 = s5;
        s6 = s6;
        s7 = s7;
        s8 = s8;
        s9 = s9;
        decoding = e1;
        caching = e2;
        engine_known = e3;
        user_found = e4;
        recaching = e5;
        level_checked = e6;
        digest_checked = e7;
        time_checked = e8;
        pdu_read = e9;
        returned = h9;
      }

  -- What the first steps leave of the state: only the cache has changed.
  pub lookups_done :
      (s : Usm) (a : Accepted P) (s' : Usm) (t : Steps s a s')
      → (is_known library engine call t.p s ≡ true) × IsUser s.users s.user_keys t.p t.info
  lookups_done s a s' t =
      let (parsed, same1) =
        decode-returns library engine call call.security_parameters s t.p t.s1 t.decoding in
      let named = cache_name-returns t.p t.s1 t.s2 t.caching in
      let (known, same3) = engine-returns library engine call t.p t.s2 t.s3 t.engine_known in
      let (user, same4) = find-returns library engine call t.p t.s3 t.info t.s4 t.user_found in
      let tables : t.s2 ≡ record s {
        cache = insert engine.first_reference (name_only library engine t.p.user_name) s.cache;
      } =
        rw same1 at named in
      (rw tables at known, rw (same3, tables) at user)

  pub final-returns :
      (p : SecurityParameters) (pdu : P) (s9 s' : Usm) (x a : Accepted P)
      → continue_with (discovery_step hashes library engine call p pdu s9) (λ _. pure x)
        ≡ (ok a, s')
      → (p.user_name ≡ [] → p.engine_id ≢ []) × (x ≡ a) × (s' ≡ s9)
  final-returns p pdu s9 s' x a h =
      let (u, s10, e, k) =
        >>=-returns (discovery_step hashes library engine call p pdu s9) (λ _. pure x) h in
      let (named, same) = discovery-returns p pdu s9 s10 e in (named, cc, cc)

  pub synchronized-cache :
      (p : SecurityParameters) (s : Usm)
      → (synchronized hashes library engine call p s).cache ≡ s.cache
  synchronized-cache p s = elim (Bool-cases (is_authenticated call.security_level)) [
    | inl asked ↦ rw asked refl
    | inr plain ↦ rw plain refl
  ]
