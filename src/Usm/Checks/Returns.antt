-- ===== src/Usm/Checks/Returns.antt =====
-- What the checks of `processIncomingMsg` have established where they return, and what they have done to
-- the state.
use pysnmp.Base.Eq.{list_beq, list_eq, nat_eq}
use pysnmp.Base.{
  Bool, Bool-cases, Option, false, if◌then◌else◌, inl, inr, none, refl, some, sym, true, ◌&&◌, ◌==◌,
  ◌∙◌, ◌≡◌,
}
use pysnmp.Usm.Mac.{
  Hashes, Octets, Outcome, attribute_error, authenticate_incoming, digest_length, done, is_no_auth,
  mac_of, not_in_time_window, protocol_error, status_information,
}
use pysnmp.Usm.Mac.Signed.{IsSigned, authenticate_incoming-IsSigned}
use pysnmp.Usm.State.{
  Decoded, Engine, Estimate, Library, Result, SecurityParameters, UserInfo, Usm, continue_with,
  decoded, end_of_octets, ok, plain_status, pure, raise, undecodable,
}
use pysnmp.Usm.User.{Incoming, has_auth_service, has_priv_service, is_authenticated, is_no_priv}
use pysnmp.Usm.Checks.{
  authenticate_step, authenticated, bad_level, decoded_pdu, decrypted, encrypted_pdu, estimate_of,
  is_newer, level_step, outside_own_window, outside_peer_window, pdu_step, peer_window, plain_pdu,
  store_estimate, window_step,
}
use pysnmp.Base.Dict.{lookup}

module _ {S P : Type 0} (hashes : Hashes) (library : Library S P) (engine : Engine)
    (call : Incoming S) where
  pub level-returns :
      (p : SecurityParameters) (info : UserInfo) (s s1 : Usm)
      → level_step hashes library engine call p info s ≡ (ok tt, s1)
      → ((list_beq p.engine_id engine.engine_id && bad_level hashes library engine call p info)
          ≡ false)
        × (s1 ≡ s)
  unfolding level_step
  level-returns p info s s1 h =
      elim (Bool-cases
        (list_beq p.engine_id engine.engine_id && bad_level hashes library engine call p info)) [
          | inl bad ↦ let no_return = rw bad at h in cc
          | inr fine ↦
              let e : ◌≡◌ {A = Result P (Unit {0}) × Usm} (ok tt, s) (ok tt, s1) = rw fine at h in
              (fine, cc)
        ]

  -- The state after the digest was checked, or after it was not asked for.
  abbrev pub synchronized : SecurityParameters → Usm → Usm
  synchronized p s =
      if is_authenticated call.security_level
      then store_estimate p.engine_id
          (estimate_of hashes library engine call p engine.synchronized_at) engine.lifetime s
      else s

  abbrev pub HasDigest : SecurityParameters → UserInfo → Type 0
  HasDigest p info =
      (key : Octets) × (blank : Octets) × (info.auth_key ≡ some key)
      × (is_no_auth info.auth_protocol ≡ false)
      × IsSigned (digest_length info.auth_protocol) (mac_of hashes info.auth_protocol key)
          p.authentication call.whole_msg blank

  pub authenticate-returns :
      (p : SecurityParameters) (info : UserInfo) (s s1 : Usm)
      → authenticate_step hashes library engine call p info s ≡ (ok tt, s1)
      → (is_authenticated call.security_level ≡ true → HasDigest p info) × (s1 ≡ synchronized p s)
  unfolding authenticate_step
  authenticate-returns p info s s1 h = elim (Bool-cases (is_authenticated call.security_level)) [
    | inr plain ↦
        let e : ◌≡◌ {A = Result P (Unit {0}) × Usm} (ok tt, s) (ok tt, s1) = rw plain at h in
        (λ t. let b : false ≡ true = sym plain ∙ t in cc, rw plain (cc))
    | inl asked ↦ elim (Bool-cases (has_auth_service info.auth_protocol)) [
      | inr missing ↦ let bad = rw (asked, missing) at h in cc
      | inl service ↦
          let (digest, e) =
            verified
              (authenticate_incoming hashes info.auth_protocol info.auth_key p.authentication
                call.whole_msg)
              refl (rw (asked, service) at h) in
          (λ t. digest, rw asked e)
    ]
  ]
    where
      verified :
          (o : Outcome Octets)
          → (authenticate_incoming hashes info.auth_protocol info.auth_key p.authentication
                call.whole_msg
              ≡ o)
          → authenticated hashes library engine call p o s ≡ (ok tt, s1)
          → HasDigest p info
            × (s1
                ≡ store_estimate p.engine_id
                    (estimate_of hashes library engine call p engine.synchronized_at)
                    engine.lifetime
                    s)
      verified (done blank) e k =
          let (key, held, service, signed) =
            authenticate_incoming-IsSigned hashes info.auth_protocol info.auth_key p.authentication
              call.whole_msg blank e in
          ((key, blank, held, service, signed), cc)
      verified (status_information i) e k = cc
      verified protocol_error e k = cc
      verified attribute_error e k = cc

  pub window-returns :
      (p : SecurityParameters) (s s1 : Usm)
      → window_step hashes library engine call p s ≡ (ok tt, s1)
      → (is_authenticated call.security_level ≡ true
          → list_beq p.engine_id engine.engine_id ≡ true
          → outside_own_window hashes library engine call p ≡ false)
        × (s1.cache ≡ s.cache)
  unfolding window_step
  window-returns p s s1 h = elim (Bool-cases (is_authenticated call.security_level)) [
    | inr plain ↦
        let e : ◌≡◌ {A = Result P (Unit {0}) × Usm} (ok tt, s) (ok tt, s1) = rw plain at h in
        (λ t. let b : false ≡ true = sym plain ∙ t in cc, cc)
    | inl asked ↦ elim (Bool-cases (list_beq p.engine_id engine.engine_id)) [
      | inl own ↦ elim (Bool-cases (outside_own_window hashes library engine call p)) [
        | inl outside ↦ let bad = rw (asked, own, outside) at h in cc
        | inr inside ↦
            let e : ◌≡◌ {A = Result P (Unit {0}) × Usm} (ok tt, s) (ok tt, s1) =
              rw (asked, own, inside) at h in
            (λ t u. inside, cc)
      ]
      | inr foreign ↦ (
        λ t u. let b : false ≡ true = sym foreign ∙ u in cc,
        peer (lookup p.engine_id s.timeline) (rw (asked, foreign) at h),
      )
    ]
  ]
    where
      kept :
          (e : Estimate) (newer outside : Bool)
          → (continue_with {P = P} {B = Unit {0}}
              (if newer
                then (
                  ok tt,
                  store_estimate p.engine_id
                      (estimate_of hashes library engine call p engine.updated_at)
                      engine.lifetime
                      s,
                )
                else (ok tt, s))
              (λ _.
                if outside
                then raise (plain_status not_in_time_window (some p.user_name))
                else pure tt))
            ≡ (ok tt, s1)
          → s1.cache ≡ s.cache
      kept e true true k = cc
      kept e true false k = cc
      kept e false true k = cc
      kept e false false k = cc

      peer :
          (o : Option Estimate)
          → peer_window hashes library engine call p o s ≡ (ok tt, s1)
          → s1.cache ≡ s.cache
      peer none k = cc
      peer (some e) k =
          kept e (is_newer hashes library engine call p e)
            (outside_peer_window hashes library engine call p e) k

  -- The ciphertext of the message, what it deciphers to, and the PDU that this encodes.
  pub record IsDeciphered (p : SecurityParameters) (info : UserInfo) (pdu : P) : Type 0 where
    pub encrypted : Octets
    pub plain : Octets
    pub carried : library.ciphertext call.scoped_pdu_data ≡ some encrypted
    pub private : is_no_priv info.priv_protocol ≡ false
    pub deciphered :
        library.decrypt info.priv_protocol info.priv_key p.boots p.time p.privacy encrypted
        ≡ some plain
    pub read : library.decode_pdu plain ≡ decoded pdu

  pub pdu-returns :
      (p : SecurityParameters) (info : UserInfo) (s : Usm) (pdu : P) (s1 : Usm)
      → pdu_step hashes library engine call p info s ≡ (ok pdu, s1)
      → (((call.security_level == 3) ≡ true → IsDeciphered p info pdu)
          × ((call.security_level == 3) ≡ false
              → library.plaintext call.scoped_pdu_data ≡ some pdu))
        × (s1 ≡ s)
  unfolding pdu_step
  pdu-returns p info s pdu s1 h = elim (Bool-cases (call.security_level == 3)) [
    | inr open_text ↦
        let (e, same) = open_case (library.plaintext call.scoped_pdu_data) (rw open_text at h) in
        ((λ t. let b : false ≡ true = sym open_text ∙ t in cc, λ t. e), same)
    | inl secret ↦ elim (Bool-cases (has_priv_service info.priv_protocol)) [
      | inr missing ↦ let bad = rw (secret, missing) at h in cc
      | inl service ↦
          let (e, same) =
            carried_case (library.ciphertext call.scoped_pdu_data) refl
              (rw (secret, service) at h) in
          ((λ t. e, λ t. let b : true ≡ false = sym secret ∙ t in cc), same)
    ]
  ]
    where
      open_case :
          (o : Option P)
          → plain_pdu hashes library engine call p o s ≡ (ok pdu, s1)
          → (o ≡ some pdu) × (s1 ≡ s)
      open_case none k = cc
      open_case (some q) k = (cc, cc)

      read_case :
          (encrypted plain : Octets)
          → library.ciphertext call.scoped_pdu_data ≡ some encrypted
          → is_no_priv info.priv_protocol ≡ false
          → (library.decrypt info.priv_protocol info.priv_key p.boots p.time p.privacy encrypted
              ≡ some plain)
          → (d : Decoded P) → library.decode_pdu plain ≡ d
          → decoded_pdu hashes library engine call p d s ≡ (ok pdu, s1)
          → IsDeciphered p info pdu × (s1 ≡ s)
      read_case encrypted plain carried private deciphered (decoded q) e k = (
        record {
          encrypted = encrypted;
          plain = plain;
          carried = carried;
          private = private;
          deciphered = deciphered;
          read = cc;
        },
        cc,
      )
      read_case encrypted plain carried private deciphered end_of_octets e k = cc
      read_case encrypted plain carried private deciphered undecodable e k = cc

      deciphered_case :
          (encrypted : Octets)
          → library.ciphertext call.scoped_pdu_data ≡ some encrypted
          → is_no_priv info.priv_protocol ≡ false
          → (o : Option Octets)
          → (library.decrypt info.priv_protocol info.priv_key p.boots p.time p.privacy encrypted
              ≡ o)
          → decrypted hashes library engine call p o s ≡ (ok pdu, s1)
          → IsDeciphered p info pdu × (s1 ≡ s)
      deciphered_case encrypted carried private none e k = cc
      deciphered_case encrypted carried private (some plain) e k =
          read_case encrypted plain carried private e (library.decode_pdu plain) refl k

      carried_case :
          (o : Option Octets)
          → library.ciphertext call.scoped_pdu_data ≡ o
          → encrypted_pdu hashes library engine call p info o s ≡ (ok pdu, s1)
          → IsDeciphered p info pdu × (s1 ≡ s)
      carried_case none e k = cc
      carried_case (some encrypted) e k = elim (Bool-cases (is_no_priv info.priv_protocol)) [
        | inl refused ↦ let bad = rw refused at k in cc
        | inr private ↦
            deciphered_case encrypted e private
              (library.decrypt info.priv_protocol info.priv_key p.boots p.time p.privacy encrypted)
              refl (rw private at k)
      ]
