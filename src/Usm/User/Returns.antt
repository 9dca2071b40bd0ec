-- ===== src/Usm/User/Returns.antt =====
-- What the first steps of `processIncomingMsg` have checked where they return: which user a message names.
use pysnmp.Base.Eq.{list_eq, nat_eq, pair_eq}
use pysnmp.Base.{
  Bool, Bool-cases, Option, Option-cases, [], ap, arith, false, if◌then◌else◌, inl, inr, none, refl,
  some, sym, true, ◌∙◌, ◌∷◌, ◌≡◌, ◌≢◌, ◌⊎◌,
}
use pysnmp.Usm.Mac.{Octets, unknown_engine_id}
use pysnmp.Usm.State.{
  Decoded, Engine, KeyRow, Library, Result, SecurityParameters, UserInfo, UserRow, Usm,
  asn1_exception, attribute_exception, count_up, decoded, end_of_octets, no_such_instance, ok,
  plain_status, protocol_exception, raise, raised, status, undecodable, unknown_engine_ids, ◌>>=◌,
}
use pysnmp.Usm.User.{
  Incoming, blank_user, decode_step, discovered, engine_step, get_user_info, is_empty, is_known,
  own_user, parameters_of, user_info, user_step, wildcard, wildcard_user, with_rows,
}
use pysnmp.Base.Dict.{Dict, lookup}

pub is_empty_lem : (octets : Octets) → is_empty octets ≡ true → octets ≡ []
is_empty_lem [] h = refl
is_empty_lem (x ∷ xs) h = cc

-- A row of the user and one of the user's keys, both under the identifier of an engine.
pub record HasUser (users : Dict (Octets × Octets) UserRow)
    (user_keys : Dict (Octets × Octets) KeyRow) (engine_id user_name : Octets) (info : UserInfo)
    : Type 0 where
  pub row : UserRow
  pub keys : KeyRow
  pub listed : lookup (engine_id, user_name) users ≡ some row
  pub keyed : lookup (engine_id, user_name) user_keys ≡ some keys
  pub read : info ≡ user_info row keys

abbrev pub Lacks :
    Dict (Octets × Octets) UserRow → Dict (Octets × Octets) KeyRow → Octets → Octets → Type 0
Lacks users user_keys engine_id user_name =
    (lookup (engine_id, user_name) users ≡ none) ⊎ (lookup (engine_id, user_name) user_keys ≡ none)

-- Whom a message names: nobody by an empty name, else a user of its engine or of the wildcard engine.
pub data IsUser (users : Dict (Octets × Octets) UserRow) (user_keys : Dict (Octets × Octets) KeyRow)
    (p : SecurityParameters) (info : UserInfo) : Type 0 where
  nobody : p.user_name ≡ [] → info ≡ blank_user → IsUser users user_keys p info
  own : HasUser users user_keys p.engine_id p.user_name info → IsUser users user_keys p info
  of_wildcard :
      Lacks users user_keys p.engine_id p.user_name
      → HasUser users user_keys wildcard p.user_name info
      → IsUser users user_keys p info

module _ {S P : Type 0} (library : Library S P) (engine : Engine) (call : Incoming S) where
  pub decode-returns :
      (octets : Octets) (s : Usm) (p : SecurityParameters) (s1 : Usm)
      → decode_step library engine octets s ≡ (ok p, s1)
      → (library.decode_parameters octets ≡ decoded p) × (s1 ≡ s)
  unfolding decode_step
  decode-returns octets s p s1 h = go (library.decode_parameters octets) h
    where
      go :
          (d : Decoded SecurityParameters)
          → parameters_of library engine d s ≡ (ok p, s1)
          → (d ≡ decoded p) × (s1 ≡ s)
      go (decoded q) e = ground arith
      go end_of_octets e = cc
      go undecodable e = cc

  pub engine-returns :
      (p : SecurityParameters) (s s1 : Usm)
      → engine_step library engine call p s ≡ (ok tt, s1)
      → (is_known library engine call p s ≡ true) × (s1 ≡ s)
  unfolding engine_step
  engine-returns p s s1 h = elim (Bool-cases (is_known library engine call p s)) [
    | inl known ↦
        let e : ◌≡◌ {A = Result P (Unit {0}) × Usm} (ok tt, s) (ok tt, s1) = rw known at h in
        (known, cc)
    | inr unknown ↦ absurd (
        refused engine.discoverable (library.chosen_plaintext call.scoped_pdu_data)
          (rw unknown at h))
  ]
    where
      refused :
          (discoverable : Bool) (plaintext : Option P)
          → (count_up unknown_engine_ids >>= λ _.
                if discoverable
                then discovered library engine call plaintext
                else raise (plain_status unknown_engine_id none))
              s
            ≢ (ok tt, s1)
      refused true none e = cc
      refused true (some pdu) e = cc
      refused false plaintext e = cc

  get_user_info-state :
      (engine_id user_name : Octets) (s : Usm)
      → (get_user_info library engine engine_id user_name s).1 ≡ s
  unfolding get_user_info
  get_user_info-state engine_id user_name s =
      elim (Bool-cases (library.index_fits engine_id user_name)) [
        | inr misfit ↦ rw misfit refl
        | inl fits ↦
            rw fits (
              go (lookup (engine_id, user_name) s.users)
                (lookup (engine_id, user_name) s.user_keys))
      ]
    where
      go : (u : Option UserRow) (k : Option KeyRow) → (with_rows library engine u k s).1 ≡ s
      go none k = refl
      go (some u) none = refl
      go (some u) (some k) = refl

  get_user_info-Lacks :
      (engine_id user_name : Octets) (s s1 : Usm)
      → get_user_info library engine engine_id user_name s ≡ (raised no_such_instance, s1)
      → Lacks s.users s.user_keys engine_id user_name
  unfolding get_user_info
  get_user_info-Lacks engine_id user_name s s1 h =
      elim (Bool-cases (library.index_fits engine_id user_name)) [
        | inr misfit ↦ let bad = rw misfit at h in cc
        | inl fits ↦ elim (Option-cases (lookup (engine_id, user_name) s.users)) [
          | inl e ↦ inl e
          | inr (row, e) ↦ elim (Option-cases (lookup (engine_id, user_name) s.user_keys)) [
            | inl f ↦ inr f
            | inr (keys, f) ↦ let bad = rw (fits, e, f) at h in cc
          ]
        ]
      ]

  get_user_info-returns :
      (engine_id user_name : Octets) (s : Usm) (info : UserInfo) (s1 : Usm)
      → get_user_info library engine engine_id user_name s ≡ (ok info, s1)
      → HasUser s.users s.user_keys engine_id user_name info × (s1 ≡ s)
  unfolding get_user_info
  get_user_info-returns engine_id user_name s info s1 h =
      elim (Bool-cases (library.index_fits engine_id user_name)) [
        | inr misfit ↦ let bad = rw misfit at h in cc
        | inl fits ↦ elim (Option-cases (lookup (engine_id, user_name) s.users)) [
          | inl e ↦ let bad = rw (fits, e) at h in cc
          | inr (row, e) ↦ elim (Option-cases (lookup (engine_id, user_name) s.user_keys)) [
            | inl f ↦ let bad = rw (fits, e, f) at h in cc
            | inr (keys, f) ↦
                let r : ◌≡◌ {A = Result P UserInfo × Usm} (ok (user_info row keys), s)
                    (ok info, s1) =
                  rw (fits, e, f) at h in
                (record { row = row; keys = keys; listed = e; keyed = f; read = cc }, cc)
          ]
        ]
      ]

  pub find-returns :
      (p : SecurityParameters) (s : Usm) (info : UserInfo) (s1 : Usm)
      → user_step library engine call p s ≡ (ok info, s1)
      → IsUser s.users s.user_keys p info × (s1 ≡ s)
  unfolding user_step
  find-returns p s info s1 h = elim (Bool-cases (is_empty p.user_name)) [
    | inl empty ↦
        let r : ◌≡◌ {A = Result P UserInfo × Usm} (ok blank_user, s) (ok info, s1) =
          rw empty at h in
        (nobody (is_empty_lem p.user_name empty) (cc), cc)
    | inr named ↦
        own_case (get_user_info library engine p.engine_id p.user_name s) refl (rw named at h)
  ]
    where
      wildcard_case :
          (r : Result P UserInfo × Usm)
          → get_user_info library engine wildcard p.user_name s ≡ r
          → Lacks s.users s.user_keys p.engine_id p.user_name
          → wildcard_user library engine call p r ≡ (ok info, s1)
          → IsUser s.users s.user_keys p info × (s1 ≡ s)
      wildcard_case (ok i, s2) e lacks k =
          let (user, same) = get_user_info-returns wildcard p.user_name s info s1 (e ∙ k) in
          (of_wildcard lacks user, same)
      wildcard_case (raised no_such_instance, s2) e lacks k = cc
      wildcard_case (raised asn1_exception, s2) e lacks k = cc
      wildcard_case (raised (status i), s2) e lacks k = cc
      wildcard_case (raised protocol_exception, s2) e lacks k = cc
      wildcard_case (raised attribute_exception, s2) e lacks k = cc

      own_case :
          (r : Result P UserInfo × Usm)
          → get_user_info library engine p.engine_id p.user_name s ≡ r
          → own_user library engine call p r ≡ (ok info, s1)
          → IsUser s.users s.user_keys p info × (s1 ≡ s)
      own_case (ok i, s2) e k =
          let (user, same) = get_user_info-returns p.engine_id p.user_name s info s1 (e ∙ k) in
          (own user, same)
      own_case (raised no_such_instance, s2) e k =
          let same : s2 ≡ s =
            sym (ap (λ (r : Result P UserInfo × Usm). r.1) e)
            ∙ get_user_info-state p.engine_id p.user_name s in
          wildcard_case (get_user_info library engine wildcard p.user_name s) refl
            (get_user_info-Lacks p.engine_id p.user_name s s2 e) (rw same at k)
      own_case (raised asn1_exception, s2) e k = cc
      own_case (raised (status i), s2) e k = cc
      own_case (raised protocol_exception, s2) e k = cc
      own_case (raised attribute_exception, s2) e k = cc
