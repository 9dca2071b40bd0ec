-- ===== src/Usm/Sender.antt =====
-- Whose name an outgoing message bears: `__sec2usr`, `__cloneUserInfo` and the look-ups of
-- `__generateRequestOrResponseMsg` in pysnmp/proto/secmod/rfc3414/service.py.
use pysnmp.Base.Eq.{list_eq, nat_eq, pair_eq}
use pysnmp.Base.{Bool, Option, [], false, if◌then◌else◌, none, some, ℕ, ◌+◌, ◌==◌, ◌∷◌}
use pysnmp.Base.Dict.{Dict, contains, insert, lookup}
use pysnmp.Usm.Mac.{
  AuthProtocol, Octets, Outcome, attribute_error, done, invalid_msg, protocol_error,
  status_information, unknown_security_name, unsupported_auth_protocol, unsupported_priv_protocol,
}
use pysnmp.Usm.State.{
  Engine, Exception, KeyRow, Library, M, PrivProtocol, Result, UserInfo, UserRow, Usm,
  asn1_exception, attribute_exception, count_up, in_gen_errs, no_such_instance, ok, plain_status,
  protocol_exception, pure, raise, raised, status, ◌>>=◌, ◌>>◌,
}
use pysnmp.Usm.User.{get_user_info, has_auth_service, has_priv_service, wildcard}

-- `localizeKey` of a service: the key, or `None` from the services that need none.
pub record Localizer : Type 0 where
  pub localize_auth : AuthProtocol → Octets → Octets → Outcome (Option Octets)
  pub localize_priv : PrivProtocol → AuthProtocol → Octets → Octets → Outcome (Option Octets)

-- The walk of `__sec2usr` over the user table: the first row with a security name wins.
unfoldable pub name_users :
    Dict (Octets × Octets) UserRow → Dict (Octets × Octets) Octets → Dict (Octets × Octets) Octets
name_users [] names = names
name_users (((engine_id, user_name), row) ∷ rows) names = name_users rows (
    if contains (engine_id, row.security_name) names
    then names
    else insert (engine_id, row.security_name) row.user_name names)

abbrev pub branch_eq : Option ℕ → ℕ → Bool
branch_eq none version = false
branch_eq (some b) version = b == version

unfoldable pub refresh_names : Usm → Usm
refresh_names s = if branch_eq s.params_branch s.branch_version then s else record s {
  security_to_user = name_users s.users [];
  params_branch = some s.branch_version;
}

abbrev pub or_default : Octets → Option Octets → Octets
or_default d none = d
or_default d (some k) = k

module _ {S P : Type 0} (library : Library S P) (localizer : Localizer) (engine : Engine) where
  abbrev pub or_raise : {A : Type 0} → Option A → Exception P → M P A
  or_raise none e = raise e
  or_raise (some a) e = pure a

  abbrev pub of_outcome : {A : Type 0} → Outcome A → M P A
  of_outcome (done a) = pure a
  of_outcome (status_information i) = raise (plain_status i none)
  of_outcome protocol_error = raise protocol_exception
  of_outcome attribute_error = raise attribute_exception

  abbrev pub user_named : Octets → Octets → M P Octets
  user_named engine_id security_name s =
      or_raise (lookup (engine_id, security_name) s.security_to_user) no_such_instance s

  unfoldable pub sec2usr : Octets → Octets → M P Octets
  sec2usr engine_id security_name s = user_named engine_id security_name (refresh_names s)

  -- The user of a security name at an engine.
  unfoldable pub find_user : Octets → Octets → M P UserInfo
  find_user engine_id security_name = do
    user_name ← sec2usr engine_id security_name
    get_user_info library engine engine_id user_name

  -- The row that `writeVars` creates: the names and the protocols of the prototype, and no keys yet.
  abbrev pub create_row : Octets → Octets → UserRow → Usm → Usm
  create_row engine_id user_name row s = record s {
    users = insert (engine_id, user_name) row s.users;
    user_keys =
        insert (engine_id, user_name)
          (record { auth_localized = []; priv_localized = []; auth_master = []; priv_master = [] })
          s.user_keys;
    branch_version = s.branch_version + 1;
  }

  abbrev pub set_keys : Octets → Octets → Octets → Octets → Usm → Usm
  set_keys engine_id user_name auth priv s = record s {
    user_keys =
        insert (engine_id, user_name)
          (record {
            auth_localized = auth;
            priv_localized = priv;
            auth_master = [];
            priv_master = [];
          })
          s.user_keys;
  }

  abbrev pub keys_set : Octets → Octets → Octets → Octets → M P (Unit {0})
  keys_set engine_id user_name auth priv s = (ok tt, set_keys engine_id user_name auth priv s)

  abbrev pub cloned_info : UserRow → Octets → Octets → UserInfo
  cloned_info row auth priv = record {
    user_name = row.user_name;
    security_name = row.security_name;
    auth_protocol = row.auth_protocol;
    auth_key = some auth;
    priv_protocol = row.priv_protocol;
    priv_key = some priv;
  }

  -- Localizing the keys of the prototype, the one for privacy after the other has been set.
  abbrev pub localized_priv : Octets → Octets → UserRow → KeyRow → Octets → M P UserInfo
  localized_priv engine_id user_name row keys auth =
      if has_priv_service row.priv_protocol
      then (of_outcome
            (localizer.localize_priv row.priv_protocol row.auth_protocol keys.priv_master engine_id)
          >>= λ priv.
              keys_set engine_id user_name auth (or_default [] priv)
              >> pure (cloned_info row auth (or_default [] priv)))
      else raise (plain_status unsupported_priv_protocol none)

  abbrev pub localized : Octets → Octets → UserRow → KeyRow → M P UserInfo
  localized engine_id user_name row keys =
      if has_auth_service row.auth_protocol
      then (of_outcome (localizer.localize_auth row.auth_protocol keys.auth_master engine_id)
          >>= λ auth.
              keys_set engine_id user_name (or_default [] auth) []
              >> localized_priv engine_id user_name row keys (or_default [] auth))
      else raise (plain_status unsupported_auth_protocol none)

  abbrev pub cloned : Octets → Octets → Option UserRow → Option KeyRow → M P UserInfo
  cloned engine_id user_name none keys = raise no_such_instance
  cloned engine_id user_name (some row) none = raise no_such_instance
  cloned engine_id user_name (some row) (some keys) = λ s.
      if library.index_fits engine_id user_name
      then localized engine_id user_name row keys (create_row engine_id user_name row s)
      else raise asn1_exception s

  -- `__cloneUserInfo`: the user of the own engine is set up for a peer.
  unfoldable pub clone_user_info : Octets → Octets → M P UserInfo
  clone_user_info engine_id user_name s =
      if library.index_fits engine.engine_id user_name
      then cloned engine_id user_name (lookup (engine.engine_id, user_name) s.users)
          (lookup (engine.engine_id, user_name) s.user_keys) s
      else raise asn1_exception s

  -- 3.1.1b: the user of the peer, else of the wildcard engine; a `PyAsn1Error` of either is counted.
  abbrev pub own_or_wildcard : Octets → Result P UserInfo × Usm → Result P UserInfo × Usm
  own_or_wildcard security_name (ok info, s) = (ok info, s)
  own_or_wildcard security_name (raised no_such_instance, s) = find_user wildcard security_name s
  own_or_wildcard security_name (raised asn1_exception, s) = (raised asn1_exception, s)
  own_or_wildcard security_name (raised (status i), s) = (raised (status i), s)
  own_or_wildcard security_name (raised protocol_exception, s) = (raised protocol_exception, s)
  own_or_wildcard security_name (raised attribute_exception, s) = (raised attribute_exception, s)

  -- Where the user could not be cloned either, its name is unknown.
  abbrev pub clone_result : Result P UserInfo × Usm → Result P UserInfo × Usm
  clone_result (ok info, s) = (ok info, s)
  clone_result (raised no_such_instance, s) = (raised (plain_status unknown_security_name none), s)
  clone_result (raised asn1_exception, s) = (raised asn1_exception, s)
  clone_result (raised (status i), s) = (raised (status i), s)
  clone_result (raised protocol_exception, s) = (raised protocol_exception, s)
  clone_result (raised attribute_exception, s) = (raised attribute_exception, s)

  abbrev pub clone_for : Octets → Octets → M P UserInfo
  clone_for engine_id security_name =
      sec2usr engine.engine_id security_name >>= λ user_name. clone_user_info engine_id user_name

  abbrev pub found_or_cloned : Octets → Octets → Result P UserInfo × Usm → Result P UserInfo × Usm
  found_or_cloned engine_id security_name (ok info, s) = (ok info, s)
  found_or_cloned engine_id security_name (raised no_such_instance, s) =
      if engine.discovery
      then clone_result (clone_for engine_id security_name s)
      else (raised (plain_status unknown_security_name none), s)
  found_or_cloned engine_id security_name (raised asn1_exception, s) =
      (count_up in_gen_errs >>= λ _. raise (plain_status invalid_msg none)) s
  found_or_cloned engine_id security_name (raised (status i), s) = (raised (status i), s)
  found_or_cloned engine_id security_name (raised protocol_exception, s) =
      (raised protocol_exception, s)
  found_or_cloned engine_id security_name (raised attribute_exception, s) =
      (raised attribute_exception, s)

  unfoldable pub peer_user : Octets → Octets → M P UserInfo
  peer_user engine_id security_name s =
      found_or_cloned engine_id security_name
        (own_or_wildcard security_name (find_user engine_id security_name s))
