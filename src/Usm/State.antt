-- ===== src/Usm/State.antt =====
-- pysnmp/proto/secmod/rfc3414/service.py: the state of `SnmpUSMSecurityModel`, what it is given to work
-- with, and a method call as a function from state to a result and the state after it, which also an
-- exception leaves changed. The counters and the user table are the rows of the local configuration
-- datastore; the ASN.1 decoder, the message classes of pyasn1 and the ciphers are parameters.
use pysnmp.Base.Eq.{list_eq, nat_eq, pair_eq}
use pysnmp.Base.Int.{ℤ}
use pysnmp.Base.Dict.{Dict}
use pysnmp.Base.{Bool, List, Option, none, refl, some, ℕ, ◌+◌, ◌≡◌}
use pysnmp.Usm.Mac.{AuthProtocol, Indication, Octets}

-- The keys of `privServices`, and any other.
pub data PrivProtocol : Type 0 where
  no_priv des des3 aes aes192_blumenthal aes256_blumenthal aes192 aes256 : PrivProtocol
  other_priv : ℕ → PrivProtocol

pub record UserInfo : Type 0 where
  pub user_name : Octets
  pub security_name : Octets
  pub auth_protocol : AuthProtocol
  pub auth_key : Option Octets
  pub priv_protocol : PrivProtocol
  pub priv_key : Option Octets

-- The columns of `usmUserEntry` that are read, and of `pysnmpUsmKeyEntry`.
pub record UserRow : Type 0 where
  pub user_name : Octets
  pub security_name : Octets
  pub auth_protocol : AuthProtocol
  pub priv_protocol : PrivProtocol

pub record KeyRow : Type 0 where
  pub auth_localized : Octets
  pub priv_localized : Octets
  pub auth_master : Octets
  pub priv_master : Octets

-- What `_cache` holds of a request; a field is `none` where its keyword was not given.
pub record SecurityData : Type 0 where
  pub msg_user_name : Octets
  pub security_name : Option Octets
  pub auth_protocol : Option AuthProtocol
  pub auth_key : Option Octets
  pub priv_protocol : Option PrivProtocol
  pub priv_key : Option Octets

-- An entry of `__timeline`.
pub record Estimate : Type 0 where
  pub boots : ℕ
  pub time : ℕ
  pub latest_received : ℕ
  pub updated : ℕ

pub data Counter : Type 0 where
  unknown_engine_ids unknown_user_names unsupported_sec_levels wrong_digests : Counter
  not_in_time_windows decryption_errors in_gen_errs : Counter

pub record Stats : Type 0 where
  pub unknown_engine_ids : ℕ
  pub unknown_user_names : ℕ
  pub unsupported_sec_levels : ℕ
  pub wrong_digests : ℕ
  pub not_in_time_windows : ℕ
  pub decryption_errors : ℕ
  pub in_gen_errs : ℕ

abbrev pub counter_value : Counter → Stats → ℕ
counter_value unknown_engine_ids s = s.unknown_engine_ids
counter_value unknown_user_names s = s.unknown_user_names
counter_value unsupported_sec_levels s = s.unsupported_sec_levels
counter_value wrong_digests s = s.wrong_digests
counter_value not_in_time_windows s = s.not_in_time_windows
counter_value decryption_errors s = s.decryption_errors
counter_value in_gen_errs s = s.in_gen_errs

-- `counter.syntax += 1`
abbrev pub bump : Counter → Stats → Stats
bump unknown_engine_ids s = record s { unknown_engine_ids = s.unknown_engine_ids + 1 }
bump unknown_user_names s = record s { unknown_user_names = s.unknown_user_names + 1 }
bump unsupported_sec_levels s = record s { unsupported_sec_levels = s.unsupported_sec_levels + 1 }
bump wrong_digests s = record s { wrong_digests = s.wrong_digests + 1 }
bump not_in_time_windows s = record s { not_in_time_windows = s.not_in_time_windows + 1 }
bump decryption_errors s = record s { decryption_errors = s.decryption_errors + 1 }
bump in_gen_errs s = record s { in_gen_errs = s.in_gen_errs + 1 }

-- The attributes of the model, and of the datastore the counters, the two tables in the order in which
-- their rows are walked, and `branchVersionId`. `params_branch` is `none` for -1.
pub record Usm : Type 0 where
  pub cache : Dict ℕ SecurityData
  pub timeline : Dict Octets Estimate
  pub expirations : Dict ℕ (List Octets)
  pub expiration_timer : ℕ
  pub stats : Stats
  pub users : Dict (Octets × Octets) UserRow
  pub user_keys : Dict (Octets × Octets) KeyRow
  pub branch_version : ℕ
  pub params_branch : Option ℕ
  pub security_to_user : Dict (Octets × Octets) Octets

-- The engine at the time of a call: `snmpEngineID`, `snmpEngineBoots`, `snmpEngineTime`,
-- `pysnmpUsmDiscoverable`, `pysnmpUsmDiscovery`, `int(300 / timerResolution)`, the two values that
-- `nextid` returns next, and the three readings of `int(time.time())` that a call takes.
pub record Engine : Type 0 where
  pub engine_id : Octets
  pub boots : ℕ
  pub time : ℕ
  pub discoverable : Bool
  pub discovery : Bool
  pub lifetime : ℕ
  pub first_reference : ℕ
  pub second_reference : ℕ
  pub synchronized_at : ℕ
  pub compared_at : ℕ
  pub updated_at : ℕ

-- `UsmSecurityParameters`
pub record SecurityParameters : Type 0 where
  pub engine_id : Octets
  pub boots : ℕ
  pub time : ℕ
  pub user_name : Octets
  pub authentication : Octets
  pub privacy : Octets

-- `decoder.decode`: a value, the end-of-octets sentinel, or `PyAsn1Error`.
pub data Decoded (A : Type 0) : Type 0 where
  decoded : A → Decoded A
  end_of_octets undecodable : Decoded A

-- What a report of an error carries.
pub record Report (P : Type 0) : Type 0 where
  pub counter : Counter
  pub value : ℕ
  pub state_reference : ℕ
  pub security_level : ℕ
  pub context_engine_id : Octets
  pub context_name : Octets
  pub max_size : ℤ
  pub security_engine_id : Option Octets
  pub scoped_pdu : Option P
  pub pdu : Option P

pub record StatusInfo (P : Type 0) : Type 0 where
  pub indication : Indication
  pub msg_user_name : Option Octets
  pub report : Option (Report P)

pub data Exception (P : Type 0) : Type 0 where
  status : StatusInfo P → Exception P
  protocol_exception attribute_exception asn1_exception no_such_instance : Exception P

pub data Result (P A : Type 0) : Type 0 where
  ok : A → Result P A
  raised : Exception P → Result P A

-- pyasn1, and the ciphers of pysnmpcrypto behind `privServices`, over the types of a scoped PDU and of
-- the choice that holds it. `decrypt` is `none` for `StatusInformation`, `index_fits` false where the
-- index of a user row raises `PyAsn1Error`.
pub record Library (S P : Type 0) : Type 0 where
  pub decode_parameters : Octets → Decoded SecurityParameters
  pub decode_pdu : Octets → Decoded P
  pub chosen_plaintext : S → Option P
  pub plaintext : S → Option P
  pub ciphertext : S → Option Octets
  pub context_engine_id : P → Octets
  pub context_name : P → Octets
  pub decrypt : PrivProtocol → Option Octets → ℕ → ℕ → Octets → Octets → Option Octets
  pub index_fits : Octets → Octets → Bool

abbrev pub M : Type 0 → Type 0 → Type 0
M P A = Usm → Result P A × Usm

module _ {P : Type 0} where
  abbrev pub pure : {A : Type 0} → A → M P A
  pure a s = (ok a, s)

  abbrev pub raise : {A : Type 0} → Exception P → M P A
  raise e s = (raised e, s)

  abbrev pub continue_with : {A B : Type 0} → Result P A × Usm → (A → M P B) → Result P B × Usm
  continue_with (ok a, s) f = f a s
  continue_with (raised e, s) f = (raised e, s)

  infixl 5 ◌>>=◌ ◌>>◌
  abbrev pub ◌>>=◌ : {A B : Type 0} → M P A → (A → M P B) → M P B
  ◌>>=◌ m f s = continue_with (m s) f

  abbrev pub ◌>>◌ : {B : Type 0} → M P (Unit {0}) → M P B → M P B
  m >> k = m >>= λ _. k

  -- What a call that returned did before it went on.
  pub >>=-returns :
      {A B : Type 0} (r : Result P A × Usm) (f : A → M P B) {b : B} {s' : Usm}
      → continue_with r f ≡ (ok b, s')
      → (a : A) × (s1 : Usm) × (r ≡ (ok a, s1)) × (f a s1 ≡ (ok b, s'))
  >>=-returns (ok a, s1) f h = (a, s1, refl, h)
  >>=-returns (raised e, s1) f h = cc

  abbrev pub plain_status : Indication → Option Octets → Exception P
  plain_status indication user_name =
      status (record { indication = indication; msg_user_name = user_name; report = none })

  -- `counter.syntax += 1`
  abbrev pub count_up : Counter → M P (Unit {0})
  count_up counter s = (ok tt, record s { stats = bump counter s.stats })

  -- `_raise_usm_error` with the counter's new value.
  abbrev pub raise_report :
      {A : Type 0} → Counter → Indication → Option Octets → (ℕ → Report P) → M P A
  raise_report counter indication user_name report s = (
    raised (
        status (record {
          indication = indication;
          msg_user_name = user_name;
          report = some (report (counter_value counter s.stats));
        })),
    s,
  )

  abbrev pub raise_usm_error :
      {A : Type 0} → Counter → Indication → Option Octets → (ℕ → Report P) → M P A
  raise_usm_error counter indication user_name report =
      count_up counter >>= λ _. raise_report counter indication user_name report
