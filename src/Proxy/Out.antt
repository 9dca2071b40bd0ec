-- ===== src/Proxy/Out.antt =====
-- `v2ToV1`.
pub mod Errors
pub mod Common
pub mod RoundTrip
pub mod Enterprise
use mathlib.Core.Option
use pysnmp.Base.{
  Bool, List, Option, [], false, if◌then◌else◌, none, some, true, ℕ, ◌++◌, ◌+◌, ◌==◌, ◌||◌, ◌∷◌,
}
use pysnmp.Base.Dict.{Dict, contains, lookup}
use pysnmp.Base.Eq.{list_beq, list_eq, nat_eq}
use pysnmp.Proxy.{
  Body, Oid, Outcome, Tag, V1Pdu, V1Type, V2Pdu, VarBinds, counter64, done, end_of_mib_view,
  index_error, no_such_instance, no_such_object, protocol_error, reissue, snmp_trap_address,
  snmp_trap_enterprise, snmp_trap_oid, snmp_traps, sys_up_time, v1_get, v1_get_next,
  v1_get_response, v1_pdu, v1_set, v1_trap, v2_get, v2_get_bulk, v2_get_next, v2_inform, v2_report,
  v2_response, v2_set, v2_trap,
}
use pysnmp.Proxy.In.{has_v2_form, muted_index, or_key_error, then_do}

-- `__v2ToV1TrapMap`
abbrev pub v2_to_v1_trap_map : Dict Oid ℕ
v2_to_v1_trap_map =
    (snmp_traps ++ 1 ∷ [], 0)
    ∷ (snmp_traps ++ 2 ∷ [], 1)
    ∷ (snmp_traps ++ 3 ∷ [], 2)
    ∷ (snmp_traps ++ 4 ∷ [], 3)
    ∷ (snmp_traps ++ 5 ∷ [], 4)
    ∷ (snmp_traps ++ 6 ∷ [], 5)
    ∷ []

-- `__v2ToV1ErrorMap`
abbrev pub v2_to_v1_error_map : Dict ℕ ℕ
v2_to_v1_error_map =
    (0, 0)
    ∷ (1, 1)
    ∷ (5, 5)
    ∷ (10, 3)
    ∷ (9, 3)
    ∷ (7, 3)
    ∷ (8, 3)
    ∷ (12, 3)
    ∷ (6, 2)
    ∷ (17, 2)
    ∷ (11, 2)
    ∷ (18, 2)
    ∷ (13, 5)
    ∷ (14, 5)
    ∷ (15, 5)
    ∷ (16, 2)
    ∷ []

-- `__v2ToV1ValueMap` has the same tags for keys as `__v1ToV2ValueMap`.
unfoldable pub v1_binds : VarBinds → Option VarBinds
v1_binds [] = some []
v1_binds ((oid, v) ∷ rest) =
    let l = v1_binds rest in
    if has_v2_form v.tag then Option.map (λ (t : VarBinds). (oid, v) ∷ t) l else none

-- The content of the first binding of an object: the `for` loops that `break`.
unfoldable pub first_of : Oid → List ℕ → VarBinds → List ℕ
first_of key otherwise [] = otherwise
first_of key otherwise ((oid, v) ∷ rest) =
    let later = first_of key otherwise rest in if list_beq oid key then v.content else later

-- `l[:-1]` and `l[-1]`, of a list that is not empty.
abbrev pub but_last : ℕ → Oid → Oid
but_last x [] = []
but_last x (y ∷ l) = x ∷ but_last y l

abbrev pub last : ℕ → Oid → ℕ
last x [] = x
last x (y ∷ l) = last y l

-- `[:-2]` where `[-2]` is 0, and `[:-1]` otherwise, from `[:-1]`.
abbrev pub enterprise_of : Oid → Oid
enterprise_of [] = []
enterprise_of (z ∷ m) = if last z m == 0 then but_last z m else z ∷ m

-- 3.2.1 and 3.2.4 for an unknown trap OID, `none` for the `IndexError` of `[-2]`.
unfoldable pub enterprise_and_specific : Oid → Option (Oid × ℕ)
enterprise_and_specific [] = none
enterprise_and_specific (x ∷ []) = none
enterprise_and_specific (x ∷ y ∷ l) = some (enterprise_of (but_last x (y ∷ l)), last x (y ∷ l))

-- 3.2.5
abbrev pub is_dropped : Oid → Bool
is_dropped oid =
    contains oid v2_to_v1_trap_map
    || (list_beq oid sys_up_time
        || (list_beq oid snmp_trap_address || list_beq oid snmp_trap_enterprise))

unfoldable pub kept_binds : VarBinds → VarBinds
kept_binds [] = []
kept_binds ((oid, v) ∷ rest) = let l = kept_binds rest in if is_dropped oid then l else (oid, v) ∷ l

abbrev pub unknown_fields : Option (Oid × ℕ) → Outcome (Oid × ℕ × ℕ)
unknown_fields none = index_error
unknown_fields (some (enterprise, specific)) = done (enterprise, 6, specific)

-- The enterprise, the generic and the specific trap: 3.2.1, 3.2.3 and 3.2.4.
abbrev pub trap_fields : VarBinds → Oid → Option ℕ → Outcome (Oid × ℕ × ℕ)
trap_fields binds param (some generic) =
    done (first_of snmp_trap_enterprise snmp_traps binds, generic, 0)
trap_fields binds param none = unknown_fields (enterprise_and_specific param)

-- 3.2, for a notification.
unfoldable pub trap_to_v1 : VarBinds → Outcome V1Pdu
trap_to_v1 [] = protocol_error
trap_to_v1 (b0 ∷ []) = protocol_error
trap_to_v1 (b0 ∷ b1 ∷ rest) =
    let binds = b0 ∷ b1 ∷ rest in
    if list_beq b1.0 snmp_trap_oid
    then then_do (trap_fields binds b1.1.content (lookup b1.1.content v2_to_v1_trap_map)) (λ f.
      then_do (or_key_error (v1_binds (kept_binds rest))) λ translated. done (
        v1_trap (record {
          enterprise = f.0;
          agent_addr = first_of snmp_trap_address (0 ∷ 0 ∷ 0 ∷ 0 ∷ []) binds;
          generic_trap = f.1;
          specific_trap = f.2;
          time_stamp = b0.1.content;
          trap_binds = translated;
        })))
    else protocol_error

abbrev pub is_exception : Tag → Bool
is_exception no_such_object = true
is_exception no_such_instance = true
is_exception end_of_mib_view = true
is_exception _ = false

abbrev pub is_counter64 : Tag → Bool
is_counter64 counter64 = true
is_counter64 _ = false

-- The loop over a response's bindings, from the last to the first: it goes on or has left by `break`
-- with the error status and index, or has raised.
pub data Scan : Type 0 where
  going left : ℕ → ℕ → Scan
  raised : Outcome V1Pdu → Scan

-- One round, at the binding whose index is `idx`. `orig` is the type of `origV1Pdu`, which every
-- translation of a response is given.
abbrev pub at_counter64 : V1Type → ℕ → Scan
at_counter64 v1_get idx = left 2 (idx + 1)
at_counter64 v1_get_next idx = raised (reissue idx)
at_counter64 _ idx = raised protocol_error

abbrev pub visit : V1Type → ℕ → Tag → Scan → Scan
visit orig idx t (going status index) =
    if is_counter64 t
    then at_counter64 orig idx
    else if is_exception t
    then going 2 (idx + 1)
    else going status index
visit orig idx t (left status index) = left status index
visit orig idx t (raised o) = raised o

unfoldable pub scan : V1Type → ℕ → VarBinds → Scan
scan orig idx [] = going 0 0
scan orig idx ((oid, v) ∷ rest) = visit orig idx v.tag (scan orig (idx + 1) rest)

-- 4.1.2.3.1: the error of the v2c PDU takes precedence.
abbrev pub error_of : Body → ℕ → ℕ → ℕ × ℕ
error_of b status index =
    if b.error_status == 0
    then (status, index)
    else (Option.get_or (lookup b.error_status v2_to_v1_error_map) 5, muted_index b)

abbrev pub response_pdu : Body → ℕ × ℕ → VarBinds → V1Pdu
response_pdu b error binds = v1_pdu v1_get_response (record {
  request_id = b.request_id;
  error_status = error.0;
  error_index = error.1;
  var_binds = binds;
})

-- The bindings of an error are those of `origV1Pdu`.
abbrev pub answer : Body → VarBinds → ℕ × ℕ → Outcome V1Pdu
answer b orig_binds error =
    if error.0 == 0
    then then_do (or_key_error (v1_binds b.var_binds)) (λ binds. done (response_pdu b error binds))
    else done (response_pdu b error orig_binds)

abbrev pub after_scan : Body → VarBinds → Scan → Outcome V1Pdu
after_scan b orig_binds (going status index) = answer b orig_binds (error_of b status index)
after_scan b orig_binds (left status index) = answer b orig_binds (error_of b status index)
after_scan b orig_binds (raised o) = o

abbrev pub request_to_v1 : V1Type → Body → Outcome V1Pdu
request_to_v1 type b =
    then_do (or_key_error (v1_binds b.var_binds)) λ binds.
      done (v1_pdu type (record b { error_status = 0; error_index = 0; var_binds = binds }))

-- `v2ToV1`, its debug output aside; `orig` is `origV1Pdu`.
unfoldable pub v2_to_v1 : V1Type → VarBinds → V2Pdu → Outcome V1Pdu
v2_to_v1 orig orig_binds p = elim p.type_of [
  | v2_get ↦ request_to_v1 v1_get p.body
  | v2_get_next ↦ request_to_v1 v1_get_next p.body
  | v2_set ↦ request_to_v1 v1_set p.body
  | v2_get_bulk ↦ request_to_v1 v1_get_next p.body
  | v2_response ↦ after_scan p.body orig_binds (scan orig 0 p.body.var_binds)
  | v2_trap ↦ trap_to_v1 p.body.var_binds
  | v2_inform ↦ protocol_error
  | v2_report ↦ protocol_error
]
