-- ===== src/Proxy/In.antt =====
-- `v1ToV2`.
use pysnmp.Base.{
  Bool, List, Option, [], false, if◌then◌else◌, leb, length, ltb, map, none, some, true, ℕ, ◌++◌,
  ◌==◌, ◌∷◌,
}
use pysnmp.Base.Dict.{Dict, lookup}
use pysnmp.Base.Eq.{list_eq, nat_eq}
use pysnmp.Proxy.{
  Body, Oid, Outcome, Tag, Trap, V1Pdu, V1Type, V2Pdu, V2Type, Value, VarBinds, attribute_error,
  constraint_error, counter64, done, end_of_mib_view, index_error, integer, ip_address, key_error,
  network_address, no_such_instance, no_such_object, object_identifier, octet_string,
  protocol_error, reissue, snmp_trap_address, snmp_trap_community, snmp_trap_enterprise,
  snmp_trap_oid, snmp_traps, sys_up_time, time_ticks, v1_get, v1_get_next, v1_get_response, v1_pdu,
  v1_set, v1_trap, v2_get, v2_get_next, v2_response, v2_set, v2_trap,
}

-- `__v1ToV2TrapMap`
abbrev pub v1_to_v2_trap_map : Dict ℕ Oid
v1_to_v2_trap_map =
    (0, snmp_traps ++ 1 ∷ [])
    ∷ (1, snmp_traps ++ 2 ∷ [])
    ∷ (2, snmp_traps ++ 3 ∷ [])
    ∷ (3, snmp_traps ++ 4 ∷ [])
    ∷ (4, snmp_traps ++ 5 ∷ [])
    ∷ (5, snmp_traps ++ 6 ∷ [])
    ∷ []

-- The keys of `__v1ToV2ValueMap`, which maps each to the type with the same tag.
abbrev pub has_v2_form : Tag → Bool
has_v2_form network_address = false
has_v2_form counter64 = false
has_v2_form no_such_object = false
has_v2_form no_such_instance = false
has_v2_form end_of_mib_view = false
has_v2_form _ = true

-- 2.1.1.11: the one component of a `NetworkAddress` is an `IpAddress`.
abbrev pub component_tag : Tag → Tag
component_tag network_address = ip_address
component_tag t = t

abbrev pub then_do : {A B : Type 0} → Outcome A → (A → Outcome B) → Outcome B
then_do (done a) f = f a
then_do protocol_error f = protocol_error
then_do (reissue i) f = reissue i
then_do key_error f = key_error
then_do index_error f = index_error
then_do attribute_error f = attribute_error
then_do constraint_error f = constraint_error

abbrev pub or_key_error : {A : Type 0} → Option A → Outcome A
or_key_error none = key_error
or_key_error (some a) = done a

-- `Integer32.subtypeSpec`
abbrev pub fits_integer32 : List ℕ → Bool
fits_integer32 [] = false
fits_integer32 (sign ∷ []) = false
fits_integer32 (sign ∷ magnitude ∷ l) =
    if sign == 0 then ltb magnitude 2147483648 else leb magnitude 2147483648

-- What `clone` asks of the content of a v1 value for the v2c type: the range of `Integer32` and the size
-- of `OctetString`. The other v2c types constrain no more than their v1 types do.
abbrev pub fits : Tag → List ℕ → Bool
fits integer content = fits_integer32 content
fits octet_string content = leb (length content) 65535
fits _ content = true

-- A value of the v2c type, if its constraint holds.
abbrev pub checked : Value → Outcome Value
checked v = if fits v.tag v.content then done v else constraint_error

abbrev pub v2_value : Value → Outcome Value
v2_value v =
    let t = component_tag v.tag in
    if has_v2_form t then checked (record { tag = t; content = v.content }) else key_error

abbrev pub cons_value : Oid → Outcome Value → Outcome VarBinds → Outcome VarBinds
cons_value oid value rest = then_do value λ v. then_do rest λ l. done ((oid, v) ∷ l)

-- The loop over the bindings.
unfoldable pub v2_binds : VarBinds → Outcome VarBinds
v2_binds [] = done []
v2_binds ((oid, v) ∷ rest) = cons_value oid (v2_value v) (v2_binds rest)

-- 3.1.2 and 3.1.3
unfoldable pub trap_oid_of : Trap → Option Oid
trap_oid_of t =
    if t.generic_trap == 6
    then some (t.enterprise ++ 0 ∷ t.specific_trap ∷ [])
    else lookup t.generic_trap v1_to_v2_trap_map

-- 3.1.4
abbrev pub notification_binds : Trap → List ℕ → Oid → VarBinds
notification_binds t community trap_oid =
    (sys_up_time, record { tag = time_ticks; content = t.time_stamp })
    ∷ (snmp_trap_oid, record { tag = object_identifier; content = trap_oid })
    ∷ (snmp_trap_address, record { tag = ip_address; content = t.agent_addr })
    ∷ (snmp_trap_community, record { tag = octet_string; content = community })
    ∷ (snmp_trap_enterprise, record { tag = object_identifier; content = t.enterprise })
    ∷ []

-- The exception that stands for `noSuchName` in every binding.
abbrev pub exception_for : V2Type → Tag
exception_for v2_get_next = end_of_mib_view
exception_for _ = no_such_object

abbrev pub all_exceptions : Tag → VarBinds → VarBinds
all_exceptions t binds = map (λ (b : Oid × Value). (b.0, record { tag = t; content = [] })) binds

-- 4.1.2.2.1&2; reading the tag of a missing original raises `AttributeError`.
abbrev pub response_binds : ℕ → Option V2Type → VarBinds → Outcome VarBinds
response_binds error_status none binds = if error_status == 2 then attribute_error else done binds
response_binds error_status (some orig) binds =
    if error_status == 2 then done (all_exceptions (exception_for orig) binds) else done binds

-- `__v1ToV2PduMap` for the PDUs other than the trap.
abbrev pub v2_type : V1Type → V2Type
v2_type v1_get = v2_get
v2_type v1_get_next = v2_get_next
v2_type v1_set = v2_set
v2_type v1_get_response = v2_response

abbrev pub v2_final_binds : V1Type → ℕ → Option V2Type → VarBinds → Outcome VarBinds
v2_final_binds v1_get_response error_status orig binds = response_binds error_status orig binds
v2_final_binds _ error_status orig binds = done binds

-- `getErrorIndex(muteErrors=True)` of api/v1.py: past the last binding it is the last binding.
abbrev pub muted_index : Body → ℕ
muted_index b = if ltb (length b.var_binds) b.error_index then length b.var_binds else b.error_index

-- `v1ToV2`, its debug output aside. `community` is `snmpTrapCommunity`, `orig` the type of `origV2Pdu`,
-- and `new_id` the request ID that `setDefaults` draws for a notification.
unfoldable pub v1_to_v2 : Option V2Type → List ℕ → ℕ → V1Pdu → Outcome V2Pdu
v1_to_v2 orig community new_id (v1_pdu type b) = then_do (v2_binds b.var_binds) λ binds.
    then_do (v2_final_binds type b.error_status orig binds) λ final. done (record {
      type_of = v2_type type;
      body = record {
        request_id = b.request_id;
        error_status = b.error_status;
        error_index = muted_index b;
        var_binds = final;
      };
    })
v1_to_v2 orig community new_id (v1_trap t) = then_do (or_key_error (trap_oid_of t)) λ trap_oid.
    then_do (checked (record { tag = octet_string; content = community })) λ name.
      then_do (v2_binds t.trap_binds) λ binds. done (record {
        type_of = v2_trap;
        body = record {
          request_id = new_id;
          error_status = 0;
          error_index = 0;
          var_binds = notification_binds t name.content trap_oid ++ binds;
        };
      })
