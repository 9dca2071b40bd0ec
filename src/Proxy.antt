-- ===== src/Proxy.antt =====
-- pysnmp/proto/proxy/rfc2576.py: the translation of PDUs between SNMPv1 and SNMPv2c.
pub mod In
pub mod Out
mod Tests
use pysnmp.Base.{List, [], ℕ, ◌∷◌}
use pysnmp.Base.Eq.{list_eq, nat_eq}

abbrev pub Oid : Type 0
Oid = List ℕ

-- The tag sets that the translation tells apart; v1 and v2c share the tags of the types they share.
pub data Tag : Type 0 where
  integer octet_string null object_identifier ip_address counter gauge time_ticks opaque : Tag
  network_address counter64 no_such_object no_such_instance end_of_mib_view : Tag

-- A value with what `clone` copies of it: the sub-identifiers of an object identifier, the octets of a
-- string or an address, the one number of a counter, a gauge or a time, and of an integer its sign, 0 or 1
-- where it is negative, and its magnitude.
pub record Value : Type 0 where
  pub tag : Tag
  pub content : List ℕ

abbrev pub VarBinds : Type 0
VarBinds = List (Oid × Value)

-- A PDU other than the v1 trap; a GETBULK keeps its two numbers in the places of the error fields.
pub record Body : Type 0 where
  pub request_id : ℕ
  pub error_status : ℕ
  pub error_index : ℕ
  pub var_binds : VarBinds

pub data V1Type : Type 0 where
  v1_get v1_get_next v1_set v1_get_response : V1Type

pub data V2Type : Type 0 where
  v2_get v2_get_next v2_set v2_response v2_trap : V2Type
  v2_get_bulk v2_inform v2_report : V2Type

pub record Trap : Type 0 where
  pub enterprise : Oid
  pub agent_addr : List ℕ
  pub generic_trap : ℕ
  pub specific_trap : ℕ
  pub time_stamp : List ℕ
  pub trap_binds : VarBinds

pub data V1Pdu : Type 0 where
  v1_pdu : V1Type → Body → V1Pdu
  v1_trap : Trap → V1Pdu

pub record V2Pdu : Type 0 where
  pub type_of : V2Type
  pub body : Body

-- A call returns, raises `ProtocolError`, raises `StatusInformation` with the index of a binding, or
-- lets another exception escape, `constraint_error` being the one of a value that breaks the constraint of
-- its type.
pub data Outcome (A : Type 0) : Type 0 where
  done : A → Outcome A
  protocol_error : Outcome A
  reissue : ℕ → Outcome A
  key_error index_error attribute_error constraint_error : Outcome A

-- The object identifiers of the notification bindings and `snmpTraps`.
abbrev pub sys_up_time : Oid
sys_up_time = 1 ∷ 3 ∷ 6 ∷ 1 ∷ 2 ∷ 1 ∷ 1 ∷ 3 ∷ 0 ∷ []

abbrev pub snmp_trap_oid : Oid
snmp_trap_oid = 1 ∷ 3 ∷ 6 ∷ 1 ∷ 6 ∷ 3 ∷ 1 ∷ 1 ∷ 4 ∷ 1 ∷ 0 ∷ []

abbrev pub snmp_trap_address : Oid
snmp_trap_address = 1 ∷ 3 ∷ 6 ∷ 1 ∷ 6 ∷ 3 ∷ 18 ∷ 1 ∷ 3 ∷ 0 ∷ []

abbrev pub snmp_trap_community : Oid
snmp_trap_community = 1 ∷ 3 ∷ 6 ∷ 1 ∷ 6 ∷ 3 ∷ 18 ∷ 1 ∷ 4 ∷ 0 ∷ []

abbrev pub snmp_trap_enterprise : Oid
snmp_trap_enterprise = 1 ∷ 3 ∷ 6 ∷ 1 ∷ 6 ∷ 3 ∷ 1 ∷ 1 ∷ 4 ∷ 3 ∷ 0 ∷ []

abbrev pub snmp_traps : Oid
snmp_traps = 1 ∷ 3 ∷ 6 ∷ 1 ∷ 6 ∷ 3 ∷ 1 ∷ 1 ∷ 5 ∷ []
