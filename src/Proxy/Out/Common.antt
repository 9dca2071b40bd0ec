-- ===== src/Proxy/Out/Common.antt =====
-- The values that both versions have, the bindings that stand for fields of a trap, and what the translations
-- make of them.

use pysnmp.Base.Eq.{list_beq, list_beq_iff, list_eq, nat_eq}
use pysnmp.Base.{
  All, Bool, Bool-cases, List, Option, [], ap, arith, false, if◌then◌else◌, inl, inr, is_some,
  length, refl, some, true, ℕ, ◌||◌, ◌↔◌, ◌∙◌, ◌∷◌, ◌≡◌, ◌≤◌,
}
use pysnmp.Proxy.{
  Oid, Tag, Value, VarBinds, counter, done, gauge, integer, ip_address, null, object_identifier,
  octet_string, opaque, snmp_trap_address, snmp_trap_enterprise, sys_up_time, time_ticks,
}
use pysnmp.Base.Listed.{listed}
use pysnmp.Proxy.In.{component_tag, fits, has_v2_form, v2_binds, v2_value}
use pysnmp.Proxy.Out.{is_dropped, kept_binds, v1_binds, v2_to_v1_trap_map}
use pysnmp.Base.Dict.{contains, lookup}

-- A value of a type that both versions have, a `NetworkAddress` not among them: an integer from -2147483648
-- to 2147483647, a string of at most 65535 octets, or any value of another type.
pub data IsCommon : Value → Type 0 where
  common_positive :
      (n : ℕ) → n ≤ 2147483647 → IsCommon (record { tag = integer; content = 0 ∷ n ∷ [] })
  common_negative :
      (n : ℕ) → n ≤ 2147483648 → IsCommon (record { tag = integer; content = 1 ∷ n ∷ [] })
  common_string :
      (l : List ℕ) → length l ≤ 65535 → IsCommon (record { tag = octet_string; content = l })
  common_null : (l : List ℕ) → IsCommon (record { tag = null; content = l })
  common_oid : (l : List ℕ) → IsCommon (record { tag = object_identifier; content = l })
  common_address : (l : List ℕ) → IsCommon (record { tag = ip_address; content = l })
  common_counter : (l : List ℕ) → IsCommon (record { tag = counter; content = l })
  common_gauge : (l : List ℕ) → IsCommon (record { tag = gauge; content = l })
  common_ticks : (l : List ℕ) → IsCommon (record { tag = time_ticks; content = l })
  common_opaque : (l : List ℕ) → IsCommon (record { tag = opaque; content = l })

abbrev pub HasCommonTypes : VarBinds → Type 0
HasCommonTypes = All (λ (b : Oid × Value). IsCommon b.1)

-- What the translation asks of each binding.
abbrev pub AreTranslated : VarBinds → Type 0
AreTranslated =
    All (λ (b : Oid × Value). (has_v2_form b.1.tag ≡ true) × (fits b.1.tag b.1.content ≡ true))

-- The object identifiers of coldStart, warmStart, linkDown, linkUp, authenticationFailure and
-- egpNeighborLoss.
abbrev standard_traps : List Oid
standard_traps =
    (1 ∷ 3 ∷ 6 ∷ 1 ∷ 6 ∷ 3 ∷ 1 ∷ 1 ∷ 5 ∷ 1 ∷ [])
    ∷ (1 ∷ 3 ∷ 6 ∷ 1 ∷ 6 ∷ 3 ∷ 1 ∷ 1 ∷ 5 ∷ 2 ∷ [])
    ∷ (1 ∷ 3 ∷ 6 ∷ 1 ∷ 6 ∷ 3 ∷ 1 ∷ 1 ∷ 5 ∷ 3 ∷ [])
    ∷ (1 ∷ 3 ∷ 6 ∷ 1 ∷ 6 ∷ 3 ∷ 1 ∷ 1 ∷ 5 ∷ 4 ∷ [])
    ∷ (1 ∷ 3 ∷ 6 ∷ 1 ∷ 6 ∷ 3 ∷ 1 ∷ 1 ∷ 5 ∷ 5 ∷ [])
    ∷ (1 ∷ 3 ∷ 6 ∷ 1 ∷ 6 ∷ 3 ∷ 1 ∷ 1 ∷ 5 ∷ 6 ∷ [])
    ∷ []

-- The names of the bindings that stand for a field of a v1 trap: sysUpTime.0, snmpTrapAddress.0,
-- snmpTrapEnterprise.0, and the standard traps.
abbrev pub field_names : List Oid
field_names =
    (1 ∷ 3 ∷ 6 ∷ 1 ∷ 2 ∷ 1 ∷ 1 ∷ 3 ∷ 0 ∷ [])
    ∷ (1 ∷ 3 ∷ 6 ∷ 1 ∷ 6 ∷ 3 ∷ 18 ∷ 1 ∷ 3 ∷ 0 ∷ [])
    ∷ (1 ∷ 3 ∷ 6 ∷ 1 ∷ 6 ∷ 3 ∷ 1 ∷ 1 ∷ 4 ∷ 3 ∷ 0 ∷ [])
    ∷ standard_traps

-- Bindings without those.
unfoldable pub without_fields : VarBinds → VarBinds
without_fields [] = []
without_fields ((oid, v) ∷ rest) =
    let l = without_fields rest in if listed oid field_names then l else (oid, v) ∷ l

bool_same : (a b : Bool) → (a ≡ true) ↔ (b ≡ true) → a ≡ b
bool_same a b h = ground arith

equal_flip : (a b : Oid) → list_beq a b ≡ list_beq b a
equal_flip a b = bool_same _ _ (ground (arith, list_beq_iff a b, list_beq_iff b a))

is_some_if :
    (c : Bool) (n : ℕ) (o : Option ℕ) → is_some (if c then some n else o) ≡ (c || is_some o)
is_some_if true n o = refl
is_some_if false n o = refl

regroup : (d s a e : Bool) → (d || (s || (a || e))) ≡ (s || (a || (e || d)))
regroup d s a e = ground arith

contains_names : (oid : Oid) → contains oid v2_to_v1_trap_map ≡ listed oid standard_traps
unfolding lookup
contains_names oid = simp (is_some_if)

dropped_names : (oid : Oid) → is_dropped oid ≡ listed oid field_names
dropped_names oid =
    ap
      (λ (c : Bool).
        c
        || (list_beq oid sys_up_time
            || (list_beq oid snmp_trap_address || list_beq oid snmp_trap_enterprise)))
      (contains_names oid)
    ∙ rw
        (
          equal_flip oid sys_up_time,
          equal_flip oid snmp_trap_address,
          equal_flip oid snmp_trap_enterprise,
        )
        (regroup (listed oid standard_traps) (list_beq sys_up_time oid)
          (list_beq snmp_trap_address oid) (list_beq snmp_trap_enterprise oid))

pub kept-without_fields : (l : VarBinds) → kept_binds l ≡ without_fields l
unfolding kept_binds without_fields
kept-without_fields [] = refl
kept-without_fields ((oid, v) ∷ l) = rw (dropped_names oid, kept-without_fields l) refl

IsCommon_lem : {v : Value} → IsCommon v → (has_v2_form v.tag ≡ true) × (fits v.tag v.content ≡ true)
IsCommon_lem (common_positive n h) = (refl, ground arith)
IsCommon_lem (common_negative n h) = (refl, ground arith)
IsCommon_lem (common_string l h) = (refl, ground arith)
IsCommon_lem (common_null l) = (refl, refl)
IsCommon_lem (common_oid l) = (refl, refl)
IsCommon_lem (common_address l) = (refl, refl)
IsCommon_lem (common_counter l) = (refl, refl)
IsCommon_lem (common_gauge l) = (refl, refl)
IsCommon_lem (common_ticks l) = (refl, refl)
IsCommon_lem (common_opaque l) = (refl, refl)

pub translated : (l : VarBinds) → HasCommonTypes l → AreTranslated l
translated [] h = tt
translated (b ∷ l) h = (IsCommon_lem h.0, translated l h.1)

common_component : (t : Tag) → has_v2_form t ≡ true → component_tag t ≡ t
common_component t h = ground arith

pub v2_binds_same : (l : VarBinds) → AreTranslated l → v2_binds l ≡ done l
unfolding v2_binds
v2_binds_same [] h = refl
v2_binds_same ((oid, v) ∷ l) h =
    let same : v2_value v ≡ done v = rw (common_component v.tag h.0.0, h.0.0, h.0.1) refl in
    rw (same, v2_binds_same l h.1) refl

pub v1_binds_same : (l : VarBinds) → AreTranslated l → v1_binds l ≡ some l
unfolding v1_binds
v1_binds_same [] h = refl
v1_binds_same ((oid, v) ∷ l) h = rw (h.0.0, v1_binds_same l h.1) refl

pub kept-AreTranslated : (l : VarBinds) → AreTranslated l → AreTranslated (kept_binds l)
unfolding kept_binds
kept-AreTranslated [] h = tt
kept-AreTranslated ((oid, v) ∷ l) h = elim (Bool-cases (is_dropped oid)) [
  | inl e ↦ rw e (kept-AreTranslated l h.1)
  | inr e ↦ rw e (h.0, kept-AreTranslated l h.1)
]
