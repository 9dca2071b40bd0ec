-- ===== src/Proxy/Out/RoundTrip.antt =====
-- From v1 to v2c and back.
use pysnmp.Proxy.Out.Enterprise.{specific_unknown, taken_apart}
use pysnmp.Proxy.Out.Common.{
  AreTranslated, HasCommonTypes, kept-AreTranslated, kept-without_fields, translated, v1_binds_same,
  v2_binds_same, without_fields,
}
use pysnmp.Base.{
  List, Option, [], ap, ap₂, arith, leb, length, none, refl, some, suc, sym, true, zero, ℕ, ◌++◌,
  ◌∙◌, ◌∷◌, ◌≡◌, ◌≢◌, ◌≤◌,
}
use pysnmp.Base.Eq.{list_eq, nat_eq}
use pysnmp.Proxy.{
  Body, Oid, Outcome, Trap, V1Pdu, V1Type, VarBinds, done, ip_address, object_identifier,
  octet_string, snmp_trap_address, snmp_trap_community, snmp_trap_enterprise, snmp_traps, v1_get,
  v1_get_next, v1_get_response, v1_pdu, v1_set, v1_trap,
}
use pysnmp.Proxy.In.{notification_binds, or_key_error, then_do, trap_oid_of, v1_to_v2}
use pysnmp.Proxy.Out.{
  first_of, kept_binds, trap_fields, trap_to_v1, unknown_fields, v1_binds, v2_to_v1,
  v2_to_v1_trap_map,
}
use pysnmp.Base.Dict.{lookup}

abbrev pub there_and_back : List ℕ → ℕ → V1Pdu → Outcome V1Pdu
there_and_back community new_id p =
    then_do (v1_to_v2 none community new_id p) (λ q. v2_to_v1 v1_get [] q)

module _ (t : Trap) (community : List ℕ) (new_id : ℕ) (common : AreTranslated t.trap_binds)
    (short : length community ≤ 65535) where
  -- What comes back: the community is left among the bindings.
  abbrev returned : Trap
  returned = record t {
    trap_binds =
        (snmp_trap_community, record { tag = octet_string; content = community })
        ∷ kept_binds t.trap_binds;
  }

  abbrev known_fields : Option ℕ → Oid → Outcome (Oid × ℕ × ℕ)
  known_fields found oid =
      trap_fields (notification_binds t community oid ++ t.trap_binds) oid found

  abbrev rest_of : VarBinds
  rest_of =
      (snmp_trap_address, record { tag = ip_address; content = t.agent_addr })
      ∷ (snmp_trap_community, record { tag = octet_string; content = community })
      ∷ (snmp_trap_enterprise, record { tag = object_identifier; content = t.enterprise })
      ∷ t.trap_binds

  kept : v1_binds (kept_binds rest_of) ≡ some (returned.trap_binds)
  unfolding kept_binds v1_binds lookup
  kept = rw (v1_binds_same (kept_binds t.trap_binds) (kept-AreTranslated t.trap_binds common)) refl

  abbrev finish : Option VarBinds → Oid × ℕ × ℕ → Outcome V1Pdu
  finish l f = then_do (or_key_error l) λ translated. done (
      v1_trap (record {
        enterprise = f.0;
        agent_addr = t.agent_addr;
        generic_trap = f.1;
        specific_trap = f.2;
        time_stamp = t.time_stamp;
        trap_binds = translated;
      }))

  sent :
      (oid : Oid)
      → trap_oid_of t ≡ some oid
      → there_and_back community new_id (v1_trap t)
        ≡ trap_to_v1 (notification_binds t community oid ++ t.trap_binds)
  unfolding v1_to_v2 v2_to_v1
  sent oid e =
      let named : leb (length community) 65535 ≡ true = ground arith in
      rw (e, named, v2_binds_same t.trap_binds common) refl

  back_from :
      (oid : Oid)
      → trap_oid_of t ≡ some oid
      → known_fields (lookup oid v2_to_v1_trap_map) oid
        ≡ done (t.enterprise, t.generic_trap, t.specific_trap)
      → there_and_back community new_id (v1_trap t) ≡ done (v1_trap returned)
  unfolding trap_to_v1 first_of
  back_from oid e f =
      sent oid e
      ∙ (ap (λ o. then_do o (finish (v1_binds (kept_binds rest_of)))) f
          ∙ ap (λ l. finish l (t.enterprise, t.generic_trap, t.specific_trap)) kept)

  specific_back :
      t.generic_trap ≡ 6 → there_and_back community new_id (v1_trap t) ≡ done (v1_trap returned)
  unfolding trap_oid_of
  specific_back six =
      let oid = t.enterprise ++ 0 ∷ t.specific_trap ∷ [] in
      back_from oid (rw six refl) (
        ap (λ o. known_fields o oid) (specific_unknown t.enterprise t.specific_trap)
        ∙ (ap unknown_fields (taken_apart t.enterprise t.specific_trap)
            ∙ ap (λ g. done (t.enterprise, g, t.specific_trap)) (sym six)))

  -- One of the six standard traps.
  standard_back :
      (g : ℕ) (oid : Oid)
      → t.generic_trap ≡ g
      → t.specific_trap ≡ 0
      → trap_oid_of t ≡ some oid
      → lookup oid v2_to_v1_trap_map ≡ some g
      → there_and_back community new_id (v1_trap t) ≡ done (v1_trap returned)
  unfolding first_of
  standard_back g oid same none_specific e known = back_from oid e (
      ap (λ o. known_fields o oid) known
      ∙ ap₂ (λ a b. done (t.enterprise, a, b)) (sym same) (sym none_specific))

  generic_back :
      (g : ℕ)
      → t.generic_trap ≡ g
      → g ≤ 6
      → (g ≢ 6 → t.specific_trap ≡ 0)
      → there_and_back community new_id (v1_trap t) ≡ done (v1_trap returned)
  unfolding trap_oid_of lookup
  generic_back zero e h z =
      standard_back 0 (snmp_traps ++ 1 ∷ []) e (z (λ p. absurd (omega (arith, p)))) (rw e refl) refl
  generic_back (suc zero) e h z =
      standard_back 1 (snmp_traps ++ 2 ∷ []) e (z (λ p. absurd (omega (arith, p)))) (rw e refl) refl
  generic_back (suc (suc zero)) e h z =
      standard_back 2 (snmp_traps ++ 3 ∷ []) e (z (λ p. absurd (omega (arith, p)))) (rw e refl) refl
  generic_back (suc (suc (suc zero))) e h z =
      standard_back 3 (snmp_traps ++ 4 ∷ []) e (z (λ p. absurd (omega (arith, p)))) (rw e refl) refl
  generic_back (suc (suc (suc (suc zero)))) e h z =
      standard_back 4 (snmp_traps ++ 5 ∷ []) e (z (λ p. absurd (omega (arith, p)))) (rw e refl) refl
  generic_back (suc (suc (suc (suc (suc zero))))) e h z =
      standard_back 5 (snmp_traps ++ 6 ∷ []) e (z (λ p. absurd (omega (arith, p)))) (rw e refl) refl
  generic_back (suc (suc (suc (suc (suc (suc zero)))))) e h z = specific_back e
  generic_back (suc (suc (suc (suc (suc (suc (suc n))))))) e h z = absurd (omega arith)

-- A v1 request, its bindings of types that both versions have (no `NetworkAddress`), its integers in the range
-- of 32 bits and its strings of at most 65535 octets, comes back from its translation to v2c with its error
-- fields cleared.
pub request_back :
    (type : V1Type) (b : Body) (community : List ℕ) (new_id : ℕ)
    → type ≢ v1_get_response
    → HasCommonTypes b.var_binds
    → there_and_back community new_id (v1_pdu type b)
      ≡ done (v1_pdu type (record b { error_status = 0; error_index = 0 }))
unfolding v1_to_v2 v2_to_v1
request_back v1_get b community new_id n h =
    rw (v2_binds_same b.var_binds (translated b.var_binds h))
      (rw (v1_binds_same b.var_binds (translated b.var_binds h)) refl)
request_back v1_get_next b community new_id n h =
    rw (v2_binds_same b.var_binds (translated b.var_binds h))
      (rw (v1_binds_same b.var_binds (translated b.var_binds h)) refl)
request_back v1_set b community new_id n h =
    rw (v2_binds_same b.var_binds (translated b.var_binds h))
      (rw (v1_binds_same b.var_binds (translated b.var_binds h)) refl)
request_back v1_get_response b community new_id n h = absurd (n refl)

-- A v1 trap that is enterprise-specific, or generic with the specific trap 0, its bindings as those of a
-- request above and the community of at most 65535 octets, comes back from its translation to v2c with its
-- fields, the community in front of its bindings, and without its bindings that are named sysUpTime.0,
-- snmpTrapAddress.0, snmpTrapEnterprise.0 or as one of the six standard traps.
pub trap_back :
    (t : Trap) (community : List ℕ) (new_id : ℕ)
    → HasCommonTypes t.trap_binds
    → length community ≤ 65535
    → t.generic_trap ≤ 6
    → (t.generic_trap ≢ 6 → t.specific_trap ≡ 0)
    → there_and_back community new_id (v1_trap t)
      ≡ done (
          v1_trap (record t {
            trap_binds =
                (snmp_trap_community, record { tag = octet_string; content = community })
                ∷ without_fields t.trap_binds;
          }))
trap_back t community new_id h c g z =
    rw (← kept-without_fields t.trap_binds)
      (generic_back t community new_id (translated t.trap_binds h) c t.generic_trap refl g z)
