-- ===== src/Proxy/Tests.antt =====
-- The translations at concrete PDUs.
use pysnmp.Base.{[], arith, none, refl, ◌∷◌, ◌≡◌}
use pysnmp.Base.Eq.{list_eq, nat_eq}
use pysnmp.Proxy.In.{v1_to_v2, v2_binds}
use pysnmp.Proxy.{
  Body, Oid, Trap, Value, constraint_error, counter, counter64, done, integer, no_such_object,
  octet_string, reissue, snmp_trap_community, time_ticks, v1_get, v1_get_next, v1_pdu, v1_set,
  v1_trap, v2_response,
}
use pysnmp.Proxy.Out.{response_pdu, scan, v2_to_v1}
use pysnmp.Proxy.Out.Errors.{first_exception}
use pysnmp.Proxy.Out.Common.{common_counter, common_negative, common_ticks, without_fields}
use pysnmp.Proxy.Out.RoundTrip.{request_back, there_and_back, trap_back}

abbrev counter_bind : Oid × Value
counter_bind = (1 ∷ 3 ∷ [], record { tag = counter; content = 7 ∷ [] })

-- The least integer of 32 bits.
abbrev lowest_bind : Oid × Value
lowest_bind = (1 ∷ 5 ∷ [], record { tag = integer; content = 1 ∷ 2147483648 ∷ [] })

abbrev up_time_bind : Oid × Value
up_time_bind =
    (1 ∷ 3 ∷ 6 ∷ 1 ∷ 2 ∷ 1 ∷ 1 ∷ 3 ∷ 0 ∷ [], record { tag = time_ticks; content = 78 ∷ [] })

abbrev missing_bind : Oid × Value
missing_bind = (1 ∷ 4 ∷ [], record { tag = no_such_object; content = [] })

abbrev answered : Body
answered = record {
  request_id = 9;
  error_status = 0;
  error_index = 0;
  var_binds = counter_bind ∷ missing_bind ∷ [];
}

second_is_missing : first_exception 0 answered.var_binds ≡ 2
unfolding first_exception
second_is_missing = refl

-- The second binding is the one that v1 has no value for.
becomes_no_such_name :
    v2_to_v1 v1_get [] (record { type_of = v2_response; body = answered })
    ≡ done (response_pdu answered (2, 2) [])
unfolding v2_to_v1 scan
becomes_no_such_name = refl

-- A Counter64 in the answer to a GETNEXT is reported for another try.
counter64_is_skipped :
    v2_to_v1 v1_get_next [] (record {
      type_of = v2_response;
      body = record answered {
        var_binds = (1 ∷ [], record { tag = counter64; content = [] }) ∷ [];
      };
    })
    ≡ reissue 0
unfolding v2_to_v1 scan
counter64_is_skipped = refl

abbrev asked : Body
asked = record {
  request_id = 9;
  error_status = 0;
  error_index = 0;
  var_binds = counter_bind ∷ lowest_bind ∷ [];
}

request_back_example :
    there_and_back [] 5 (v1_pdu v1_set asked)
    ≡ done (v1_pdu v1_set (record asked { error_status = 0; error_index = 0 }))
request_back_example =
    request_back v1_set asked [] 5 (λ e. cc)
      (common_counter _, (common_negative 2147483648 (omega arith), tt))

abbrev link_down : Trap
link_down = record {
  enterprise = 1 ∷ 3 ∷ 6 ∷ 1 ∷ 4 ∷ 1 ∷ [];
  agent_addr = 10 ∷ 0 ∷ 0 ∷ 1 ∷ [];
  generic_trap = 2;
  specific_trap = 0;
  time_stamp = 77 ∷ [];
  trap_binds = counter_bind ∷ up_time_bind ∷ [];
}

trap_back_example :
    there_and_back (112 ∷ []) 5 (v1_trap link_down)
    ≡ done (
        v1_trap (record link_down {
          trap_binds =
              (snmp_trap_community, record { tag = octet_string; content = 112 ∷ [] })
              ∷ without_fields link_down.trap_binds;
        }))
trap_back_example =
    trap_back link_down (112 ∷ []) 5 (common_counter _, (common_ticks _, tt)) (omega arith)
      (omega arith) (λ n. refl)

-- 2147483648 is no `Integer32`.
too_large_integer :
    v1_to_v2 none [] 5 (
      v1_pdu v1_set (record asked {
        var_binds = (1 ∷ [], record { tag = integer; content = 0 ∷ 2147483648 ∷ [] }) ∷ [];
      }))
    ≡ constraint_error
unfolding v1_to_v2 v2_binds
too_large_integer = refl
