-- ===== src/Vacm/Model/Caller.antt =====
-- pysnmp/entity/rfc3413/cmdrsp.py: `CommandResponderBase.__verifyAccess`, which turns the verdict of
-- the access control model into an SMI error; pysnmp/proto/acmod/void.py: the model that permits all.
use pysnmp.Base.{All, Bool, arith, if◌then◌else◌, true, ℕ, ◌&&◌, ◌==◌, ◌↔◌, ◌≡◌, ◌≢◌}
use pysnmp.Vacm.Access.{
  ErrorIndication, Name, access_allowed, no_access_entry, no_group_name, no_such_context,
  no_such_view, not_in_view, other_error,
}
use pysnmp.Vacm.Views.{Oid}
use pysnmp.Vacm.Model.{Mib, Request, Verdict, allowed, index_error, raised, returned}
use pysnmp.Vacm.Model.Cache.{decision}
use pysnmp.Vacm.Model.Grants.{Selected, unlisted_view_returns}

-- How `__verifyAccess` ends: an SMI error, `return 1` for an object outside the view, `ProtocolError`,
-- the escaping `IndexError`, or the fall through that lets the instrumentation go on.
pub data Access : Type 0 where
  authorization_error gen_error unknown_context no_access_error : Access
  outside_view protocol_error escaped granted : Access

pub map_error : ErrorIndication → Access
map_error no_such_view = authorization_error
map_error no_access_entry = authorization_error
map_error no_group_name = authorization_error
map_error other_error = gen_error
map_error no_such_context = unknown_context
map_error not_in_view = outside_view
map_error access_allowed = protocol_error

-- The `else` branch; the tests on the syntax and on the PDU's tag are arguments.
pub without_error : ℕ → Bool → Bool → Access
without_error security_model is_counter64 is_get_next =
    if security_model == 1 && (is_counter64 && is_get_next) then no_access_error else granted

pub verify_access : ℕ → Bool → Bool → Verdict → Access
unfolding map_error without_error
verify_access security_model is_counter64 is_get_next (raised e) = map_error e
verify_access security_model is_counter64 is_get_next allowed =
    without_error security_model is_counter64 is_get_next
verify_access security_model is_counter64 is_get_next (returned e) =
    without_error security_model is_counter64 is_get_next
verify_access security_model is_counter64 is_get_next index_error = escaped

-- `Vacm.isAccessAllowed` of acmod/void.py returns `accessAllowed`, whatever it is asked.
pub void_access_allowed : Verdict
void_access_allowed = returned access_allowed

-- The void model grants whatever is asked but a Counter64 to a v1 GETNEXT.
pub verify_void :
    (security_model : ℕ) (is_counter64 is_get_next : Bool)
    → (verify_access security_model is_counter64 is_get_next void_access_allowed ≡ granted)
      ↔ ¬ ((security_model ≡ 1) × (is_counter64 ≡ true) × (is_get_next ≡ true))
unfolding verify_access void_access_allowed
verify_void sm c g = ground arith

-- A responder grants access to every object of a view that is selected but has no family: for such
-- a request `__verifyAccess` falls through as if access were allowed, except for a Counter64 asked
-- for by a v1 GETNEXT, which is hidden.
pub unlisted_view_is_granted :
    (is_prefix_of : Oid → Oid → Bool) (mib : Mib) (q : Request) (is_counter64 is_get_next : Bool)
    (v : Name)
    → Selected mib q v
    → All (λ r. r.view_name ≢ v) mib.view_rows
    → verify_access q.security_model is_counter64 is_get_next (decision is_prefix_of mib q) ≡ (
        if q.security_model == 1 && (is_counter64 && is_get_next) then no_access_error else granted)
unfolding verify_access
unlisted_view_is_granted is_prefix_of mib q c g v s n =
    rw (unlisted_view_returns is_prefix_of mib q v s n)
