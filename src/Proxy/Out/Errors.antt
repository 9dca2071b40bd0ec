-- ===== src/Proxy/Out/Errors.antt =====
-- The error fields of a translated response.
use mathlib.Core.Option
use pysnmp.Base.{
  All, Bool-cases, Option, [], ap, arith, false, if◌then◌else◌, inl, inr, none, refl, some, suc,
  zero, ℕ, ◌+◌, ◌==◌, ◌∙◌, ◌∷◌, ◌≡◌, ◌≤◌,
}
use pysnmp.Base.Dict.{Dict, lookup}
use pysnmp.Base.Eq.{list_beq, list_eq, nat_eq}
use pysnmp.Proxy.{
  Body, Oid, Outcome, Tag, Trap, V1Pdu, V1Type, V2Pdu, V2Type, Value, VarBinds, attribute_error,
  constraint_error, done, index_error, key_error, protocol_error, reissue, snmp_trap_address,
  snmp_trap_oid, v1_get, v1_get_next, v1_get_response, v1_pdu, v1_set, v1_trap, v2_get, v2_get_bulk,
  v2_get_next, v2_inform, v2_report, v2_response, v2_set, v2_trap,
}
use pysnmp.Proxy.Out.{
  Scan, after_scan, answer, at_counter64, error_of, first_of, going, is_counter64, is_exception,
  kept_binds, left, raised, request_to_v1, response_pdu, scan, trap_fields, trap_to_v1, v1_binds,
  v2_to_v1, v2_to_v1_error_map, v2_to_v1_trap_map, visit,
}
use pysnmp.Proxy.In.{or_key_error, then_do}

-- What is the case for a PDU that was returned.
abbrev pub Returns : (V1Pdu → Type 0) → Outcome V1Pdu → Type 0
Returns P (done p) = P p
Returns P _ = Unit

-- A v1 PDU whose error status v1 knows.
abbrev pub HasV1Status : V1Pdu → Type 0
HasV1Status (v1_pdu type b) = b.error_status ≤ 5
HasV1Status (v1_trap t) = Unit

lookup_small : (n : ℕ) (d : Dict ℕ ℕ) → All (λ p. p.1 ≤ 5) d → Option.get_or (lookup n d) 5 ≤ 5
unfolding lookup
lookup_small n [] h = omega arith
lookup_small n ((k, v) ∷ d) h = elim (Bool-cases (k == n)) [
  | inl e ↦ rw e h.0
  | inr e ↦ rw e (lookup_small n d h.1)
]

error_map_small : (n : ℕ) → Option.get_or (lookup n v2_to_v1_error_map) 5 ≤ 5
error_map_small n = lookup_small n v2_to_v1_error_map (
  omega arith,
  (
    omega arith,
    (
      omega arith,
      (
        omega arith,
        (
          omega arith,
          (
            omega arith,
            (
              omega arith,
              (
                omega arith,
                (
                  omega arith,
                  (
                    omega arith,
                    (
                      omega arith,
                      (omega arith, (omega arith, (omega arith, (omega arith, (omega arith, tt))))),
                    ),
                  ),
                ),
              ),
            ),
          ),
        ),
      ),
    ),
  ),
)

-- The number of the first binding that holds an exception, counted from `idx + 1`, or 0.
unfoldable pub first_exception : ℕ → VarBinds → ℕ
first_exception idx [] = 0
first_exception idx ((oid, v) ∷ rest) =
    let later = first_exception (idx + 1) rest in if is_exception v.tag then idx + 1 else later

abbrev pub HasNoCounter64 : VarBinds → Type 0
HasNoCounter64 = All (λ (b : Oid × Value). is_counter64 b.1.tag ≡ false)

-- Status 2 with an index, none without.
abbrev pub status_at : ℕ → ℕ
status_at zero = 0
status_at (suc n) = 2

scan_lem :
    (orig : V1Type) (idx : ℕ) (binds : VarBinds)
    → HasNoCounter64 binds
    → scan orig idx binds
      ≡ going (status_at (first_exception idx binds)) (first_exception idx binds)
unfolding scan first_exception
scan_lem orig idx [] h = refl
scan_lem orig idx ((oid, v) ∷ rest) h = elim (Bool-cases (is_exception v.tag)) [
  | inl e ↦
      let z : idx + 1 ≡ suc idx = omega arith in
      ap (visit orig idx v.tag) (scan_lem orig (idx + 1) rest h.1) ∙ rw (h.0, e, z) refl
  | inr e ↦ ap (visit orig idx v.tag) (scan_lem orig (idx + 1) rest h.1) ∙ rw (h.0, e) refl
]

abbrev reported : ℕ → Scan
reported i = going (status_at i) i

-- A response whose bindings hold an exception and no Counter64, without an error of its own, becomes
-- `noSuchName` at its first exception, with the bindings of the request.
pub first_exception_lem :
    (orig : V1Type) (orig_binds : VarBinds) (b : Body) (n : ℕ)
    → HasNoCounter64 b.var_binds
    → b.error_status ≡ 0
    → first_exception 0 b.var_binds ≡ suc n
    → v2_to_v1 orig orig_binds (record { type_of = v2_response; body = b })
      ≡ done (response_pdu b (2, suc n) orig_binds)
unfolding v2_to_v1
first_exception_lem orig orig_binds b n h z e =
    ap (after_scan b orig_binds) (scan_lem orig 0 b.var_binds h ∙ ap reported e) ∙ rw z refl

abbrev IsFine : Scan → Type 0
IsFine (going status index) = status ≤ 5
IsFine (left status index) = status ≤ 5
IsFine (raised o) = Returns HasV1Status o

at_counter64-IsFine : (orig : V1Type) (idx : ℕ) → IsFine (at_counter64 orig idx)
at_counter64-IsFine v1_get idx = omega arith
at_counter64-IsFine v1_get_next idx = tt
at_counter64-IsFine v1_set idx = tt
at_counter64-IsFine v1_get_response idx = tt

visit-IsFine :
    (orig : V1Type) (idx : ℕ) (t : Tag) (s : Scan) → IsFine s → IsFine (visit orig idx t s)
visit-IsFine orig idx t (going status index) h = elim (Bool-cases (is_counter64 t)) [
  | inl c ↦ rw c (at_counter64-IsFine orig idx)
  | inr c ↦
      rw c (elim (Bool-cases (is_exception t)) [ inl e ↦ rw e (omega arith) | inr e ↦ rw e h ])
]
visit-IsFine orig idx t (left status index) h = h
visit-IsFine orig idx t (raised o) h = h

scan-IsFine : (orig : V1Type) (idx : ℕ) (binds : VarBinds) → IsFine (scan orig idx binds)
unfolding scan
scan-IsFine orig idx [] = omega arith
scan-IsFine orig idx ((oid, v) ∷ rest) =
    visit-IsFine orig idx v.tag (scan orig (idx + 1) rest) (scan-IsFine orig (idx + 1) rest)

error_of-small : (b : Body) (status index : ℕ) → status ≤ 5 → (error_of b status index).0 ≤ 5
error_of-small b status index h = elim (Bool-cases (b.error_status == 0)) [
  | inl e ↦ rw e h
  | inr e ↦ rw e (error_map_small b.error_status)
]

translated-Returns :
    (P : V1Pdu → Type 0) (o : Option VarBinds) (f : VarBinds → V1Pdu)
    → ((l : VarBinds) → P (f l))
    → Returns P (then_do (or_key_error o) (λ l. done (f l)))
translated-Returns P none f h = tt
translated-Returns P (some l) f h = h l

answer-Returns :
    (b : Body) (orig_binds : VarBinds) (error : ℕ × ℕ)
    → error.0 ≤ 5
    → Returns HasV1Status (answer b orig_binds error)
answer-Returns b orig_binds error h = elim (Bool-cases (error.0 == 0)) [
  | inl e ↦
      rw e (translated-Returns HasV1Status (v1_binds b.var_binds) (response_pdu b error) (λ l. h))
  | inr e ↦ rw e h
]

after_scan-Returns :
    (b : Body) (orig_binds : VarBinds) (s : Scan)
    → IsFine s
    → Returns HasV1Status (after_scan b orig_binds s)
after_scan-Returns b orig_binds (going status index) h =
    answer-Returns b orig_binds (error_of b status index) (error_of-small b status index h)
after_scan-Returns b orig_binds (left status index) h =
    answer-Returns b orig_binds (error_of b status index) (error_of-small b status index h)
after_scan-Returns b orig_binds (raised o) h = h

request-Returns : (type : V1Type) (b : Body) → Returns HasV1Status (request_to_v1 type b)
request-Returns type b =
    translated-Returns HasV1Status (v1_binds b.var_binds)
      (λ l. v1_pdu type (record b { error_status = 0; error_index = 0; var_binds = l }))
      (λ l. omega arith)

fields-Returns :
    (o : Outcome (Oid × ℕ × ℕ)) (l : Option VarBinds) (f : Oid × ℕ × ℕ → VarBinds → Trap)
    → Returns HasV1Status (then_do o (λ x. then_do (or_key_error l) (λ t. done (v1_trap (f x t)))))
fields-Returns (done x) none f = tt
fields-Returns (done x) (some t) f = tt
fields-Returns protocol_error l f = tt
fields-Returns (reissue i) l f = tt
fields-Returns key_error l f = tt
fields-Returns index_error l f = tt
fields-Returns attribute_error l f = tt
fields-Returns constraint_error l f = tt

trap-Returns : (l : VarBinds) → Returns HasV1Status (trap_to_v1 l)
unfolding trap_to_v1
trap-Returns [] = tt
trap-Returns (b0 ∷ []) = tt
trap-Returns (b0 ∷ b1 ∷ rest) = elim (Bool-cases (list_beq b1.0 snmp_trap_oid)) [
  | inl e ↦ rw e (
      fields-Returns
        (trap_fields (b0 ∷ b1 ∷ rest) b1.1.content (lookup b1.1.content v2_to_v1_trap_map))
        (v1_binds (kept_binds rest))
        (λ f t. record {
          enterprise = f.0;
          agent_addr = first_of snmp_trap_address (0 ∷ 0 ∷ 0 ∷ 0 ∷ []) (b0 ∷ b1 ∷ rest);
          generic_trap = f.1;
          specific_trap = f.2;
          time_stamp = b0.1.content;
          trap_binds = t;
        }))
  | inr e ↦ rw e tt
]

each-HasV1Status :
    (orig : V1Type) (orig_binds : VarBinds) (t : V2Type) (b : Body)
    → Returns HasV1Status (v2_to_v1 orig orig_binds (record { type_of = t; body = b }))
unfolding v2_to_v1
each-HasV1Status orig orig_binds v2_get b = request-Returns v1_get b
each-HasV1Status orig orig_binds v2_get_next b = request-Returns v1_get_next b
each-HasV1Status orig orig_binds v2_set b = request-Returns v1_set b
each-HasV1Status orig orig_binds v2_get_bulk b = request-Returns v1_get_next b
each-HasV1Status orig orig_binds v2_response b =
    after_scan-Returns b orig_binds (scan orig 0 b.var_binds) (scan-IsFine orig 0 b.var_binds)
each-HasV1Status orig orig_binds v2_trap b = trap-Returns b.var_binds
each-HasV1Status orig orig_binds v2_inform b = tt
each-HasV1Status orig orig_binds v2_report b = tt

-- Whatever v2c PDU is translated, the error status of a v1 PDU that comes out is one that v1 has:
-- at most 5.
pub v2_to_v1-HasV1Status :
    (orig : V1Type) (orig_binds : VarBinds) (p : V2Pdu)
    → Returns HasV1Status (v2_to_v1 orig orig_binds p)
v2_to_v1-HasV1Status orig orig_binds p = each-HasV1Status orig orig_binds p.type_of p.body
