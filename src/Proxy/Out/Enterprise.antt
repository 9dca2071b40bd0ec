-- ===== src/Proxy/Out/Enterprise.antt =====
-- How a v2c trap OID that was made of an enterprise and a specific number is taken apart again.
use pysnmp.Base.Eq.{list_beq, list_beq_iff, list_eq, nat_eq}
use pysnmp.Base.{
  Bool-cases, [], ap, arith, false, inl, inr, none, refl, some, ℕ, ◌++◌, ◌∙◌, ◌∷◌, ◌≡◌,
}
use pysnmp.Proxy.{Oid, snmp_traps}
use pysnmp.Proxy.Out.{but_last, enterprise_and_specific, last, v2_to_v1_trap_map}
use pysnmp.Base.Dict.{lookup}

-- The last but one sub-identifier.
pub last_but_one : ℕ → Oid → ℕ
last_but_one d [] = 0
last_but_one d (x ∷ []) = d
last_but_one d (x ∷ y ∷ l) = last_but_one x (y ∷ l)

pub last_but_one-append : (d : ℕ) (e : Oid) (s : ℕ) → last_but_one d (e ++ 0 ∷ s ∷ []) ≡ 0
unfolding last_but_one
last_but_one-append d [] s = refl
last_but_one-append d (x ∷ []) s = refl
last_but_one-append d (x ∷ y ∷ e) s = last_but_one-append x (y ∷ e) s

pub not_standard :
    (k : ℕ) (e : Oid) (s : ℕ) → list_beq (snmp_traps ++ k ∷ []) (e ++ 0 ∷ s ∷ []) ≡ false
unfolding last_but_one
not_standard k e s = elim (Bool-cases (list_beq (snmp_traps ++ k ∷ []) (e ++ 0 ∷ s ∷ []))) [
  | inl same ↦
      let five : 5 ≡ 0 =
        ap (last_but_one 0) ((list_beq_iff (snmp_traps ++ k ∷ []) (e ++ 0 ∷ s ∷ [])).0 same)
        ∙ last_but_one-append 0 e s in
      absurd (omega (arith, five))
  | inr differ ↦ differ
]

-- The trap OID of an enterprise-specific trap is none of the six standard ones, and taking it apart
-- gives the enterprise and the specific trap back.
pub specific_unknown : (e : Oid) (s : ℕ) → lookup (e ++ 0 ∷ s ∷ []) v2_to_v1_trap_map ≡ none
unfolding lookup
specific_unknown e s =
    rw
      (
        not_standard 1 e s,
        not_standard 2 e s,
        not_standard 3 e s,
        not_standard 4 e s,
        not_standard 5 e s,
        not_standard 6 e s,
      )
      refl

pub last-append : (x : ℕ) (l : Oid) (y : ℕ) → last x (l ++ y ∷ []) ≡ y
last-append x [] y = refl
last-append x (z ∷ l) y = last-append z l y

pub but_last-append : (x : ℕ) (l : Oid) (y : ℕ) → but_last x (l ++ y ∷ []) ≡ x ∷ l
but_last-append x [] y = refl
but_last-append x (z ∷ l) y = ap (◌∷◌ x) (but_last-append z l y)

pub last_two : (x : ℕ) (e : Oid) (s : ℕ) → last x (e ++ 0 ∷ s ∷ []) ≡ s
last_two x [] s = refl
last_two x (y ∷ e) s = last_two y e s

pub front_two : (x : ℕ) (e : Oid) (s : ℕ) → but_last x (e ++ 0 ∷ s ∷ []) ≡ x ∷ (e ++ 0 ∷ [])
front_two x [] s = refl
front_two x (y ∷ e) s = ap (◌∷◌ x) (front_two y e s)

pub taken_apart : (e : Oid) (s : ℕ) → enterprise_and_specific (e ++ 0 ∷ s ∷ []) ≡ some (e, s)
unfolding enterprise_and_specific
taken_apart [] s = refl
taken_apart (x ∷ []) s = refl
taken_apart (x ∷ y ∷ e) s =
    rw (front_two y e s, last_two y e s, last-append y e 0) (rw (but_last-append y e 0) refl)
