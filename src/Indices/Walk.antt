-- ===== src/Indices/Walk.antt =====
-- The GETNEXT walk over an `OidOrderedDict`: `nextKey` asked again for what it returned.
use pysnmp.Base.{
  All, Bool-cases, List, Option, Option-cases, [], ap, arith, false, if◌then◌else◌, inl, inr,
  length, none, refl, some, suc, sym, true, zero, ℕ, ◌∙◌, ◌∷◌, ◌≡◌, ◌≤◌,
}
use pysnmp.Base.Eq.{list_beq, list_beq_iff, list_eq, nat_eq}
use pysnmp.Base.Dict.{contains, lookup-insert}
use pysnmp.Indices.{
  Key, OidOrderedDict, above, keys, next_key, oid_next_key, oid_set_item, ordered, sorting_key,
}
use pysnmp.Indices.Valid.{IsValid, ordered-IsValid, ordered_clean, ordered_twice, set_item-IsValid}
use pysnmp.Base.Lex.{lex_irrefl, lex_lt, lex_total, lex_trans}
use pysnmp.Base.Sort.{IsSorted}
use pysnmp.Base.Listed.{IsUnique, listed}
use pysnmp.Indices.Successor.{above-over}

-- What a key sorts by in `OidOrderedDict`: itself.
abbrev pub by_oid : Key → List ℕ
by_oid k = k

pub record OidIsValid {V : Type 0} (d : OidOrderedDict V) : Type 0 where
  pub cached : (k : Key) → sorting_key d k ≡ k
  pub base_valid : IsValid by_oid d.base

module _ {V : Type 0} where
  pub oid_set_item-OidIsValid :
      (k : Key) (v : V) (d : OidOrderedDict V) → OidIsValid d → OidIsValid (oid_set_item k v d)
  unfolding oid_set_item sorting_key
  oid_set_item-OidIsValid k v d h = record {
    cached = λ j. elim (Bool-cases (contains k d.keys_cache)) [
      | inl e ↦ rw e (h.cached j)
      | inr e ↦ rw e (
          rw (lookup-insert k j k d.keys_cache) (elim (Bool-cases (list_beq k j)) [
            | inl same ↦ rw same ((list_beq_iff k j).0 same)
            | inr differ ↦ rw differ (h.cached j)
          ]))
    ];
    base_valid = set_item-IsValid by_oid k v d.base h.base_valid;
  }

  pub sorting_key-by_oid : (d : OidOrderedDict V) → OidIsValid d → sorting_key d ≡ by_oid
  sorting_key-by_oid d h = λ i k. h.cached k i

  -- `keys()` of the dictionary.
  unfoldable pub oid_keys : OidOrderedDict V → List Key
  oid_keys d = (keys (sorting_key d) d.base).0

  oid_keys_lem :
      (d : OidOrderedDict V) → OidIsValid d → oid_keys d ≡ (ordered by_oid d.base).keys_list
  unfolding oid_keys keys
  oid_keys_lem d h = ap (λ sk. (ordered sk d.base).keys_list) (sorting_key-by_oid d h)

  oid_next :
      (k : Key) (d : OidOrderedDict V)
      → OidIsValid d
      → oid_next_key k d ≡ (above by_oid k (oid_keys d), record d { base = ordered by_oid d.base })
  unfolding oid_next_key next_key
  oid_next k d h = rw (oid_keys_lem d h, sorting_key-by_oid d h) refl

  oid_next-OidIsValid :
      (d : OidOrderedDict V) → OidIsValid d → OidIsValid (record d { base = ordered by_oid d.base })
  unfolding sorting_key
  oid_next-OidIsValid d h = record {
    cached = h.cached;
    base_valid = ordered-IsValid by_oid d.base h.base_valid;
  }

  oid_keys_kept :
      (d : OidOrderedDict V)
      → OidIsValid d
      → oid_keys (record d { base = ordered by_oid d.base }) ≡ oid_keys d
  oid_keys_kept d h =
      oid_keys_lem (record d { base = ordered by_oid d.base }) (oid_next-OidIsValid d h)
      ∙ (ap (λ b. b.keys_list) (ordered_twice by_oid d.base) ∙ sym (oid_keys_lem d h))

  abbrev visit : (Key → OidOrderedDict V → List Key) → Option Key × OidOrderedDict V → List Key
  visit more (none, d) = []
  visit more (some n, d) = n ∷ more n d

  -- The keys of a walk from `k` that asks at most `fuel` times.
  pub walk : ℕ → Key → OidOrderedDict V → List Key
  walk zero k d = []
  walk (suc fuel) k d = visit (walk fuel) (oid_next_key k d)

-- The same walk over the sorted keys alone.
walk_list : ℕ → Key → List Key → List Key
walk_list zero k ks = []
walk_list (suc fuel) k ks = elim (above by_oid k ks) [
  | none ↦ []
  | some n ↦ n ∷ walk_list fuel n ks
]

-- What follows in sorted keys from the first above `k`.
abbrev pub keys_above : Key → List Key → List Key
keys_above k [] = []
keys_above k (j ∷ js) = if lex_lt k j then j ∷ js else keys_above k js

keys_above-All : (k : Key) (js : List Key) → All (λ m. lex_lt k m ≡ true) js → keys_above k js ≡ js
keys_above-All k [] h = refl
keys_above-All k (j ∷ js) h = rw h.0 refl

strict :
    (j : Key) (js : List Key)
    → All (λ m. lex_lt m j ≡ false) js
    → listed j js ≡ false
    → All (λ m. lex_lt j m ≡ true) js
strict j [] h n = tt
strict j (m ∷ js) h n =
    (ground (arith, lex_total j m, list_beq_iff m j, h.0), strict j js h.1 (ground arith))

module _ (k : Key) where
  above_head : (j : Key) (js : List Key) → lex_lt k j ≡ true → above by_oid k (j ∷ js) ≡ some j
  unfolding above
  above_head j js e = rw e refl

  above_tail :
      (j : Key) (js : List Key) → lex_lt k j ≡ false → above by_oid k (j ∷ js) ≡ above by_oid k js
  unfolding above
  above_tail j js e = rw e refl

  walk_list-none :
      (fuel : ℕ) (ks : List Key) → above by_oid k ks ≡ none → walk_list (suc fuel) k ks ≡ []
  unfolding walk_list
  walk_list-none fuel ks e = rw (e, walk_list) refl

  walk_list-some :
      (fuel : ℕ) (n : Key) (ks : List Key)
      → above by_oid k ks ≡ some n
      → walk_list (suc fuel) k ks ≡ n ∷ walk_list fuel n ks
  unfolding walk_list
  walk_list-some fuel n ks e = rw (e, walk_list) refl

-- A key that is not above where the walk stands is not met any more.
drop_head :
    (fuel : ℕ) (k j : Key) (js : List Key)
    → lex_lt k j ≡ false
    → walk_list fuel k (j ∷ js) ≡ walk_list fuel k js
unfolding walk_list
drop_head zero k j js h = refl
drop_head (suc fuel) k j js h = elim (Option-cases (above by_oid k js)) [
  | inl e ↦
      walk_list-none k fuel (j ∷ js) (above_tail k j js h ∙ e) ∙ sym (walk_list-none k fuel js e)
  | inr (n, e) ↦
      let past : lex_lt n j ≡ false = elim (Bool-cases (lex_lt n j)) [
        | inl below ↦ absurd (
            let bad : false ≡ true = sym h ∙ lex_trans k n j (above-over by_oid k js n e) below in
            cc)
        | inr e' ↦ e'
      ] in
      walk_list-some k fuel n (j ∷ js) (above_tail k j js h ∙ e)
      ∙ (ap (◌∷◌ n) (drop_head fuel n j js past) ∙ sym (walk_list-some k fuel n js e))
]

walk_list_lem :
    (fuel : ℕ) (k : Key) (ks : List Key)
    → IsSorted by_oid ks
    → IsUnique ks
    → length ks ≤ fuel
    → walk_list fuel k ks ≡ keys_above k ks
unfolding walk_list above
walk_list_lem zero k [] s u h = refl
walk_list_lem (suc fuel) k [] s u h = refl
walk_list_lem zero k (j ∷ js) s u h = absurd (omega arith)
walk_list_lem (suc fuel) k (j ∷ js) s u h = elim (Bool-cases (lex_lt k j)) [
  | inr not_over ↦
      drop_head (suc fuel) k j js not_over
      ∙ (walk_list_lem (suc fuel) k js s.1 u.1 (omega arith) ∙ rw not_over refl)
  | inl over ↦
      walk_list-some k fuel j (j ∷ js) (above_head k j js over)
      ∙ (ap (◌∷◌ j) (
            drop_head fuel j j js (lex_irrefl j)
            ∙ (walk_list_lem fuel j js s.1 u.1 (omega arith)
                ∙ keys_above-All j js (strict j js s.0 u.0)))
          ∙ rw over refl)
]

walk-walk_list :
    {V : Type 0} (fuel : ℕ) (k : Key) (d : OidOrderedDict V)
    → OidIsValid d
    → walk fuel k d ≡ walk_list fuel k (oid_keys d)
unfolding walk walk_list
walk-walk_list zero k d h = refl
walk-walk_list (suc fuel) k d h =
    let d' = record d { base = ordered by_oid d.base } in
    ap (visit (walk fuel)) (oid_next k d h) ∙ elim (Option-cases (above by_oid k (oid_keys d))) [
      | inl e ↦ ap (λ o. visit (walk fuel) (o, d')) e ∙ sym (walk_list-none k fuel (oid_keys d) e)
      | inr (n, e) ↦
          ap (λ o. visit (walk fuel) (o, d')) e
          ∙ (ap (◌∷◌ n) (
                walk-walk_list fuel n d' (oid_next-OidIsValid d h)
                ∙ ap (walk_list fuel n) (oid_keys_kept d h))
              ∙ sym (walk_list-some k fuel n (oid_keys d) e))
    ]

-- A walk of a valid dictionary, asked as many times as it has keys, visits every key above the one
-- it starts from, once and in OID order, and stops.
pub walk_visits :
    {V : Type 0} (fuel : ℕ) (k : Key) (d : OidOrderedDict V)
    → OidIsValid d
    → length (oid_keys d) ≤ fuel
    → walk fuel k d ≡ keys_above k (oid_keys d)
walk_visits fuel k d h enough =
    let v = ordered-IsValid by_oid d.base h.base_valid in
    let e = oid_keys_lem d h in
    walk-walk_list fuel k d h
    ∙ walk_list_lem fuel k (oid_keys d) (rw e (v.sorted_keys (ordered_clean by_oid d.base)))
        (rw e v.unique_keys) enough
