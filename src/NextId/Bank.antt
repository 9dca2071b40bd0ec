-- ===== src/NextId/Bank.antt =====
-- The bank never runs empty, and the values come in succession.
use native.Mathlib.Nat.{mod-lt, suc-mod, mod-eq_of_lt, mod_self, zero-mod}
use mathlib.Core.Option
use mathlib.Core.Option.{some-injective}
use pysnmp.Base.{
  ==_iff, All, Bool-cases, List, Option, [], ap, arith, false, if◌then◌else◌, inl, inr, length,
  length-append, ltb, min, none, refl, some, suc, zero, ℕ, ◌%◌, ◌++◌, ◌+◌, ◌-◌, ◌/◌, ◌<◌, ◌==◌, ◌∙◌,
  ◌∷◌, ◌≡◌, ◌≤◌, ◌⊎◌,
}
use pysnmp.NextId.{Integer, call, init, last_of, range, take_from}

-- A value follows another: it is the next number, or 0 after the maximum was reached.
abbrev pub Follows : ℕ → ℕ → ℕ → Type 0
Follows maximum a b = (b ≡ suc a) ⊎ ((b ≡ 0) × (maximum ≤ a))

-- Every value of a list follows the one before it, and the first one a given value.
abbrev pub IsChainFrom : ℕ → ℕ → List ℕ → Type 0
IsChainFrom maximum a [] = Unit
IsChainFrom maximum a (b ∷ l) = Follows maximum a b × IsChainFrom maximum b l

abbrev pub IsChain : ℕ → List ℕ → Type 0
IsChain maximum [] = Unit
IsChain maximum (a ∷ l) = IsChainFrom maximum a l

-- Every value of a list is below a bound.
abbrev pub AreBelow : ℕ → List ℕ → Type 0
AreBelow b = All (λ v. v < b)

-- How many values come before the next that the threshold divides.
pub gap : ℕ → List ℕ → ℕ
gap t [] = 0
gap t (v ∷ l) = let rest = gap t l in if v % t == 0 then 0 else suc rest

pub record IsStocked (s : Integer) : Type 0 where
  pub some_threshold : 1 ≤ s.threshold
  pub chained : IsChain s.maximum s.bank
  pub enough : gap s.threshold s.bank + s.threshold + 1 ≤ length s.bank
  pub bounded : AreBelow (s.maximum + s.threshold) s.bank

mod_step : (t v : ℕ) → 1 ≤ t → ((suc v % t ≡ 0) × (suc (v % t) ≡ t)) ⊎ (suc v % t ≡ suc (v % t))
mod_step t v p = elim (Bool-cases (suc (v % t) == t)) [
  | inl e ↦
      let top : suc (v % t) ≡ t = (==_iff (suc (v % t)) t).0 e in
      inl (suc-mod v t ∙ (ap (λ i. i % t) top ∙ mod_self t), top)
  | inr e ↦ inr (suc-mod v t ∙ mod-eq_of_lt (ground (arith, mod-lt v {m = t} p)))
]

-- A value that the threshold divides is never further away than the threshold.
gap_bound :
    (t m v : ℕ) (l : List ℕ)
    → 1 ≤ t
    → IsChainFrom m v l
    → t ≤ v % t + length l
    → gap t (v ∷ l) + v % t ≤ t
unfolding gap
gap_bound t m v [] p c h = absurd (omega (arith, mod-lt v {m = t} p, h))
gap_bound t m v (w ∷ l) p (inl e, c) h = elim (mod_step t v p) [
  | inl (z, top) ↦ rw e (ground (arith, z, top, mod-lt v {m = t} p))
  | inr z ↦
      let more = gap_bound t m w l p c (rw (e, z) (omega (arith, h))) in
      let more' : gap t (suc v ∷ l) + suc v % t ≤ t = rw e at more in
      rw e (ground (arith, z, mod-lt v {m = t} p, more'))
]
gap_bound t m v (w ∷ l) p (inr (e, q), c) h = rw e (ground (arith, zero-mod t, mod-lt v {m = t} p))

length-range : (e n : ℕ) → length (range e n) ≡ n
unfolding range
length-range e zero = refl
length-range e (suc n) = ap suc (length-range (suc e) n)

range-chain : (m e n : ℕ) → IsChainFrom m e (range (suc e) n)
unfolding range
range-chain m e zero = tt
range-chain m e (suc n) = (inl refl, range-chain m (suc e) n)

refill-chain :
    (m a n : ℕ) (l : List ℕ)
    → IsChainFrom m a l
    → IsChainFrom m a (l ++ range (if ltb m (suc (last_of a l)) then 0 else suc (last_of a l)) n)
unfolding range
refill-chain m a zero [] c = tt
refill-chain m a (suc n) [] c = elim (Bool-cases (ltb m (suc a))) [
  | inl e ↦ rw e (inr (refl, ground arith), range-chain m 0 n)
  | inr e ↦ rw e (inl refl, range-chain m (suc a) n)
]
refill-chain m a n (b ∷ l) c = (c.0, refill-chain m b n l c.1)

gap_small :
    (t m v : ℕ) (l : List ℕ) → 1 ≤ t → IsChainFrom m v l → t ≤ length l → gap t (v ∷ l) + 1 ≤ t
unfolding gap
gap_small t m v l p c h =
    let bound = gap_bound t m v l p c (omega (arith, h)) in
    ground (arith, mod-lt v {m = t} p, bound)

range-AreBelow : (b e n : ℕ) → e + n ≤ b → AreBelow b (range e n)
unfolding range
range-AreBelow b e zero h = tt
range-AreBelow b e (suc n) h = (omega (arith, h), range-AreBelow b (suc e) n (omega (arith, h)))

append-AreBelow : (b : ℕ) (l r : List ℕ) → AreBelow b l → AreBelow b r → AreBelow b (l ++ r)
append-AreBelow b [] r hl hr = hr
append-AreBelow b (v ∷ l) r hl hr = (hl.0, append-AreBelow b l r hl.1 hr)

-- What a refill adds begins at or below the maximum.
added-AreBelow : (m t next : ℕ) → AreBelow (m + t) (range (if ltb m next then 0 else next) t)
added-AreBelow m t next = elim (Bool-cases (ltb m next)) [
  | inl e ↦ rw e (range-AreBelow (m + t) 0 t (omega arith))
  | inr e ↦ rw e (range-AreBelow (m + t) next t (ground arith))
]

-- What a call that finds the bank so stocked returns and leaves.
pub TakesFrom : Integer → List ℕ → Type 0
TakesFrom s bank =
    (v : ℕ) × (s' : Integer) × (take_from s bank ≡ some (v, s'))
    × IsStocked s'
    × ((a : ℕ) → IsChainFrom s.maximum a bank → Follows s.maximum a v)
    × IsChainFrom s.maximum v s'.bank
    × (s'.maximum ≡ s.maximum)
    × (s'.threshold ≡ s.threshold)
    × (v < s.maximum + s.threshold)

take_from_lem :
    (s : Integer) (bank : List ℕ)
    → 1 ≤ s.threshold
    → IsChain s.maximum bank
    → gap s.threshold bank + s.threshold + 1 ≤ length bank
    → AreBelow (s.maximum + s.threshold) bank
    → TakesFrom s bank
unfolding gap TakesFrom
take_from_lem s [] p c h b = absurd (omega (arith, h))
take_from_lem s (v ∷ []) p c h b = absurd (omega (arith, p, h))
take_from_lem s (v ∷ x ∷ l) p c h b =
    let t = s.threshold in
    let positive : (t == 0) ≡ false = ground arith in
    elim (Bool-cases (v % t == 0)) [
      | inl e ↦
          let next = suc (last_of x l) in
          let added = range (if ltb s.maximum next then 0 else next) t in
          let chain = refill-chain s.maximum x t l c.1 in
          let size : length (l ++ added) ≡ length l + t =
            length-append l added
            ∙ ap (λ n. length l + n) (length-range (if ltb s.maximum next then 0 else next) t) in
          let stocked : 0 + t + 1 ≤ suc (suc (length l)) = rw e at h in
          let had : t + 1 ≤ 2 + length l = omega (arith, stocked) in
          let small = gap_small t s.maximum x (l ++ added) p chain (omega (arith, size)) in
          (
            v,
            record s { bank = x ∷ (l ++ added) },
            rw (positive, e) refl,
            record {
              some_threshold = p;
              chained = chain;
              enough = omega (arith, small, size, had);
              bounded =
                  append-AreBelow (s.maximum + t) (x ∷ l) added b.1
                    (added-AreBelow s.maximum t next);
            },
            λ a d. d.0,
            (c.0, chain),
            refl,
            refl,
            b.0,
          )
      | inr e ↦
          let had : suc (gap t (x ∷ l)) + t + 1 ≤ length (v ∷ x ∷ l) = rw e at h in
          (
            v,
            record s { bank = x ∷ l },
            rw (positive, e) refl,
            record {
              some_threshold = p;
              chained = c.1;
              enough = omega (arith, had);
              bounded = b.1;
            },
            λ a d. d.0,
            c,
            refl,
            refl,
            b.0,
          )
    ]

abbrev pub collect : (Integer → Option (List ℕ)) → Option (ℕ × Integer) → Option (List ℕ)
collect more none = none
collect more (some (v, s)) = Option.map (λ (vs : List ℕ). v ∷ vs) (more s)

-- The values of `n` calls, one after the other.
unfoldable pub calls : ℕ → Integer → Option (List ℕ)
calls zero s = some []
calls (suc n) s = collect (calls n) (call s)

calls_from :
    (n : ℕ) (s : Integer) (m t a : ℕ)
    → IsStocked s
    → s.maximum ≡ m
    → s.threshold ≡ t
    → IsChainFrom m a s.bank
    → (vs : List ℕ) × (calls n s ≡ some vs)
      × (length vs ≡ n)
      × IsChainFrom m a vs
      × AreBelow (m + t) vs
unfolding calls call TakesFrom
calls_from zero s m t a h e f c = ([], refl, refl, tt, tt)
calls_from (suc n) s m t a h e f c =
    let (v, s1, taken, h1, follows, c1, e1, f1, below) =
      take_from_lem s s.bank h.some_threshold h.chained h.enough h.bounded in
    let next : IsChainFrom m v s1.bank = rw e at c1 in
    let start : IsChainFrom s.maximum a s.bank = rw e c in
    let head : Follows m a v = rw e at (follows a start) in
    let (vs, got, size, chain, bound) = calls_from n s1 m t v h1 (e1 ∙ e) (f1 ∙ f) next in
    (
      v ∷ vs,
      ap (collect (calls n)) taken ∙ ap (λ o. Option.map (λ (l : List ℕ). v ∷ l) o) got,
      ap suc size,
      (head, chain),
      (rw (e, f) at below, bound),
    )

range-IsStocked :
    (maximum n e : ℕ)
    → 2 ≤ n
    → e + n ≤ maximum
    → IsStocked (record { maximum = maximum; increment = n; threshold = n / 2; bank = range e n })
unfolding range
range-IsStocked maximum zero e h r = absurd (omega arith)
range-IsStocked maximum (suc n) e h r =
    let p : 1 ≤ suc n / 2 = omega arith in
    let size = length-range (suc e) n in
    let chain = range-chain maximum e n in
    let small = gap_small (suc n / 2) maximum e (range (suc e) n) p chain (omega (arith, size)) in
    record {
      some_threshold = p;
      chained = chain;
      enough = omega (arith, small, size);
      bounded = range-AreBelow (maximum + suc n / 2) e (suc n) (omega (arith, r));
    }

calls_stocked :
    (n : ℕ) (s : Integer)
    → IsStocked s
    → (vs : List ℕ) × (calls n s ≡ some vs)
      × (length vs ≡ n)
      × IsChain s.maximum vs
      × AreBelow (s.maximum + s.threshold) vs
unfolding calls call TakesFrom
calls_stocked zero s h = ([], refl, refl, tt, tt)
calls_stocked (suc n) s h =
    let (v, s1, taken, h1, follows, c1, e1, f1, below) =
      take_from_lem s s.bank h.some_threshold h.chained h.enough h.bounded in
    let (vs, got, size, chain, bound) = calls_from n s1 s.maximum s.threshold v h1 e1 f1 c1 in
    (
      v ∷ vs,
      ap (collect (calls n)) taken ∙ ap (λ o. Option.map (λ (l : List ℕ). v ∷ l) o) got,
      ap suc size,
      chain,
      (below, bound),
    )

-- From a fresh generator whose bank holds two values at least, and begins where `randbelow` lets it begin,
-- any number of calls succeeds, and the values come in succession: each is the one before it plus 1, or 0
-- once the maximum was reached; all are below the maximum plus the threshold, half the size of the bank.
pub calls_lem :
    (maximum increment e n : ℕ) (s : Integer)
    → init maximum increment e ≡ some s
    → 2 ≤ min maximum increment
    → e < maximum - min maximum increment
    → (vs : List ℕ) × (calls n s ≡ some vs)
      × (length vs ≡ n)
      × IsChain maximum vs
      × AreBelow (maximum + min maximum increment / 2) vs
unfolding init
calls_lem maximum increment e n s made two start =
    let size = min maximum increment in
    let fresh : Integer = record {
      maximum = maximum;
      increment = size;
      threshold = size / 2;
      bank = range e size;
    } in
    elim (Bool-cases (ltb 0 (maximum - size))) [
      | inr none_below ↦ absurd (let bad : none ≡ some s = rw none_below at made in cc)
      | inl below ↦
          let same : fresh ≡ s = some-injective fresh s (rw below at made) in
          rw (← same)
            (calls_stocked n fresh (range-IsStocked maximum size e two (omega (arith, start))))
    ]
