-- ===== src/NextId.antt =====
-- pysnmp/nextid.py: `Integer`, the generator of identifiers. The random number that the first bank
-- starts from is an argument.
pub mod Bank
mod Tests
use pysnmp.Base.{
  List, Option, [], if◌then◌else◌, ltb, min, none, some, suc, zero, ℕ, ◌%◌, ◌++◌, ◌-◌, ◌/◌, ◌==◌,
  ◌∷◌,
}

pub record Integer : Type 0 where
  pub maximum : ℕ
  pub increment : ℕ
  pub threshold : ℕ
  pub bank : List ℕ

-- `range(e, e + n)`
unfoldable pub range : ℕ → ℕ → List ℕ
range e zero = []
range e (suc n) = e ∷ range (suc e) n

-- `__init__`; `randbelow` raises `ValueError` where nothing lies below its bound.
unfoldable pub init : ℕ → ℕ → ℕ → Option Integer
init maximum increment e =
    let n = min maximum increment in
    if ltb 0 (maximum - n)
    then some (record { maximum = maximum; increment = n; threshold = n / 2; bank = range e n })
    else none

-- `bank[-1]`
abbrev pub last_of : ℕ → List ℕ → ℕ
last_of v [] = v
last_of v (x ∷ l) = last_of x l

-- The refill, of a bank that is not empty; `none` for the `IndexError` of an empty one.
abbrev pub refill : Integer → List ℕ → Option (List ℕ)
refill s [] = none
refill s (x ∷ l) =
    let next = suc (last_of x l) in
    some ((x ∷ l) ++ range (if ltb s.maximum next then 0 else next) s.threshold)

abbrev pub with_bank : ℕ → Integer → Option (List ℕ) → Option (ℕ × Integer)
with_bank v s none = none
with_bank v s (some bank) = some (v, record s { bank = bank })

abbrev pub take_from : Integer → List ℕ → Option (ℕ × Integer)
take_from s [] = none
take_from s (v ∷ rest) =
    if s.threshold == 0
    then none
    else with_bank v s (if v % s.threshold == 0 then refill s rest else some rest)

-- `__call__`; `none` for an `IndexError` or a `ZeroDivisionError`.
unfoldable pub call : Integer → Option (ℕ × Integer)
call s = take_from s s.bank
