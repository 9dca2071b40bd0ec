-- ===== src/RequestCache.antt =====
-- pysnmp/proto/cache.py and pysnmp/proto/secmod/cache.py: requests held until they are answered. The
-- remembered arguments are a dict from names to values; names and values are parameters.
pub mod Sweep
mod Tests
use pysnmp.Base.{Bool, Option, [], if◌then◌else◌, none, some, ℕ, ◌∷◌}
use pysnmp.Base.Eq.{Eq, nat_eq}
use pysnmp.Base.Dict.{Dict, insert, lookup, remove}

-- A call returns, or raises `ProtocolError`.
pub data Outcome (A : Type 0) : Type 0 where
  done : A → Outcome A
  protocol_error : Outcome A

module _ {N W : Type 0} ⦃en : Eq N⦄ where
  unfoldable pub add : ℕ → Dict N W → Dict ℕ (Dict N W) → ℕ × Dict ℕ (Dict N W)
  add index params repository = (index, insert index params repository)

  abbrev pub pop_found :
      ℕ → Dict ℕ (Dict N W) → Option (Dict N W) → Option (Dict N W) × Dict ℕ (Dict N W)
  pop_found index repository none = (none, repository)
  pop_found index repository (some params) = (some params, remove index repository)

  -- `pop`; `none` where the handle is unknown.
  unfoldable pub pop : ℕ → Dict ℕ (Dict N W) → Option (Dict N W) × Dict ℕ (Dict N W)
  pop index repository = pop_found index repository (lookup index repository)

  -- `dict.update`
  abbrev pub merge : Dict N W → Dict N W → Dict N W
  merge [] d = d
  merge ((k, v) ∷ rest) d = merge rest (insert k v d)

  unfoldable pub update : ℕ → Dict N W → Dict ℕ (Dict N W) → Outcome (Dict ℕ (Dict N W))
  update index params repository = elim (lookup index repository) [
    | none ↦ protocol_error
    | some held ↦ done (insert index (merge params held) repository)
  ]

  -- The loop of `expire`, over the list that its entries were when it began. The callback decides.
  unfoldable pub expire_each :
      (ℕ → Dict N W → Bool) → Dict ℕ (Dict N W) → Dict ℕ (Dict N W) → Dict ℕ (Dict N W)
  expire_each due [] repository = repository
  expire_each due ((index, params) ∷ rest) repository =
      expire_each due rest (if due index params then remove index repository else repository)

  -- `expire`; without a callback it does nothing.
  unfoldable pub expire : Option (ℕ → Dict N W → Bool) → Dict ℕ (Dict N W) → Dict ℕ (Dict N W)
  expire none repository = repository
  expire (some due) repository = expire_each due repository repository

-- secmod/cache.py; the new state reference is what `nextid.Integer` returned.
module _ {D : Type 0} where
  unfoldable pub push : ℕ → D → Dict ℕ D → ℕ × Dict ℕ D
  push state_reference data_held entries =
      (state_reference, insert state_reference data_held entries)

  unfoldable pub pop_entry : ℕ → Dict ℕ D → Outcome (D × Dict ℕ D)
  pop_entry state_reference entries = elim (lookup state_reference entries) [
    | none ↦ protocol_error
    | some data_held ↦ done (data_held, remove state_reference entries)
  ]
