-- ===== src/LocalKey.antt =====
-- pysnmp/proto/secmod/rfc3414/localkey.py: the password-to-key hash and the localization of a key. The
-- hash function is a parameter, as hashlib documents it: a state that is updated and digested.
pub mod Stretch
mod Tests
use pysnmp.Base.{
  List, Option, [], drop, if◌then◌else◌, length, ltb, none, some, suc, take, zero, ℕ, ◌++◌, ◌+◌,
  ◌-◌, ◌/◌, ◌∷◌,
}

abbrev pub Octets : Type 0
Octets = List ℕ

-- `hashFunc`; `hashFunc(x)` is `update start x`.
pub record HashFunc (H : Type 0) : Type 0 where
  pub start : H
  pub update : H → Octets → H
  pub digest : H → Octets

-- `passphrase * n`
abbrev pub repeat : ℕ → Octets → Octets
repeat zero p = []
repeat (suc n) p = p ++ repeat n p

-- `64 // len(passphrase) + 1` copies, `none` for the `ZeroDivisionError` of an empty passphrase.
unfoldable pub ring_buffer : Octets → Option Octets
ring_buffer [] = none
ring_buffer (x ∷ xs) = some (repeat (64 / length (x ∷ xs) + 1) (x ∷ xs))

-- `ringBuffer[mark:e]`
abbrev pub slice : ℕ → ℕ → Octets → Octets
slice a b l = take (b - a) (drop a l)

module _ {H : Type 0} (hash_func : HashFunc H) where
  -- One round of the loop, on the hasher and the mark.
  unfoldable pub feed_round : Octets → H × ℕ → H × ℕ
  feed_round ring (hasher, mark) =
      let e = mark + 64 in
      if ltb e (length ring) then (hash_func.update hasher (slice mark e ring), e) else (
        hash_func.update hasher (slice mark (length ring) ring ++ slice 0 (e - length ring) ring),
        e - length ring,
      )

  -- The loop, by the number of rounds that are left.
  unfoldable pub feed : ℕ → Octets → H × ℕ → H × ℕ
  unfolding feed_round
  feed zero ring state = state
  feed (suc count) ring state = feed count ring (feed_round ring state)

  unfoldable pub hash_passphrase : Octets → Option Octets
  hash_passphrase passphrase = elim (ring_buffer passphrase) [
    | none ↦ none
    | some ring ↦ some (hash_func.digest (feed 16384 ring (hash_func.start, 0)).0)
  ]

  unfoldable pub localize_key : Octets → Octets → Octets
  localize_key pass_key snmp_engine_id =
      hash_func.digest (hash_func.update hash_func.start (pass_key ++ snmp_engine_id ++ pass_key))

  unfoldable pub password_to_key : Octets → Octets → Option Octets
  password_to_key passphrase snmp_engine_id = elim (hash_passphrase passphrase) [
    | none ↦ none
    | some key ↦ some (localize_key key snmp_engine_id)
  ]
