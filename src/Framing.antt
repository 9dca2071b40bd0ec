-- ===== src/Framing.antt =====
-- pysnmp/carrier/asyncio/stream/base.py: the framing of a byte stream into messages
-- (`decodeMessageLength`, `SnmpStreamProtocol.data_received`). Octets are numbers below 256.
pub mod Length
pub mod Conserve
pub mod Fate
pub mod Chunks
pub mod Ber
pub mod Bounds
mod Tests
use pysnmp.Base.{
  ℕ, zero, suc, ◌+◌, ◌*◌, ◌-◌, Bool, true, false, Option, none, some, List, [], ◌∷◌, ◌++◌, ltb,
  ◌==◌, if◌then◌else◌, length, take, drop,
}

abbrev pub Bytes : Type 0
Bytes = List ℕ

-- `BER_SEQUENCE`
abbrev pub ber_sequence : ℕ
ber_sequence = 0x30

-- The `StreamFramingError`s, one for each `raise`.
pub data FramingError : Type 0 where
  not_a_sequence indefinite_length reserved_length too_large : FramingError

-- What `decodeMessageLength` does: it returns `None`, returns a length, or raises.
pub data Decoded : Type 0 where
  incomplete : Decoded
  total : ℕ → Decoded
  refused : FramingError → Decoded

-- `int.from_bytes(octets, "big")`, read from the left onto what was read before.
unfoldable pub from_bytes : ℕ → Bytes → ℕ
from_bytes acc [] = acc
from_bytes acc (x ∷ xs) = from_bytes (acc * 256 + x) xs

-- `maxMessageSize is not None and totalLength > maxMessageSize`
unfoldable pub exceeds : Option ℕ → ℕ → Bool
exceeds none n = false
exceeds (some limit) n = ltb limit n

unfoldable pub long_form : Option ℕ → ℕ → Bytes → Decoded
long_form limit count rest =
    if ltb (length rest) count
    then incomplete
    else (let total_length = 2 + count + from_bytes 0 (take count rest) in
        if exceeds limit total_length then refused too_large else total total_length)

unfoldable pub decode_message_length : Option ℕ → Bytes → Decoded
unfolding long_form exceeds
decode_message_length limit [] = incomplete
decode_message_length limit (x ∷ []) = incomplete
decode_message_length limit (identifier ∷ length_octet ∷ rest) =
    if identifier == ber_sequence
    then (if ltb length_octet 0x80
        then total (2 + length_octet)
        else if length_octet == 0x80
        then refused indefinite_length
        else if length_octet == 0xFF
        then refused reserved_length
        else long_form limit (length_octet - 0x80) rest)
    else refused not_a_sequence

-- How one call of `data_received` ends: it keeps a partial message and waits, it drops the
-- connection, or `_messageReceived` raises because no callback is registered. `exhausted` says
-- that the fuel of the model ran out, which never happens.
pub data Outcome : Type 0 where
  waiting : Outcome
  dropped : FramingError → Outcome
  no_callback : Outcome
  exhausted : Outcome

pub record Received : Type 0 where
  pub outcome : Outcome
  pub buffer : Bytes
  pub delivered : List Bytes

abbrev pub deliver : Bytes → Received → Received
deliver message r = record r { delivered = message ∷ r.delivered }

abbrev pub stop : Outcome → Bytes → Received
stop o buffer = record { outcome = o; buffer = buffer; delivered = [] }

module _ (limit : Option ℕ) (has_callback : Bool) where
  -- The `while True` loop of `data_received` over the buffer.
  pub drain : ℕ → Bytes → Received
  drain zero buffer = stop exhausted buffer
  drain (suc fuel) buffer = elim (decode_message_length limit buffer) [
    | incomplete ↦ stop waiting buffer
    | refused e ↦ stop (dropped e) buffer
    | total n ↦
        let rest = deliver (take n buffer) (drain fuel (drop n buffer)) in
        if ltb (length buffer) n
        then stop waiting buffer
        else if has_callback
        then rest
        else stop no_callback (drop n buffer)
  ]

  -- A whole message has two octets at least, so a round for each octet is enough.
  pub data_received : Bytes → Bytes → Received
  unfolding drain
  data_received buffer arrived =
      let joined = buffer ++ arrived in drain (suc (length joined)) joined
