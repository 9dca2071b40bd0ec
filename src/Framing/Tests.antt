-- ===== src/Framing/Tests.antt =====
-- Runs of the framing, and the theorems at concrete streams.
use pysnmp.Base.{
  All, Option, [], arith, false, inl, length, refl, some, true, ℕ, ◌++◌, ◌<◌, ◌↔◌, ◌∷◌, ◌≡◌, ◌≢◌,
  ◌≤◌, ◌⊎◌,
}
use pysnmp.Framing.{
  Bytes, data_received, decode_message_length, dropped, exceeds, from_bytes, no_callback,
  not_a_sequence, stop, total, waiting,
}
use pysnmp.Framing.Fate.{IsAccounted, IsEnded, data_received-IsAccounted, data_received-IsEnded}
use pysnmp.Framing.Conserve.{IsPartial}
use pysnmp.Framing.Chunks.{after_messages, data_received_split}
use pysnmp.Framing.Ber.{BerMessage, data_received_stream, decode_iff_ber, long_message}
use pysnmp.Framing.Bounds.{data_received_bounds}

-- Two messages, in short form and in long form, and the head of a third.
abbrev first_message : Bytes
first_message = 0x30 ∷ 2 ∷ 7 ∷ 8 ∷ []

abbrev second_message : Bytes
second_message = 0x30 ∷ 0x82 ∷ 0 ∷ 3 ∷ 4 ∷ 5 ∷ 6 ∷ []

abbrev stream : Bytes
stream = first_message ++ second_message ++ 0x30 ∷ 9 ∷ 1 ∷ []

abbrev limit : Option ℕ
limit = some 2097152

received_stream : data_received limit true [] stream ≡ record {
  outcome = waiting;
  buffer = 0x30 ∷ 9 ∷ 1 ∷ [];
  delivered = first_message ∷ second_message ∷ [];
}
unfolding data_received decode_message_length from_bytes
received_stream = refl

garbage_is_dropped :
    (data_received limit true [] (first_message ++ 0x31 ∷ 0 ∷ [])).outcome ≡ dropped not_a_sequence
unfolding data_received decode_message_length
garbage_is_dropped = refl

-- Without a callback the message is taken off the buffer before the error is raised.
unheard_message_is_lost : data_received limit false [] first_message ≡ stop no_callback []
unfolding data_received decode_message_length
unheard_message_is_lost = refl

data_received-IsAccounted_example :
    IsAccounted limit true
      (0x30 ∷ 2 ∷ 7 ∷ 8 ∷ 0x30 ∷ [])
      (data_received limit true (0x30 ∷ 2 ∷ []) (7 ∷ 8 ∷ 0x30 ∷ []))
data_received-IsAccounted_example =
    data_received-IsAccounted limit true (0x30 ∷ 2 ∷ []) (7 ∷ 8 ∷ 0x30 ∷ [])

data_received-IsEnded_example : IsEnded limit true (data_received limit true [] stream)
data_received-IsEnded_example = data_received-IsEnded limit true [] stream

data_received_split_example :
    let r = data_received limit true [] (0x30 ∷ 2 ∷ 7 ∷ []) in
    data_received limit true [] first_message
    ≡ after_messages r.delivered (data_received limit true r.buffer (8 ∷ []))
unfolding data_received decode_message_length
data_received_split_example = data_received_split limit (8 ∷ []) [] (0x30 ∷ 2 ∷ 7 ∷ []) refl

second_message-BerMessage : BerMessage limit second_message
unfolding exceeds
second_message-BerMessage =
    long_message (0 ∷ 3 ∷ []) (4 ∷ 5 ∷ 6 ∷ []) (omega arith) (omega arith) refl refl refl

decode_iff_ber_example :
    (decode_message_length limit second_message ≡ total 7) ↔ BerMessage limit second_message
decode_iff_ber_example = decode_iff_ber limit second_message (omega arith)

tail-IsPartial : IsPartial limit (0x30 ∷ [])
unfolding decode_message_length
tail-IsPartial = inl refl

data_received_stream_example :
    data_received limit true [] (second_message ++ 0x30 ∷ [])
    ≡ record { outcome = waiting; buffer = 0x30 ∷ []; delivered = second_message ∷ [] }
data_received_stream_example =
    data_received_stream limit (0x30 ∷ []) tail-IsPartial (second_message ∷ [])
      (second_message-BerMessage, tt)

data_received_bounds_example :
    let r = data_received (some 64) true [] second_message in
    All (λ m. (length m ≤ 129) ⊎ (length m ≤ 64)) r.delivered
    × ((r.outcome ≢ waiting) ⊎ ((length r.buffer ≤ 128) ⊎ (length r.buffer < 64)))
data_received_bounds_example = data_received_bounds 64 [] second_message tt (omega arith)
