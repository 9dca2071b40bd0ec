-- ===== src/Framing/Ber.antt =====
-- An independent description of definite-length BER, and the stream that its messages make.
use mathlib.Core.List.{append_assoc}
use pysnmp.Framing.Length.{decode-append, two-le-total}
use pysnmp.Framing.Chunks.{drain_partial, drain_whole}
use native.Mathlib.Nat.{pow-suc}
use pysnmp.Base.{
  All, Bool-cases, List, Option, [], ap, arith, drop, drop-append, false, flatten, inl, inr, length,
  length-append, length-drop, length-take, ltb, suc, take, take-append, take-append-drop, true,
  zero, ℕ, ◌*◌, ◌++◌, ◌+◌, ◌-◌, ◌<◌, ◌^◌, ◌↔◌, ◌∙◌, ◌∷◌, ◌≡◌, ◌≤◌,
}
use pysnmp.Framing.{
  Bytes, data_received, decode_message_length, deliver, drain, exceeds, from_bytes, long_form, stop,
  total, waiting,
}
use pysnmp.Framing.Conserve.{IsFramed, IsPartial, drain_wait}

-- The number that octets stand for, most significant first.
abbrev pub value : Bytes → ℕ
value [] = 0
value (x ∷ xs) = x * 256 ^ length xs + value xs

shift_octet : (acc x p rest : ℕ) → (acc * 256 + x) * p + rest ≡ acc * (p * 256) + (x * p + rest)
shift_octet acc x p rest = omega arith

from_bytes-eq-value : (acc : ℕ) (xs : Bytes) → from_bytes acc xs ≡ acc * 256 ^ length xs + value xs
unfolding from_bytes
from_bytes-eq-value acc [] = omega arith
from_bytes-eq-value acc (x ∷ xs) =
    from_bytes-eq-value (acc * 256 + x) xs
    ∙ rw (pow-suc 256 (length xs)) (shift_octet acc x (256 ^ length xs) (value xs))

-- A definite-length BER message of the SEQUENCE type: short form up to 127 octets of contents, long
-- form with 1 to 126 length octets; the long form is held to the limit on the whole message.
pub data BerMessage (limit : Option ℕ) (m : Bytes) : Type 0 where
  short_message :
      (body : Bytes) → length body < 128 → m ≡ 0x30 ∷ length body ∷ body → BerMessage limit m
  long_message :
      (digits body : Bytes)
      → 0 < length digits
      → length digits < 127
      → value digits ≡ length body
      → exceeds limit (length m) ≡ false
      → m ≡ 0x30 ∷ (0x80 + length digits) ∷ digits ++ body
      → BerMessage limit m

module _ (limit : Option ℕ) where
  long_form_lem :
      (digits body : Bytes) (n : ℕ)
      → value digits ≡ length body
      → n ≡ 2 + length digits + length body
      → exceeds limit n ≡ false
      → long_form limit (length digits) (digits ++ body) ≡ total n
  unfolding long_form
  long_form_lem digits body n v e x =
      rw (take-append digits body)
        (ground (arith, length-append digits body, from_bytes-eq-value 0 digits))

  BerMessage-IsFramed : (m : Bytes) → BerMessage limit m → IsFramed limit m
  unfolding decode_message_length
  BerMessage-IsFramed m (short_message body h e) = rw e (ground arith)
  BerMessage-IsFramed m (long_message digits body h k v x e) = rw e (
      ground (
        arith,
        length-append digits body,
        long_form_lem digits body (2 + length (digits ++ body)) v,
        ap (λ (t : Bytes). exceeds limit (length t)) e,
      ))

  from_bytes-value :
      (count : ℕ) (rest : Bytes) (n : ℕ)
      → long_form limit count rest ≡ total n
      → (count ≤ length rest)
        × (n ≡ 2 + count + value (take count rest))
        × (exceeds limit n ≡ false)
  unfolding long_form
  from_bytes-value count rest n h = ground (arith, from_bytes-eq-value 0 (take count rest))

  -- The converse reads the message off the header.
  IsFramed-BerMessage : (m : Bytes) → All (λ x. x < 256) m → IsFramed limit m → BerMessage limit m
  unfolding decode_message_length
  IsFramed-BerMessage [] o h = cc
  IsFramed-BerMessage (x ∷ []) o h = cc
  IsFramed-BerMessage (x ∷ y ∷ rest) o h = elim (Bool-cases (ltb y 0x80)) [
    | inl short ↦ short_message rest (ground arith) (ground arith)
    | inr long ↦
        let count = y - 0x80 in
        let read : long_form limit count rest ≡ total (length (x ∷ y ∷ rest)) = ground arith in
        let (fits, size, within) = from_bytes-value count rest (length (x ∷ y ∷ rest)) read in
        let digits : length (take count rest) ≡ count = length-take count rest fits in
        long_message (take count rest) (drop count rest) (ground arith) (ground arith)
          (omega (arith, length-drop count rest)) within (rw take-append-drop (ground arith))
  ]

-- Over octets, `decodeMessageLength` measures a buffer as exactly one message, no more and no
-- less, exactly when it is a definite-length BER SEQUENCE (short form, or long form of 1 to 126
-- length octets within the limit) whose length field equals the size of its contents.
pub decode_iff_ber :
    (limit : Option ℕ) (m : Bytes)
    → All (λ x. x < 256) m
    → (decode_message_length limit m ≡ total (length m)) ↔ BerMessage limit m
decode_iff_ber limit m o = (IsFramed-BerMessage limit m o, BerMessage-IsFramed limit m)

module _ (limit : Option ℕ) (tail : Bytes) (partial : IsPartial limit tail) where
  drain_tail : (f : ℕ) → length tail < f → drain limit true f tail ≡ stop waiting tail
  drain_tail zero h = absurd (omega arith)
  drain_tail (suc f) h = elim partial [
    | inl e ↦ drain_wait limit true f tail e
    | inr (n, e, less) ↦ drain_partial limit f tail e less
  ]

  drain_stream :
      (ms : List Bytes) (f : ℕ)
      → All (BerMessage limit) ms
      → length (flatten ms ++ tail) < f
      → drain limit true f (flatten ms ++ tail)
        ≡ record { outcome = waiting; buffer = tail; delivered = ms }
  drain_stream [] f w h = drain_tail f h
  drain_stream (m ∷ ms) zero w h = absurd (omega arith)
  drain_stream (m ∷ ms) (suc f) w h =
      let rest : Bytes = flatten ms ++ tail in
      let framed : decode_message_length limit m ≡ total (length m) =
        BerMessage-IsFramed limit m w.0 in
      let joined : decode_message_length limit (m ++ rest) ≡ total (length m) =
        decode-append limit m rest (λ c. cc) ∙ framed in
      let whole : drain limit true (suc f) (m ++ rest)
          ≡ deliver (take (length m) (m ++ rest))
              (drain limit true f (drop (length m) (m ++ rest))) =
        drain_whole limit f (m ++ rest) joined (omega (arith, length-append m rest)) in
      rw (append_assoc m (flatten ms) tail) (
        whole
        ∙ rw (take-append m rest, drop-append m rest)
            (ap (deliver m) (
              drain_stream ms f w.1 (
                omega (
                  arith,
                  ap length (append_assoc m (flatten ms) tail),
                  length-append m rest,
                  two-le-total limit m (length m) framed,
                )))))

  -- Definite-length BER messages sent back to back arrive as those messages, in order: the stream
  -- that joins them, followed by a part of a further message, is handed over message by message,
  -- and the part is kept in the buffer while the connection waits.
  pub data_received_stream :
      (ms : List Bytes)
      → All (BerMessage limit) ms
      → data_received limit true [] (flatten ms ++ tail)
        ≡ record { outcome = waiting; buffer = tail; delivered = ms }
  unfolding data_received
  data_received_stream ms w = drain_stream ms (suc (length (flatten ms ++ tail))) w (omega arith)
