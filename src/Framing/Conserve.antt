-- ===== src/Framing/Conserve.antt =====
-- While a receive callback is registered, `data_received` loses no octet, and hands over whole messages only.
use mathlib.Core.List.{append_assoc}
use pysnmp.Base.{
  All, Bool, Bool-cases, Option, ap, arith, drop, flatten, if◌then◌else◌, inl, inr, length,
  length-drop, length-take, ltb, refl, suc, take, take-append-drop, true, zero, ℕ, ◌++◌, ◌<◌, ◌∙◌,
  ◌≡◌, ◌≤◌, ◌⊎◌,
}
use pysnmp.Framing.Length.{decode-take, two-le-total}
use pysnmp.Framing.{
  Bytes, Decoded, FramingError, Received, data_received, decode_message_length, deliver, drain,
  dropped, incomplete, no_callback, refused, stop, total, waiting,
}

pub Decoded-cases :
    (d : Decoded)
    → (d ≡ incomplete) ⊎ ((n : ℕ) × (d ≡ total n)) ⊎ ((e : FramingError) × (d ≡ refused e))
Decoded-cases incomplete = inl refl
Decoded-cases (total n) = inr (inl (n, refl))
Decoded-cases (refused e) = inr (inr (e, refl))

-- A whole message: it decodes to its own length.
abbrev pub IsFramed : Option ℕ → Bytes → Type 0
IsFramed limit m = decode_message_length limit m ≡ total (length m)

module _ (limit : Option ℕ) where
  -- How one round goes on, as an equation for each way the header decodes.
  pub drain_wait :
      (cb : Bool) (f : ℕ) (b : Bytes)
      → decode_message_length limit b ≡ incomplete
      → drain limit cb (suc f) b ≡ stop waiting b
  unfolding drain
  drain_wait cb f b h = rw (h, drain)

  pub drain_drop :
      (cb : Bool) (f : ℕ) (b : Bytes) {e : FramingError}
      → decode_message_length limit b ≡ refused e
      → drain limit cb (suc f) b ≡ stop (dropped e) b
  unfolding drain
  drain_drop cb f b h = rw (h, drain)

  pub drain_total :
      (cb : Bool) (f : ℕ) (b : Bytes) {n : ℕ}
      → decode_message_length limit b ≡ total n
      → drain limit cb (suc f) b ≡ (
          if ltb (length b) n
          then stop waiting b
          else if cb
          then deliver (take n b) (drain limit cb f (drop n b))
          else stop no_callback (drop n b))
  unfolding drain
  drain_total cb f b h = rw (h, drain)

-- Induction over the rounds of `drain` with enough fuel and a callback: one premise for each way
-- that a round ends.
module _ {ℓ} (limit : Option ℕ) (P : Bytes → Received → Type ℓ)
    (short : (b : Bytes) → decode_message_length limit b ≡ incomplete → P b (stop waiting b))
    (partial : (b : Bytes) (n : ℕ)
      → decode_message_length limit b ≡ total n
      → length b < n
      → P b (stop waiting b))
    (failed : (b : Bytes) (e : FramingError)
      → decode_message_length limit b ≡ refused e
      → P b (stop (dropped e) b))
    (whole : (b : Bytes) (n : ℕ) (r : Received)
      → decode_message_length limit b ≡ total n
      → n ≤ length b
      → P (drop n b) r
      → P b (deliver (take n b) r)) where
  pub drain_induction : (f : ℕ) (b : Bytes) → length b < f → P b (drain limit true f b)
  drain_induction zero b h = absurd (omega arith)
  drain_induction (suc f) b h = elim (Decoded-cases (decode_message_length limit b)) [
    | inl e ↦ rw (drain_wait limit true f b e) (short b e)
    | inr (inr (x, e)) ↦ rw (drain_drop limit true f b e) (failed b x e)
    | inr (inl (n, e)) ↦ rw (drain_total limit true f b e) (elim (Bool-cases (ltb (length b) n)) [
      | inl less ↦ rw less (partial b n e (ground arith))
      | inr enough ↦
          let fits : n ≤ length b = ground arith in
          rw enough (
            whole b n (drain limit true f (drop n b)) e fits (
              drain_induction f (drop n b)
                (omega (arith, length-drop n b, two-le-total limit b n e))))
    ])
  ]

-- The octets handed over, in order, and those kept.
abbrev pub octets : Received → Bytes
octets r = flatten r.delivered ++ r.buffer

-- What the rounds hand over and what they keep is what the buffer held, and each message is whole.
abbrev Conserves : Option ℕ → Bytes → Received → Type 0
Conserves limit b r = (octets r ≡ b) × All (IsFramed limit) r.delivered

drain-Conserves :
    (limit : Option ℕ) (f : ℕ) (b : Bytes) → length b < f → Conserves limit b (drain limit true f b)
drain-Conserves limit =
    drain_induction limit (Conserves limit) (λ b e. (refl, tt)) (λ b n e h. (refl, tt))
      (λ b x e. (refl, tt))
      λ b n r e h ih. (
        append_assoc (take n b) (flatten r.delivered) r.buffer
            ∙ ap (λ t. take n b ++ t) ih.0
            ∙ take-append-drop n b,
        (rw (length-take n b h) (decode-take limit b n e h), ih.1),
      )

-- With a callback registered, one call of `data_received` loses and invents no octet: the messages
-- it hands over, joined in order, followed by the buffer it keeps are the old buffer followed by
-- what arrived. Each message handed over is one whole message, which decodes to its own length.
pub data_received_conserves :
    (limit : Option ℕ) (buffer arrived : Bytes)
    → let r = data_received limit true buffer arrived in
      (octets r ≡ buffer ++ arrived) × All (IsFramed limit) r.delivered
unfolding data_received
data_received_conserves limit buffer arrived =
    drain-Conserves limit (suc (length (buffer ++ arrived))) (buffer ++ arrived) (omega arith)

-- The header has not arrived, or the body has not.
abbrev pub IsPartial : Option ℕ → Bytes → Type 0
IsPartial limit b =
    (decode_message_length limit b ≡ incomplete)
    ⊎ ((n : ℕ) × (decode_message_length limit b ≡ total n) × (length b < n))

-- How the rounds end: on a partial message, or on octets that cannot be framed.
abbrev pub Ends : Option ℕ → Received → Type 0
Ends limit r =
    ((r.outcome ≡ waiting) × IsPartial limit r.buffer)
    ⊎ ((e : FramingError) × (r.outcome ≡ dropped e)
        × (decode_message_length limit r.buffer ≡ refused e))

drain-Ends :
    (limit : Option ℕ) (f : ℕ) (b : Bytes) → length b < f → Ends limit (drain limit true f b)
drain-Ends limit =
    drain_induction limit (λ b. Ends limit) (λ b e. inl (refl, inl e))
      (λ b n e h. inl (refl, inr (n, e, h))) (λ b x e. inr (x, refl, e)) (λ b n r e h ih. ih)

-- With a callback registered, the loop of `data_received` always ends within a round for each octet,
-- and in one of two ways: it waits on a partial message, or it drops the connection because what
-- is left cannot be framed.
pub data_received-Ends :
    (limit : Option ℕ) (buffer arrived : Bytes)
    → Ends limit (data_received limit true buffer arrived)
unfolding data_received
data_received-Ends limit buffer arrived =
    drain-Ends limit (suc (length (buffer ++ arrived))) (buffer ++ arrived) (omega arith)
