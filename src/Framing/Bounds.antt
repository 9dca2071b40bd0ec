-- ===== src/Framing/Bounds.antt =====
-- What a peer can make a receiver hold, with a limit on the message size.
use pysnmp.Base.{
  All, All-append, List, Option, [], arith, flatten, inl, inr, length, some, true, ℕ, ◌++◌, ◌<◌,
  ◌∷◌, ◌≡◌, ◌≢◌, ◌≤◌, ◌⊎◌,
}
use pysnmp.Framing.{
  Bytes, Received, data_received, decode_message_length, exceeds, incomplete, long_form, total,
  waiting,
}
use pysnmp.Framing.Conserve.{Ends, IsFramed, IsPartial, data_received-Ends, data_received_conserves}

-- The limit is tested in the long form only; a short form says at most 129 octets.
total_bound :
    (limit : ℕ) (b : Bytes) (n : ℕ)
    → decode_message_length (some limit) b ≡ total n
    → (n ≤ 129) ⊎ (n ≤ limit)
unfolding decode_message_length long_form exceeds
total_bound limit [] n h = cc
total_bound limit (x ∷ []) n h = cc
total_bound limit (x ∷ y ∷ rest) n h = ground arith

incomplete_bound :
    (limit : Option ℕ) (b : Bytes)
    → All (λ x. x < 256) b
    → decode_message_length limit b ≡ incomplete
    → length b < 128
unfolding decode_message_length long_form
incomplete_bound limit [] o h = omega arith
incomplete_bound limit (x ∷ []) o h = omega arith
incomplete_bound limit (x ∷ y ∷ rest) o h = ground arith

All-append_right {ℓ κ} :
    {A : Type ℓ} (P : A → Type κ) (xs ys : List A) → All P (xs ++ ys) → All P ys
All-append_right P [] ys h = h
All-append_right P (x ∷ xs) ys h = All-append_right P xs ys h.1

All-bound :
    (limit : ℕ) (ms : List Bytes)
    → All (IsFramed (some limit)) ms
    → All (λ m. (length m ≤ 129) ⊎ (length m ≤ limit)) ms
All-bound limit [] h = tt
All-bound limit (m ∷ ms) h = (total_bound limit m (length m) h.0, All-bound limit ms h.1)

partial_bound :
    (limit : ℕ) (b : Bytes)
    → All (λ x. x < 256) b
    → IsPartial (some limit) b
    → (length b ≤ 128) ⊎ (length b < limit)
partial_bound limit b o (inl e) = inl (omega (arith, incomplete_bound (some limit) b o e))
partial_bound limit b o (inr (n, e, h)) = omega (arith, total_bound limit b n e)

kept_bound :
    (limit : ℕ) (r : Received)
    → All (λ x. x < 256) r.buffer
    → Ends (some limit) r
    → (r.outcome ≢ waiting) ⊎ ((length r.buffer ≤ 128) ⊎ (length r.buffer < limit))
kept_bound limit r o (inl (w, p)) = inr (partial_bound limit r.buffer o p)
kept_bound limit r o (inr (x, d, e)) = inl (λ w. cc)

-- With a size limit, whatever octets arrive: every message handed over has at most 129 octets or at
-- most the limit, and the connection does not wait or the octets kept in the buffer are at most 128 or
-- fewer than the limit.
pub data_received_bounds :
    (limit : ℕ) (buffer arrived : Bytes)
    → All (λ x. x < 256) buffer
    → All (λ x. x < 256) arrived
    → let r = data_received (some limit) true buffer arrived in
      All (λ m. (length m ≤ 129) ⊎ (length m ≤ limit)) r.delivered
      × ((r.outcome ≢ waiting) ⊎ ((length r.buffer ≤ 128) ⊎ (length r.buffer < limit)))
data_received_bounds limit buffer arrived ob oa =
    let r = data_received (some limit) true buffer arrived in
    let (kept, framed) = data_received_conserves (some limit) buffer arrived in
    let octet : All (λ x. x < 256) r.buffer =
      All-append_right (λ x. x < 256) (flatten r.delivered) r.buffer
        (rw kept (All-append (λ x. x < 256) buffer arrived ob oa)) in
    (
      All-bound limit r.delivered framed,
      kept_bound limit r octet (data_received-Ends (some limit) buffer arrived),
    )
