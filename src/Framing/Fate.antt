-- ===== src/Framing/Fate.antt =====
-- What becomes of the octets that arrive, with and without a receive callback.
use pysnmp.Base.{
  All, Bool, Bool-cases, Option, [], arith, false, flatten, inl, inr, length, length-take, ltb,
  refl, suc, take, take-append-drop, true, ℕ, ◌++◌, ◌≡◌, ◌≤◌, ◌⊎◌,
}
use pysnmp.Framing.Length.{decode-take}
use pysnmp.Framing.{
  Bytes, FramingError, Received, data_received, decode_message_length, drain, dropped, no_callback,
  refused, waiting,
}
use pysnmp.Framing.Conserve.{
  Decoded-cases, Ends, IsFramed, IsPartial, data_received-Ends, data_received_conserves, drain_drop,
  drain_total, drain_wait,
}

-- The octets `b` are the messages that were handed over, in order, each of them whole, then what was lost, then
-- what is kept; nothing is lost but, without a callback, one whole message, with `CarrierError`.
pub record IsAccounted (limit : Option ℕ) (has_callback : Bool) (b : Bytes) (r : Received)
    : Type 0 where
  pub lost : Bytes
  pub all_there : flatten r.delivered ++ (lost ++ r.buffer) ≡ b
  pub whole : All (IsFramed limit) r.delivered
  pub only_unheard :
      (lost ≡ []) ⊎ ((has_callback ≡ false) × (r.outcome ≡ no_callback) × IsFramed limit lost)

-- The three ways in which a call ends.
pub data IsEnded (limit : Option ℕ) (has_callback : Bool) (r : Received) : Type 0 where
  waits : r.outcome ≡ waiting → IsPartial limit r.buffer → IsEnded limit has_callback r
  drops :
      (e : FramingError)
      → r.outcome ≡ dropped e
      → decode_message_length limit r.buffer ≡ refused e
      → IsEnded limit has_callback r
  unheard : has_callback ≡ false → r.outcome ≡ no_callback → IsEnded limit has_callback r

module _ (limit : Option ℕ) where
  -- Without a callback there is one round.
  unheard_lem :
      (f : ℕ) (b : Bytes)
      → IsAccounted limit false b (drain limit false (suc f) b)
        × IsEnded limit false (drain limit false (suc f) b)
  unheard_lem f b = elim (Decoded-cases (decode_message_length limit b)) [
    | inl e ↦ rw (drain_wait limit false f b e) (
      record { lost = []; all_there = refl; whole = tt; only_unheard = inl refl },
      waits refl (inl e),
    )
    | inr (inr (x, e)) ↦ rw (drain_drop limit false f b e) (
      record { lost = []; all_there = refl; whole = tt; only_unheard = inl refl },
      drops x refl e,
    )
    | inr (inl (n, e)) ↦ rw (drain_total limit false f b e) (elim (Bool-cases (ltb (length b) n)) [
      | inl less ↦ rw less (
        record { lost = []; all_there = refl; whole = tt; only_unheard = inl refl },
        waits refl (inr (n, e, ground arith)),
      )
      | inr enough ↦
          let fits : n ≤ length b = ground arith in
          rw enough (
            record {
              lost = take n b;
              all_there = take-append-drop n b;
              whole = tt;
              only_unheard =
                  inr (refl, refl, rw (length-take n b fits) (decode-take limit b n e fits));
            },
            unheard refl refl,
          )
    ])
  ]

  heard-IsEnded : (r : Received) → Ends limit r → IsEnded limit true r
  heard-IsEnded r (inl (w, partial)) = waits w partial
  heard-IsEnded r (inr (e, d, refusal)) = drops e d refusal

  -- One call of `data_received` invents no octet and loses none but, without a callback, one message: the
  -- messages it hands over, joined in order, followed by what it loses and by the buffer it keeps are the old
  -- buffer followed by what arrived. Each message handed over is whole, in that it decodes to its own length;
  -- what is lost is nothing, or, where no callback is registered, one whole message, and `CarrierError` is
  -- raised for it.
  pub data_received-IsAccounted :
      (has_callback : Bool) (buffer arrived : Bytes)
      → IsAccounted limit has_callback
          (buffer ++ arrived)
          (data_received limit has_callback buffer arrived)
  unfolding data_received
  data_received-IsAccounted false buffer arrived =
      (unheard_lem (length (buffer ++ arrived)) (buffer ++ arrived)).0
  data_received-IsAccounted true buffer arrived =
      let (kept, framed) = data_received_conserves limit buffer arrived in
      record { lost = []; all_there = kept; whole = framed; only_unheard = inl refl }

  -- The loop of `data_received` always ends, within a round for each octet and one more, in one of three
  -- ways: it waits on a partial message; it drops the connection because what is left cannot be framed; or
  -- no callback is registered and it raises `CarrierError`.
  pub data_received-IsEnded :
      (has_callback : Bool) (buffer arrived : Bytes)
      → IsEnded limit has_callback (data_received limit has_callback buffer arrived)
  unfolding data_received
  data_received-IsEnded false buffer arrived =
      (unheard_lem (length (buffer ++ arrived)) (buffer ++ arrived)).1
  data_received-IsEnded true buffer arrived =
      heard-IsEnded (data_received limit true buffer arrived)
        (data_received-Ends limit buffer arrived)
