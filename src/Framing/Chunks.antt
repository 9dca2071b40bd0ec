-- ===== src/Framing/Chunks.antt =====
-- How the octets are split over reads does not matter, and what a peer can make a receiver hold.
use mathlib.Core.List.{append_assoc}
use pysnmp.Base.{
  Bool-cases, List, Option, ap, arith, drop, drop-append_of_le, inl, inr, length, length-append,
  length-drop, ltb, suc, sym, take, take-append_of_le, true, zero, ℕ, ◌++◌, ◌<◌, ◌∙◌, ◌≡◌, ◌≤◌,
}
use pysnmp.Framing.{
  Bytes, Received, data_received, decode_message_length, deliver, drain, stop, total, waiting,
}
use pysnmp.Framing.Length.{decode-append, two-le-total}
use pysnmp.Framing.Conserve.{Decoded-cases, drain_drop, drain_induction, drain_total, drain_wait}

module _ (limit : Option ℕ) where
  pub drain_whole :
      (f : ℕ) (b : Bytes) {n : ℕ}
      → decode_message_length limit b ≡ total n
      → n ≤ length b
      → drain limit true (suc f) b ≡ deliver (take n b) (drain limit true f (drop n b))
  drain_whole f b {n} e h = rw (drain_total limit true f b e) (ground arith)

  pub drain_partial :
      (f : ℕ) (b : Bytes) {n : ℕ}
      → decode_message_length limit b ≡ total n
      → length b < n
      → drain limit true (suc f) b ≡ stop waiting b
  drain_partial f b {n} e h = rw (drain_total limit true f b e) (ground arith)

  -- Fuel beyond a round for each octet changes nothing.
  drain_fuel :
      (f g : ℕ) (b : Bytes)
      → length b < f
      → length b < g
      → drain limit true f b ≡ drain limit true g b
  drain_fuel zero g b h k = absurd (omega arith)
  drain_fuel (suc f) zero b h k = absurd (omega arith)
  drain_fuel (suc f) (suc g) b h k = elim (Decoded-cases (decode_message_length limit b)) [
    | inl e ↦ drain_wait limit true f b e ∙ sym (drain_wait limit true g b e)
    | inr (inr (x, e)) ↦ drain_drop limit true f b e ∙ sym (drain_drop limit true g b e)
    | inr (inl (n, e)) ↦ elim (Bool-cases (ltb (length b) n)) [
      | inl less ↦ drain_partial f b e (ground arith) ∙ sym (drain_partial g b e (ground arith))
      | inr enough ↦
          let fits : n ≤ length b = ground arith in
          drain_whole f b e fits
          ∙ ap (deliver (take n b)) (
              drain_fuel f g (drop n b) (omega (arith, length-drop n b, two-le-total limit b n e))
                (omega (arith, length-drop n b, two-le-total limit b n e)))
          ∙ sym (drain_whole g b e fits)
    ]
  ]

-- The messages of an earlier read in front of those of a later one.
abbrev pub after_messages : List Bytes → Received → Received
after_messages earlier r = record r { delivered = earlier ++ r.delivered }

module _ (limit : Option ℕ) (more : Bytes) where
  abbrev Resumes : Bytes → Received → Type 0
  Resumes b r =
      r.outcome ≡ waiting
      → (g j : ℕ) → length (b ++ more) < g
      → length (r.buffer ++ more) < j
      → drain limit true g (b ++ more)
        ≡ after_messages r.delivered (drain limit true j (r.buffer ++ more))

  resume_whole :
      (b : Bytes) (n : ℕ) (r : Received)
      → decode_message_length limit b ≡ total n
      → n ≤ length b
      → Resumes (drop n b) r
      → Resumes b (deliver (take n b) r)
  resume_whole b n r e h ih w zero j k l = absurd (omega arith)
  resume_whole b n r e h ih w (suc g) j k l =
      let grown : decode_message_length limit (b ++ more) ≡ total n =
        decode-append limit b more (λ c. cc) ∙ e in
      drain_whole limit g (b ++ more) grown (omega (arith, length-append b more))
      ∙ rw (take-append_of_le n b more h, drop-append_of_le n b more h)
          (ap (deliver (take n b)) (
            ih w g j
              (omega (
                arith,
                length-append b more,
                length-append (drop n b) more,
                length-drop n b,
                two-le-total limit b n e,
              ))
              l))

  drain-Resumes : (f : ℕ) (b : Bytes) → length b < f → Resumes b (drain limit true f b)
  drain-Resumes =
      drain_induction limit Resumes (λ b e w g j k l. drain_fuel limit g j (b ++ more) k l)
        (λ b n e h w g j k l. drain_fuel limit g j (b ++ more) k l) (λ b x e w. cc) resume_whole

  -- The way a stream is split over reads does not matter: where the first of two reads left the
  -- connection waiting, receiving both parts in two calls hands over the same messages, and ends in
  -- the same buffer and the same outcome, as receiving them in one.
  pub data_received_split :
      (buffer first : Bytes)
      → (data_received limit true buffer first).outcome ≡ waiting
      → let r = data_received limit true buffer first in
        data_received limit true buffer (first ++ more)
        ≡ after_messages r.delivered (data_received limit true r.buffer more)
  unfolding data_received
  data_received_split buffer first w = rw (← append_assoc buffer first more) (
      drain-Resumes (suc (length (buffer ++ first))) (buffer ++ first) (omega arith) w
        (suc (length ((buffer ++ first) ++ more)))
        (suc (length ((data_received limit true buffer first).buffer ++ more))) (omega arith)
        (omega arith))
