-- ===== src/Framing/Length.antt =====
-- What `decodeMessageLength` reads, and that later octets do not change it.
use pysnmp.Base.{
  Bool-cases, Option, [], ap, arith, drop, inl, inr, length, length-append, length-take, ltb, refl,
  suc, sym, take, take-append-drop, take-append_of_le, zero, ℕ, ◌++◌, ◌+◌, ◌-◌, ◌∙◌, ◌∷◌, ◌≡◌, ◌≢◌,
  ◌≤◌,
}
use pysnmp.Framing.{Bytes, decode_message_length, incomplete, long_form, total}

pub two-le-total :
    (limit : Option ℕ) (buffer : Bytes) (n : ℕ)
    → decode_message_length limit buffer ≡ total n
    → 2 ≤ n
unfolding decode_message_length
two-le-total limit [] n h = cc
two-le-total limit (x ∷ []) n h = cc
two-le-total limit (x ∷ y ∷ rest) n h = ground arith

long_form-append :
    (limit : Option ℕ) (count : ℕ) (rest more : Bytes)
    → long_form limit count rest ≢ incomplete
    → long_form limit count (rest ++ more) ≡ long_form limit count rest
unfolding long_form
long_form-append limit count rest more h = elim (Bool-cases (ltb (length rest) count)) [
  | inl short ↦ absurd (h (rw short))
  | inr enough ↦
      rw (take-append_of_le count rest more (ground arith))
        (ground (arith, length-append rest more))
]

-- More octets do not change a decision that `decodeMessageLength` has reached.
pub decode-append :
    (limit : Option ℕ) (buffer more : Bytes)
    → decode_message_length limit buffer ≢ incomplete
    → decode_message_length limit (buffer ++ more) ≡ decode_message_length limit buffer
unfolding decode_message_length
decode-append limit [] more h = absurd (h refl)
decode-append limit (x ∷ []) more h = absurd (h refl)
decode-append limit (x ∷ y ∷ rest) more h =
    ground (arith, long_form-append limit (y - 0x80) rest more)

take-take_of_le : (n m : ℕ) (xs : Bytes) → n ≤ m → m ≤ length xs → take n (take m xs) ≡ take n xs
take-take_of_le n m xs h k =
    sym (take-append_of_le n (take m xs) (drop m xs) (omega (arith, length-take m xs k)))
    ∙ ap (take n) (take-append-drop m xs)

long_form-take :
    (limit : Option ℕ) (count m : ℕ) (rest : Bytes)
    → long_form limit count rest ≡ total (2 + m)
    → m ≤ length rest
    → long_form limit count (take m rest) ≡ total (2 + m)
unfolding long_form
long_form-take limit count m rest h k =
    let fit : count ≤ m = ground arith in
    rw (take-take_of_le count m rest fit k) (ground (arith, length-take m rest k))

-- The head of a buffer that is cut at the decoded length decodes to its own length.
pub decode-take :
    (limit : Option ℕ) (buffer : Bytes) (n : ℕ)
    → decode_message_length limit buffer ≡ total n
    → n ≤ length buffer
    → decode_message_length limit (take n buffer) ≡ total n
unfolding decode_message_length
decode-take limit [] n h k = cc
decode-take limit (x ∷ []) n h k = cc
decode-take limit (x ∷ y ∷ rest) (suc (suc m)) h k =
    ground (arith, long_form-take limit (y - 0x80) m rest)
decode-take limit (x ∷ y ∷ rest) (suc zero) h k =
    absurd (omega (arith, two-le-total limit (x ∷ y ∷ rest) 1 h))
decode-take limit (x ∷ y ∷ rest) zero h k =
    absurd (omega (arith, two-le-total limit (x ∷ y ∷ rest) 0 h))
