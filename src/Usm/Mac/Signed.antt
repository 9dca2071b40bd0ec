-- ===== src/Usm/Mac/Signed.antt =====
-- What signing writes and what verifying accepts.
use pysnmp.Base.Eq.{list_beq, list_beq_iff, list_eq, nat_eq}
use pysnmp.Base.{
  ==_iff, Bool-cases, Option, Option-cases, [], ap, ap₂, arith, drop, drop-append, drop-drop, false,
  inl, inr, length, none, refl, some, suc, sym, take, take-append, true, zero, ℕ, ◌++◌, ◌+◌, ◌<◌,
  ◌==◌, ◌∙◌, ◌∷◌, ◌≡◌, ◌≢◌,
}
use pysnmp.Usm.Mac.{
  AuthProtocol, Hashes, Octets, authenticate_incoming, authenticate_outgoing, blank_at,
  digest_length, done, find, incoming, is_no_auth, mac_of, outgoing, starts_with, with_key, zeros,
}

-- The octets of a message at a digest that stands between a head and a tail.
module _ (head middle tail : Octets) where
  take_head : take (length head) (head ++ (middle ++ tail)) ≡ head
  take_head = take-append head (middle ++ tail)

  drop_middle :
      (n : ℕ) → length middle ≡ n → drop (length head + n) (head ++ (middle ++ tail)) ≡ tail
  drop_middle n e = rw (← e) (
      sym (drop-drop (length head) (length middle) (head ++ (middle ++ tail)))
      ∙ (ap (drop (length middle)) (drop-append head (middle ++ tail)) ∙ drop-append middle tail))

length-zeros : (n : ℕ) → length (zeros n) ≡ n
length-zeros zero = refl
length-zeros (suc n) = ap suc (length-zeros n)

-- Signing replaces the first run of `n` zero octets.
outgoing_lem :
    (n : ℕ) (mac : Octets → Option Octets) (head tail digest : Octets)
    → find (zeros n) (head ++ (zeros n ++ tail)) ≡ some (length head)
    → mac (head ++ (zeros n ++ tail)) ≡ some digest
    → outgoing n mac (head ++ (zeros n ++ tail)) ≡ done (head ++ (digest ++ tail))
unfolding outgoing
outgoing_lem n mac head tail digest first m =
    rw (first, m, take_head head (zeros n) tail, drop_middle head (zeros n) tail n (length-zeros n))
      refl

-- Verifying blanks the first octets that read as the digest.
incoming_lem :
    (n : ℕ) (mac : Octets → Option Octets) (head tail digest : Octets)
    → find digest (head ++ (digest ++ tail)) ≡ some (length head)
    → length digest ≡ n
    → mac (head ++ (zeros n ++ tail)) ≡ some digest
    → incoming n mac digest (head ++ (digest ++ tail)) ≡ done (head ++ (zeros n ++ tail))
unfolding incoming
incoming_lem n mac head tail digest first e m =
    rw
      (
        (==_iff (length digest) n).1 e,
        first,
        take_head head digest tail,
        drop_middle head digest tail n e,
        m,
        (list_beq_iff digest digest).1 refl,
      )
      refl

starts_with_lem :
    (pattern message : Octets)
    → starts_with pattern message ≡ true
    → pattern ++ drop (length pattern) message ≡ message
starts_with_lem [] message h = refl
starts_with_lem (p ∷ ps) [] h = cc
starts_with_lem (p ∷ ps) (x ∷ xs) h = elim (Bool-cases (p == x)) [
  | inl same ↦
      let tail : starts_with ps xs ≡ true = rw same at h in
      ap₂ ◌∷◌ ((==_iff p x).0 same) (starts_with_lem ps xs tail)
  | inr differ ↦ let bad : false ≡ true = rw differ at h in cc
]

at_front :
    (pattern message : Octets) (i : ℕ)
    → starts_with pattern message ≡ true
    → 0 ≡ i
    → take i message ++ (pattern ++ drop (i + length pattern) message) ≡ message
at_front pattern message i h e =
    let z : 0 + length pattern ≡ length pattern = omega arith in
    rw (← e) (rw z (starts_with_lem pattern message h))

-- What is found stands there.
find_lem :
    (pattern message : Octets) (i : ℕ)
    → find pattern message ≡ some i
    → take i message ++ (pattern ++ drop (i + length pattern) message) ≡ message
unfolding find
find_lem pattern [] i h = elim (Bool-cases (starts_with pattern [])) [
  | inl same ↦ let e : some 0 ≡ some i = rw same at h in at_front pattern [] i same (cc)
  | inr differ ↦ let bad : none ≡ some i = rw differ at h in cc
]
find_lem pattern (x ∷ xs) i h = elim (Bool-cases (starts_with pattern (x ∷ xs))) [
  | inl same ↦ let e : some 0 ≡ some i = rw same at h in at_front pattern (x ∷ xs) i same (cc)
  | inr differ ↦ elim (Option-cases (find pattern xs)) [
    | inl none_found ↦ let bad : none ≡ some i = rw (differ, none_found) at h in cc
    | inr (j, found) ↦
        let e : some (suc j) ≡ some i = rw (differ, found) at h in
        let z : suc j + length pattern ≡ suc (j + length pattern) = omega arith in
        let k : suc j ≡ i = cc in rw (← k) (rw z (ap (◌∷◌ x) (find_lem pattern xs j found)))
  ]
]

starts_with_self : (pattern tail : Octets) → starts_with pattern (pattern ++ tail) ≡ true
starts_with_self [] tail = refl
starts_with_self (p ∷ ps) tail = rw ((==_iff p p).1 refl) (starts_with_self ps tail)

starts_with-take :
    (pattern message : Octets)
    → starts_with pattern message ≡ true
    → take (length pattern) message ≡ pattern
starts_with-take pattern message h =
    ap (take (length pattern)) (sym (starts_with_lem pattern message h))
    ∙ take-append pattern (drop (length pattern) message)

find_front :
    (pattern message : Octets) → starts_with pattern message ≡ true → find pattern message ≡ some 0
unfolding find
find_front pattern [] h = rw h refl
find_front pattern (x ∷ xs) h = rw h refl

-- In a message that consists of a head, a pattern and a tail, the pattern is not to be read at any place
-- within the head.
abbrev pub IsFirst : Octets → Octets → Octets → Type 0
IsFirst head pattern tail =
    (i : ℕ) → i < length head → take (length pattern) (drop i (head ++ (pattern ++ tail))) ≢ pattern

-- There it is found.
find_first :
    (head pattern tail : Octets)
    → IsFirst head pattern tail
    → find pattern (head ++ (pattern ++ tail)) ≡ some (length head)
unfolding find
find_first [] pattern tail first =
    find_front pattern (pattern ++ tail) (starts_with_self pattern tail)
find_first (x ∷ head) pattern tail first =
    elim (Bool-cases (starts_with pattern (x ∷ head ++ (pattern ++ tail)))) [
      | inl here ↦
          absurd
            (first 0 (omega arith) (starts_with-take pattern (x ∷ head ++ (pattern ++ tail)) here))
      | inr later ↦
          rw (later, find_first head pattern tail (λ i below. first (suc i) (omega (arith, below))))
            refl
    ]

-- A message whose digest was checked, and the message with the digest blanked.
pub record IsSigned (n : ℕ) (mac : Octets → Octets) (parameters message blank : Octets)
    : Type 0 where
  pub width : length parameters ≡ n
  pub genuine : mac blank ≡ parameters
  pub head : Octets
  pub tail : Octets
  pub read : message ≡ head ++ (parameters ++ tail)
  pub blanked : blank ≡ head ++ (zeros n ++ tail)

incoming-IsSigned :
    (n : ℕ) (mac : Octets → Octets) (parameters message blank : Octets)
    → incoming n (λ m. some (mac m)) parameters message ≡ done blank
    → IsSigned n mac parameters message blank
unfolding incoming
incoming-IsSigned n mac parameters message blank h = elim (Bool-cases (length parameters == n)) [
  | inr differ ↦ let bad = rw differ at h in cc
  | inl same ↦ elim (Option-cases (find parameters message)) [
    | inl none_found ↦ let bad = rw (same, none_found) at h in cc
    | inr (i, found) ↦ elim (Bool-cases (list_beq (mac (blank_at n message i)) parameters)) [
      | inr forged ↦ let bad = rw (same, found, forged) at h in cc
      | inl genuine ↦
          let d : done (blank_at n message i) ≡ done blank = rw (same, found, genuine) at h in
          let e : blank_at n message i ≡ blank = cc in
          let width : length parameters ≡ n = (==_iff (length parameters) n).0 same in
          record {
            width = width;
            genuine = rw (← e) ((list_beq_iff _ _).0 genuine);
            head = take i message;
            tail = drop (i + n) message;
            read = sym (rw width at (find_lem parameters message i found));
            blanked = sym e;
          }
    ]
  ]
]

keyless :
    (n : ℕ) (mac : Octets → Option Octets) (parameters message blank : Octets)
    → ((m : Octets) → mac m ≡ none)
    → incoming n mac parameters message ≢ done blank
unfolding incoming
keyless n mac parameters message blank no_key h = elim (Bool-cases (length parameters == n)) [
  | inr differ ↦ let bad = rw differ at h in cc
  | inl same ↦ elim (Option-cases (find parameters message)) [
    | inl none_found ↦ let bad = rw (same, none_found) at h in cc
    | inr (i, found) ↦ let bad = rw (same, found, no_key (blank_at n message i)) at h in cc
  ]
]

module _ (hashes : Hashes) (protocol : AuthProtocol) where
  -- Let a message consist of a head, as many zero octets as the digest has, and a tail, and let such a run
  -- of zero octets not begin within the head. Signing with a key of a known service puts the digest of the
  -- message in place of those zero octets, and nowhere else. If moreover the digest has its length and does
  -- not occur in the signed message at a place within the head, then what is so signed is verified with the
  -- same key, and verifying gives back the message that was signed.
  pub sign-verify :
      (key head tail digest : Octets)
      → is_no_auth protocol ≡ false
      → digest ≡ mac_of hashes protocol key (head ++ (zeros (digest_length protocol) ++ tail))
      → IsFirst head (zeros (digest_length protocol)) tail
      → length digest ≡ digest_length protocol
      → IsFirst head digest tail
      → (authenticate_outgoing hashes protocol
            (some key)
            (head ++ (zeros (digest_length protocol) ++ tail))
          ≡ done (head ++ (digest ++ tail)))
        × (authenticate_incoming hashes protocol (some key) digest (head ++ (digest ++ tail))
            ≡ done (head ++ (zeros (digest_length protocol) ++ tail)))
  unfolding authenticate_outgoing authenticate_incoming
  sign-verify key head tail digest service e first width read = (
    rw service (
        outgoing_lem (digest_length protocol) (with_key (mac_of hashes protocol) (some key)) head
          tail digest (find_first head (zeros (digest_length protocol)) tail first)
          (ap some (sym e))),
    rw service (
        incoming_lem (digest_length protocol) (with_key (mac_of hashes protocol) (some key)) head
          tail digest (find_first head digest tail read) width (ap some (sym e))),
  )

  -- A message is verified only with a key and a service for it, and only if the digest it carries is
  -- that of the message with the digest blanked, at a place where the digest stands.
  pub authenticate_incoming-IsSigned :
      (key : Option Octets) (parameters message blank : Octets)
      → authenticate_incoming hashes protocol key parameters message ≡ done blank
      → (k : Octets) × (key ≡ some k)
        × (is_no_auth protocol ≡ false)
        × IsSigned (digest_length protocol) (mac_of hashes protocol k) parameters message blank
  unfolding authenticate_incoming incoming
  authenticate_incoming-IsSigned key parameters message blank h =
      elim (Bool-cases (is_no_auth protocol)) [
        | inl refused ↦ let bad = rw refused at h in cc
        | inr service ↦ keyed key (rw service at h) service
      ]
    where
      keyed :
          (key : Option Octets)
          → (incoming
                (digest_length protocol)
                (with_key (mac_of hashes protocol) key)
                parameters
                message
              ≡ done blank)
          → (is_no_auth protocol ≡ false)
          → (k : Octets) × (key ≡ some k)
            × (is_no_auth protocol ≡ false)
            × IsSigned (digest_length protocol) (mac_of hashes protocol k) parameters message blank
      keyed (some k) h service = (
        k,
        refl,
        service,
        incoming-IsSigned _ (mac_of hashes protocol k) parameters message blank h,
      )
      keyed none h service =
          absurd
            (keyless (digest_length protocol) (λ m. none) parameters message blank (λ m. refl) h)
