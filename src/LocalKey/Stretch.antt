-- ===== src/LocalKey/Stretch.antt =====
-- What `hashPassphrase` hashes: the first 2^20 octets of the passphrase repeated for ever.
use mathlib.Core.List.{append_assoc, append-nil}
use native.Mathlib.Nat.{lt-mul-div-succ}
use mathlib.Core.Option.{some-injective}
use pysnmp.Base.{
  Bool-cases, Option-cases, [], ap, arith, drop, if◌then◌else◌, inl, inr, length, length-append,
  length-drop, length-take, ltb, none, refl, some, suc, sym, take, take-append, take-append-drop,
  zero, ℕ, ◌*◌, ◌++◌, ◌+◌, ◌-◌, ◌/◌, ◌<◌, ◌^◌, ◌∙◌, ◌∷◌, ◌≡◌, ◌≤◌,
}
use pysnmp.LocalKey.{
  HashFunc, Octets, feed, feed_round, hash_passphrase, repeat, ring_buffer, slice,
}

-- hashlib: repeated calls of `update` are equivalent to one call with the concatenation.
abbrev pub IsStreaming : {H : Type 0} → HashFunc H → Type 0
IsStreaming {H} f = (h : H) (a b : Octets) → f.update (f.update h a) b ≡ f.update h (a ++ b)

repeat-add : (m n : ℕ) (p : Octets) → repeat (m + n) p ≡ repeat m p ++ repeat n p
repeat-add zero n p = let z : 0 + n ≡ n = omega arith in rw z refl
repeat-add (suc m) n p =
    let z : suc m + n ≡ suc (m + n) = omega arith in
    rw z (ap (λ t. p ++ t) (repeat-add m n p) ∙ sym (append_assoc p (repeat m p) (repeat n p)))

repeat-repeat : (m n : ℕ) (p : Octets) → (k : ℕ) × (repeat m (repeat n p) ≡ repeat k p)
repeat-repeat zero n p = (0, refl)
repeat-repeat (suc m) n p =
    let (k, e) = repeat-repeat m n p in
    (n + k, ap (λ t. repeat n p ++ t) e ∙ sym (repeat-add n k p))

drop-drop : (a b : ℕ) (l : Octets) → drop a (drop b l) ≡ drop (b + a) l
drop-drop a zero l = let z : 0 + a ≡ a = omega arith in rw z refl
drop-drop zero (suc b) [] = let z : suc b + 0 ≡ suc b = omega arith in rw z refl
drop-drop (suc a) (suc b) [] = let z : suc b + suc a ≡ suc (b + suc a) = omega arith in rw z refl
drop-drop a (suc b) (x ∷ xs) =
    let z : suc b + a ≡ suc (b + a) = omega arith in rw z (drop-drop a b xs)

take_all : (n : ℕ) (l : Octets) → length l ≤ n → take n l ≡ l
take_all zero [] h = refl
take_all (suc n) [] h = refl
take_all zero (x ∷ xs) h = absurd (omega arith)
take_all (suc n) (x ∷ xs) h = ap (◌∷◌ x) (take_all n xs (omega arith))

-- What one round feeds, and where it leaves the mark.
chunk : Octets → ℕ → Octets
chunk ring mark =
    if ltb (mark + 64) (length ring)
    then slice mark (mark + 64) ring
    else slice mark (length ring) ring ++ slice 0 (mark + 64 - length ring) ring

next_mark : Octets → ℕ → ℕ
next_mark ring mark = if ltb (mark + 64) (length ring) then mark + 64 else mark + 64 - length ring

-- What `n` rounds feed, and where they leave the mark.
fed : ℕ → Octets → ℕ → Octets
fed zero ring mark = []
fed (suc n) ring mark = chunk ring mark ++ fed n ring (next_mark ring mark)

last_mark : ℕ → Octets → ℕ → ℕ
last_mark zero ring mark = mark
last_mark (suc n) ring mark = last_mark n ring (next_mark ring mark)

module _ (ring : Octets) (mark : ℕ) (long : 64 ≤ length ring) (inside : mark ≤ length ring) where
  next_mark-inside : next_mark ring mark ≤ length ring
  unfolding next_mark
  next_mark-inside = ground arith

  length-chunk : length (chunk ring mark) ≡ 64
  unfolding chunk
  length-chunk = elim (Bool-cases (ltb (mark + 64) (length ring))) [
    | inl e ↦ rw e (
        let p : mark + 64 - mark ≡ 64 = omega arith in
        rw p (length-take 64 (drop mark ring) (ground (arith, length-drop mark ring))))
    | inr e ↦ rw e (
        length-append (take (length ring - mark) (drop mark ring))
          (take (mark + 64 - length ring - 0) ring)
        ∙ ground (
          arith,
          length-take (length ring - mark) (drop mark ring),
          length-drop mark ring,
          length-take (mark + 64 - length ring - 0) ring,
        ))
  ]

  -- A round moves octets from what is ahead to what is fed, the ring put behind when it runs out.
  chunk_moves :
      (k : ℕ) × (chunk ring mark ++ drop (next_mark ring mark) ring
        ≡ drop mark ring ++ repeat k ring)
  unfolding chunk next_mark
  chunk_moves = elim (Bool-cases (ltb (mark + 64) (length ring))) [
    | inl e ↦
        let p : mark + 64 - mark ≡ 64 = omega arith in
        (
          0,
          rw (e, p)
              (ap (λ t. take 64 (drop mark ring) ++ t) (sym (drop-drop 64 mark ring))
                ∙ (take-append-drop 64 (drop mark ring) ∙ sym (append-nil (drop mark ring)))),
        )
    | inr e ↦
        let n = mark + 64 - length ring in
        let p : n - 0 ≡ n = omega arith in
        let whole =
          take_all (length ring - mark) (drop mark ring) (omega (arith, length-drop mark ring)) in
        (
          1,
          rw (e, p, whole)
              (append_assoc (drop mark ring) (take n ring) (drop n ring)
                ∙ ap (λ t. drop mark ring ++ t) (take-append-drop n ring ∙ sym (append-nil ring))),
        )
  ]

fed_lem :
    (n : ℕ) (ring : Octets) (mark : ℕ)
    → 64 ≤ length ring
    → mark ≤ length ring
    → (k : ℕ) × (fed n ring mark ++ drop (last_mark n ring mark) ring
        ≡ drop mark ring ++ repeat k ring)
      × (length (fed n ring mark) ≡ 64 * n)
unfolding fed last_mark
fed_lem zero ring mark long inside = (0, sym (append-nil (drop mark ring)), refl)
fed_lem (suc n) ring mark long inside =
    let m = next_mark ring mark in
    let (j, moved) = chunk_moves ring mark long inside in
    let (k, rest, size) = fed_lem n ring m long (next_mark-inside ring mark long inside) in
    (
      j + k,
      append_assoc (chunk ring mark) (fed n ring m) (drop (last_mark n ring m) ring)
          ∙ (ap (λ t. chunk ring mark ++ t) rest
              ∙ (sym (append_assoc (chunk ring mark) (drop m ring) (repeat k ring))
                  ∙ (ap (λ t. t ++ repeat k ring) moved
                      ∙ (append_assoc (drop mark ring) (repeat j ring) (repeat k ring)
                          ∙ ap (λ t. drop mark ring ++ t) (sym (repeat-add j k ring)))))),
      length-append (chunk ring mark) (fed n ring m)
          ∙ omega (arith, length-chunk ring mark long inside, size),
    )

module _ {H : Type 0} (f : HashFunc H) where
  feed_round_lem :
      (ring : Octets) (h : H) (mark : ℕ)
      → feed_round f ring (h, mark) ≡ (f.update h (chunk ring mark), next_mark ring mark)
  unfolding feed_round chunk next_mark
  feed_round_lem ring h mark = elim (Bool-cases (ltb (mark + 64) (length ring))) [
    | inl e ↦ rw e refl
    | inr e ↦ rw e refl
  ]

  feed_lem :
      IsStreaming f
      → (n : ℕ) (ring : Octets) (h : H) (mark : ℕ)
      → (feed f (suc n) ring (h, mark)).0 ≡ f.update h (fed (suc n) ring mark)
  unfolding feed fed
  feed_lem s zero ring h mark =
      ap (λ p. p.0) (feed_round_lem ring h mark)
      ∙ ap (f.update h) (sym (append-nil (chunk ring mark)))
  feed_lem s (suc n) ring h mark =
      ap (λ p. (feed f (suc n) ring p).0) (feed_round_lem ring h mark)
      ∙ (feed_lem s n ring (f.update h (chunk ring mark)) (next_mark ring mark)
          ∙ s h (chunk ring mark) (fed (suc n) ring (next_mark ring mark)))

length-repeat : (n : ℕ) (p : Octets) → length (repeat n p) ≡ length p * n
length-repeat zero p = omega arith
length-repeat (suc n) p = length-append p (repeat n p) ∙ omega (arith, length-repeat n p)

ring_buffer_lem :
    (p ring : Octets)
    → ring_buffer p ≡ some ring
    → (64 ≤ length ring) × ((k : ℕ) × (ring ≡ repeat k p))
unfolding ring_buffer
ring_buffer_lem [] ring e = cc
ring_buffer_lem (x ∷ xs) ring e =
    let n = length (x ∷ xs) in
    let k = 64 / n + 1 in
    let same : repeat k (x ∷ xs) ≡ ring = some-injective (repeat k (x ∷ xs)) ring e in
    let enough : 64 < n * k = lt-mul-div-succ 64 {b = n} (omega arith) in
    (rw (← same) (rw (length-repeat k (x ∷ xs)) (omega (arith, enough))), (k, sym same))

ring_buffer_some : (x : ℕ) (xs : Octets) → ring_buffer (x ∷ xs) ≡ none → ⊥
unfolding ring_buffer
ring_buffer_some x xs e = cc

-- For a passphrase of at least one octet and a streaming hash function, `hashPassphrase` returns the
-- digest of exactly 2^20 octets: the beginning of the passphrase repeated over and over.
pub hash_passphrase_lem :
    {H : Type 0} (f : HashFunc H)
    → IsStreaming f
    → (x : ℕ) (xs : Octets)
    → (k : ℕ) × (input : Octets) × (input ≡ take (length input) (repeat k (x ∷ xs)))
      × (length input ≡ 2 ^ 20)
      × (hash_passphrase f (x ∷ xs) ≡ some (f.digest (f.update f.start input)))
unfolding hash_passphrase
hash_passphrase_lem f s x xs = elim (Option-cases (ring_buffer (x ∷ xs))) [
  | inl e ↦ absurd (ring_buffer_some x xs e)
  | inr (ring, e) ↦
      let (long, (j, r)) = ring_buffer_lem (x ∷ xs) ring e in
      let (k, stretched, size) = fed_lem 16384 ring 0 long (omega arith) in
      let input = fed 16384 ring 0 in
      let (m, whole) = repeat-repeat (suc k) j (x ∷ xs) in
      let rest = drop (last_mark 16384 ring 0) ring in
      let all : input ++ rest ≡ repeat m (x ∷ xs) = stretched ∙ (ap (repeat (suc k)) r ∙ whole) in
      (
        m,
        input,
        sym (take-append input rest) ∙ ap (take (length input)) all,
        size ∙ omega arith,
        rw (e, hash_passphrase) (ap (λ h. some (f.digest h)) (feed_lem f s 16383 ring f.start 0)),
      )
]
