-- ===== src/LocalKey/Tests.antt =====
-- The hash function that hashes nothing: its digest is all that it was updated with.
use mathlib.Core.List.{append_assoc}
use pysnmp.Base.{[], length, none, refl, some, take, ℕ, ◌++◌, ◌^◌, ◌∷◌, ◌≡◌}
use pysnmp.LocalKey.{
  HashFunc, Octets, hash_passphrase, localize_key, password_to_key, repeat, ring_buffer,
}
use pysnmp.LocalKey.Stretch.{IsStreaming, hash_passphrase_lem}

abbrev transcript : HashFunc Octets
transcript = record { start = []; update = λ h a. h ++ a; digest = λ h. h }

transcript-IsStreaming : IsStreaming transcript
transcript-IsStreaming h a b = append_assoc h a b

localized : localize_key transcript (1 ∷ 2 ∷ []) (3 ∷ []) ≡ 1 ∷ 2 ∷ 3 ∷ 1 ∷ 2 ∷ []
unfolding localize_key
localized = refl

empty_passphrase : password_to_key transcript [] (3 ∷ []) ≡ none
unfolding password_to_key hash_passphrase ring_buffer
empty_passphrase = refl

hash_passphrase_lem_example :
    (k : ℕ) × (input : Octets) × (input ≡ take (length input) (repeat k (97 ∷ 98 ∷ [])))
    × (length input ≡ 2 ^ 20)
    × (hash_passphrase transcript (97 ∷ 98 ∷ []) ≡ some input)
hash_passphrase_lem_example = hash_passphrase_lem transcript transcript-IsStreaming 97 (98 ∷ [])
