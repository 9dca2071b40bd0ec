-- ===== src/Usm/Mac.antt =====
-- The authentication services of the user-based security model: hmacmd5.py, hmacsha.py and noauth.py
-- of pysnmp/proto/secmod/rfc3414/auth, and pysnmp/proto/secmod/rfc7860/auth/hmacsha2.py. A digest is
-- written into the serialized message where its placeholder is found. Octets are numbers; what the
-- source takes from hashlib and hmac is a parameter.
pub mod Signed
use Prim.Native.Nat.{bit_xor}
use mathlib.Core.Option
use pysnmp.Base.Eq.{list_beq, list_eq, nat_eq}
use pysnmp.Base.{
  Bool, List, Option, [], drop, false, if◌then◌else◌, length, none, some, suc, take, true, zero, ℕ,
  ◌&&◌, ◌++◌, ◌+◌, ◌==◌, ◌∷◌,
}
use pysnmp.Base.Eq.{list_eq, nat_eq}

abbrev pub Octets : Type 0
Octets = List ℕ

-- The values of `serviceID` that are known, and any other.
pub data AuthProtocol : Type 0 where
  no_auth hmac_md5 hmac_sha hmac_sha224 hmac_sha256 hmac_sha384 hmac_sha512 : AuthProtocol
  other_auth : ℕ → AuthProtocol

-- The indications of errind.py that the model raises in `StatusInformation`.
pub data Indication : Type 0 where
  authentication_error authentication_failure no_authentication parse_error invalid_msg : Indication
  unknown_engine_id unknown_security_name unsupported_security_level : Indication
  not_in_time_window decryption_error encryption_error serialization_error : Indication
  unsupported_auth_protocol unsupported_priv_protocol : Indication

-- A service returns, raises `StatusInformation` or `ProtocolError`, or fails on a key that is `None`.
pub data Outcome (A : Type 0) : Type 0 where
  done : A → Outcome A
  status_information : Indication → Outcome A
  protocol_error attribute_error : Outcome A

-- `md5(x).digest()`, `sha1(x).digest()`, and `hmac.new(key, message, algorithm).digest()` for SHA-2.
pub record Hashes : Type 0 where
  pub md5 : Octets → Octets
  pub sha1 : Octets → Octets
  pub hmac_sha2 : AuthProtocol → Octets → Octets → Octets

abbrev pub starts_with : Octets → Octets → Bool
starts_with [] message = true
starts_with (p ∷ ps) [] = false
starts_with (p ∷ ps) (x ∷ xs) = p == x && starts_with ps xs

-- `message.find(pattern)`, `none` for -1.
unfoldable pub find : Octets → Octets → Option ℕ
find pattern [] = if starts_with pattern [] then some 0 else none
find pattern (x ∷ xs) =
    if starts_with pattern (x ∷ xs) then some 0 else Option.map suc (find pattern xs)

abbrev pub zeros : ℕ → Octets
zeros zero = []
zeros (suc n) = 0 ∷ zeros n

-- `map(lambda x, y: x ^ y, key, [pad] * 64)`, which stops with the shorter.
abbrev pub xor_pad : ℕ → ℕ → Octets → Octets
xor_pad pad zero key = []
xor_pad pad (suc n) [] = []
xor_pad pad (suc n) (k ∷ key) = bit_xor k pad ∷ xor_pad pad n key

-- `digestLength`
abbrev pub digest_length : AuthProtocol → ℕ
digest_length no_auth = 0
digest_length hmac_md5 = 12
digest_length hmac_sha = 12
digest_length hmac_sha224 = 16
digest_length hmac_sha256 = 24
digest_length hmac_sha384 = 32
digest_length hmac_sha512 = 48
digest_length (other_auth n) = 0

-- The digest of the two services of RFC 3414, over `extendedAuthKey`.
abbrev pub keyed_hash : (Octets → Octets) → Octets → Octets → Octets
keyed_hash hash extended_key message =
    hash (xor_pad 0x5C 64 extended_key ++ hash (xor_pad 0x36 64 extended_key ++ message))

unfoldable pub md5_mac : Hashes → Octets → Octets → Octets
md5_mac hashes key message = take 12 (keyed_hash hashes.md5 (key ++ zeros 48) message)

unfoldable pub sha_mac : Hashes → Octets → Octets → Octets
sha_mac hashes key message = take 12 (keyed_hash hashes.sha1 (key ++ zeros 44) message)

unfoldable pub sha2_mac : Hashes → AuthProtocol → Octets → Octets → Octets
sha2_mac hashes protocol key message =
    take (digest_length protocol) (hashes.hmac_sha2 protocol key message)

-- `authenticateOutgoingMsg`, for a digest of `n` octets; the digest is `none` where the key is `None`,
-- which shows only when it is computed.
abbrev pub outgoing_at : ℕ → Option Octets → Octets → Option ℕ → Outcome Octets
outgoing_at n mac message none = protocol_error
outgoing_at n none message (some index) = attribute_error
outgoing_at n (some mac) message (some index) =
    done (take index message ++ (mac ++ drop (index + n) message))

unfoldable pub outgoing : ℕ → (Octets → Option Octets) → Octets → Outcome Octets
outgoing n mac message = outgoing_at n (mac message) message (find (zeros n) message)

-- `authenticateIncomingMsg`: the message with its digest blanked.
abbrev pub blank_at : ℕ → Octets → ℕ → Octets
blank_at n message index = take index message ++ (zeros n ++ drop (index + n) message)

abbrev pub compare_mac : Octets → Octets → Option Octets → Outcome Octets
compare_mac parameters blank none = attribute_error
compare_mac parameters blank (some mac) =
    if list_beq mac parameters then done blank else status_information authentication_failure

abbrev pub incoming_at : ℕ → (Octets → Option Octets) → Octets → Octets → Option ℕ → Outcome Octets
incoming_at n mac parameters message none = protocol_error
incoming_at n mac parameters message (some index) =
    compare_mac parameters (blank_at n message index) (mac (blank_at n message index))

unfoldable pub incoming : ℕ → (Octets → Option Octets) → Octets → Octets → Outcome Octets
incoming n mac parameters message =
    if length parameters == n
    then incoming_at n mac parameters message (find parameters message)
    else status_information authentication_error

-- The services by their protocol, and the digest of each. What has no service is never called.
abbrev pub mac_of : Hashes → AuthProtocol → Octets → Octets → Octets
mac_of hashes no_auth key message = []
mac_of hashes hmac_md5 key message = md5_mac hashes key message
mac_of hashes hmac_sha key message = sha_mac hashes key message
mac_of hashes hmac_sha224 key message = sha2_mac hashes hmac_sha224 key message
mac_of hashes hmac_sha256 key message = sha2_mac hashes hmac_sha256 key message
mac_of hashes hmac_sha384 key message = sha2_mac hashes hmac_sha384 key message
mac_of hashes hmac_sha512 key message = sha2_mac hashes hmac_sha512 key message
mac_of hashes (other_auth n) key message = []

abbrev pub with_key : (Octets → Octets → Octets) → Option Octets → Octets → Option Octets
with_key mac none message = none
with_key mac (some key) message = some (mac key message)

abbrev pub is_no_auth : AuthProtocol → Bool
is_no_auth no_auth = true
is_no_auth hmac_md5 = false
is_no_auth hmac_sha = false
is_no_auth hmac_sha224 = false
is_no_auth hmac_sha256 = false
is_no_auth hmac_sha384 = false
is_no_auth hmac_sha512 = false
is_no_auth (other_auth n) = false

unfoldable pub authenticate_outgoing :
    Hashes → AuthProtocol → Option Octets → Octets → Outcome Octets
authenticate_outgoing hashes protocol key message =
    if is_no_auth protocol
    then status_information no_authentication
    else outgoing (digest_length protocol) (with_key (mac_of hashes protocol) key) message

unfoldable pub authenticate_incoming :
    Hashes → AuthProtocol → Option Octets → Octets → Octets → Outcome Octets
authenticate_incoming hashes protocol key parameters message =
    if is_no_auth protocol
    then status_information no_authentication
    else incoming (digest_length protocol) (with_key (mac_of hashes protocol) key) parameters
        message
