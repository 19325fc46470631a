-- ===== src/Verify/Chain.antt =====
-- The certificates of a proof and the trusted roots in src/connectcoin_p2c_tools/verify.py.
pub mod Trusted
pub mod Rooted
use connectcoin_p2c_tools.Common.{
  ℕ, zero, suc, ◌⊎◌, inl, inr, ◌+◌, ◌-◌, ◌/◌, Bool, true, false, ◌&&◌, ◌||◌, not, List, [], ◌∷◌,
  Option, none, some, ltb, ◌==◌, ◌!=◌, if◌then◌else◌, bytes_eq, is_empty, Bytes,
}
use connectcoin_p2c_tools.Common.Outcome.{
  Result, Exception, is_value_error, ok, raises, require, proof_verification, index_error, ◌>>=◌,
  ◌>>◌,
}
use connectcoin_p2c_tools.Common.Values.{ℤ, pos, negsuc}
use connectcoin_p2c_tools.Hashes.{codes, to_hex}
use connectcoin_p2c_tools.Protocol.Constants.{max_certificates}
use connectcoin_p2c_tools.Protocol.Certificate.{parse_certificate_message}
use connectcoin_p2c_tools.Verify.X509.{X509, PublicKey, rsa, elliptic, other_key}

-- `ROOTS_V1_SHA256`
abbrev pub roots_v1_sha256 : List ℕ
roots_v1_sha256 = codes "f66dff1bdf8f96060b8177976f8b7d9254bc89bc4db933d769f7384d28480bc9"

abbrev pub max_rsa_public_exponent_bits : ℕ
max_rsa_public_exponent_bits = 64

abbrev pub oid_rsa_encryption : List ℕ
oid_rsa_encryption = codes "1.2.840.113549.1.1.1"

abbrev pub oid_rsassa_pss : List ℕ
oid_rsassa_pss = codes "1.2.840.113549.1.1.10"

-- `int.bit_length`; a number has fewer bits than its value and one.
unfoldable pub bit_length_loop : ℕ → ℕ → ℕ
bit_length_loop zero n = 0
bit_length_loop (suc fuel) n =
    let rest = bit_length_loop fuel (n / 2) in if n == 0 then 0 else rest + 1

abbrev pub bit_length : ℕ → ℕ
bit_length n = bit_length_loop n n

-- `oid in {OID_RSA_ENCRYPTION, OID_RSASSA_PSS}`
abbrev pub is_rsa_oid : List ℕ → Bool
is_rsa_oid oid = bytes_eq oid oid_rsa_encryption || bytes_eq oid oid_rsassa_pss

-- `public_key.public_numbers().e` of an RSA key.
abbrev pub rsa_exponent : Option PublicKey → Result ℕ
rsa_exponent (some (rsa size exponent)) = ok exponent
rsa_exponent _ = raises proof_verification

-- The largest time that datetime.fromtimestamp takes: the end of the year 9999.
abbrev pub max_timestamp : ℕ
max_timestamp = 253402300799

-- `datetime.fromtimestamp(validation_time, UTC)`: the caller raises its exceptions again as
-- ProofVerificationError.
abbrev pub from_timestamp : ℕ → Result ℕ
from_timestamp seconds = if ltb max_timestamp seconds then raises proof_verification else ok seconds

-- `moment < time` and `moment > time`
abbrev pub is_before : ℕ → ℤ → Bool
is_before moment (pos n) = ltb moment n
is_before moment (negsuc n) = false

abbrev pub is_after : ℕ → ℤ → Bool
is_after moment (pos n) = ltb n moment
is_after moment (negsuc n) = true

-- `load_der_x509_certificate` and `load_pem_x509_certificates`: a ValueError is raised again as
-- ProofVerificationError, and no other exception is caught.
abbrev pub loaded : {A : Type 0} → Exception ⊎ A → Result A
loaded (inl e) = if is_value_error e then raises proof_verification else raises e
loaded (inr value) = ok value

module _ (x : X509) where
  -- One round of `_check_rsa_public_exponents`.
  unfoldable pub check_rsa_public_exponent : x.Certificate → Result (Unit {0})
  check_rsa_public_exponent certificate =
      if not (is_rsa_oid (x.public_key_algorithm_oid certificate))
      then ok tt
      else (rsa_exponent (x.public_key certificate) >>= λ exponent.
          require (not (ltb max_rsa_public_exponent_bits (bit_length exponent))) proof_verification)

  unfoldable pub check_rsa_public_exponents : List x.Certificate → Result (Unit {0})
  check_rsa_public_exponents [] = ok tt
  check_rsa_public_exponents (certificate ∷ certificates) = do
    check_rsa_public_exponent certificate
    check_rsa_public_exponents certificates

  -- The loop of `_load_certificate_chain`.
  unfoldable pub load_each : List Bytes → Result (List x.Certificate)
  load_each [] = ok []
  load_each (encoded ∷ encoded_chain) = do
    certificate ← loaded (x.load_der encoded)
    certificates ← load_each encoded_chain
    ok (certificate ∷ certificates)

  unfoldable pub load_certificate_chain : List Bytes → Result (List x.Certificate)
  load_certificate_chain encoded_chain = do
    certificates ← load_each encoded_chain
    check_rsa_public_exponents certificates
    ok certificates

  unfoldable pub validate_certificate_message : Bytes → Result (Unit {0})
  validate_certificate_message message = do
    chain ← parse_certificate_message message
    _ ← load_certificate_chain chain
    ok tt

  -- `read_bytes`, its OSError raised again.
  abbrev pub bundle_bytes : Option Bytes → Result Bytes
  bundle_bytes none = raises proof_verification
  bundle_bytes (some encoded) = ok encoded

  -- `file` is what the file at `path` reads as, none where reading it raises OSError.
  unfoldable pub load_roots :
      (Bytes → Bytes) → Option Bytes → ℕ → Bool → Result (List x.Certificate)
  load_roots sha256 file version enforce_root_pin = do
    encoded ← bundle_bytes file
    require (version == 1) proof_verification
    require (not (enforce_root_pin && not (bytes_eq (to_hex (sha256 encoded)) roots_v1_sha256)))
        proof_verification
    roots ← loaded (x.load_pem encoded)
    require (not (is_empty roots)) proof_verification
    check_rsa_public_exponents roots
    ok roots

  unfoldable pub validate_root_bundle :
      (Bytes → Bytes) → Option Bytes → ℕ → Bool → Result (Unit {0})
  validate_root_bundle sha256 file version enforce_root_pin = do
    _ ← load_roots sha256 file version enforce_root_pin
    ok tt

  -- The loop of `_check_supplied_certificate_times`.
  unfoldable pub check_times : List x.Certificate → ℕ → Result (Unit {0})
  check_times [] moment = ok tt
  check_times (certificate ∷ certificates) moment = do
    require
        (not (
          is_before moment (x.not_valid_before certificate)
          || is_after moment (x.not_valid_after certificate)))
        proof_verification
    check_times certificates moment

  unfoldable pub check_supplied_certificate_times : List x.Certificate → ℕ → Result (Unit {0})
  check_supplied_certificate_times certificates validation_time = do
    moment ← from_timestamp validation_time
    check_times certificates moment

  -- `certificates[0]` raises IndexError where there is none.
  unfoldable pub verify_path :
      List x.Certificate → List x.Certificate → List ℕ → ℕ → Result (Unit {0})
  verify_path [] roots domain validation_time = raises index_error
  verify_path (leaf ∷ intermediates) roots domain validation_time = do
    moment ← from_timestamp validation_time
    require (x.verify_path roots moment (max_certificates - 1) domain leaf intermediates)
        proof_verification
