-- ===== src/Verify/X509.antt =====
-- What src/connectcoin_p2c_tools/verify.py uses of the package cryptography: X.509 certificates,
-- their keys, and the path verifier. It is an argument of the definitions that use it.
use connectcoin_p2c_tools.Common.{ℕ, Bool, List, Option, ◌⊎◌, Bytes}
use connectcoin_p2c_tools.Common.Outcome.{Exception}
use connectcoin_p2c_tools.Common.Values.{ℤ}

-- `public_key()`: an RSAPublicKey with its key_size and exponent, an EllipticCurvePublicKey with
-- whether its curve is SECP256R1, or a key of another kind.
pub data PublicKey : Type 0 where
  rsa : ℕ → ℕ → PublicKey
  elliptic : Bool → PublicKey
  other_key : PublicKey

-- How `public_key.verify` ends: it returns, or raises InvalidSignature, or UnsupportedAlgorithm or
-- ValueError.
pub data Checked : Type 0 where
  valid invalid_signature unsupported : Checked

-- The KeyUsage extension by its digital_signature, and the ExtendedKeyUsage extension by its
-- object identifiers; none where the extension is not found.
pub record Usages : Type 0 where
  pub digital_signature : Option Bool
  pub extended_usage : Option (List (List ℕ))

-- An object identifier is its dotted text, and a time the seconds since 1970.
pub record X509 : Type 1 where
  pub Certificate : Type 0
  -- `load_der_x509_certificate` and `load_pem_x509_certificates`; or what it raises:
  -- ValueError, or InvalidVersion, which is no ValueError.
  pub load_der : Bytes → Exception ⊎ Certificate
  pub load_pem : Bytes → Exception ⊎ List Certificate
  pub public_key_algorithm_oid : Certificate → List ℕ
  -- None where it raises UnsupportedAlgorithm or ValueError, which every caller catches.
  pub public_key : Certificate → Option PublicKey
  pub tbs_certificate_bytes : Certificate → Bytes
  pub not_valid_before : Certificate → ℤ
  pub not_valid_after : Certificate → ℤ
  -- `extensions`, or the exception that it raises.
  pub usages : Certificate → Exception ⊎ Usages
  -- The store of roots, the time, max_chain_depth, the DNS name, the leaf and the certificates
  -- after it: whether `verifier.verify` returns. Every caller catches what it raises.
  pub verify_path : List Certificate → ℕ → ℕ → List ℕ → Certificate → List Certificate → Bool
  -- The verification of a signature on a message by the key of the certificate: ECDSA with
  -- SHA-256, and RSA-PSS with SHA-256, MGF1 with SHA-256 and a salt of 32 bytes.
  pub verify_ecdsa : Certificate → Bytes → Bytes → Checked
  pub verify_pss : Certificate → Bytes → Bytes → Checked
