-- ===== src/Verify/Leaf.antt =====
-- `_check_leaf_usage` and `_verify_certificate_signature` of src/connectcoin_p2c_tools/verify.py.
pub mod Signed
pub mod Usage
use connectcoin_p2c_tools.Common.{
  ℕ, Bool, true, false, ◌&&◌, ◌||◌, not, List, [], ◌∷◌, ◌++◌, Option, none, some, ltb, leb, ◌==◌,
  if◌then◌else◌, ◌⊎◌, inl, inr, bytes_eq, elem, replicate, Bytes,
}
use connectcoin_p2c_tools.Common.Outcome.{
  Result, Exception, ok, raises, require, proof_verification, ◌>>=◌, ◌>>◌,
}
use connectcoin_p2c_tools.Hashes.{codes}
use connectcoin_p2c_tools.Protocol.Constants.{
  ecdsa_secp256r1_sha256, rsa_pss_rsae_sha256, rsa_pss_pss_sha256,
}
use connectcoin_p2c_tools.Protocol.Proof.{ParsedProof}
use connectcoin_p2c_tools.Verify.X509.{
  X509, PublicKey, rsa, elliptic, Checked, valid, invalid_signature, unsupported, Usages,
}
use connectcoin_p2c_tools.Verify.Pss.{check_pss_key_restrictions}
use connectcoin_p2c_tools.Verify.Chain.{
  oid_rsa_encryption, oid_rsassa_pss, check_rsa_public_exponents,
}

-- `ExtendedKeyUsageOID.SERVER_AUTH`
abbrev pub server_auth : List ℕ
server_auth = codes "1.3.6.1.5.5.7.3.1"

abbrev pub any_usage : List ℕ
any_usage = codes "2.5.29.37.0"

-- `oid in extended_usage`
abbrev pub has_usage : List ℕ → List (List ℕ) → Bool
has_usage oid [] = false
has_usage oid (u ∷ usages) = bytes_eq u oid || has_usage oid usages

abbrev pub may_sign : Option Bool → Bool
may_sign none = true
may_sign (some digital_signature) = digital_signature

abbrev pub may_serve : Option (List (List ℕ)) → Bool
may_serve none = true
may_serve (some extended_usage) =
    has_usage server_auth extended_usage || has_usage any_usage extended_usage

-- The exceptions of `leaf.extensions` are not caught.
abbrev pub read_usages : Exception ⊎ Usages → Result Usages
read_usages (inl e) = raises e
read_usages (inr usages) = ok usages

-- `TLS13_SERVER_CERTIFICATE_VERIFY_CONTEXT`
abbrev pub certificate_verify_context : Bytes
certificate_verify_context = codes "TLS 1.3, server CertificateVerify"

abbrev pub certificate_verify_message : Bytes → Bytes
certificate_verify_message transcript_hash =
    replicate 64 0x20 ++ (certificate_verify_context ++ (0 ∷ transcript_hash))

abbrev pub key_of : Option PublicKey → Result PublicKey
key_of none = raises proof_verification
key_of (some key) = ok key

-- `isinstance(public_key.curve, ec.SECP256R1)`
abbrev pub is_p256 : PublicKey → Bool
is_p256 (elliptic is_secp256r1) = is_secp256r1
is_p256 _ = false

-- `isinstance(public_key, rsa.RSAPublicKey) and public_key.key_size >= 2048`
abbrev pub is_rsa_2048 : PublicKey → Bool
is_rsa_2048 (rsa size exponent) = not (ltb size 2048)
is_rsa_2048 _ = false

-- What `public_key.verify` raises is raised again as ProofVerificationError.
abbrev pub checked : Checked → Result (Unit {0})
checked valid = ok tt
checked invalid_signature = raises proof_verification
checked unsupported = raises proof_verification

module _ (x : X509) where
  unfoldable pub check_leaf_usage : x.Certificate → Result (Unit {0})
  check_leaf_usage leaf = do
    usages ← read_usages (x.usages leaf)
    require (may_sign usages.digital_signature) proof_verification
    require (may_serve usages.extended_usage) proof_verification

  -- The call of _check_pss_key_restrictions under its test.
  unfoldable pub check_restrictions : x.Certificate → ℕ → Result (Unit {0})
  check_restrictions leaf scheme =
      if scheme == rsa_pss_pss_sha256 && bytes_eq (x.public_key_algorithm_oid leaf) oid_rsassa_pss
      then check_pss_key_restrictions (x.tbs_certificate_bytes leaf)
      else ok tt

  -- `expected_oid`
  abbrev pub expected_oid : ℕ → List ℕ
  expected_oid scheme = if scheme == rsa_pss_rsae_sha256 then oid_rsa_encryption else oid_rsassa_pss

  -- The branches on the scheme.
  unfoldable pub verify_by_scheme :
      x.Certificate → PublicKey → ℕ → Bytes → Bytes → Result (Unit {0})
  verify_by_scheme leaf key scheme signature message =
      if scheme == ecdsa_secp256r1_sha256
      then (require (is_p256 key) proof_verification
          >> checked (x.verify_ecdsa leaf signature message))
      else if scheme == rsa_pss_rsae_sha256 || scheme == rsa_pss_pss_sha256
      then (require (is_rsa_2048 key) proof_verification
          >> (require (bytes_eq (x.public_key_algorithm_oid leaf) (expected_oid scheme))
                proof_verification
              >> checked (x.verify_pss leaf signature message)))
      else raises proof_verification

  unfoldable pub verify_certificate_signature : x.Certificate → ParsedProof → Result (Unit {0})
  verify_certificate_signature leaf parsed = do
    check_rsa_public_exponents x (leaf ∷ [])
    check_restrictions leaf parsed.certificate_verify_scheme
    key ← key_of (x.public_key leaf)
    verify_by_scheme leaf key parsed.certificate_verify_scheme parsed.certificate_verify_signature
        (certificate_verify_message parsed.transcript_hash)
