-- ===== src/Verify/Connection.antt =====
-- `verify_connection_proof` of src/connectcoin_p2c_tools/verify.py.
pub mod Accepted
pub mod Stages
pub mod Verdict
use connectcoin_p2c_tools.Common.{ℕ, Bool, List, [], ◌∷◌, Option, length, Bytes}
use connectcoin_p2c_tools.Common.Outcome.{
  Result, ok, raises, require, proof_verification, index_error, ◌>>=◌, ◌>>◌,
}
use connectcoin_p2c_tools.Hashes.{to_hex, internal_hash_to_display, meets_work_target}
use connectcoin_p2c_tools.Signatures.{signature_scheme_allowed}
use connectcoin_p2c_tools.Protocol.Proof.{ParsedProof, parse_proof}
use connectcoin_p2c_tools.Envelope.{ConnectionProof, challenge}
use connectcoin_p2c_tools.Verify.X509.{X509}
use connectcoin_p2c_tools.Verify.Chain.{
  load_certificate_chain, load_roots, check_supplied_certificate_times, verify_path,
}
use connectcoin_p2c_tools.Verify.Leaf.{check_leaf_usage, verify_certificate_signature}

pub record VerificationResult : Type 0 where
  pub challenge : List ℕ
  pub transcript_hash : List ℕ
  pub connection_work_hash : List ℕ
  pub certificate_count : ℕ
  pub certificate_verify_scheme : ℕ
  pub signature_algorithms_mask : ℕ

-- `certificates[0]`
abbrev pub first {ℓ} : {A : Type ℓ} → List A → Result A
first [] = raises index_error
first (a ∷ more) = ok a

module _ (sha256 : Bytes → Bytes) (x : X509) where
  -- From `_check_leaf_usage` on.
  unfoldable pub verify_leaf :
      ConnectionProof
      → Bytes
      → ParsedProof
      → List x.Certificate
      → List x.Certificate
      → Result VerificationResult
  verify_leaf envelope claim parsed certificates roots = do
    leaf ← first certificates
    check_leaf_usage x leaf
    verify_path x certificates roots envelope.domain envelope.validation_time
    verify_certificate_signature x leaf parsed
    work ← internal_hash_to_display parsed.connection_work_hash
    ok (record {
      challenge = to_hex claim;
      transcript_hash = to_hex parsed.transcript_hash;
      connection_work_hash = work;
      certificate_count = length parsed.certificate_chain;
      certificate_verify_scheme = parsed.certificate_verify_scheme;
      signature_algorithms_mask = envelope.signature_algorithms_mask;
    })

  -- From `_load_certificates` on.
  unfoldable pub verify_certificates :
      ConnectionProof → Option Bytes → Bool → Bytes → ParsedProof → Result VerificationResult
  verify_certificates envelope roots_file enforce_root_pin claim parsed = do
    certificates ← load_certificate_chain x parsed.certificate_chain
    roots ← load_roots x sha256 roots_file envelope.root_certificates_version enforce_root_pin
    check_supplied_certificate_times x certificates envelope.validation_time
    verify_leaf envelope claim parsed certificates roots

  unfoldable pub verify_connection_proof :
      ConnectionProof → Option Bytes → Bool → Result VerificationResult
  verify_connection_proof envelope roots_file enforce_root_pin = do
    claim ← challenge sha256 envelope
    parsed ← parse_proof sha256 envelope.proof envelope.domain claim
    allowed ←
        signature_scheme_allowed envelope.signature_algorithms_mask parsed.certificate_verify_scheme
    require allowed proof_verification
    met ← meets_work_target parsed.connection_work_hash envelope.connection_work_target
    require met proof_verification
    verify_certificates envelope roots_file enforce_root_pin claim parsed
