-- ===== src/Generator/Search/Retarget.antt =====
-- `replace` on an envelope, and the verification under another target
-- (src/connectcoin_p2c_tools/generator.py and verify.py).
use connectcoin_p2c_tools.Common.{
  ℕ, ◌≡◌, refl, sym, ap, ◌∙◌, Bool, true, false, List, Option, Bytes,
}
use connectcoin_p2c_tools.Common.Outcome.{
  Result, ok, raises, out_of_fuel, require, proof_verification, ◌>>=◌, ◌>>◌, Ensures-ok,
}
use connectcoin_p2c_tools.Common.Values.{pos, int, text, bytes}
use connectcoin_p2c_tools.Hashes.{meets_work_target}
use connectcoin_p2c_tools.Signatures.{signature_scheme_allowed}
use connectcoin_p2c_tools.Protocol.Proof.{ParsedProof, parse_proof}
use connectcoin_p2c_tools.Envelope.{ConnectionProof, Arguments, challenge}
use connectcoin_p2c_tools.Envelope.Valid.{IsValid, arguments, construct-Ensures}
use connectcoin_p2c_tools.Verify.X509.{X509}
use connectcoin_p2c_tools.Verify.Connection.{
  VerificationResult, verify_leaf, verify_certificates, verify_connection_proof,
}
use connectcoin_p2c_tools.Generator.Search.Attempts.{fields_of, replace_proof, replace_target}

abbrev with_target : ConnectionProof → List ℕ → ConnectionProof
with_target envelope target = record envelope { connection_work_target = target }

text_eq : (a b : List ℕ) → text a ≡ text b → a ≡ b
text_eq a b e = cc

bytes_eq_of : (a b : Bytes) → bytes a ≡ bytes b → a ≡ b
bytes_eq_of a b e = cc

int_eq : (a b : ℕ) → int (pos a) ≡ int (pos b) → a ≡ b
int_eq a b e = cc

-- The fields of a constructed envelope are the arguments.
fields_eq :
    (envelope result : ConnectionProof) (target : List ℕ) (proof : Bytes)
    → result.version ≡ 2
    → fields_of envelope target proof ≡ arguments result
    → result ≡ record envelope { connection_work_target = target; proof = proof }
fields_eq envelope result target proof v e = cc (
  text_eq _ _ (ap (λ (a : Arguments). a.domain) e),
  text_eq _ _ (ap (λ (a : Arguments). a.txid) e),
  int_eq _ _ (ap (λ (a : Arguments). a.input_index) e),
  text_eq _ _ (ap (λ (a : Arguments). a.connection_work_target) e),
  int_eq _ _ (ap (λ (a : Arguments). a.root_certificates_version) e),
  int_eq _ _ (ap (λ (a : Arguments). a.signature_algorithms_mask) e),
  int_eq _ _ (ap (λ (a : Arguments). a.validation_time) e),
  bytes_eq_of _ _ (ap (λ (a : Arguments). a.proof) e),
  int_eq _ _ (ap (λ (a : Arguments). a.version) e),
  v,
)

pub replace_proof_lem :
    (context candidate : ConnectionProof) (proof : Bytes)
    → replace_proof context proof ≡ ok candidate
    → IsValid candidate × (candidate ≡ record context { proof = proof })
replace_proof_lem context candidate proof h =
    let (valid, e) = Ensures-ok (construct-Ensures _) h in
    (valid, fields_eq context candidate context.connection_work_target proof valid.is_version_2 e)

pub replace_target_lem :
    (candidate easy : ConnectionProof) (target : List ℕ)
    → replace_target candidate target ≡ ok easy
    → easy ≡ with_target candidate target
replace_target_lem candidate easy target h =
    let (valid, e) = Ensures-ok (construct-Ensures _) h in
    fields_eq candidate easy target candidate.proof valid.is_version_2 e

-- The tests of the mask and of the target in front of the rest.
abbrev tested {ℓ} : {A : Type ℓ} → Result Bool → Result Bool → Result A → Result A
tested allowed met rest = allowed >>= λ a.
    require a proof_verification >> (met >>= λ m. require m proof_verification >> rest)

tested_inv {ℓ} :
    {A : Type ℓ} {a : A} (allowed met : Result Bool) (rest : Result A)
    → tested allowed met rest ≡ ok a
    → tested allowed (ok true) rest ≡ ok a
tested_inv (ok true) (ok true) rest h = h
tested_inv (ok true) (ok false) rest h = cc
tested_inv (ok true) (raises e) rest h = cc
tested_inv (ok true) out_of_fuel rest h = cc
tested_inv (ok false) met rest h = cc
tested_inv (raises e) met rest h = cc
tested_inv out_of_fuel met rest h = cc

module _ (sha256 : Bytes → Bytes) (x : X509) (roots_file : Option Bytes) (enforce : Bool)
    (envelope : ConnectionProof) (claim : Bytes) (parsed : ParsedProof)
    (claimed : challenge sha256 envelope ≡ ok claim)
    (parses : parse_proof sha256 envelope.proof envelope.domain claim ≡ ok parsed) where
  abbrev checked : ConnectionProof → Result VerificationResult
  checked e =
      tested
        (signature_scheme_allowed envelope.signature_algorithms_mask
          parsed.certificate_verify_scheme)
        (meets_work_target parsed.connection_work_hash e.connection_work_target)
        (verify_certificates sha256 x envelope roots_file enforce claim parsed)

  verify-checked :
      (target : List ℕ)
      → verify_connection_proof sha256 x (with_target envelope target) roots_file enforce
        ≡ checked (with_target envelope target)
  unfolding verify_connection_proof challenge verify_certificates verify_leaf
  verify-checked target = rw (claimed, parses) refl

  -- A proof that verifies under another target verifies under one that its work meets.
  pub verify-retarget :
      (target : List ℕ) (result : VerificationResult)
      → meets_work_target parsed.connection_work_hash envelope.connection_work_target ≡ ok true
      → verify_connection_proof sha256 x (with_target envelope target) roots_file enforce
        ≡ ok result
      → verify_connection_proof sha256 x envelope roots_file enforce ≡ ok result
  verify-retarget target result met h =
      verify-checked envelope.connection_work_target
      ∙ rw met (
          tested_inv
            (signature_scheme_allowed envelope.signature_algorithms_mask
              parsed.certificate_verify_scheme)
            (meets_work_target parsed.connection_work_hash target)
            (verify_certificates sha256 x envelope roots_file enforce claim parsed)
            (sym (verify-checked target) ∙ h))
