-- ===== src/Verify/Connection/Verdict.antt =====
-- `verify_connection_proof` of src/connectcoin_p2c_tools/verify.py against its description.
use connectcoin_p2c_tools.Common.{
  ◌≡◌, ◌↔◌, ◌⊎◌, inl, inr, refl, sym, ap, ◌∙◌, Bool, ◌∷◌, Option, le→leb, Bytes,
}
use connectcoin_p2c_tools.Common.Outcome.{Exception, ok, raises, Ends-ok, Ends-value}
use connectcoin_p2c_tools.Signatures.Policy.{signature_scheme_allowed-permits}
use connectcoin_p2c_tools.Protocol.Proof.{ParsedProof}
use connectcoin_p2c_tools.Protocol.Proof.Accepts.{parse_proof_iff}
use connectcoin_p2c_tools.Envelope.{ConnectionProof}
use connectcoin_p2c_tools.Envelope.Valid.{IsValid}
use connectcoin_p2c_tools.Verify.X509.{X509}
use connectcoin_p2c_tools.Verify.Chain.Trusted.{load_certificate_chain-IsChain}
use connectcoin_p2c_tools.Verify.Chain.Rooted.{
  load_roots-AreRoots, check_supplied_certificate_times-AreTimely, verify_path-HasPath,
}
use connectcoin_p2c_tools.Verify.Leaf.Usage.{check_leaf_usage-MayAuthenticate}
use connectcoin_p2c_tools.Verify.Leaf.Signed.{verify_certificate_signature-IsSigned}
use connectcoin_p2c_tools.Verify.Connection.{
  VerificationResult, verify_leaf, verify_certificates, verify_connection_proof,
}
use connectcoin_p2c_tools.Verify.Connection.Accepted.{
  IsHash32, GivesBytes, meets_work_target-valid, IsAccepted, result_of, Accepts, IsRefusal,
  work_hash-IsHash, work_display,
}
use connectcoin_p2c_tools.Verify.Connection.Stages.{verify_connection_proof-Ends}

module _ (sha256 : Bytes → Bytes) (x : X509) (hash_32 : IsHash32 sha256)
    (gives_bytes : GivesBytes x) (envelope : ConnectionProof) (h : IsValid envelope)
    (roots_file : Option Bytes) (enforce : Bool) where
  certificates-ok :
      (claim : Bytes) (p : ParsedProof)
      → IsAccepted sha256 x envelope roots_file enforce claim p
      → verify_certificates sha256 x envelope roots_file enforce claim p
        ≡ ok (result_of envelope claim p)
  unfolding verify_certificates verify_leaf
  certificates-ok claim p a =
      rw
        (
          load_certificate_chain-IsChain x p.certificate_chain (a.leaf ∷ a.intermediates) a.chain,
          load_roots-AreRoots x sha256 roots_file envelope.root_certificates_version enforce a.roots
              a.trusted,
          check_supplied_certificate_times-AreTimely x (a.leaf ∷ a.intermediates)
              envelope.validation_time a.timely,
          check_leaf_usage-MayAuthenticate x a.leaf a.authenticates,
          verify_path-HasPath x (a.leaf ∷ a.intermediates) a.roots envelope.domain
              envelope.validation_time a.path,
          verify_certificate_signature-IsSigned x a.leaf p (gives_bytes a.leaf) a.signed,
          work_display sha256 hash_32 envelope.domain claim envelope.proof p a.proved,
        )
        refl

  verify_connection_proof-ok :
      (claim : Bytes) (p : ParsedProof)
      → IsAccepted sha256 x envelope roots_file enforce claim p
      → verify_connection_proof sha256 x envelope roots_file enforce
        ≡ ok (result_of envelope claim p)
  unfolding verify_connection_proof
  verify_connection_proof-ok claim p a =
      let (low, high) = h.mask_fits in
      let (size, are) =
        work_hash-IsHash sha256 hash_32 envelope.domain claim envelope.proof p a.proved in
      rw
        (
          a.claimed,
          (parse_proof_iff sha256 envelope.proof envelope.domain claim p).1 a.proved,
          signature_scheme_allowed-permits envelope.signature_algorithms_mask
              p.certificate_verify_scheme low high,
          a.permitted,
          meets_work_target-valid envelope p.connection_work_hash h size are,
          le→leb _ _ a.worked,
        )
        (certificates-ok claim p a)

  -- For a valid envelope, a hash of 32 bytes and certificates whose signed part is bytes, the
  -- verification returns a result exactly if the envelope is accepted and the result describes it:
  -- the proof has the documented form for the claim and the domain, its scheme is in the mask, its
  -- work hash is at most the target, the certificates load with RSA exponents below 2^64, the
  -- bundle is of version 1 with its pin where that is asked and has such roots, all certificates
  -- are valid at the time, the leaf's extensions let it sign and serve, the path verifies, and the
  -- leaf's key of the right kind signed the transcript.
  pub verify_connection_proof_iff :
      (result : VerificationResult)
      → (verify_connection_proof sha256 x envelope roots_file enforce ≡ ok result)
        ↔ Accepts sha256 x envelope roots_file enforce result
  verify_connection_proof_iff result = (
    λ returned.
        Ends-ok
          (verify_connection_proof-Ends sha256 x hash_32 gives_bytes envelope h roots_file enforce)
          returned,
    λ (claim, p, a, e).
        verify_connection_proof-ok claim p a ∙ ap (λ (r : VerificationResult). ok r) (sym e),
  )

  -- For a valid envelope, a hash of 32 bytes and certificates whose signed part is bytes, the
  -- verification ends with a result, or raises ProofFormatError, ProofVerificationError, what
  -- reading the extensions of a certificate raised, or what loading a certificate or the bundle
  -- raised that is no ValueError; it raises no ValueError or IndexError of its own.
  pub verify_connection_proof-IsRefusal :
      ((result : VerificationResult) × (verify_connection_proof sha256 x envelope roots_file enforce
          ≡ ok result))
      ⊎ ((e : Exception) × (verify_connection_proof sha256 x envelope roots_file enforce ≡ raises e)
          × IsRefusal x e)
  verify_connection_proof-IsRefusal =
      elim (Ends-value
        (verify_connection_proof-Ends sha256 x hash_32 gives_bytes envelope h roots_file enforce)) [
          | inl (result, returned, _) ↦ inl (result, returned)
          | inr (e, raised, refusal) ↦ inr (e, raised, refusal)
        ]
