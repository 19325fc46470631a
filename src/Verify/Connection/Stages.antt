-- ===== src/Verify/Connection/Stages.antt =====
-- How verify_connection_proof of src/connectcoin_p2c_tools/verify.py ends, stage by stage.
use mathlib.Core.List.{reverse}
use connectcoin_p2c_tools.Common.{
  ◌≡◌, refl, subst, Bool, true, List, ◌∷◌, Option, leb, leb→le, Bytes,
}
use connectcoin_p2c_tools.Common.Outcome.{
  ok, proof_verification, Ends, returns, Ends-bind, Ends-weaken, Ends-require, Ensures-Ends,
}
use connectcoin_p2c_tools.Hashes.{to_hex}
use connectcoin_p2c_tools.Hashes.Hex.{hex_number}
use connectcoin_p2c_tools.Signatures.Policy.{permits, signature_scheme_allowed-permits}
use connectcoin_p2c_tools.Protocol.Proof.{ParsedProof}
use connectcoin_p2c_tools.Protocol.Proof.Accepts.{IsProof, parse_proof-Ensures, parse_proof_iff}
use connectcoin_p2c_tools.Protocol.Proof.Outcomes.{parse_proof-chain}
use connectcoin_p2c_tools.Envelope.{ConnectionProof, challenge}
use connectcoin_p2c_tools.Envelope.Checks.{claim_challenge-ok}
use connectcoin_p2c_tools.Envelope.Valid.{IsValid}
use connectcoin_p2c_tools.Verify.X509.{X509}
use connectcoin_p2c_tools.Verify.Chain.Trusted.{IsChain, load_certificate_chain-Ends}
use connectcoin_p2c_tools.Verify.Chain.Rooted.{
  AreRoots, AreTimely, load_roots-Ends, check_supplied_certificate_times-Ensures,
  verify_path-Ensures,
}
use connectcoin_p2c_tools.Verify.Leaf.Usage.{check_leaf_usage-Ends}
use connectcoin_p2c_tools.Verify.Leaf.Signed.{verify_certificate_signature-Ensures}
use connectcoin_p2c_tools.Verify.Connection.{
  verify_leaf, verify_certificates, verify_connection_proof,
}
use connectcoin_p2c_tools.Verify.Connection.Accepted.{
  IsHash32, GivesBytes, MeetsTarget, meets_work_target-valid, Accepts, IsRefusal, malformed,
  unverified, unreadable, chain-IsRefusal, bundle-IsRefusal, first_loaded, work_hash-IsHash,
  work_display,
}

module _ (sha256 : Bytes → Bytes) (x : X509) (hash_32 : IsHash32 sha256)
    (gives_bytes : GivesBytes x) (envelope : ConnectionProof) (h : IsValid envelope)
    (roots_file : Option Bytes) (enforce : Bool) where
  claim_of : (claim : Bytes) × (challenge sha256 envelope ≡ ok claim)
  unfolding challenge
  claim_of =
      (_, claim_challenge-ok sha256 envelope.txid envelope.input_index h.txid_hex h.index_fits)

  -- What is known once the proof is parsed, and once its certificates are loaded.
  record IsWorked (claim : Bytes) (p : ParsedProof) : Type 0 where
    claimed : challenge sha256 envelope ≡ ok claim
    proved : IsProof sha256 envelope.domain claim envelope.proof p
    permitted : permits envelope.signature_algorithms_mask p.certificate_verify_scheme ≡ true
    worked : MeetsTarget p.connection_work_hash envelope.connection_work_target

  record IsLoaded (p : ParsedProof) (leaf : x.Certificate) (more roots : List x.Certificate)
      : Type 0 where
    chain : IsChain x p.certificate_chain (leaf ∷ more)
    trusted : AreRoots x sha256 roots_file envelope.root_certificates_version enforce roots
    timely : AreTimely x envelope.validation_time (leaf ∷ more)

  leaf-Ends :
      (claim : Bytes) (p : ParsedProof) (leaf : x.Certificate) (more roots : List x.Certificate)
      → IsWorked claim p
      → IsLoaded p leaf more roots
      → Ends
          (IsRefusal x)
          (Accepts sha256 x envelope roots_file enforce)
          (verify_leaf sha256 x envelope claim p (leaf ∷ more) roots)
  unfolding verify_leaf
  leaf-Ends claim p leaf more roots w l =
      Ends-bind (check_leaf_usage-Ends x leaf (IsRefusal x) unverified (λ e f. unreadable leaf f))
        λ _ usage.
          Ends-bind
            (Ensures-Ends unverified
              (verify_path-Ensures x leaf more roots envelope.domain envelope.validation_time))
            λ _ path.
              Ends-bind
                (Ensures-Ends unverified
                  (verify_certificate_signature-Ensures x leaf p (gives_bytes leaf)))
                λ _ signed.
                  rw (work_display sha256 hash_32 envelope.domain claim envelope.proof p w.proved) (
                    returns (
                      claim,
                      p,
                      record {
                        claimed = w.claimed;
                        proved = w.proved;
                        permitted = w.permitted;
                        worked = w.worked;
                        leaf = leaf;
                        intermediates = more;
                        roots = roots;
                        chain = l.chain;
                        trusted = l.trusted;
                        timely = l.timely;
                        authenticates = usage;
                        path = path;
                        signed = signed;
                      },
                      refl,
                    ))

  -- From the certificates on.
  certificates-Ends :
      (claim : Bytes) (p : ParsedProof)
      → IsWorked claim p
      → Ends
          (IsRefusal x)
          (Accepts sha256 x envelope roots_file enforce)
          (verify_certificates sha256 x envelope roots_file enforce claim p)
  unfolding verify_certificates
  certificates-Ends claim p w =
      let (some_chain, _, _) =
        parse_proof-chain sha256 envelope.proof envelope.domain claim p
          ((parse_proof_iff sha256 envelope.proof envelope.domain claim p).1 w.proved) in
      Ends-bind
        (Ends-weaken (chain-IsRefusal x) (λ cs loaded. loaded)
          (load_certificate_chain-Ends x p.certificate_chain))
        λ cs chain.
          let (leaf, more, e) = first_loaded x p.certificate_chain cs some_chain chain.0 in
          rw e (
            Ends-bind
              (Ends-weaken (bundle-IsRefusal x) (λ roots trusted. trusted)
                (load_roots-Ends x sha256 roots_file envelope.root_certificates_version enforce))
              λ roots trusted.
                Ends-bind
                  (Ensures-Ends unverified (
                    check_supplied_certificate_times-Ensures x (leaf ∷ more)
                      envelope.validation_time))
                  λ _ timely. leaf-Ends claim p leaf more roots w (record {
                    chain =
                        subst (λ (y : List x.Certificate). IsChain x p.certificate_chain y) e chain;
                    trusted = trusted;
                    timely = timely;
                  }))

  pub verify_connection_proof-Ends :
      Ends
        (IsRefusal x)
        (Accepts sha256 x envelope roots_file enforce)
        (verify_connection_proof sha256 x envelope roots_file enforce)
  unfolding verify_connection_proof
  verify_connection_proof-Ends =
      let (claim, claimed) = claim_of in
      let (low, high) = h.mask_fits in
      rw claimed (
        Ends-bind
          (Ensures-Ends malformed (parse_proof-Ensures sha256 envelope.proof envelope.domain claim))
          λ p proved.
            let (size, are) =
              work_hash-IsHash sha256 hash_32 envelope.domain claim envelope.proof p proved in
            rw
              (
                signature_scheme_allowed-permits envelope.signature_algorithms_mask
                    p.certificate_verify_scheme low high,
                meets_work_target-valid envelope p.connection_work_hash h size are,
              )
              (Ends-require (permits envelope.signature_algorithms_mask p.certificate_verify_scheme)
                proof_verification unverified
                λ permitted.
                  Ends-require
                    (leb (hex_number (to_hex (reverse p.connection_work_hash)))
                      (hex_number envelope.connection_work_target))
                    proof_verification unverified
                    λ met. certificates-Ends claim p (record {
                      claimed = claimed;
                      proved = proved;
                      permitted = permitted;
                      worked = leb→le _ _ met;
                    })))
