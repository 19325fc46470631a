-- ===== src/Protocol/Proof/Outcomes.antt =====
-- What a client of `parse_proof` of src/connectcoin_p2c_tools/protocol.py may rely on.
use connectcoin_p2c_tools.Common.{
  ℕ, ◌≤◌, ◌≡◌, refl, ap, ◌⊎◌, List, [], ◌∷◌, ◌++◌, length, All, Bytes, arith,
}
use connectcoin_p2c_tools.Common.Outcome.{ok, raises, proof_format, returns_or_rejects}
use connectcoin_p2c_tools.Hashes.{tagged_hash, work_tag}
use connectcoin_p2c_tools.Protocol.Constants.{proof_version, max_certificates, max_certificate_size}
use connectcoin_p2c_tools.Protocol.Format.{CertificateList}
use connectcoin_p2c_tools.Protocol.Proof.{ParsedProof, parse_proof}
use connectcoin_p2c_tools.Protocol.Proof.Accepts.{IsProof, parse_proof-Ensures, parse_proof_iff}

abbrev pub IsCertificateSize : Bytes → Type 0
IsCertificateSize c = (1 ≤ length c) × (length c ≤ max_certificate_size)

entry_sizes :
    (chain : List Bytes) (bs : Bytes) → CertificateList chain bs → All IsCertificateSize chain
entry_sizes [] bs h = tt
entry_sizes (c ∷ cs) bs (entry, properties, more, e, v, p, low, high, rest) =
    ((low, high), entry_sizes cs more rest)

entry_some :
    (chain : List Bytes) (bs : Bytes) → CertificateList chain bs → 1 ≤ length bs → 1 ≤ length chain
entry_some [] bs h some = absurd (omega (arith, ap length h))
entry_some (c ∷ cs) bs h some = omega arith

module _ (sha256 : Bytes → Bytes) (encoded : Bytes) (domain : List ℕ) (challenge : Bytes) where
  -- On every input the proof parser returns a proof or raises ProofFormatError; it raises no other
  -- exception and its loops end.
  pub parse_proof_total :
      ((p : ParsedProof) × (parse_proof sha256 encoded domain challenge ≡ ok p))
      ⊎ (parse_proof sha256 encoded domain challenge ≡ raises proof_format)
  parse_proof_total = returns_or_rejects (parse_proof-Ensures sha256 encoded domain challenge)

  module _ (p : ParsedProof) (accepted : parse_proof sha256 encoded domain challenge ≡ ok p) where
    form : IsProof sha256 domain challenge encoded p
    form = (parse_proof_iff sha256 encoded domain challenge p).0 accepted

    -- An accepted proof has one to eight certificates, each of 1 to 16384 bytes.
    pub parse_proof-chain :
        (1 ≤ length p.certificate_chain)
        × (length p.certificate_chain ≤ max_certificates)
        × All IsCertificateSize p.certificate_chain
    parse_proof-chain =
        let b = form.bodies in
        let (list, framed, e, v, some, entries, few) = b.certificate_form in
        rw (b.result) (entry_some b.chain list entries some, few, entry_sizes b.chain list entries)

    -- An accepted proof is the version byte and the five messages of the result; the transcript
    -- hash and the work hash are taken of the first four.
    pub parse_proof-messages :
        (encoded
          ≡ proof_version
            ∷ (p.client_hello
                ++ (p.server_hello
                    ++ (p.encrypted_extensions ++ (p.certificate ++ p.certificate_verify)))))
        × (p.transcript_hash
            ≡ sha256
                (p.client_hello ++ (p.server_hello ++ (p.encrypted_extensions ++ p.certificate))))
        × (p.connection_work_hash
            ≡ tagged_hash sha256 work_tag
                (p.client_hello ++ (p.server_hello ++ (p.encrypted_extensions ++ p.certificate))))
    parse_proof-messages = rw (form.bodies.result) (form.framing.layout, refl, refl)
