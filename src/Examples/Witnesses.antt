-- ===== src/Examples/Witnesses.antt =====
-- Each theorem with hypotheses, at an input of the sample.
use connectcoin_p2c_tools.Common.{
  ℕ, ◌≤◌, ◌≡◌, ◌↔◌, ◌⊎◌, refl, true, List, [], ◌∷◌, ◌++◌, length, replicate, All, Bytes, leb,
  le_bytes, arith, AreBytes,
}
use connectcoin_p2c_tools.Common.Outcome.{ok, raises, proof_format}
use connectcoin_p2c_tools.Common.Ints.{to_bytes_little}
use connectcoin_p2c_tools.Common.Values.{pos, int}
use connectcoin_p2c_tools.Domain.{is_ascii, is_canonical_domain, is_label}
use connectcoin_p2c_tools.Domain.Labels.{IsDomain, is_canonical_domain_iff}
use connectcoin_p2c_tools.Hashes.{
  tagged_hash, work_tag, display_hash_to_internal, internal_hash_to_display, meets_work_target,
  claim_message, all_hex_digits, from_hex, to_hex,
}
use connectcoin_p2c_tools.Hashes.Hex.{hex_number}
use connectcoin_p2c_tools.Hashes.Display.{display_hash_to_internal_iff}
use connectcoin_p2c_tools.Hashes.Target.{meets_work_target-hex_number, claim_message-injective}
use connectcoin_p2c_tools.Signatures.{signature_scheme_allowed}
use connectcoin_p2c_tools.Signatures.Policy.{permits, signature_scheme_allowed-permits}
use connectcoin_p2c_tools.Protocol.Constants.{proof_version, max_certificates}
use connectcoin_p2c_tools.Protocol.Format.{ClientHelloBody, ServerHelloBody, CertificateBody}
use connectcoin_p2c_tools.Protocol.ClientHello.{parse_client_hello}
use connectcoin_p2c_tools.Protocol.ClientHello.Sound.{parse_client_hello_iff}
use connectcoin_p2c_tools.Protocol.ServerHello.{parse_server_hello}
use connectcoin_p2c_tools.Protocol.ServerHello.Sound.{parse_server_hello_iff}
use connectcoin_p2c_tools.Protocol.Certificate.{parse_certificate}
use connectcoin_p2c_tools.Protocol.Certificate.Sound.{parse_certificate_iff}
use connectcoin_p2c_tools.Protocol.Proof.{ParsedProof, parse_proof}
use connectcoin_p2c_tools.Protocol.Proof.Accepts.{IsProof, parse_proof_iff}
use connectcoin_p2c_tools.Protocol.Proof.Outcomes.{
  parse_proof_total, parse_proof-chain, parse_proof-messages, IsCertificateSize,
}
use connectcoin_p2c_tools.Tls.Build.{build_client_hello}
use connectcoin_p2c_tools.Tls.Build.RoundTrip.{BuiltHello, build_client_hello-parse}
use connectcoin_p2c_tools.Examples.Sample
use connectcoin_p2c_tools.Examples.Runs.{proof_run}

parse_proof_iff_example :
    (parse_proof Sample.toy_sha256 Sample.encoded Sample.domain Sample.challenge ≡ ok Sample.proof)
    ↔ IsProof Sample.toy_sha256 Sample.domain Sample.challenge Sample.encoded Sample.proof
parse_proof_iff_example =
    parse_proof_iff Sample.toy_sha256 Sample.encoded Sample.domain Sample.challenge Sample.proof

parse_proof_total_example :
    ((p : ParsedProof) × (parse_proof Sample.toy_sha256 Sample.encoded Sample.domain
          Sample.challenge
        ≡ ok p))
    ⊎ (parse_proof Sample.toy_sha256 Sample.encoded Sample.domain Sample.challenge
        ≡ raises proof_format)
parse_proof_total_example =
    parse_proof_total Sample.toy_sha256 Sample.encoded Sample.domain Sample.challenge

parse_proof-messages_example :
    (Sample.encoded
      ≡ proof_version
        ∷ (Sample.client_message
            ++ (Sample.server_message
                ++ (Sample.encrypted_message
                    ++ (Sample.certificate_message ++ Sample.verify_message)))))
    × (Sample.proof.transcript_hash ≡ Sample.toy_sha256 Sample.transcript)
    × (Sample.proof.connection_work_hash ≡ tagged_hash Sample.toy_sha256 work_tag Sample.transcript)
parse_proof-messages_example =
    parse_proof-messages Sample.toy_sha256 Sample.encoded Sample.domain Sample.challenge
      Sample.proof proof_run

parse_proof-chain_example :
    (1 ≤ length (Sample.leaf ∷ []))
    × (length (Sample.leaf ∷ []) ≤ max_certificates)
    × All IsCertificateSize (Sample.leaf ∷ [])
parse_proof-chain_example =
    parse_proof-chain Sample.toy_sha256 Sample.encoded Sample.domain Sample.challenge Sample.proof
      proof_run

sample_domain-ascii : is_ascii Sample.domain ≡ true
unfolding is_ascii
sample_domain-ascii = refl

parse_client_hello_iff_example :
    (parse_client_hello Sample.client_body Sample.domain Sample.challenge ≡ ok Sample.client)
    ↔ ClientHelloBody Sample.domain Sample.challenge Sample.client Sample.client_body
parse_client_hello_iff_example =
    parse_client_hello_iff Sample.client_body Sample.domain Sample.challenge Sample.client
      sample_domain-ascii

parse_server_hello_iff_example :
    (parse_server_hello Sample.server_body Sample.client ≡ ok tt)
    ↔ ServerHelloBody Sample.client Sample.server_body
parse_server_hello_iff_example = parse_server_hello_iff Sample.server_body Sample.client

parse_certificate_iff_example :
    (parse_certificate Sample.certificate_body ≡ ok (Sample.leaf ∷ []))
    ↔ CertificateBody (Sample.leaf ∷ []) Sample.certificate_body
parse_certificate_iff_example = parse_certificate_iff Sample.certificate_body (Sample.leaf ∷ [])

signature_scheme_allowed-permits_example : signature_scheme_allowed 5 0x0809 ≡ ok (permits 5 0x0809)
signature_scheme_allowed-permits_example =
    signature_scheme_allowed-permits 5 0x0809 (omega arith) (omega arith)

sample_domain-canonical : is_canonical_domain Sample.domain ≡ true
unfolding is_canonical_domain is_label
sample_domain-canonical = refl

build_client_hello-parse_example :
    (message : Bytes) × (build_client_hello Sample.domain Sample.challenge Sample.client_key
        Sample.session 3
      ≡ ok message)
    × BuiltHello Sample.domain Sample.challenge Sample.session 3 message
build_client_hello-parse_example =
    build_client_hello-parse Sample.domain Sample.challenge Sample.client_key Sample.session 3
      sample_domain-canonical refl refl (omega arith) (omega arith) (omega arith) (omega arith)

is_canonical_domain_iff_example :
    (is_canonical_domain Sample.domain ≡ true) ↔ IsDomain Sample.domain
is_canonical_domain_iff_example = is_canonical_domain_iff Sample.domain

abbrev small_hash : Bytes
small_hash = 0x2c ∷ 0x01 ∷ replicate 30 0

abbrev small_display : List ℕ
small_display = to_hex (replicate 30 0 ++ (0x01 ∷ 0x2c ∷ []))

small_display-internal : display_hash_to_internal small_display ≡ ok small_hash
unfolding display_hash_to_internal all_hex_digits from_hex to_hex
small_display-internal = refl

display_hash_to_internal_iff_example : (display_hash_to_internal small_display ≡ ok small_hash) ↔ (
    (length small_hash ≡ 32)
    × AreBytes small_hash
    × (internal_hash_to_display small_hash ≡ ok small_display))
display_hash_to_internal_iff_example = display_hash_to_internal_iff small_display small_hash

meets_work_target-hex_number_example :
    meets_work_target small_hash small_display
    ≡ ok (leb (hex_number small_display) (hex_number small_display))
meets_work_target-hex_number_example =
    meets_work_target-hex_number small_hash small_hash small_display small_display
      small_display-internal small_display-internal

abbrev small_claim : Bytes
small_claim = small_hash ++ le_bytes 4 7

small_claim_run : claim_message small_display (int (pos 7)) ≡ ok small_claim
unfolding claim_message display_hash_to_internal all_hex_digits from_hex to_hex to_bytes_little
small_claim_run = refl

claim_message-injective_example : (small_display ≡ small_display) × (int (pos 7) ≡ int (pos 7))
claim_message-injective_example =
    claim_message-injective small_display small_display (int (pos 7)) (int (pos 7)) small_claim
      small_claim_run small_claim_run
