-- ===== src/Examples/Generation.antt =====
-- A search that finds the proof of the sample, and the theorems of the generator on it.
use connectcoin_p2c_tools.Common.{
  ℕ, ◌==◌, ◌*◌, ◌≡◌, ◌↔◌, refl, Bool, false, List, [], ◌∷◌, Option, some, length,
}
use connectcoin_p2c_tools.Common.Outcome.{ok}
use connectcoin_p2c_tools.Domain.{is_canonical_domain, is_label}
use connectcoin_p2c_tools.Hashes.{
  codes, all_hex_digits, from_hex, to_hex, connection_work_hash, tagged_hash, claim_challenge,
  claim_message, display_hash_to_internal, internal_hash_to_display, meets_work_target,
}
use connectcoin_p2c_tools.Common.Ints.{to_bytes_little}
use mathlib.Core.List.{flatten}
use connectcoin_p2c_tools.Signatures.{
  validate_signature_algorithms_mask, accepted_signature_algorithms, signature_scheme_allowed,
}
use connectcoin_p2c_tools.Envelope.{
  ConnectionProof, construct, challenge, require_domain, require_hex, require_hex_text,
  require_uint, require_positive,
}
use connectcoin_p2c_tools.Protocol.Reader.{
  ◌>>=◌, require, lift, run, remaining, empty, read, u8, u16, u24, captured,
}
use connectcoin_p2c_tools.Protocol.Extensions.{
  has_key, has_all, has_any, index, read_handshake, extensions, extension_loop,
}
use connectcoin_p2c_tools.Protocol.ClientHello.{
  parse_client_hello, client_body, client_offers, parse_sni, sni_body, offered_versions,
  versions_body, offered_signatures, signatures_body, offered_groups, shares_body, share_loop,
  valid_key_share, u16_pairs,
}
use connectcoin_p2c_tools.Protocol.ServerHello.{
  parse_server_hello, server_body, server_selection, server_key_share, keys_within,
  parse_encrypted_extensions, encrypted_body,
}
use connectcoin_p2c_tools.Protocol.Certificate.{
  parse_certificate, certificate_body, certificate_loop, parse_certificate_verify, verify_body,
}
use connectcoin_p2c_tools.Protocol.Proof.{parse_proof, read_messages, finish_proof}
use connectcoin_p2c_tools.Tls.Messages.{Endpoint, TlsProofMessages}
use connectcoin_p2c_tools.Verify.Chain.{
  bit_length_loop, check_rsa_public_exponent, check_rsa_public_exponents, load_each,
  load_certificate_chain, load_roots, validate_root_bundle, check_times,
  check_supplied_certificate_times, verify_path,
}
use connectcoin_p2c_tools.Verify.Leaf.{
  check_leaf_usage, check_restrictions, verify_by_scheme, verify_certificate_signature,
}
use connectcoin_p2c_tools.Verify.Connection.{
  verify_certificates, verify_leaf, verify_connection_proof,
}
use connectcoin_p2c_tools.Generator.Options.{
  GenerationOptions, validate_options, Allowed, default_options, validate_options_iff,
}
use connectcoin_p2c_tools.Generator.Endpoints.{AddrInfo, endpoints_from, resolve_endpoints}
use connectcoin_p2c_tools.Generator.Search.{start, start_loop, start_attempts}
use connectcoin_p2c_tools.Generator.Search.Attempts.{
  GenerationResult, found, Round, settle, note_best, conclude, preflight, judge, try_capture,
  finish_done,
}
use connectcoin_p2c_tools.Generator.Search.Loop.{await, one_round, search}
use connectcoin_p2c_tools.Generator.Search.Verified.{IsFound}
use connectcoin_p2c_tools.Generator.Generate.{
  inputs_of, check_context, generate_connection_proof, generate_connection_proof-IsFound,
}
use connectcoin_p2c_tools.Examples.Sample
use connectcoin_p2c_tools.Examples.Certificates.{sevens, library, envelope}

validate_options_iff_example : (validate_options default_options ≡ ok tt) ↔ Allowed default_options
validate_options_iff_example = validate_options_iff default_options

abbrev pub context : ConnectionProof
context = record envelope { proof = [] }

abbrev options : GenerationOptions
options = record default_options { enforce_root_pin = false }

-- Two entries of one global address, and a private one.
abbrev addresses : List AddrInfo
addresses =
    record {
      family = 2;
      socket_type = 1;
      protocol = 6;
      host = codes "8.8.8.8";
      address = codes "8.8.8.8";
    }
    ∷ record {
      family = 2;
      socket_type = 1;
      protocol = 6;
      host = codes "10.0.0.1";
      address = codes "10.0.0.1";
    }
    ∷ record {
      family = 2;
      socket_type = 1;
      protocol = 6;
      host = codes "8.8.8.8";
      address = codes "8.8.8.8";
    }
    ∷ []

abbrev getaddrinfo : List ℕ → ℕ → Option (List AddrInfo)
getaddrinfo domain port = some addresses

abbrev ip_address : List ℕ → Option Bool
ip_address text = some (length text == 7)

abbrev pub peer : Endpoint
peer = record {
  family = 2;
  socket_type = 1;
  protocol = 6;
  address = codes "8.8.8.8";
  ip = codes "8.8.8.8";
}

abbrev capture : TlsProofMessages
capture = record {
  client_hello = Sample.client_message;
  server_hello = Sample.server_message;
  encrypted_extensions = Sample.encrypted_message;
  certificate = Sample.certificate_message;
  certificate_verify = Sample.verify_message;
  peer_ip = codes "8.8.8.8";
}

abbrev pub clock : ℕ → ℕ
clock n = n * 1000000000

abbrev rounds : List Round
rounds = ((1, ok capture) ∷ []) ∷ []

abbrev found_proof : GenerationResult
found_proof = record {
  envelope = envelope;
  attempts = 1;
  elapsed = 3000000000;
  peer_ip = codes "8.8.8.8";
}

generation_run :
    generate_connection_proof sevens library ip_address getaddrinfo clock context
      (some [])
      options
      rounds
    ≡ ok (found found_proof)
unfolding generate_connection_proof check_context validate_options
    validate_signature_algorithms_mask validate_root_bundle load_roots check_rsa_public_exponents
    check_rsa_public_exponent bit_length_loop resolve_endpoints endpoints_from search one_round
    start_attempts start_loop start await finish_done settle try_capture note_best judge preflight
    conclude construct require_domain require_hex require_hex_text require_uint require_positive
    challenge claim_challenge claim_message to_bytes_little display_hash_to_internal
    internal_hash_to_display all_hex_digits from_hex to_hex meets_work_target
    signature_scheme_allowed accepted_signature_algorithms verify_connection_proof
    verify_certificates verify_leaf load_certificate_chain load_each
    check_supplied_certificate_times check_times verify_path check_leaf_usage check_restrictions
    verify_by_scheme verify_certificate_signature parse_proof read_messages finish_proof
    read_handshake captured u24 parse_client_hello client_body client_offers parse_sni sni_body
    offered_versions versions_body offered_signatures signatures_body offered_groups shares_body
    share_loop valid_key_share u16_pairs extensions extension_loop has_key has_all has_any index
    ◌>>=◌ require lift run remaining empty read u8 u16 is_canonical_domain parse_server_hello
    server_body server_selection server_key_share keys_within parse_encrypted_extensions
    encrypted_body parse_certificate certificate_body certificate_loop parse_certificate_verify
    verify_body connection_work_hash tagged_hash flatten is_label
generation_run = refl

generate_connection_proof-IsFound_example :
    (endpoints : List Endpoint) × (resolve_endpoints ip_address false getaddrinfo Sample.domain 443
      ≡ ok endpoints)
    × Allowed options
    × (context.proof ≡ [])
    × IsFound
        (inputs_of sevens library ip_address getaddrinfo clock context (some []) options endpoints)
        rounds
        found_proof
generate_connection_proof-IsFound_example =
    generate_connection_proof-IsFound sevens library ip_address getaddrinfo clock context (some [])
      options rounds found_proof generation_run
