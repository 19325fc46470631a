-- ===== src/Examples/Connections.antt =====
-- A connection whose records hold the messages of the sample, and the theorems on it.
use connectcoin_p2c_tools.Common.{
  ℕ, ◌≡◌, ◌≢◌, inl, refl, true, List, [], ◌∷◌, ◌++◌, some, Option, length, take, drop, replicate,
  Bytes, be_bytes, arith,
}
use connectcoin_p2c_tools.Common.Ints.{to_bytes_big}
use mathlib.Core.List.{flatten}
use connectcoin_p2c_tools.Tls.Capture.{
  raise_alert, plaintext_loop, proof_messages, check_proof, capture_encrypted,
}
use connectcoin_p2c_tools.Tls.Buffer.{pop_handshake, check_message, drain, absorb, capture_loop}
use connectcoin_p2c_tools.Tls.Records.{unpad}
use connectcoin_p2c_tools.Tls.ServerHello.{
  byte_at, parse_extension_loop, parse_extensions, selected_key, parse_body, first_byte_is,
  parse_server_hello,
}
use connectcoin_p2c_tools.Tls.Keys.{
  key_length, hkdf_extract, expand_loop, hkdf_expand, hkdf_expand_label, derive_secret,
  derive_server_handshake_keys,
}
use connectcoin_p2c_tools.Tls.Build.{
  u16_bytes, extension, handshake, join_u16, sized, client_extensions, client_message,
  build_client_hello,
}
use connectcoin_p2c_tools.Common.Ints.{to_bytes_little, single_byte}
use connectcoin_p2c_tools.Signatures.{
  validate_signature_algorithms_mask, accepted_signature_algorithms, signature_scheme_allowed,
}
use connectcoin_p2c_tools.Domain.{
  is_ascii, starts_with, ends_with, split, all_label_chars, is_label, all_labels,
  is_canonical_domain,
}
use connectcoin_p2c_tools.Protocol.Reader.{lift, run, remaining, empty, read, u8, u16, u24}
use connectcoin_p2c_tools.Protocol.Extensions.{
  has_key, index, has_all, has_any, read_handshake, extension_loop, extensions,
}
use connectcoin_p2c_tools.Protocol.ClientHello.{
  u16_pairs, sni_body, parse_sni, valid_key_share, versions_body, offered_versions, signatures_body,
  offered_signatures, share_loop, shares_body, offered_groups, client_offers, client_body,
  parse_client_hello,
}
use connectcoin_p2c_tools.Protocol.ServerHello.{
  keys_within, server_key_share, server_body, server_selection, encrypted_body,
  parse_encrypted_extensions,
}
use connectcoin_p2c_tools.Protocol.Certificate.{
  certificate_loop, certificate_body, parse_certificate, message_body, parse_certificate_message,
  verify_body, parse_certificate_verify,
}
use connectcoin_p2c_tools.Protocol.Proof.{read_messages, finish_proof, parse_proof}
use connectcoin_p2c_tools.Hashes.{tagged_hash, connection_work_hash}
use connectcoin_p2c_tools.Verify.Chain.{
  bit_length_loop, check_rsa_public_exponent, check_rsa_public_exponents, load_each,
  load_certificate_chain,
}
use connectcoin_p2c_tools.Common.Outcome.{Result, Ends, returns, ok, tls_generation}
use connectcoin_p2c_tools.Tls.Messages.{Endpoint, TlsProofMessages}
use connectcoin_p2c_tools.Tls.Build.{record_bytes}
use connectcoin_p2c_tools.Tls.Buffer.{TlsRecord}
use connectcoin_p2c_tools.Tls.Sockets.{Arrival, chunk, recv_record}
use connectcoin_p2c_tools.Tls.Sockets.Chunks.{
  AreChunks, no_chunks, a_chunk, sent, record_header, record_bytes-ok, recv_record-record_bytes,
}
use connectcoin_p2c_tools.Tls.Records.{record_nonce, decrypt_record}
use connectcoin_p2c_tools.Tls.Records.Nonces.{record_nonce-distinct, decrypt_record-padded}
use connectcoin_p2c_tools.Tls.Capture.{Client, capture_tls13_proof}
use connectcoin_p2c_tools.Tls.Capture.Captured.{
  IsClient, IsCaptureFailure, IsCapture, capture_tls13_proof-IsCapture,
}
use connectcoin_p2c_tools.Verify.Chain.{validate_certificate_message}
use connectcoin_p2c_tools.Examples.Sample
use connectcoin_p2c_tools.Examples.Certificates.{library}

-- A handshake record of the byte 1, in two chunks, with a byte behind it.
abbrev arrivals : List Arrival
arrivals = chunk (22 ∷ 3 ∷ []) ∷ chunk (3 ∷ 0 ∷ 1 ∷ 1 ∷ 9 ∷ []) ∷ []

recv_record-record_bytes_example :
    (after : List Arrival) × (recv_record arrivals
      ≡ ok (
        record { content_type = 22; header = record_header 22 0x0303 1; fragment = 1 ∷ [] },
        after,
      ))
    × (sent after ≡ 9 ∷ [])
    × AreChunks after
recv_record-record_bytes_example =
    recv_record-record_bytes 22 0x0303 (1 ∷ []) (9 ∷ []) arrivals (22 ∷ 3 ∷ 3 ∷ 0 ∷ 1 ∷ 1 ∷ [])
      (omega arith) (omega arith) (omega arith) (omega arith)
      (record_bytes-ok 22 0x0303 (1 ∷ []) (omega arith) (omega arith) (omega arith))
      (a_chunk (a_chunk no_chunks)) refl

abbrev iv : Bytes
iv = replicate 11 4 ++ (6 ∷ [])

abbrev nonce_of_3 : Bytes
nonce_of_3 = replicate 11 4 ++ (5 ∷ [])

nonce_is : record_nonce iv 3 ≡ ok nonce_of_3
unfolding record_nonce to_bytes_big
nonce_is = refl

next_nonce_is : record_nonce iv 4 ≡ ok (replicate 11 4 ++ (2 ∷ []))
unfolding record_nonce to_bytes_big
next_nonce_is = refl

record_nonce-distinct_example : nonce_of_3 ≢ replicate 11 4 ++ (2 ∷ [])
record_nonce-distinct_example =
    record_nonce-distinct iv 3 4 nonce_of_3 (replicate 11 4 ++ (2 ∷ [])) nonce_is next_nonce_is
      (λ e. absurd (omega (arith, e)))

-- The data of a record is its plaintext.
abbrev aead : ℕ → Bytes → Bytes → Bytes → Bytes → Option Bytes
aead suite key nonce ciphertext header = some ciphertext

decrypt_record-padded_example :
    decrypt_record aead 0x1301 [] iv 3 [] (8 ∷ 0 ∷ 22 ∷ 0 ∷ 0 ∷ []) ≡ ok (22, 8 ∷ 0 ∷ [])
decrypt_record-padded_example =
    decrypt_record-padded aead 0x1301 [] iv 3 [] (8 ∷ 0 ∷ 22 ∷ 0 ∷ 0 ∷ []) nonce_of_3 (8 ∷ 0 ∷ [])
      22 2 nonce_is (λ e. absurd (omega (arith, e))) refl

abbrev pub client : Client
client = record {
  sha256 = λ m. be_bytes 32 (length m);
  hmac = λ key m. be_bytes 32 (length m);
  aead = aead;
  public_key = Sample.client_key;
  exchange = λ key. some key;
  session_id = Sample.session;
  connect = ok tt;
  sendall = λ sent. ok tt;
}

pub client-IsClient : IsClient client
client-IsClient = record {
  hash_32 = λ m. refl;
  hmac_32 = λ key m. refl;
  key_size = refl;
  session_size = refl;
  connects = returns tt;
  sends = λ sent. returns tt;
}

abbrev pub endpoint : Endpoint
endpoint = record { family = 2; socket_type = 1; protocol = 6; address = 0x31 ∷ []; ip = 0x31 ∷ [] }

abbrev handshake_data : Bytes
handshake_data = Sample.encrypted_message ++ (Sample.certificate_message ++ Sample.verify_message)

abbrev record_of : ℕ → Bytes → TlsRecord
record_of kind fragment = record { content_type = kind; header = []; fragment = fragment }

-- ServerHello in two records, and the other messages in two records behind one for compatibility.
abbrev pub records : List TlsRecord
records =
    record_of 22 (take 9 Sample.server_message)
    ∷ record_of 22 (drop 9 Sample.server_message)
    ∷ record_of 20 (1 ∷ [])
    ∷ record_of 23 (take 5 handshake_data ++ (22 ∷ 0 ∷ []))
    ∷ record_of 23 (drop 5 handshake_data ++ (22 ∷ []))
    ∷ []

capture_tls13_proof-IsCapture_example :
    Ends
      (IsCaptureFailure library)
      (IsCapture client library endpoint Sample.domain Sample.challenge 7)
      (capture_tls13_proof client
        (validate_certificate_message library)
        endpoint
        Sample.domain
        Sample.challenge
        7
        true
        tls_generation
        records)
capture_tls13_proof-IsCapture_example =
    capture_tls13_proof-IsCapture client library client-IsClient endpoint Sample.domain
      Sample.challenge 7 true tls_generation records (inl refl)

-- The three messages of the server, as the capture returns them.
abbrev captured_messages : Result TlsProofMessages → List Bytes
captured_messages (ok m) =
    m.server_hello ∷ m.encrypted_extensions ∷ m.certificate ∷ m.certificate_verify ∷ []
captured_messages outcome = []

capture_run :
    captured_messages (
      capture_tls13_proof client
        (validate_certificate_message library)
        endpoint
        Sample.domain
        Sample.challenge
        7
        true
        tls_generation
        records)
    ≡ Sample.server_message ∷ Sample.encrypted_message ∷ Sample.certificate_message
      ∷ Sample.verify_message ∷ []
unfolding raise_alert plaintext_loop proof_messages check_proof capture_encrypted
    capture_tls13_proof pop_handshake check_message drain absorb capture_loop record_nonce unpad
    decrypt_record byte_at parse_extension_loop parse_extensions selected_key parse_body
    first_byte_is parse_server_hello key_length hkdf_extract expand_loop hkdf_expand
    hkdf_expand_label derive_secret derive_server_handshake_keys u16_bytes extension handshake
    record_bytes join_u16 sized client_extensions client_message build_client_hello to_bytes_big
    to_bytes_little single_byte validate_signature_algorithms_mask accepted_signature_algorithms
    signature_scheme_allowed is_ascii starts_with ends_with split all_label_chars is_label
    all_labels is_canonical_domain connectcoin_p2c_tools.Protocol.Reader.◌>>=◌
    connectcoin_p2c_tools.Protocol.Reader.require lift run remaining empty read u8 u16 u24
    connectcoin_p2c_tools.Protocol.Reader.captured has_key index has_all has_any read_handshake
    extension_loop extensions u16_pairs sni_body parse_sni valid_key_share versions_body
    offered_versions signatures_body offered_signatures share_loop shares_body offered_groups
    client_offers client_body parse_client_hello keys_within server_key_share server_body
    server_selection connectcoin_p2c_tools.Protocol.ServerHello.parse_server_hello encrypted_body
    parse_encrypted_extensions certificate_loop certificate_body parse_certificate message_body
    parse_certificate_message verify_body parse_certificate_verify read_messages finish_proof
    parse_proof tagged_hash connection_work_hash bit_length_loop check_rsa_public_exponent
    check_rsa_public_exponents load_each load_certificate_chain validate_certificate_message flatten
capture_run = refl
