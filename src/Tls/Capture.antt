-- ===== src/Tls/Capture.antt =====
-- `capture_tls13_proof` of src/connectcoin_p2c_tools/tls13.py, from the connection to the proof.
pub mod Loops
pub mod Outcomes
pub mod Captured
use connectcoin_p2c_tools.Common.{
  ℕ, ◌≡◌, Bool, List, [], ◌∷◌, ◌++◌, Option, none, some, ◌==◌, ◌!=◌, ◌&&◌, if◌then◌else◌, bytes_eq,
  is_empty, Bytes,
}
use connectcoin_p2c_tools.Common.Outcome.{
  Result, Exception, ok, raises, require, tls_generation, index_error, ◌>>=◌, ◌>>◌,
}
use connectcoin_p2c_tools.Common.Values.{int, pos}
use connectcoin_p2c_tools.Signatures.{validate_signature_algorithms_mask, signature_scheme_allowed}
use connectcoin_p2c_tools.Protocol.Proof.{ParsedProof, parse_proof}
use connectcoin_p2c_tools.Tls.Messages.{Endpoint, TlsProofMessages, encoded_proof}
use connectcoin_p2c_tools.Tls.Build.{build_client_hello, record_bytes}
use connectcoin_p2c_tools.Tls.ServerHello.{parse_server_hello}
use connectcoin_p2c_tools.Tls.Keys.{derive_server_handshake_keys}
use connectcoin_p2c_tools.Tls.Records.{decrypt_record}
use connectcoin_p2c_tools.Tls.Buffer.{
  TlsRecord, Capture, pop_handshake, capture_loop, content_change_cipher_spec, content_alert,
  content_handshake,
}

-- `_raise_alert`
unfoldable pub raise_alert {ℓ} : {A : Type ℓ} → Bytes → Result A
raise_alert (level ∷ description ∷ alert) = raises tls_generation
raise_alert alert = raises tls_generation

-- The loop up to ServerHello: the message, the bytes behind it, and the records not yet read. The
-- records are those that _recv_record returns, and `failure` what it raises after them.
unfoldable pub plaintext_loop :
    Exception → List TlsRecord → Bytes → Result (Bytes × Bytes × List TlsRecord)
plaintext_loop failure [] buffer = raises failure
plaintext_loop failure (r ∷ records) buffer =
    if r.content_type == content_change_cipher_spec && bytes_eq r.fragment (1 ∷ [])
    then plaintext_loop failure records buffer
    else if r.content_type == content_alert
    then raise_alert r.fragment
    else if r.content_type != content_handshake
    then raises tls_generation
    else (pop_handshake (buffer ++ r.fragment) >>= λ (popped, left). elim popped [
      | none ↦ plaintext_loop failure records left
      | some server_hello ↦ ok (server_hello, left, records)
    ])

-- The result, from `captured[0]`, `captured[1]` and `captured[2]`.
unfoldable pub proof_messages : Endpoint → Bytes → Bytes → List Bytes → Result TlsProofMessages
proof_messages endpoint client_hello server_hello (encrypted ∷ chain ∷ verify ∷ captured) =
    ok (record {
      client_hello = client_hello;
      server_hello = server_hello;
      encrypted_extensions = encrypted;
      certificate = chain;
      certificate_verify = verify;
      peer_ip = endpoint.ip;
    })
proof_messages endpoint client_hello server_hello captured = raises index_error

-- The ValueError of the exchange is raised again as TLSGenerationError.
abbrev pub exchanged : Option Bytes → Result Bytes
exchanged none = raises tls_generation
exchanged (some shared_secret) = ok shared_secret

-- What the client runs on: the hash, HMAC and AEAD, its public key and the exchange with its private
-- key (none where the key of the server is refused), its session id, and how connecting and sending
-- end.
pub record Client : Type 0 where
  pub sha256 : Bytes → Bytes
  pub hmac : Bytes → Bytes → Bytes
  pub aead : ℕ → Bytes → Bytes → Bytes → Bytes → Option Bytes
  pub public_key : Bytes
  pub exchange : Bytes → Option Bytes
  pub session_id : Bytes
  pub connect : Result (Unit {0})
  pub sendall : Bytes → Result (Unit {0})

-- `validate` is validate_certificate_message of verify.py.
module _ (c : Client) (validate : Bytes → Result (Unit {0})) where
  -- The client checks the proof that it will hand out.
  unfoldable pub check_proof : List ℕ → Bytes → ℕ → TlsProofMessages → Result (Unit {0})
  check_proof domain challenge mask result = do
    parsed ← parse_proof c.sha256 (encoded_proof result) domain challenge
    allowed ← signature_scheme_allowed mask parsed.certificate_verify_scheme
    require allowed tls_generation

  -- From the end of the first loop on.
  unfoldable pub capture_encrypted :
      Exception → Bytes → Bytes × Bytes × List TlsRecord → Result (List Bytes)
  capture_encrypted failure client_hello (server_hello, left, records) =
      require (is_empty left) tls_generation
      >> (parse_server_hello server_hello c.session_id >>= λ (cipher_suite, server_public_bytes).
          exchanged (c.exchange server_public_bytes) >>= λ shared_secret.
          derive_server_handshake_keys c.hmac c.sha256 shared_secret (client_hello ++ server_hello)
            cipher_suite
          >>= λ (key, iv).
              capture_loop validate (decrypt_record c.aead cipher_suite key iv) failure records 0
                (record { captured = []; buffer = [] })
              >>= λ done. ok done.captured)

  -- `usable_timeout` is whether the timeout is finite and positive.
  unfoldable pub capture_tls13_proof :
      Endpoint → List ℕ → Bytes → ℕ → Bool → Exception → List TlsRecord → Result TlsProofMessages
  capture_tls13_proof endpoint domain challenge mask usable_timeout failure records = do
    _ ← validate_signature_algorithms_mask (int (pos mask))
    require usable_timeout tls_generation
    client_hello ← build_client_hello domain challenge c.public_key c.session_id mask
    c.connect
    sent ← record_bytes content_handshake client_hello 0x0301
    c.sendall sent
    opened ← plaintext_loop failure records []
    captured ← capture_encrypted failure client_hello opened
    result ← proof_messages endpoint client_hello opened.0 captured
    check_proof domain challenge mask result
    ok result
