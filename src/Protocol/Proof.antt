-- ===== src/Protocol/Proof.antt =====
-- `ParsedProof` and `parse_proof` of src/connectcoin_p2c_tools/protocol.py.
pub mod Sound
pub mod Accepts
pub mod Outcomes
use connectcoin_p2c_tools.Common.{
  ℕ, Bool, true, false, ◌||◌, not, List, [], ◌∷◌, ◌++◌, ltb, ◌==◌, if◌then◌else◌, length, is_empty,
  Bytes,
}
use connectcoin_p2c_tools.Common.Outcome
use connectcoin_p2c_tools.Common.Outcome.{Result, ok, raises, proof_format}
use connectcoin_p2c_tools.Domain.{is_canonical_domain}
use connectcoin_p2c_tools.Hashes.{connection_work_hash}
use connectcoin_p2c_tools.Protocol.Constants.{
  proof_version, max_proof_size, max_certificate_message_size, client_hello, server_hello,
  encrypted_extensions, certificate, certificate_verify,
}
use connectcoin_p2c_tools.Protocol.Reader.{
  Reading, pure, ◌>>=◌, ◌>>◌, require, lift, run, empty, u8,
}
use connectcoin_p2c_tools.Protocol.Extensions.{read_handshake}
use connectcoin_p2c_tools.Protocol.ClientHello.{ClientState, parse_client_hello}
use connectcoin_p2c_tools.Protocol.ServerHello.{parse_server_hello, parse_encrypted_extensions}
use connectcoin_p2c_tools.Protocol.Certificate.{parse_certificate, parse_certificate_verify}

pub record ParsedProof : Type 0 where
  pub client_hello : Bytes
  pub server_hello : Bytes
  pub encrypted_extensions : Bytes
  pub certificate : Bytes
  pub certificate_verify : Bytes
  pub certificate_chain : List Bytes
  pub certificate_verify_scheme : ℕ
  pub certificate_verify_signature : Bytes
  pub transcript_hash : Bytes
  pub connection_work_hash : Bytes

-- The five messages, each whole and as its body.
pub record Messages : Type 0 where
  pub client : Bytes × Bytes
  pub server : Bytes × Bytes
  pub encrypted : Bytes × Bytes
  pub certificate : Bytes × Bytes
  pub verify : Bytes × Bytes

unfoldable pub read_messages : Reading Messages
read_messages = do
  version ← u8
  require (version == proof_version)
  client ← read_handshake client_hello 4096
  server ← read_handshake server_hello 2048
  encrypted ← read_handshake encrypted_extensions 4096
  chain ← read_handshake certificate max_certificate_message_size
  verify ← read_handshake certificate_verify 8192
  done ← empty
  require done
  pure (record {
    client = client;
    server = server;
    encrypted = encrypted;
    certificate = chain;
    verify = verify;
  })

module _ (sha256 : Bytes → Bytes) where
  -- From the parsing of the bodies to the result.
  unfoldable pub finish_proof : Messages → List ℕ → Bytes → Result ParsedProof
  finish_proof m expected_domain expected_challenge =
      Outcome.◌>>=◌ (parse_client_hello m.client.1 expected_domain expected_challenge) λ client.
        Outcome.◌>>=◌ (parse_server_hello m.server.1 client) λ _.
          Outcome.◌>>=◌ (parse_encrypted_extensions m.encrypted.1) λ _.
            Outcome.◌>>=◌ (parse_certificate m.certificate.1) λ chain.
              Outcome.◌>>=◌ (parse_certificate_verify m.verify.1 client) λ (scheme, signature).
                Outcome.◌>>=◌
                  (connection_work_hash sha256
                    (m.client.0 ∷ m.server.0 ∷ m.encrypted.0 ∷ m.certificate.0 ∷ []))
                  λ work. ok (record {
                    client_hello = m.client.0;
                    server_hello = m.server.0;
                    encrypted_extensions = m.encrypted.0;
                    certificate = m.certificate.0;
                    certificate_verify = m.verify.0;
                    certificate_chain = chain;
                    certificate_verify_scheme = scheme;
                    certificate_verify_signature = signature;
                    transcript_hash =
                        sha256 (m.client.0 ++ (m.server.0 ++ (m.encrypted.0 ++ m.certificate.0)));
                    connection_work_hash = work;
                  })

  unfoldable pub parse_proof : Bytes → List ℕ → Bytes → Result ParsedProof
  parse_proof encoded expected_domain expected_challenge =
      if not (is_canonical_domain expected_domain)
      then raises proof_format
      else if not (length expected_challenge == 32)
      then raises proof_format
      else if is_empty encoded || ltb max_proof_size (length encoded)
      then raises proof_format
      else Outcome.◌>>=◌ (run read_messages encoded)
          λ m. finish_proof m expected_domain expected_challenge
