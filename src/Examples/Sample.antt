-- ===== src/Examples/Sample.antt =====
-- One whole proof for example.com, and a stand-in for SHA-256.
use connectcoin_p2c_tools.Common.{
  ℕ, ◌+◌, List, [], ◌∷◌, ◌++◌, length, replicate, Bytes, be_bytes, from_be,
}
use connectcoin_p2c_tools.Hashes.{codes, tagged_hash, work_tag}
use connectcoin_p2c_tools.Protocol.ClientHello.{ClientState}
use connectcoin_p2c_tools.Protocol.Proof.{ParsedProof}
use connectcoin_p2c_tools.Tls.Build.Encoding.{vector_16, handshake_bytes, join_bytes, list_bytes}

-- Any function to 32 bytes serves where nothing is said of the hash.
abbrev pub toy_sha256 : Bytes → Bytes
toy_sha256 m = be_bytes 32 (from_be m + length m)

abbrev pub domain : List ℕ
domain = codes "example.com"

abbrev pub challenge : Bytes
challenge = replicate 32 7

abbrev pub session : Bytes
session = replicate 32 9

abbrev pub client_key : Bytes
client_key = replicate 32 5

abbrev server_random : Bytes
server_random = replicate 32 3

abbrev pub server_key : Bytes
server_key = replicate 32 6

abbrev pub leaf : Bytes
leaf = 0x30 ∷ 0x01 ∷ 0x00 ∷ []

abbrev pub signature : Bytes
signature = 0xaa ∷ 0xbb ∷ []

abbrev pub client_offers : Bytes
client_offers = list_bytes (
    (0, vector_16 (0 ∷ vector_16 domain))
    ∷ (13, vector_16 (join_bytes (0x0403 ∷ 0x0804 ∷ [])))
    ∷ (43, 2 ∷ be_bytes 2 0x0304)
    ∷ (51, vector_16 (be_bytes 2 0x001d ++ vector_16 client_key))
    ∷ [])

abbrev pub client_body : Bytes
client_body =
    be_bytes 2 0x0303
    ++ (challenge
        ++ ((32 ∷ session)
            ++ (be_bytes 2 2 ++ (be_bytes 2 0x1301 ++ (1 ∷ 0 ∷ vector_16 client_offers)))))

abbrev pub client_message : Bytes
client_message = handshake_bytes 1 client_body

abbrev pub client : ClientState
client = record {
  cipher_suites = 0x1301 ∷ [];
  signature_algorithms = 0x0403 ∷ 0x0804 ∷ [];
  key_share_groups = 0x001d ∷ [];
  legacy_session_id = session;
}

abbrev server_share : Bytes
server_share = be_bytes 2 0x001d ++ vector_16 server_key

abbrev pub server_body : Bytes
server_body =
    be_bytes 2 0x0303
    ++ (server_random
        ++ ((32 ∷ session)
            ++ (be_bytes 2 0x1301
                ++ (0
                    ∷ vector_16 (list_bytes ((43, be_bytes 2 0x0304) ∷ (51, server_share) ∷ []))))))

abbrev pub server_message : Bytes
server_message = handshake_bytes 2 server_body

abbrev pub encrypted_message : Bytes
encrypted_message = handshake_bytes 8 (vector_16 [])

abbrev pub certificate_body : Bytes
certificate_body = 0 ∷ (be_bytes 3 8 ++ (be_bytes 3 3 ++ (leaf ++ (0 ∷ 0 ∷ []))))

abbrev pub certificate_message : Bytes
certificate_message = handshake_bytes 11 certificate_body

abbrev pub verify_body : Bytes
verify_body = be_bytes 2 0x0804 ++ vector_16 signature

abbrev pub verify_message : Bytes
verify_message = handshake_bytes 15 verify_body

abbrev pub transcript : Bytes
transcript = client_message ++ (server_message ++ (encrypted_message ++ certificate_message))

abbrev pub encoded : Bytes
encoded =
    2
    ∷ (client_message
        ++ (server_message ++ (encrypted_message ++ (certificate_message ++ verify_message))))

abbrev pub proof : ParsedProof
proof = record {
  client_hello = client_message;
  server_hello = server_message;
  encrypted_extensions = encrypted_message;
  certificate = certificate_message;
  certificate_verify = verify_message;
  certificate_chain = leaf ∷ [];
  certificate_verify_scheme = 0x0804;
  certificate_verify_signature = signature;
  transcript_hash = toy_sha256 transcript;
  connection_work_hash = tagged_hash toy_sha256 work_tag transcript;
}
