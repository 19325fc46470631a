-- ===== src/Protocol/Constants.antt =====
-- The constants of src/connectcoin_p2c_tools/protocol.py.
use connectcoin_p2c_tools.Common.{ℕ, ◌*◌, [], ◌∷◌, Bytes}

abbrev pub proof_version : ℕ
proof_version = 2

abbrev pub max_proof_size : ℕ
max_proof_size = 64 * 1024

abbrev pub max_certificate_message_size : ℕ
max_certificate_message_size = 48 * 1024

abbrev pub max_certificates : ℕ
max_certificates = 8

abbrev pub max_certificate_size : ℕ
max_certificate_size = 16 * 1024

-- Handshake types.
abbrev pub client_hello : ℕ
client_hello = 1

abbrev pub server_hello : ℕ
server_hello = 2

abbrev pub encrypted_extensions : ℕ
encrypted_extensions = 8

abbrev pub certificate : ℕ
certificate = 11

abbrev pub certificate_verify : ℕ
certificate_verify = 15

-- Extension types.
abbrev pub ext_server_name : ℕ
ext_server_name = 0

abbrev pub ext_signature_algorithms : ℕ
ext_signature_algorithms = 13

abbrev pub ext_compress_certificate : ℕ
ext_compress_certificate = 27

abbrev pub ext_pre_shared_key : ℕ
ext_pre_shared_key = 41

abbrev pub ext_early_data : ℕ
ext_early_data = 42

abbrev pub ext_supported_versions : ℕ
ext_supported_versions = 43

abbrev pub ext_cookie : ℕ
ext_cookie = 44

abbrev pub ext_psk_key_exchange_modes : ℕ
ext_psk_key_exchange_modes = 45

abbrev pub ext_key_share : ℕ
ext_key_share = 51

abbrev pub ext_encrypted_client_hello : ℕ
ext_encrypted_client_hello = 0xfe0d

-- Versions, cipher suites, signature schemes and groups.
abbrev pub tls_1_2 : ℕ
tls_1_2 = 0x0303

abbrev pub tls_1_3 : ℕ
tls_1_3 = 0x0304

abbrev pub tls_aes_128_gcm_sha256 : ℕ
tls_aes_128_gcm_sha256 = 0x1301

abbrev pub tls_chacha20_poly1305_sha256 : ℕ
tls_chacha20_poly1305_sha256 = 0x1303

abbrev pub ecdsa_secp256r1_sha256 : ℕ
ecdsa_secp256r1_sha256 = 0x0403

abbrev pub rsa_pss_rsae_sha256 : ℕ
rsa_pss_rsae_sha256 = 0x0804

abbrev pub rsa_pss_pss_sha256 : ℕ
rsa_pss_pss_sha256 = 0x0809

abbrev pub group_secp256r1 : ℕ
group_secp256r1 = 0x0017

abbrev pub group_x25519 : ℕ
group_x25519 = 0x001d

abbrev pub hello_retry_request_random : Bytes
hello_retry_request_random =
    0xcf ∷ 0x21 ∷ 0xad ∷ 0x74 ∷ 0xe5 ∷ 0x9a ∷ 0x61 ∷ 0x11 ∷ 0xbe ∷ 0x1d ∷ 0x8c ∷ 0x02 ∷ 0x1e ∷ 0x65
    ∷ 0xb8 ∷ 0x91 ∷ 0xc2 ∷ 0xa2 ∷ 0x11 ∷ 0x16 ∷ 0x7a ∷ 0xbb ∷ 0x8c ∷ 0x5e ∷ 0x07 ∷ 0x9e ∷ 0x09
    ∷ 0xe2 ∷ 0xc8 ∷ 0xa8 ∷ 0x33 ∷ 0x9c ∷ []
