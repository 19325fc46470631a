-- ===== src/Tls/Build.antt =====
-- The encoders and `build_client_hello` of src/connectcoin_p2c_tools/tls13.py.
pub mod Encoding
pub mod Sent
pub mod Hello
pub mod RoundTrip
use mathlib.Core.List.{flatten}
use connectcoin_p2c_tools.Common.{
  ℕ, Bool, true, false, ◌&&◌, List, [], ◌∷◌, ◌++◌, map, leb, ◌==◌, length, Bytes,
}
use connectcoin_p2c_tools.Common.Ints.{to_bytes_big, single_byte}
use connectcoin_p2c_tools.Common.Outcome.{Result, ok, require, tls_generation, ◌>>=◌, ◌>>◌}
use connectcoin_p2c_tools.Common.Values.{pos, int}
use connectcoin_p2c_tools.Domain.{is_canonical_domain}
use connectcoin_p2c_tools.Signatures.{
  validate_signature_algorithms_mask, accepted_signature_algorithms, SignatureAlgorithm,
}
use connectcoin_p2c_tools.Protocol.Constants.{
  ext_server_name, ext_signature_algorithms, ext_supported_versions, ext_key_share, tls_1_2,
  tls_1_3, tls_aes_128_gcm_sha256, tls_chacha20_poly1305_sha256, group_x25519,
}
use connectcoin_p2c_tools.Protocol.ClientHello.{encode_ascii}

abbrev pub ext_supported_groups : ℕ
ext_supported_groups = 10

abbrev pub ext_signature_algorithms_cert : ℕ
ext_signature_algorithms_cert = 50

-- `_u16`
unfoldable pub u16_bytes : ℕ → Result Bytes
u16_bytes value = to_bytes_big 2 value

-- `_extension`
unfoldable pub extension : ℕ → Bytes → Result Bytes
extension extension_type content = do
  kind ← u16_bytes extension_type
  size ← u16_bytes (length content)
  ok (kind ++ (size ++ content))

-- `_handshake`
unfoldable pub handshake : ℕ → Bytes → Result Bytes
handshake message_type body = do
  kind ← single_byte message_type
  size ← to_bytes_big 3 (length body)
  ok (kind ++ (size ++ body))

-- `_record`
unfoldable pub record_bytes : ℕ → Bytes → ℕ → Result Bytes
record_bytes content_type body legacy_version = do
  kind ← single_byte content_type
  version ← u16_bytes legacy_version
  size ← u16_bytes (length body)
  ok (kind ++ (version ++ (size ++ body)))

-- `b"".join(_u16(value) for value in values)`
unfoldable pub join_u16 : List ℕ → Result Bytes
join_u16 [] = ok []
join_u16 (value ∷ values) = do first ← u16_bytes value; rest ← join_u16 values; ok (first ++ rest)

-- `_u16(len(content)) + content`
unfoldable pub sized : Bytes → Result Bytes
sized content = do size ← u16_bytes (length content); ok (size ++ content)

-- What issuers may sign with; the mask of the output does not constrain it.
abbrev pub certificate_schemes : List ℕ
certificate_schemes =
    0x0403 ∷ 0x0503 ∷ 0x0603 ∷ 0x0804 ∷ 0x0805 ∷ 0x0806 ∷ 0x0809 ∷ 0x080a ∷ 0x080b ∷ 0x0401 ∷ 0x0501
    ∷ 0x0601 ∷ []

abbrev pub scheme_of : SignatureAlgorithm → ℕ
scheme_of a = a.scheme

-- `extensions`, from the encoded domain, the schemes that the mask permits and the key.
unfoldable pub client_extensions : Bytes → List ℕ → Bytes → Result Bytes
client_extensions encoded_domain schemes public_key = do
  domain_size ← u16_bytes (length encoded_domain)
  let server_name = 0 ∷ (domain_size ++ encoded_domain)
  signature_schemes ← join_u16 schemes
  certificate_signature_schemes ← join_u16 certificate_schemes
  group ← u16_bytes group_x25519
  key_size ← u16_bytes (length public_key)
  let key_share_entry = group ++ (key_size ++ public_key)
  e₁ ← extension ext_server_name (← sized server_name)
  e₂ ← extension ext_supported_groups (0 ∷ 2 ∷ group)
  e₃ ← extension ext_signature_algorithms (← sized signature_schemes)
  e₄ ← extension ext_signature_algorithms_cert (← sized certificate_signature_schemes)
  version ← u16_bytes tls_1_3
  e₅ ← extension ext_supported_versions (2 ∷ version)
  e₆ ← extension ext_key_share (← sized key_share_entry)
  ok (flatten (e₁ ∷ e₂ ∷ e₃ ∷ e₄ ∷ e₅ ∷ e₆ ∷ []))

-- From the cipher suites on.
unfoldable pub client_message : Bytes → Bytes → Bytes → Result Bytes
client_message challenge session_id extensions = do
  aes ← u16_bytes tls_aes_128_gcm_sha256
  chacha ← u16_bytes tls_chacha20_poly1305_sha256
  let cipher_suites = aes ++ chacha
  version ← u16_bytes tls_1_2
  session_size ← single_byte (length session_id)
  ciphers_size ← u16_bytes (length cipher_suites)
  extensions_size ← u16_bytes (length extensions)
  handshake 1 (
      flatten (
        version
        ∷ challenge
        ∷ session_size
        ∷ session_id
        ∷ ciphers_size
        ∷ cipher_suites
        ∷ (1 ∷ 0 ∷ [])
        ∷ extensions_size
        ∷ extensions
        ∷ []))

unfoldable pub build_client_hello : List ℕ → Bytes → Bytes → Bytes → ℕ → Result Bytes
build_client_hello domain challenge public_key session_id mask = do
  _ ← validate_signature_algorithms_mask (int (pos mask))
  require (is_canonical_domain domain) tls_generation
  require (length challenge == 32) tls_generation
  require (length public_key == 32) tls_generation
  require (leb 1 (length session_id) && leb (length session_id) 32) tls_generation
  encoded_domain ← encode_ascii domain
  accepted ← accepted_signature_algorithms mask
  extensions ← client_extensions encoded_domain (map scheme_of accepted) public_key
  client_message challenge session_id extensions
