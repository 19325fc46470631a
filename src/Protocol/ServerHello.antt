-- ===== src/Protocol/ServerHello.antt =====
-- `_parse_server_hello` and `_parse_encrypted_extensions` of
-- src/connectcoin_p2c_tools/protocol.py.
pub mod Share
pub mod Sound
use connectcoin_p2c_tools.Common.{
  ℕ, Bool, true, false, ◌&&◌, ◌||◌, not, List, [], ◌∷◌, ltb, ◌==◌, ◌!=◌, if◌then◌else◌, bytes_eq,
  elem, Bytes, be_bytes,
}
use connectcoin_p2c_tools.Common.Outcome.{Result, ok}
use connectcoin_p2c_tools.Protocol.Constants.{
  ext_early_data, ext_supported_versions, ext_key_share, tls_1_2, tls_1_3, tls_aes_128_gcm_sha256,
  tls_chacha20_poly1305_sha256, hello_retry_request_random,
}
use connectcoin_p2c_tools.Protocol.Reader.{
  Reading, pure, ◌>>=◌, ◌>>◌, require, lift, run, empty, read, u8, u16,
}
use connectcoin_p2c_tools.Protocol.Extensions.{Extensions, has_key, has_all, index, extensions}
use connectcoin_p2c_tools.Protocol.ClientHello.{ClientState, valid_key_share}

-- Every key is one of `keys`.
unfoldable pub keys_within : List ℕ → Extensions → Bool
keys_within keys [] = true
keys_within keys ((k, v) ∷ d) = elem k keys && keys_within keys d

-- `set(d) == keys`
abbrev pub keys_are : List ℕ → Extensions → Bool
keys_are keys d = keys_within keys d && has_all keys d

abbrev pub sha256_suites : List ℕ
sha256_suites = tls_aes_128_gcm_sha256 ∷ tls_chacha20_poly1305_sha256 ∷ []

unfoldable pub server_key_share : ClientState → Reading (Unit {0})
server_key_share client = do
  group ← u16
  exchange_size ← u16
  require (exchange_size != 0)
  exchange ← read exchange_size
  done ← empty
  require (
      not (
        not done
        || (not (valid_key_share group exchange) || not (elem group client.key_share_groups))))
  pure tt

-- From `set(extensions)` on: what the extensions select.
unfoldable pub server_selection : ClientState → Extensions → Reading (Unit {0})
server_selection client found = do
  require (keys_are (ext_supported_versions ∷ ext_key_share ∷ []) found)
  version_chosen ← lift (index found ext_supported_versions)
  require (bytes_eq version_chosen (be_bytes 2 tls_1_3))
  share ← lift (index found ext_key_share)
  lift (run (server_key_share client) share)

unfoldable pub server_body : ClientState → Reading (Unit {0})
server_body client = do
  version ← u16
  require (version == tls_1_2)
  random ← read 32
  require (not (bytes_eq random hello_retry_request_random))
  session_size ← u8
  require (not (ltb 32 session_size))
  session_id ← read session_size
  require (bytes_eq session_id client.legacy_session_id)
  cipher_suite ← u16
  require (elem cipher_suite sha256_suites)
  require (elem cipher_suite client.cipher_suites)
  compression ← u8
  require (compression == 0)
  found ← extensions
  done ← empty
  require done
  server_selection client found

unfoldable pub parse_server_hello : Bytes → ClientState → Result (Unit {0})
parse_server_hello body client = run (server_body client) body

unfoldable pub encrypted_body : Reading (Unit {0})
encrypted_body = do
  found ← extensions
  done ← empty
  require done
  require (not (has_key ext_early_data found))
  pure tt

unfoldable pub parse_encrypted_extensions : Bytes → Result (Unit {0})
parse_encrypted_extensions body = run encrypted_body body
