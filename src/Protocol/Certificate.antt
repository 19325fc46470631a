-- ===== src/Protocol/Certificate.antt =====
-- `_parse_certificate`, `parse_certificate_message` and `_parse_certificate_verify` of
-- src/connectcoin_p2c_tools/protocol.py.
pub mod Sound
pub mod Verify
use connectcoin_p2c_tools.Common.{
  ℕ, zero, suc, Bool, true, false, ◌&&◌, ◌||◌, not, List, [], ◌∷◌, ◌++◌, ltb, leb, ◌==◌, ◌!=◌,
  if◌then◌else◌, length, is_empty, elem, Bytes,
}
use connectcoin_p2c_tools.Common.Outcome.{Result, ok}
use connectcoin_p2c_tools.Protocol.Constants.{
  certificate, max_certificate_message_size, max_certificate_size, max_certificates,
  ecdsa_secp256r1_sha256, rsa_pss_rsae_sha256, rsa_pss_pss_sha256,
}
use connectcoin_p2c_tools.Protocol.Reader.{
  Reading, pure, ◌>>=◌, ◌>>◌, require, lift, run, remaining, empty, read, u8, u16, u24, exhausted,
}
use connectcoin_p2c_tools.Protocol.Extensions.{read_handshake}
use connectcoin_p2c_tools.Protocol.ClientHello.{ClientState}

-- The loop over the certificate entries; `result` are those before.
unfoldable pub certificate_loop : ℕ → List Bytes → Reading (List Bytes)
certificate_loop zero result = exhausted
certificate_loop (suc fuel) result = do
  done ← empty
  if done then pure result else do
    certificate_size ← u24
    require (leb 1 certificate_size && leb certificate_size max_certificate_size)
    certificate ← read certificate_size
    extension_size ← u16
    _ ← read extension_size
    require (not (ltb max_certificates (length (result ++ (certificate ∷ [])))))
    certificate_loop fuel (result ++ (certificate ∷ []))

unfoldable pub certificate_body : Reading (List Bytes)
certificate_body = do
  context_size ← u8
  context ← read context_size
  require (is_empty context)
  list_size ← u24
  left ← remaining
  require (not (list_size == 0 || list_size != left))
  entries ← read list_size
  lift (run (certificate_loop (suc (length entries)) []) entries)

unfoldable pub parse_certificate : Bytes → Result (List Bytes)
parse_certificate body = run certificate_body body

unfoldable pub message_body : Reading (List Bytes)
message_body = do
  (_, body) ← read_handshake certificate max_certificate_message_size
  done ← empty
  require done
  lift (parse_certificate body)

unfoldable pub parse_certificate_message : Bytes → Result (List Bytes)
parse_certificate_message message = run message_body message

abbrev pub verify_schemes : List ℕ
verify_schemes = ecdsa_secp256r1_sha256 ∷ rsa_pss_rsae_sha256 ∷ rsa_pss_pss_sha256 ∷ []

unfoldable pub verify_body : ClientState → Reading (ℕ × Bytes)
verify_body client = do
  scheme ← u16
  signature_size ← u16
  require (signature_size != 0)
  signature ← read signature_size
  done ← empty
  require done
  require (elem scheme verify_schemes)
  require (elem scheme client.signature_algorithms)
  pure (scheme, signature)

unfoldable pub parse_certificate_verify : Bytes → ClientState → Result (ℕ × Bytes)
parse_certificate_verify body client = run (verify_body client) body
