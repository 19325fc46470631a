-- ===== src/Examples/Runs.antt =====
-- Runs of the code on the sample.
use connectcoin_p2c_tools.Common.{◌≡◌, refl}
use connectcoin_p2c_tools.Common.Outcome.{ok}
use connectcoin_p2c_tools.Domain.{is_canonical_domain, is_label}
use connectcoin_p2c_tools.Hashes.{connection_work_hash, tagged_hash}
use mathlib.Core.List.{flatten}
use connectcoin_p2c_tools.Protocol.Reader.{
  ◌>>=◌, require, lift, run, remaining, empty, read, u8, u16, u24, captured,
}
use connectcoin_p2c_tools.Protocol.Extensions.{
  has_key, has_all, has_any, index, read_handshake, extensions, extension_loop,
}
use connectcoin_p2c_tools.Protocol.ClientHello.{
  parse_client_hello, client_body, client_offers, parse_sni, sni_body, offered_versions,
  versions_body, offered_signatures, signatures_body, offered_groups, shares_body, share_loop,
  valid_key_share, u16_pairs,
}
use connectcoin_p2c_tools.Protocol.ServerHello.{
  parse_server_hello, server_body, server_selection, server_key_share, keys_within,
  parse_encrypted_extensions, encrypted_body,
}
use connectcoin_p2c_tools.Protocol.Certificate.{
  parse_certificate, certificate_body, certificate_loop, parse_certificate_verify, verify_body,
}
use connectcoin_p2c_tools.Protocol.Proof.{parse_proof, read_messages, finish_proof}
use connectcoin_p2c_tools.Examples.Sample

client_hello_run :
    parse_client_hello Sample.client_body Sample.domain Sample.challenge ≡ ok Sample.client
unfolding parse_client_hello client_body client_offers parse_sni sni_body offered_versions
    versions_body offered_signatures signatures_body offered_groups shares_body share_loop
    valid_key_share u16_pairs extensions extension_loop has_key has_all has_any index ◌>>=◌ require
    lift run remaining empty read u8 u16 is_canonical_domain
client_hello_run = refl

pub proof_run :
    parse_proof Sample.toy_sha256 Sample.encoded Sample.domain Sample.challenge ≡ ok Sample.proof
unfolding parse_proof read_messages finish_proof read_handshake captured u24 parse_client_hello
    client_body client_offers parse_sni sni_body offered_versions versions_body offered_signatures
    signatures_body offered_groups shares_body share_loop valid_key_share u16_pairs extensions
    extension_loop has_key has_all has_any index ◌>>=◌ require lift run remaining empty read u8 u16
    is_canonical_domain parse_server_hello server_body server_selection server_key_share keys_within
    parse_encrypted_extensions encrypted_body parse_certificate certificate_body certificate_loop
    parse_certificate_verify verify_body connection_work_hash tagged_hash flatten is_label
proof_run = refl
