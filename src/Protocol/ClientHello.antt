-- ===== src/Protocol/ClientHello.antt =====
-- `_parse_sni`, `_valid_key_share` and `_parse_client_hello` of
-- src/connectcoin_p2c_tools/protocol.py.
pub mod KeyShares
pub mod Sni
pub mod Offers
pub mod Whole
pub mod Sound
use connectcoin_p2c_tools.Common.{
  ℕ, zero, suc, ◌+◌, ◌%◌, Bool, true, false, ◌&&◌, ◌||◌, not, List, [], ◌∷◌, ◌++◌, ltb, ◌==◌, ◌!=◌,
  if◌then◌else◌, length, bytes_eq, elem, Bytes, from_be,
}
use connectcoin_p2c_tools.Common.Outcome.{Result, ok, raises, value_error}
use connectcoin_p2c_tools.Domain.{is_ascii}
use connectcoin_p2c_tools.Protocol.Constants.{
  ext_server_name, ext_signature_algorithms, ext_compress_certificate, ext_pre_shared_key,
  ext_early_data, ext_supported_versions, ext_cookie, ext_psk_key_exchange_modes, ext_key_share,
  ext_encrypted_client_hello, tls_1_2, tls_1_3, group_secp256r1, group_x25519,
}
use connectcoin_p2c_tools.Protocol.Reader.{
  Reading, pure, ◌>>=◌, ◌>>◌, require, lift, run, remaining, empty, read, u8, u16, exhausted,
}
use connectcoin_p2c_tools.Protocol.Extensions.{Extensions, index, has_all, has_any, extensions}

pub record ClientState : Type 0 where
  pub cipher_suites : List ℕ
  pub signature_algorithms : List ℕ
  pub key_share_groups : List ℕ
  pub legacy_session_id : Bytes

-- `domain.encode("ascii")`
abbrev pub encode_ascii : List ℕ → Result Bytes
encode_ascii s = if is_ascii s then ok s else raises value_error

-- `b[offset : offset + 2]` as a number, for each second offset.
unfoldable pub u16_pairs : Bytes → List ℕ
u16_pairs [] = []
u16_pairs (a ∷ []) = from_be (a ∷ []) ∷ []
u16_pairs (a ∷ b ∷ bs) = from_be (a ∷ b ∷ []) ∷ u16_pairs bs

unfoldable pub sni_body : List ℕ → Reading (Unit {0})
sni_body expected_domain = do
  list_size ← u16
  left ← remaining
  require (list_size == left)
  name_type ← u8
  name_size ← u16
  name ← read name_size
  done ← empty
  require (not (name_type != 0 || not done))
  expected ← lift (encode_ascii expected_domain)
  require (bytes_eq name expected)
  pure tt

unfoldable pub parse_sni : Bytes → List ℕ → Result (Unit {0})
parse_sni encoded expected_domain = run (sni_body expected_domain) encoded

-- `exchange[0]` is read only where there are 65 bytes.
abbrev pub first_is : ℕ → Bytes → Bool
first_is v [] = false
first_is v (b ∷ bs) = b == v

unfoldable pub valid_key_share : ℕ → Bytes → Bool
valid_key_share group exchange =
    if group == group_x25519
    then length exchange == 32
    else group == group_secp256r1 && (length exchange == 65 && first_is 4 exchange)

unfoldable pub versions_body : Reading (List ℕ)
versions_body = do
  versions_size ← u8
  require (not (ltb versions_size 2 || versions_size % 2 != 0))
  versions ← read versions_size
  done ← empty
  require done
  pure (u16_pairs versions)

unfoldable pub offered_versions : Bytes → Result (List ℕ)
offered_versions encoded = run versions_body encoded

unfoldable pub signatures_body : Reading (List ℕ)
signatures_body = do
  signatures_size ← u16
  require (not (ltb signatures_size 2 || signatures_size % 2 != 0))
  signatures ← read signatures_size
  done ← empty
  require done
  pure (u16_pairs signatures)

unfoldable pub offered_signatures : Bytes → Result (List ℕ)
offered_signatures encoded = run signatures_body encoded

-- The loop over the key shares; `groups` are those before.
unfoldable pub share_loop : ℕ → List ℕ → Reading (List ℕ)
share_loop zero groups = exhausted
share_loop (suc fuel) groups = do
  done ← empty
  if done then pure groups else do
    group ← u16
    exchange_size ← u16
    require (exchange_size != 0)
    exchange ← read exchange_size
    require (not (not (valid_key_share group exchange) || elem group groups))
    share_loop fuel (groups ++ (group ∷ []))

unfoldable pub shares_body : Reading (List ℕ)
shares_body = do
  shares_size ← u16
  require (shares_size != 0)
  shares ← read shares_size
  done ← empty
  require done
  lift (run (share_loop (suc (length shares)) []) shares)

unfoldable pub offered_groups : Bytes → Result (List ℕ)
offered_groups encoded = run shares_body encoded

abbrev pub required : List ℕ
required = ext_server_name ∷ ext_supported_versions ∷ ext_signature_algorithms ∷ ext_key_share ∷ []

abbrev pub forbidden : List ℕ
forbidden =
    ext_compress_certificate ∷ ext_pre_shared_key ∷ ext_early_data ∷ ext_cookie
    ∷ ext_psk_key_exchange_modes ∷ ext_encrypted_client_hello ∷ []

-- From `required` to the end: what the extensions offer.
unfoldable pub client_offers : Extensions → List ℕ → List ℕ → Bytes → Reading ClientState
client_offers found domain cipher_suites session_id = do
  require (has_all required found)
  server_name ← lift (index found ext_server_name)
  _ ← lift (parse_sni server_name domain)
  require (not (has_any forbidden found))
  versions ← lift (index found ext_supported_versions)
  offered ← lift (offered_versions versions)
  require (elem tls_1_3 offered)
  signatures ← lift (index found ext_signature_algorithms)
  algorithms ← lift (offered_signatures signatures)
  shares ← lift (index found ext_key_share)
  groups ← lift (offered_groups shares)
  pure (record {
    cipher_suites = cipher_suites;
    signature_algorithms = algorithms;
    key_share_groups = groups;
    legacy_session_id = session_id;
  })

unfoldable pub client_body : List ℕ → Bytes → Reading ClientState
client_body domain challenge = do
  version ← u16
  require (version == tls_1_2)
  random ← read 32
  require (bytes_eq random challenge)
  session_size ← u8
  require (not (ltb 32 session_size))
  session_id ← read session_size
  cipher_size ← u16
  require (not (ltb cipher_size 2 || cipher_size % 2 != 0))
  encoded_ciphers ← read cipher_size
  compression_size ← u8
  compression ← read compression_size
  require (not (compression_size != 1 || not (bytes_eq compression (0 ∷ []))))
  found ← extensions
  done ← empty
  require done
  client_offers found domain (u16_pairs encoded_ciphers) session_id

unfoldable pub parse_client_hello : Bytes → List ℕ → Bytes → Result ClientState
parse_client_hello body domain challenge = run (client_body domain challenge) body
