-- ===== src/Tls/Build/Sent.antt =====
-- The extensions that `build_client_hello` of src/connectcoin_p2c_tools/tls13.py sends.
use mathlib.Core.List.{flatten}
use connectcoin_p2c_tools.Common.{
  ℕ, ◌≤◌, ◌≡◌, refl, sym, ap, true, List, [], ◌∷◌, ◌++◌, inl, append-nil, arith, length, All, Bytes,
  be_bytes,
}
use connectcoin_p2c_tools.Common.Outcome.{ok, bind_ok}
use connectcoin_p2c_tools.Domain.{is_ascii}
use connectcoin_p2c_tools.Protocol.Constants.{
  group_x25519, tls_1_3, tls_aes_128_gcm_sha256, tls_chacha20_poly1305_sha256, ext_server_name,
  ext_signature_algorithms, ext_supported_versions, ext_key_share,
}
use connectcoin_p2c_tools.Protocol.Format.{ServerName, ShareBlock, ExtensionBlock, ClientOffers}
use connectcoin_p2c_tools.Protocol.Extensions.{Extensions, has_key, has_any, index}
use connectcoin_p2c_tools.Protocol.ClientHello.{ClientState}
use connectcoin_p2c_tools.Tls.Build.{
  ext_supported_groups, ext_signature_algorithms_cert, certificate_schemes, client_extensions,
}
use connectcoin_p2c_tools.Tls.Build.Encoding.{
  u16_bytes-ok, vector_16, Vector-vector_16, sized-ok, extension-ok, FitsU16, join_bytes,
  join_u16-ok, length-join_bytes, OfferList-join_bytes, FitExtensions, list_bytes,
  ExtensionList-list_bytes, length-list_bytes,
}

-- What the parser makes of the message.
abbrev pub client_state : List ℕ → Bytes → ClientState
client_state schemes session = record {
  cipher_suites = tls_aes_128_gcm_sha256 ∷ tls_chacha20_poly1305_sha256 ∷ [];
  signature_algorithms = schemes;
  key_share_groups = group_x25519 ∷ [];
  legacy_session_id = session;
}

module _ (domain : List ℕ) (schemes : List ℕ) (public_key : Bytes) where
  abbrev server_name : Bytes
  server_name = 0 ∷ vector_16 domain

  abbrev key_share_entry : Bytes
  key_share_entry = be_bytes 2 group_x25519 ++ vector_16 public_key

  -- The extensions that the client sends.
  abbrev pub sent : Extensions
  sent =
      (ext_server_name, vector_16 server_name)
      ∷ (ext_supported_groups, 0 ∷ 2 ∷ be_bytes 2 group_x25519)
      ∷ (ext_signature_algorithms, vector_16 (join_bytes schemes))
      ∷ (ext_signature_algorithms_cert, vector_16 (join_bytes certificate_schemes))
      ∷ (ext_supported_versions, 2 ∷ be_bytes 2 tls_1_3)
      ∷ (ext_key_share, vector_16 key_share_entry)
      ∷ []

  module _ (small : length domain ≤ 253) (fit : All FitsU16 schemes) (few : length schemes ≤ 3)
      (key : length public_key ≡ 32) where
    pub client_extensions-ok : client_extensions domain schemes public_key ≡ ok (list_bytes sent)
    unfolding client_extensions flatten
    client_extensions-ok = bind_ok _ (u16_bytes-ok (length domain) (omega arith)) (
        bind_ok _ (join_u16-ok schemes fit) (
          bind_ok _ (join_u16-ok certificate_schemes (omega arith)) (
            bind_ok _ (u16_bytes-ok group_x25519 (omega arith)) (
              bind_ok _ (u16_bytes-ok (length public_key) (omega arith)) (
                bind_ok _ (sized-ok server_name (omega arith)) (
                  bind_ok _
                    (extension-ok ext_server_name (vector_16 server_name) (omega arith)
                      (omega arith))
                    (bind_ok _
                      (extension-ok ext_supported_groups (0 ∷ 2 ∷ be_bytes 2 group_x25519)
                        (omega arith) (omega arith))
                      (bind_ok _
                        (sized-ok (join_bytes schemes) (omega (arith, length-join_bytes schemes)))
                        (bind_ok _
                          (extension-ok ext_signature_algorithms (vector_16 (join_bytes schemes))
                            (omega arith) (omega (arith, length-join_bytes schemes)))
                          (bind_ok _ (sized-ok (join_bytes certificate_schemes) (omega arith)) (
                            bind_ok _
                              (extension-ok ext_signature_algorithms_cert
                                (vector_16 (join_bytes certificate_schemes)) (omega arith)
                                (omega arith))
                              (bind_ok _ (u16_bytes-ok tls_1_3 (omega arith)) (
                                bind_ok _
                                  (extension-ok ext_supported_versions (2 ∷ be_bytes 2 tls_1_3)
                                    (omega arith) (omega arith))
                                  (bind_ok _ (sized-ok key_share_entry (omega arith)) (
                                    bind_ok _
                                      (extension-ok ext_key_share (vector_16 key_share_entry)
                                        (omega arith) (omega arith))
                                      refl)))))))))))))))

    pub length-sent : length (list_bytes sent) ≤ 1000
    length-sent = omega (arith, length-list_bytes sent, length-join_bytes schemes)

    fit_sent : FitExtensions sent
    fit_sent = (
      omega arith,
      omega arith,
      (
        omega arith,
        omega arith,
        (
          omega arith,
          omega (arith, length-join_bytes schemes),
          (omega arith, omega arith, (omega arith, omega arith, (omega arith, omega arith, tt))),
        ),
      ),
    )

    names_domain : ServerName domain (vector_16 server_name)
    names_domain = (
      server_name,
      vector_16 domain,
      Vector-vector_16 server_name (omega arith),
      refl,
      Vector-vector_16 domain (omega arith),
    )

    share_block : ShareBlock (group_x25519 ∷ []) (vector_16 key_share_entry)
    share_block = (
      key_share_entry,
      Vector-vector_16 key_share_entry (omega arith),
      omega arith,
      (
        be_bytes 2 group_x25519,
        vector_16 public_key,
        public_key,
        [],
        ap (λ (x : Bytes). be_bytes 2 group_x25519 ++ x) (sym (append-nil (vector_16 public_key))),
        (refl, refl),
        Vector-vector_16 public_key (omega arith),
        inl (refl, key),
        refl,
        refl,
      ),
    )

    pub offers :
        1 ≤ length schemes
        → is_ascii domain ≡ true
        → (session : Bytes) → ClientOffers sent domain (client_state schemes session)
    unfolding index has_any has_key
    offers some ascii session = record {
      server_name = vector_16 server_name;
      versions = 2 ∷ be_bytes 2 tls_1_3;
      signatures = vector_16 (join_bytes schemes);
      shares = vector_16 key_share_entry;
      offered = tls_1_3 ∷ [];
      server_name_at = refl;
      versions_at = refl;
      signatures_at = refl;
      shares_at = refl;
      none_forbidden = refl;
      names_domain = names_domain;
      domain_ascii = ascii;
      offers_versions = (
        be_bytes 2 tls_1_3,
        (2 ∷ [], refl, (refl, refl)),
        (be_bytes 2 tls_1_3, [], refl, (refl, refl), refl),
        omega arith,
      );
      offers_tls_1_3 = refl;
      offers_signatures = OfferList-join_bytes schemes fit some (omega arith);
      offers_shares = share_block;
    }

    pub extension_block : ExtensionBlock sent (vector_16 (list_bytes sent))
    unfolding has_key
    extension_block = (
      list_bytes sent,
      Vector-vector_16 (list_bytes sent) (omega (arith, length-sent)),
      ExtensionList-list_bytes sent fit_sent,
      (refl, (refl, (refl, (refl, (refl, (refl, tt)))))),
    )
