-- ===== src/Tls/Build/Hello.antt =====
-- The body that `build_client_hello` of src/connectcoin_p2c_tools/tls13.py puts into its message.
use mathlib.Core.List.{flatten}
use connectcoin_p2c_tools.Common.{
  ℕ, ◌≤◌, ◌≡◌, refl, true, List, [], ◌∷◌, ◌++◌, append-nil, arith, length, All, length-append,
  Bytes, be_bytes,
}
use connectcoin_p2c_tools.Common.Outcome.{ok, bind_ok}
use connectcoin_p2c_tools.Domain.{is_ascii}
use connectcoin_p2c_tools.Protocol.Constants.{
  tls_1_2, tls_aes_128_gcm_sha256, tls_chacha20_poly1305_sha256,
}
use connectcoin_p2c_tools.Protocol.Format.{ClientHelloBody}
use connectcoin_p2c_tools.Tls.Build.{client_message}
use connectcoin_p2c_tools.Tls.Build.Encoding.{
  u16_bytes-ok, single_byte-ok, vector_16, handshake_bytes, handshake-ok, FitsU16, list_bytes,
}
use connectcoin_p2c_tools.Tls.Build.Sent.{client_state, sent, length-sent, extension_block, offers}

module _ (domain : List ℕ) (schemes : List ℕ) (public_key : Bytes) where
  abbrev extension_bytes : Bytes
  extension_bytes = list_bytes (sent domain schemes public_key)

  -- The body of the message.
  abbrev pub body : Bytes → Bytes → Bytes
  body challenge session =
      be_bytes 2 tls_1_2
      ++ (challenge
          ++ ((length session ∷ [])
              ++ (session
                  ++ (be_bytes 2 4
                      ++ ((be_bytes 2 tls_aes_128_gcm_sha256
                            ++ be_bytes 2 tls_chacha20_poly1305_sha256)
                          ++ ((1 ∷ 0 ∷ [])
                              ++ (be_bytes 2 (length extension_bytes)
                                  ++ (extension_bytes ++ []))))))))

  module _ (small : length domain ≤ 253) (fit : All FitsU16 schemes) (few : length schemes ≤ 3)
      (key : length public_key ≡ 32) where
    pub length-body :
        (challenge session : Bytes)
        → length challenge ≡ 32
        → length session ≤ 32
        → length (body challenge session) ≤ 1100
    length-body challenge session h k = omega (
      arith,
      length-sent domain schemes public_key small fit few key,
      length-append challenge ((length session ∷ []) ++ after),
      length-append session tail,
      length-append extension_bytes [],
    )
      where
        tail : Bytes
        tail =
            be_bytes 2 4
            ++ ((be_bytes 2 tls_aes_128_gcm_sha256 ++ be_bytes 2 tls_chacha20_poly1305_sha256)
                ++ ((1 ∷ 0 ∷ [])
                    ++ (be_bytes 2 (length extension_bytes) ++ (extension_bytes ++ []))))

        after : Bytes
        after = session ++ tail

    pub client_message-ok :
        (challenge session : Bytes)
        → length challenge ≡ 32
        → length session ≤ 32
        → client_message challenge session extension_bytes
          ≡ ok (handshake_bytes 1 (body challenge session))
    unfolding client_message flatten
    client_message-ok challenge session h k =
        bind_ok _ (u16_bytes-ok tls_aes_128_gcm_sha256 (omega arith)) (
          bind_ok _ (u16_bytes-ok tls_chacha20_poly1305_sha256 (omega arith)) (
            bind_ok _ (u16_bytes-ok tls_1_2 (omega arith)) (
              bind_ok _ (single_byte-ok (length session) (omega arith)) (
                bind_ok _ (u16_bytes-ok 4 (omega arith)) (
                  bind_ok _
                    (u16_bytes-ok (length extension_bytes)
                      (omega (arith, length-sent domain schemes public_key small fit few key)))
                    (handshake-ok 1 (body challenge session) (omega arith)
                      (omega (arith, length-body challenge session h k))))))))

    pub client_hello_body :
        1 ≤ length schemes
        → is_ascii domain ≡ true
        → (challenge session : Bytes) → length challenge ≡ 32
        → length session ≤ 32
        → ClientHelloBody domain challenge (client_state schemes session) (body challenge session)
    client_hello_body some ascii challenge session h k = record {
      version = be_bytes 2 tls_1_2;
      ciphers =
          vector_16 (be_bytes 2 tls_aes_128_gcm_sha256 ++ be_bytes 2 tls_chacha20_poly1305_sha256);
      block = vector_16 extension_bytes;
      found = sent domain schemes public_key;
      layout = rw (append-nil extension_bytes) refl;
      is_tls_1_2 = (refl, refl);
      challenge_size = h;
      session_size = k;
      offers_ciphers = (
        be_bytes 2 tls_aes_128_gcm_sha256 ++ be_bytes 2 tls_chacha20_poly1305_sha256,
        (be_bytes 2 4, refl, (refl, refl)),
        (
          be_bytes 2 tls_aes_128_gcm_sha256,
          be_bytes 2 tls_chacha20_poly1305_sha256,
          refl,
          (refl, refl),
          (be_bytes 2 tls_chacha20_poly1305_sha256, [], refl, (refl, refl), refl),
        ),
        omega arith,
      );
      extension_block = extension_block domain schemes public_key small fit few key;
      offers = offers domain schemes public_key small fit few key some ascii session;
    }
