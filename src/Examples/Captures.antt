-- ===== src/Examples/Captures.antt =====
-- The TLS client on records of the sample.
use mathlib.Core.List.{flatten}
use connectcoin_p2c_tools.Common.{
  ℕ, ◌≡◌, ◌++◌, refl, List, [], ◌∷◌, length, take, drop, replicate, Bytes, be_bytes, arith, ◌+◌,
}
use connectcoin_p2c_tools.Common.{true, ◌⊎◌, elem}
use connectcoin_p2c_tools.Common.Outcome.{raises, tls_generation}
use connectcoin_p2c_tools.Protocol.ServerHello.{sha256_suites}
use connectcoin_p2c_tools.Common.Ints.{to_bytes_big}
use connectcoin_p2c_tools.Protocol.Format.{Handshake}
use connectcoin_p2c_tools.Protocol.Extensions.{has_key, has_all, index}
use connectcoin_p2c_tools.Protocol.ServerHello
use connectcoin_p2c_tools.Protocol.ServerHello.{keys_within}
use connectcoin_p2c_tools.Tls.Build.{u16_bytes}
use connectcoin_p2c_tools.Tls.Build.Sent.{client_state}
use connectcoin_p2c_tools.Tls.ServerHello.{
  parse_server_hello, parse_body, byte_at, parse_extensions, parse_extension_loop, selected_key,
  first_byte_is,
}
use connectcoin_p2c_tools.Tls.ServerHello.Agreement.{parse_server_hello-accepted}
use connectcoin_p2c_tools.Tls.ServerHello.Outcomes.{parse_server_hello_total}
use connectcoin_p2c_tools.Examples.Sample.{server_message, session, server_key}
use connectcoin_p2c_tools.Common.Outcome.{Result, ok}
use connectcoin_p2c_tools.Tls.Keys.{hkdf_expand, derive_server_handshake_keys}
use connectcoin_p2c_tools.Tls.Keys.Sizes.{
  ReturnsBytes, hkdf_expand-ReturnsBytes, Derived, derive_server_handshake_keys-Derived,
}
use connectcoin_p2c_tools.Tls.Buffer.{TlsRecord, expected_messages, check_message, capture_loop}
use connectcoin_p2c_tools.Tls.Buffer.Drained.{Ready, none_left, one_more}
use connectcoin_p2c_tools.Tls.Buffer.Fragments.{delivered, ignored, opened, capture_loop-Delivers}
use connectcoin_p2c_tools.Examples.Sample.{encrypted_message, certificate_message, verify_message}

abbrev hmac : Bytes → Bytes → Bytes
hmac key message = be_bytes 32 (length key + length message)

abbrev sha256 : Bytes → Bytes
sha256 message = be_bytes 32 (length message)

hkdf_expand-ReturnsBytes_example : ReturnsBytes 42 (hkdf_expand hmac (1 ∷ []) (2 ∷ []) 42)
hkdf_expand-ReturnsBytes_example =
    hkdf_expand-ReturnsBytes hmac (λ key message. refl) (1 ∷ []) (2 ∷ []) 42 (omega arith)

derive_server_handshake_keys-Derived_example :
    Derived hmac
      (λ key message. refl)
      sha256
      (λ message. refl)
      0x1303
      (derive_server_handshake_keys hmac sha256 (replicate 32 1) [] 0x1303)
derive_server_handshake_keys-Derived_example =
    derive_server_handshake_keys-Derived hmac (λ key message. refl) sha256 (λ message. refl)
      (replicate 32 1) [] 0x1303

abbrev validate : Bytes → Result (Unit {0})
validate m = ok tt

-- Records that hold their plaintext.
abbrev decrypt : ℕ → Bytes → Bytes → Result (ℕ × Bytes)
decrypt n header fragment = ok (22, fragment)

abbrev handshake_data : Bytes
handshake_data = encrypted_message ++ (certificate_message ++ verify_message)

abbrev record_of : ℕ → Bytes → TlsRecord
record_of kind fragment = record { content_type = kind; header = []; fragment = fragment }

abbrev records : List TlsRecord
records =
    record_of 20 (1 ∷ [])
    ∷ record_of 23 (take 3 handshake_data)
    ∷ record_of 23 (drop 3 handshake_data)
    ∷ []

sample-Ready :
    Ready validate expected_messages (encrypted_message ∷ certificate_message ∷ verify_message ∷ [])
unfolding check_message
sample-Ready =
    one_more (omega arith, refl, omega arith) refl
      (one_more (omega arith, refl, omega arith) refl
        (one_more (omega arith, refl, omega arith) refl none_left))

sample_fragments : flatten (take 3 handshake_data ∷ drop 3 handshake_data ∷ []) ≡ handshake_data
unfolding flatten
sample_fragments = refl

capture_loop-Delivers_example :
    capture_loop validate decrypt tls_generation records 0 (record { captured = []; buffer = [] })
    ≡ ok (record {
      captured = encrypted_message ∷ certificate_message ∷ verify_message ∷ [];
      buffer = [];
    })
capture_loop-Delivers_example =
    capture_loop-Delivers validate decrypt tls_generation records
      (take 3 handshake_data ∷ drop 3 handshake_data ∷ []) encrypted_message certificate_message
      verify_message (ignored refl refl (opened refl refl (opened refl refl delivered)))
      sample-Ready sample_fragments (omega arith)

parse_server_hello_total_example :
    ((suite : ℕ) × (key : Bytes) × (parse_server_hello server_message session ≡ ok (suite, key))
      × (elem suite sha256_suites ≡ true)
      × (length key ≡ 32))
    ⊎ (parse_server_hello server_message session ≡ raises tls_generation)
parse_server_hello_total_example = parse_server_hello_total server_message session

server_message_read : parse_server_hello server_message session ≡ ok (0x1301, server_key)
unfolding parse_server_hello parse_body byte_at parse_extensions parse_extension_loop selected_key
    has_key keys_within has_all index u16_bytes to_bytes_big first_byte_is
server_message_read = refl

parse_server_hello-accepted_example :
    Handshake 2 (drop 4 server_message) server_message
    × (ServerHello.parse_server_hello (drop 4 server_message) (client_state (0x0804 ∷ []) session)
        ≡ ok tt)
parse_server_hello-accepted_example =
    parse_server_hello-accepted server_message session (0x0804 ∷ []) 0x1301 server_key
      server_message_read
