-- ===== src/Tls/Build/RoundTrip.antt =====
-- `build_client_hello` of src/connectcoin_p2c_tools/tls13.py, read by the parser of protocol.py.
use connectcoin_p2c_tools.Common.{
  ℕ, suc, ◌≤◌, ◌<◌, ◌≡◌, refl, ap, true, ◌&&◌, List, [], ◌∷◌, map, arith, if◌then◌else◌, leb,
  le→leb, eq→==, length, All, Bytes,
}
use connectcoin_p2c_tools.Common.Outcome.{ok, raises, value_error, bind_ok, require_ok}
use connectcoin_p2c_tools.Domain.{is_ascii, is_canonical_domain}
use connectcoin_p2c_tools.Signatures.{SignatureAlgorithm, accepted_signature_algorithms}
use connectcoin_p2c_tools.Signatures.Policy.{accepted_cases, validate-ok}
use connectcoin_p2c_tools.Protocol.Format.{Handshake}
use connectcoin_p2c_tools.Protocol.ClientHello.{parse_client_hello}
use connectcoin_p2c_tools.Protocol.ClientHello.Sound.{parse_client_hello_iff}
use connectcoin_p2c_tools.Tls.Build.{scheme_of, build_client_hello}
use connectcoin_p2c_tools.Tls.Build.Encoding.{Handshake-handshake_bytes, handshake_bytes, FitsU16}
use connectcoin_p2c_tools.Tls.Build.Hello.{body, length-body, client_message-ok, client_hello_body}
use connectcoin_p2c_tools.Tls.Build.Sent.{client_state, client_extensions-ok}

canonical_facts :
    (domain : List ℕ)
    → is_canonical_domain domain ≡ true
    → (is_ascii domain ≡ true) × (length domain ≤ 253)
unfolding is_canonical_domain
canonical_facts domain h = ground arith

fit_schemes :
    (accepted : List SignatureAlgorithm)
    → All (λ (a : SignatureAlgorithm). a.scheme < 65536) accepted
    → All FitsU16 (map scheme_of accepted)
fit_schemes [] h = tt
fit_schemes (a ∷ rest) h = (h.0, fit_schemes rest h.1)

length-schemes :
    (accepted : List SignatureAlgorithm) → length (map scheme_of accepted) ≡ length accepted
length-schemes [] = refl
length-schemes (a ∷ rest) = ap suc (length-schemes rest)

session_fits :
    (session : Bytes)
    → 1 ≤ length session
    → length session ≤ 32
    → (leb 1 (length session) && leb (length session) 32) ≡ true
session_fits session s1 s32 = rw (le→leb 1 (length session) s1, le→leb (length session) 32 s32) refl

encoded :
    (domain : List ℕ)
    → is_ascii domain ≡ true
    → (if is_ascii domain then ok domain else raises value_error) ≡ ok domain
encoded domain ascii = rw ascii refl

-- What a built message is: a ClientHello of a bounded size whose body the proof parser accepts,
-- with the offers that the mask permits.
pub record BuiltHello (domain : List ℕ) (challenge session : Bytes) (mask : ℕ) (message : Bytes)
    : Type 0 where
  pub body : Bytes
  pub accepted : List SignatureAlgorithm
  pub framed : Handshake 1 body message
  pub fits : length message ≤ 4096
  pub permitted : accepted_signature_algorithms mask ≡ ok accepted
  pub accepts :
      parse_client_hello body domain challenge ≡ ok (client_state (map scheme_of accepted) session)

-- For a canonical domain, a challenge and a key of 32 bytes, a session id of 1 to 32 bytes and a
-- mask of 1 to 7, the builder returns a ClientHello message of at most 4096 bytes whose body the
-- proof parser accepts for that domain and challenge, with the two cipher suites, the schemes that
-- the mask permits, the X25519 group and that session id.
pub build_client_hello-parse :
    (domain : List ℕ) (challenge public_key session : Bytes) (mask : ℕ)
    → is_canonical_domain domain ≡ true
    → length challenge ≡ 32
    → length public_key ≡ 32
    → 1 ≤ length session
    → length session ≤ 32
    → 1 ≤ mask
    → mask ≤ 7
    → (message : Bytes) × (build_client_hello domain challenge public_key session mask ≡ ok message)
      × BuiltHello domain challenge session mask message
unfolding build_client_hello
build_client_hello-parse domain challenge public_key session mask canonical c32 p32 s1 s32 m1 m7 =
    let (ascii, small) = canonical_facts domain canonical in
    let (accepted, permitted, some, few, fit) = accepted_cases mask m1 m7 in
    let schemes = map scheme_of accepted in
    let sf = fit_schemes accepted fit in
    let few' : length schemes ≤ 3 = omega (arith, length-schemes accepted) in
    let some' : 1 ≤ length schemes = omega (arith, length-schemes accepted) in
    let whole = body domain schemes public_key challenge session in
    let built =
      client_message-ok domain schemes public_key small sf few' p32 challenge session c32 s32 in
    let size = length-body domain schemes public_key small sf few' p32 challenge session c32 s32 in
    (
      handshake_bytes 1 whole,
      bind_ok _ (validate-ok mask m1 m7) (
          require_ok _ canonical (
            require_ok _ (eq→== _ _ c32) (
              require_ok _ (eq→== _ _ p32) (
                require_ok _ (session_fits session s1 s32) (
                  bind_ok _ (encoded domain ascii) (
                    bind_ok _ permitted (
                      bind_ok _ (client_extensions-ok domain schemes public_key small sf few' p32)
                        built))))))),
      record {
        body = whole;
        accepted = accepted;
        framed = Handshake-handshake_bytes 1 whole (omega (arith, size));
        fits = omega (arith, size);
        permitted = permitted;
        accepts =
            (parse_client_hello_iff whole domain challenge (client_state schemes session) ascii).1 (
              client_hello_body domain schemes public_key small sf few' p32 some' ascii challenge
                session c32 s32);
      },
    )
