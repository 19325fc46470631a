-- ===== src/Tls/Capture/Captured.antt =====
-- What capture_tls13_proof of src/connectcoin_p2c_tools/tls13.py returns, and how else it ends.
use connectcoin_p2c_tools.Common.{
  ℕ, ◌≤◌, ◌≡◌, refl, sym, ap, ◌∙◌, inl, inr, Bool, true, List, [], ◌∷◌, ◌++◌, Option, none, some,
  ◌==◌, is_empty, length, Bytes, arith,
}
use connectcoin_p2c_tools.Common.Outcome.{
  Result, Exception, ok, raises, tls_generation, Ends, returns, stops, Ends-bind, Ends-require,
  Ends-test, Ends-equation, Ensures-Ends, require_inv,
}
use connectcoin_p2c_tools.Signatures.Policy.{permits, signature_scheme_allowed-permits}
use connectcoin_p2c_tools.Protocol.Constants.{certificate}
use connectcoin_p2c_tools.Protocol.Proof.{ParsedProof, parse_proof}
use connectcoin_p2c_tools.Protocol.Proof.Accepts.{parse_proof-Ensures}
use connectcoin_p2c_tools.Verify.X509.{X509}
use connectcoin_p2c_tools.Verify.Chain.Trusted.{Escapes}
use connectcoin_p2c_tools.Verify.Chain.{validate_certificate_message}
use connectcoin_p2c_tools.Tls.Messages.{Endpoint, TlsProofMessages, encoded_proof}
use connectcoin_p2c_tools.Tls.Buffer.{TlsRecord, rewrap, check_message}
use connectcoin_p2c_tools.Tls.Build.{build_client_hello}
use connectcoin_p2c_tools.Tls.ServerHello.Outcomes.{parse_server_hello_total}
use connectcoin_p2c_tools.Tls.ServerHello.{parse_server_hello}
use connectcoin_p2c_tools.Tls.Keys.{derive_server_handshake_keys}
use connectcoin_p2c_tools.Tls.Keys.Sizes.{derive_server_handshake_keys-Derived}
use connectcoin_p2c_tools.Tls.Capture.{
  Client, proof_messages, exchanged, check_proof, capture_encrypted, capture_tls13_proof,
}
use connectcoin_p2c_tools.Tls.Capture.Loops.{
  IsCaptureError, OrElse, or_else, refused, decrypt_record-Ends, none_checked, one_checked,
  IsCaptured, capture_loop-Ends,
}
use connectcoin_p2c_tools.Tls.Capture.Outcomes.{
  validate-Ends, mask-Ends, record-Ends, plaintext_loop-Ends, build_client_hello-Ends,
}

-- What the packages promise: digests of 32 bytes, keys and session ids of their sizes, and sockets
-- that raise OSError, or are over the deadline.
pub record IsClient (c : Client) : Type 0 where
  pub hash_32 : (m : Bytes) → length (c.sha256 m) ≡ 32
  pub hmac_32 : (key m : Bytes) → length (c.hmac key m) ≡ 32
  pub key_size : length c.public_key ≡ 32
  pub session_size : length c.session_id ≡ 32
  pub connects : Ends IsCaptureError (λ _. Unit {0}) c.connect
  pub sends : (sent : Bytes) → Ends IsCaptureError (λ _. Unit {0}) (c.sendall sent)

-- A capture: it holds the ClientHello of the claim and the address of the endpoint, its chain
-- loads, and its encoded proof is accepted with a scheme that the mask permits.
pub record IsCapture (c : Client) (x : X509) (endpoint : Endpoint) (domain : List ℕ)
    (challenge : Bytes) (mask : ℕ) (result : TlsProofMessages) : Type 0 where
  pub built :
      build_client_hello domain challenge c.public_key c.session_id mask ≡ ok result.client_hello
  pub address : result.peer_ip ≡ endpoint.ip
  pub chain : validate_certificate_message x result.certificate ≡ ok tt
  pub parsed : ParsedProof
  pub parses : parse_proof c.sha256 (encoded_proof result) domain challenge ≡ ok parsed
  pub permitted : permits mask parsed.certificate_verify_scheme ≡ true

-- The exceptions of a capture: those of the client, and what loading a certificate raised that is
-- no ValueError.
abbrev pub IsCaptureFailure : X509 → Exception → Type 0
IsCaptureFailure x = OrElse (Escapes x.load_der)

module _ (c : Client) (x : X509) (good : IsClient c) where
  abbrev validate : Bytes → Result (Unit {0})
  validate message = validate_certificate_message x message

  abbrev Y : Exception → Type 0
  Y = Escapes x.load_der

  rewrap_inv : (r : Result (Unit {0})) → rewrap r ≡ ok tt → r ≡ ok tt
  rewrap_inv (ok u) h = refl
  rewrap_inv (raises Exception.proof_format) h = cc
  rewrap_inv (raises Exception.proof_verification) h = cc
  rewrap_inv (raises Exception.tls_generation) h = cc
  rewrap_inv (raises Exception.generation) h = cc
  rewrap_inv (raises Exception.value_error) h = cc
  rewrap_inv (raises Exception.key_error) h = cc
  rewrap_inv (raises Exception.index_error) h = cc
  rewrap_inv (raises Exception.overflow_error) h = cc
  rewrap_inv (raises Exception.os_error) h = cc
  rewrap_inv (raises Exception.unicode_error) h = cc
  rewrap_inv (raises Exception.json_decode_error) h = cc
  rewrap_inv (raises Exception.recursion_error) h = cc
  rewrap_inv (raises Exception.invalid_version) h = cc
  rewrap_inv Result.out_of_fuel h = cc

  check_message-chain :
      (m : Bytes) → check_message validate certificate m ≡ ok tt → validate m ≡ ok tt
  unfolding check_message
  check_message-chain [] h = cc
  check_message-chain (b ∷ m) h =
      rewrap_inv (validate (b ∷ m))
        (require_inv (b == certificate) tls_generation (rewrap (validate (b ∷ m))) h).1

  exchanged-Ends : (o : Option Bytes) → Ends IsCaptureError (λ _. Unit {0}) (exchanged o)
  exchanged-Ends none = stops refused
  exchanged-Ends (some secret) = returns tt

  server_hello-Ends :
      (message : Bytes)
      → Ends IsCaptureError (λ _. Unit {0}) (parse_server_hello message c.session_id)
  server_hello-Ends message = elim (parse_server_hello_total message c.session_id) [
    | inl (suite, key, e, known, size) ↦ rw e (returns tt)
    | inr e ↦ rw e (stops refused)
  ]

  keys-Ends :
      (secret transcript : Bytes) (suite : ℕ)
      → Ends IsCaptureError
          (λ (keys : Bytes × Bytes). length keys.1 ≡ 12)
          (derive_server_handshake_keys c.hmac c.sha256 secret transcript suite)
  keys-Ends secret transcript suite =
      elim (derive_server_handshake_keys-Derived c.hmac good.hmac_32 c.sha256 good.hash_32 secret
        transcript suite) [
          | inl (key, iv, e, _, size) ↦ rw e (returns size)
          | inr (e, p, q) ↦ rw e (stops refused)
        ]

  capture_encrypted-Ends :
      (failure : Exception) (client_hello server_hello left : Bytes) (rs : List TlsRecord)
      → IsCaptureError failure
      → Ends
          (IsCaptureFailure x)
          (IsCaptured validate (Escapes x.load_der) (validate-Ends x))
          (capture_encrypted c validate failure client_hello (server_hello, left, rs))
  unfolding capture_encrypted
  capture_encrypted-Ends failure client_hello server_hello left rs fails =
      Ends-require (is_empty left) tls_generation (inl refused) λ alone.
        Ends-bind (or_else Y (server_hello-Ends server_hello)) λ (suite, public) _.
          Ends-bind (or_else Y (exchanged-Ends (c.exchange public))) λ secret _.
            Ends-bind (or_else Y (keys-Ends secret (client_hello ++ server_hello) suite))
              λ (key, iv) size.
                Ends-bind
                  (capture_loop-Ends validate (Escapes x.load_der) (validate-Ends x) _ failure
                    (λ n header fragment.
                      decrypt_record-Ends c.aead suite key iv n header fragment size)
                    fails rs 0 (record { captured = []; buffer = [] }) none_checked)
                  λ done all. returns all

  module _ (endpoint : Endpoint) (domain : List ℕ) (challenge : Bytes) (mask : ℕ) where
    abbrev Carries : Bytes → TlsProofMessages → Type 0
    Carries client_hello result =
        (result.client_hello ≡ client_hello)
        × (result.peer_ip ≡ endpoint.ip)
        × (validate_certificate_message x result.certificate ≡ ok tt)

    proof_messages-Ends :
        (client_hello server_hello : Bytes) (captured : List Bytes)
        → IsCaptured validate (Escapes x.load_der) (validate-Ends x) captured
        → Ends
            (IsCaptureFailure x)
            (Carries client_hello)
            (proof_messages endpoint client_hello server_hello captured)
    unfolding proof_messages
    proof_messages-Ends ch sh [] (h, few) = absurd (omega (arith, few))
    proof_messages-Ends ch sh (e ∷ []) (h, few) = absurd (omega (arith, few))
    proof_messages-Ends ch sh (e ∷ m ∷ []) (h, few) = absurd (omega (arith, few))
    proof_messages-Ends ch sh (e ∷ m ∷ v ∷ ms) (one_checked first (one_checked second third), few) =
        returns (refl, refl, check_message-chain m second)

    check_proof-Ends :
        (result : TlsProofMessages)
        → 1 ≤ mask
        → mask ≤ 7
        → Ends IsCaptureError
            (λ _.
              (p : ParsedProof) × (parse_proof c.sha256 (encoded_proof result) domain challenge
                ≡ ok p)
              × (permits mask p.certificate_verify_scheme ≡ true))
            (check_proof c validate domain challenge mask result)
    unfolding check_proof
    check_proof-Ends result low high =
        Ends-bind
          (Ends-equation (
            Ensures-Ends {E = IsCaptureError} (inr (inl refl))
              (parse_proof-Ensures c.sha256 (encoded_proof result) domain challenge)))
          λ p (parses, _).
            let scheme = p.certificate_verify_scheme in
            rw (signature_scheme_allowed-permits mask scheme low high)
              (Ends-test (permits mask scheme) tls_generation refused λ h. (p, parses, h))

    -- With digests of 32 bytes, a key and a session id of 32 bytes and sockets that fail by
    -- OSError or the deadline, a capture on every sequence of records ends: it raises
    -- TLSGenerationError, ProofFormatError, OSError or what loading a certificate raised that is
    -- no ValueError, or returns the ClientHello that it built and the address of the endpoint with
    -- a Certificate message that loads and an encoded proof that the proof parser accepts for the
    -- domain and the challenge, with a scheme that the mask permits.
    pub capture_tls13_proof-IsCapture :
        (usable_timeout : Bool) (failure : Exception) (rs : List TlsRecord)
        → IsCaptureError failure
        → Ends (IsCaptureFailure x) (IsCapture c x endpoint domain challenge mask) (
            capture_tls13_proof c validate endpoint domain challenge mask usable_timeout failure rs)
    unfolding capture_tls13_proof
    capture_tls13_proof-IsCapture usable_timeout failure rs fails =
        Ends-bind (or_else Y (mask-Ends mask)) λ _ (low, high).
          Ends-require usable_timeout tls_generation (inl refused) λ _.
            Ends-bind
              (or_else Y (
                Ends-equation (
                  build_client_hello-Ends c.public_key c.session_id good.key_size
                    (omega (arith, good.session_size)) (omega (arith, good.session_size)) domain
                    challenge mask low high)))
              λ client_hello (built, small). Ends-bind (or_else Y good.connects) λ _ _.
                Ends-bind (or_else Y (record-Ends client_hello small)) λ sent _.
                  Ends-bind (or_else Y (good.sends sent)) λ _ _.
                    Ends-bind (or_else Y (plaintext_loop-Ends failure fails rs []))
                      λ (server_hello, left, others) _.
                        Ends-bind
                          (capture_encrypted-Ends failure client_hello server_hello left others
                            fails)
                          λ captured all.
                            Ends-bind (proof_messages-Ends client_hello server_hello captured all)
                              λ result (same, address, chain).
                                Ends-bind (or_else Y (check_proof-Ends result low high))
                                  λ _ (parsed, parses, permitted). returns (record {
                                    built = built ∙ ap (λ (m : Bytes). ok m) (sym same);
                                    address = address;
                                    chain = chain;
                                    parsed = parsed;
                                    parses = parses;
                                    permitted = permitted;
                                  })
