-- ===== src/Tls/Capture/Outcomes.antt =====
-- How capture_tls13_proof of src/connectcoin_p2c_tools/tls13.py ends, with the certificate check of
-- verify.py.
use connectcoin_p2c_tools.Common.{
  ℕ, ◌≤◌, ◌≡◌, ◌⊎◌, refl, sym, subst, inl, inr, Bool, true, false, List, [], ◌∷◌, ◌++◌, Option,
  none, some, ◌==◌, ◌!=◌, ◌&&◌, leb, ==→eq, leb→le, &&-eq_true, if◌then◌else◌, bytes_eq, length,
  Bytes, Bool-cases, arith,
}
use connectcoin_p2c_tools.Common.Outcome.{
  Result, Exception, ok, raises, tls_generation, proof_format, Ensures, Ensures-weaken, Ends,
  returns, stops, Ends-bind, Ends-weaken, Ensures-Ends,
}
use connectcoin_p2c_tools.Common.Values.{int, pos}
use connectcoin_p2c_tools.Domain.{is_canonical_domain}
use connectcoin_p2c_tools.Signatures.{validate_signature_algorithms_mask}
use connectcoin_p2c_tools.Signatures.Policy.{validate-ok}
use connectcoin_p2c_tools.Protocol.Constants.{certificate, max_certificate_message_size}
use connectcoin_p2c_tools.Protocol.Reader.Laws.{Parses}
use connectcoin_p2c_tools.Protocol.Reader.Laws.Parsing.{
  Parses-bind, Parses-empty, Parses-require, Parses-lift_last, Ensures-run,
}
use connectcoin_p2c_tools.Protocol.Extensions.Sound.{Parses-read_handshake}
use connectcoin_p2c_tools.Protocol.Certificate.{message_body, parse_certificate_message}
use connectcoin_p2c_tools.Protocol.Certificate.Sound.{parse_certificate-Ensures}
use connectcoin_p2c_tools.Verify.X509.{X509}
use connectcoin_p2c_tools.Verify.Chain.{validate_certificate_message}
use connectcoin_p2c_tools.Verify.Chain.Trusted.{Escapes, IsLoadError, load_certificate_chain-Ends}
use connectcoin_p2c_tools.Tls.Buffer.{
  TlsRecord, content_change_cipher_spec, content_alert, content_handshake,
}
use connectcoin_p2c_tools.Tls.Build.{build_client_hello, record_bytes}
use connectcoin_p2c_tools.Tls.Build.RoundTrip.{build_client_hello-parse}
use connectcoin_p2c_tools.Tls.Sockets.Chunks.{record_bytes-ok}
use connectcoin_p2c_tools.Tls.Capture.{raise_alert, plaintext_loop}
use connectcoin_p2c_tools.Tls.Capture.Loops.{
  IsCaptureError, IsP2cError, refused, pop_handshake-Ends,
}

Parses-message_body : (message : Bytes) → Parses message_body message (λ _ _ _. Unit {0})
unfolding message_body
Parses-message_body message =
    Parses-bind _ (Parses-read_handshake certificate max_certificate_message_size message)
      λ bs left (full, body) e _. Parses-empty _ λ b _.
        Parses-require _ λ done. Parses-lift_last (parse_certificate-Ensures body) λ chain _. tt

parse_certificate_message-Ensures :
    (message : Bytes) → Ensures proof_format (λ _. Unit {0}) (parse_certificate_message message)
unfolding parse_certificate_message
parse_certificate_message-Ensures message =
    Ensures-weaken (λ _ _. tt) (Ensures-run (Parses-message_body message))

-- The exceptions of the certificate check: those of the program, and what loading a certificate
-- raised that is no ValueError.
abbrev pub Rejects : X509 → Exception → Type 0
Rejects x e = IsP2cError e ⊎ Escapes x.load_der e

pub validate-Ends :
    (x : X509) (message : Bytes)
    → Ends (Rejects x) (λ _. Unit {0}) (validate_certificate_message x message)
unfolding validate_certificate_message
validate-Ends x message =
    Ends-bind (Ensures-Ends (inl (inl refl)) (parse_certificate_message-Ensures message)) λ chain _.
      Ends-bind
        (Ends-weaken (λ e. elim_error e) (λ cs loaded. loaded)
          (load_certificate_chain-Ends x chain))
        λ cs _. returns tt
  where
    elim_error : (e : Exception) → IsLoadError x.load_der e → Rejects x e
    elim_error e (inl h) = inl (inr (inl h))
    elim_error e (inr h) = inr h

alert-Ends :
    {A : Type 0} {P : A → Type 0} (alert : Bytes) → Ends IsCaptureError P (raise_alert alert)
unfolding raise_alert
alert-Ends [] = stops refused
alert-Ends (level ∷ []) = stops refused
alert-Ends (level ∷ description ∷ alert) = stops refused

abbrev Opens : Result (Bytes × Bytes × List TlsRecord) → Type 0
Opens r = Ends IsCaptureError (λ _. Unit {0}) r

pub plaintext_loop-Ends :
    (failure : Exception)
    → IsCaptureError failure
    → (rs : List TlsRecord) (buffer : Bytes) → Opens (plaintext_loop failure rs buffer)
unfolding plaintext_loop
plaintext_loop-Ends failure fails [] buffer = stops fails
plaintext_loop-Ends failure fails (r ∷ rs) buffer =
    by_kind (r.content_type == content_change_cipher_spec && bytes_eq r.fragment (1 ∷ []))
      (r.content_type == content_alert) (r.content_type != content_handshake)
      (plaintext_loop-Ends failure fails rs buffer)
      (Ends-bind (pop_handshake-Ends (buffer ++ r.fragment))
        λ (popped, left) _. by_message popped left (plaintext_loop-Ends failure fails rs left))
  where
    by_message :
        (popped : Option Bytes) (left : Bytes)
        → Opens (plaintext_loop failure rs left)
        → Opens (elim popped [
          | none ↦ plaintext_loop failure rs left
          | some server_hello ↦ ok (server_hello, left, rs)
        ])
    by_message none left h = h
    by_message (some server_hello) left h = returns tt

    by_kind :
        {first second : Result (Bytes × Bytes × List TlsRecord)} (ignored alert other : Bool)
        → Opens first
        → Opens second
        → Opens (
            if ignored
            then first
            else if alert
            then raise_alert r.fragment
            else if other
            then raises tls_generation
            else second)
    by_kind true alert other h k = h
    by_kind false true other h k = alert-Ends r.fragment
    by_kind false false true h k = stops refused
    by_kind false false false h k = k

pub mask-Ends :
    (mask : ℕ)
    → Ends IsCaptureError
        (λ _. (1 ≤ mask) × (mask ≤ 7))
        (validate_signature_algorithms_mask (int (pos mask)))
unfolding validate_signature_algorithms_mask
mask-Ends mask = elim (Bool-cases (leb 1 mask && leb mask 7)) [
  | inr out ↦ rw out (stops (inr (inl refl)))
  | inl within ↦
      let (low, high) = &&-eq_true (leb 1 mask) (leb mask 7) within in
      rw within (returns (leb→le 1 mask low, leb→le mask 7 high))
]

module _ (public_key session_id : Bytes) (key_size : length public_key ≡ 32)
    (some : 1 ≤ length session_id) (few : length session_id ≤ 32) (domain : List ℕ)
    (challenge : Bytes) (mask : ℕ) where
  -- Where the mask is usable, what is wrong with the domain or the challenge is refused.
  pub build_client_hello-Ends :
      1 ≤ mask
      → mask ≤ 7
      → Ends IsCaptureError
          (λ (message : Bytes). length message ≤ 4096)
          (build_client_hello domain challenge public_key session_id mask)
  unfolding build_client_hello
  build_client_hello-Ends low high = elim (Bool-cases (is_canonical_domain domain)) [
    | inr wrong ↦ rw (validate-ok mask low high, wrong) (stops refused)
    | inl canonical ↦ elim (Bool-cases (length challenge == 32)) [
      | inr wrong ↦ rw (validate-ok mask low high, canonical, wrong) (stops refused)
      | inl size ↦
          let (message, built, hello) =
            build_client_hello-parse domain challenge public_key session_id mask canonical
              (==→eq _ _ size) key_size some few low high in
          subst (Ends IsCaptureError (λ (m : Bytes). length m ≤ 4096)) (sym built)
            (returns hello.fits)
    ]
  ]

pub record-Ends :
    (message : Bytes)
    → length message ≤ 4096
    → Ends IsCaptureError (λ _. Unit {0}) (record_bytes content_handshake message 0x0301)
record-Ends message small =
    subst (Ends IsCaptureError (λ _. Unit {0}))
      (sym (
        record_bytes-ok content_handshake 0x0301 message (omega arith) (omega arith)
          (omega (arith, small))))
      (returns tt)
