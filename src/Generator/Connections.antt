-- ===== src/Generator/Connections.antt =====
-- `_capture` of src/connectcoin_p2c_tools/generator.py, and what the search makes of its messages.
use connectcoin_p2c_tools.Common.{
  ℕ, ◌≤◌, ◌*◌, ◌≡◌, ◌⊎◌, refl, ap, ◌∙◌, inl, inr, Bool, true, List, length, Bytes,
}
use connectcoin_p2c_tools.Common.Outcome.{
  Result, Exception, ok, ◌>>=◌, Ends, returns, stops, Ends-value, Ensures-ok, bind_ok,
}
use connectcoin_p2c_tools.Common.Values.{pos, int}
use connectcoin_p2c_tools.Signatures.Policy.{permits}
use connectcoin_p2c_tools.Protocol.Proof.{ParsedProof, parse_proof}
use connectcoin_p2c_tools.Protocol.Proof.Accepts.{parse_proof-Ensures}
use connectcoin_p2c_tools.Verify.X509.{X509}
use connectcoin_p2c_tools.Verify.Chain.Trusted.{Escapes}
use connectcoin_p2c_tools.Verify.Chain.{validate_certificate_message}
use connectcoin_p2c_tools.Tls.Messages.{Endpoint, TlsProofMessages, encoded_proof}
use connectcoin_p2c_tools.Tls.Buffer.{TlsRecord}
use connectcoin_p2c_tools.Tls.Capture.{Client, capture_tls13_proof}
use connectcoin_p2c_tools.Tls.Capture.Loops.{IsCaptureError}
use connectcoin_p2c_tools.Tls.Capture.Captured.{
  IsClient, IsCaptureFailure, capture_tls13_proof-IsCapture,
}
use connectcoin_p2c_tools.Envelope.{ConnectionProof, construct, challenge}
use connectcoin_p2c_tools.Envelope.Valid.{IsValid, construct-ok}
use connectcoin_p2c_tools.Envelope.Checks.{claim_challenge-ok}
use connectcoin_p2c_tools.Generator.Search.Attempts.{
  Inputs, fields_of, replace_proof, is_caught, candidate_of,
}

-- The timeout, the records and `failure` are those of capture_tls13_proof.
unfoldable pub capture :
    Client
    → (Bytes → Result (Unit {0}))
    → Endpoint
    → ConnectionProof
    → Bool
    → Exception
    → List TlsRecord
    → Result TlsProofMessages
capture c validate endpoint envelope usable_timeout failure records = do
  claim ← challenge c.sha256 envelope
  capture_tls13_proof c validate endpoint envelope.domain claim envelope.signature_algorithms_mask
      usable_timeout failure records

replace_proof-ok :
    (context : ConnectionProof) (proof : Bytes)
    → IsValid context
    → length proof ≤ 64 * 1024
    → replace_proof context proof ≡ ok (record context { proof = proof })
replace_proof-ok context proof h size =
    ap
      (λ (n : ℕ).
        construct (record (fields_of context context.connection_work_target proof) {
          version = int (pos n);
        }))
      h.is_version_2
    ∙ construct-ok (record context { proof = proof })
        (record {
          canonical = h.canonical;
          txid_hex = h.txid_hex;
          target_hex = h.target_hex;
          index_fits = h.index_fits;
          roots_fit = h.roots_fit;
          mask_fits = h.mask_fits;
          time_fits = h.time_fits;
          size_fits = size;
          is_version_2 = h.is_version_2;
        })

-- The search catches the exception, or it is what loading a certificate raised, no ValueError.
abbrev pub EndsBy : X509 → Exception → Type 0
EndsBy x e = (is_caught e ≡ true) ⊎ Escapes x.load_der e

caught : (x : X509) (e : Exception) → IsCaptureFailure x e → EndsBy x e
caught x e (inl (inl h)) = inl (rw h refl)
caught x e (inl (inr (inl h))) = inl (rw h refl)
caught x e (inl (inr (inr h))) = inl (rw h refl)
caught x e (inr h) = inr h

module _ (i : Inputs) where
  -- The messages come from the endpoint, and the search makes of them the context with their
  -- proof, which parses with a scheme that the mask of the context permits.
  abbrev pub Yields : Endpoint → TlsProofMessages → Type 0
  Yields endpoint result =
      (result.peer_ip ≡ endpoint.ip)
      × ((parsed : ParsedProof) × (candidate_of i result
            ≡ ok (record i.context { proof = encoded_proof result }, parsed))
          × (permits i.context.signature_algorithms_mask parsed.certificate_verify_scheme ≡ true))

  module _ (valid : IsValid i.context) where
    candidate_of-ok :
        (claim : Bytes) (result : TlsProofMessages) (parsed : ParsedProof)
        → challenge i.sha256 i.context ≡ ok claim
        → parse_proof i.sha256 (encoded_proof result) i.context.domain claim ≡ ok parsed
        → candidate_of i result ≡ ok (record i.context { proof = encoded_proof result }, parsed)
    unfolding challenge
    candidate_of-ok claim result parsed claimed parses =
        let form =
          Ensures-ok (parse_proof-Ensures i.sha256 (encoded_proof result) i.context.domain claim)
            parses in
        bind_ok _ (replace_proof-ok i.context (encoded_proof result) valid form.size)
          (bind_ok _ claimed (bind_ok _ parses refl))

    claim_of : (sha256 : Bytes → Bytes) → (claim : Bytes) × (challenge sha256 i.context ≡ ok claim)
    unfolding challenge
    claim_of sha256 = (
      _,
      claim_challenge-ok sha256 i.context.txid i.context.input_index valid.txid_hex
          valid.index_fits,
    )

    module _ (c : Client) (good : IsClient c) (same : i.sha256 ≡ c.sha256) where
      -- For a valid context, digests of 32 bytes, a key and a session id of 32 bytes and sockets
      -- that fail by OSError or the deadline, a connection of the search ends on every sequence of
      -- records: with an exception that the search catches, with what loading a certificate raised
      -- that is no ValueError, or with messages of the address of the endpoint, from which the
      -- search makes the context with their proof, which parses for the claim of the context with
      -- a scheme that its mask permits.
      pub capture-Yields :
          (endpoint : Endpoint) (usable_timeout : Bool) (failure : Exception)
          (records : List TlsRecord)
          → IsCaptureError failure
          → Ends (EndsBy i.x) (Yields endpoint) (
              capture c
                (validate_certificate_message i.x)
                endpoint
                i.context
                usable_timeout
                failure
                records)
      unfolding capture
      capture-Yields endpoint usable_timeout failure records fails =
          let (claim, claimed) = claim_of c.sha256 in
          let claimed_here : challenge i.sha256 i.context ≡ ok claim =
            ap (λ (h : Bytes → Bytes). challenge h i.context) same ∙ claimed in
          let ends =
            capture_tls13_proof-IsCapture c i.x good endpoint i.context.domain claim
              i.context.signature_algorithms_mask usable_timeout failure records fails in
          rw claimed (elim (Ends-value ends) [
            | inl (result, e, h) ↦
                let parses : parse_proof i.sha256 (encoded_proof result) i.context.domain claim
                    ≡ ok h.parsed =
                  ap
                    (λ (f : Bytes → Bytes).
                      parse_proof f (encoded_proof result) i.context.domain claim)
                    same
                  ∙ h.parses in
                rw e (
                  returns (
                    h.address,
                    (
                      h.parsed,
                      candidate_of-ok claim result h.parsed claimed_here parses,
                      h.permitted,
                    ),
                  ))
            | inr (ex, e, h) ↦ rw e (stops (caught i.x ex h))
          ])
