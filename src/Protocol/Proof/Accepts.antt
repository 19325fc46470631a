-- ===== src/Protocol/Proof/Accepts.antt =====
-- `parse_proof` of src/connectcoin_p2c_tools/protocol.py and the documented form of a proof.
use connectcoin_p2c_tools.Common.{
  ℕ, ◌≤◌, ◌≡◌, ◌↔◌, inl, inr, refl, subst, true, false, ◌||◌, List, ◌∷◌, ◌++◌, arith, ltb, ◌==◌,
  length, Bytes, Bool-cases, ==→eq, eq→==, taken_whole, is_empty,
}
use connectcoin_p2c_tools.Common.Outcome.{
  ok, proof_format, Ensures, Ensures-ok, Ensures-weaken, Ensures-bind, holds, rejects,
}
use connectcoin_p2c_tools.Protocol.Reader.Laws.{run-ReadsEnd}
use connectcoin_p2c_tools.Protocol.Reader.Laws.Parsing.{Ensures-run}
use connectcoin_p2c_tools.Protocol.Format.{
  CertificateBody, ClientHelloBody, ServerHelloBody, EncryptedBody, VerifyBody,
}
use connectcoin_p2c_tools.Domain.{is_ascii, is_canonical_domain}
use connectcoin_p2c_tools.Hashes.{tagged_hash, work_tag}
use connectcoin_p2c_tools.Hashes.Tagged.{connection_work_hash-ok}
use connectcoin_p2c_tools.Protocol.Constants.{proof_version, max_proof_size}
use connectcoin_p2c_tools.Protocol.ClientHello.{ClientState}
use connectcoin_p2c_tools.Protocol.ClientHello.Sound.{
  parse_client_hello-Ensures, parse_client_hello_iff,
}
use connectcoin_p2c_tools.Protocol.ServerHello.Sound.{
  parse_server_hello-Ensures, parse_server_hello_iff, parse_encrypted_extensions-Ensures,
  parse_encrypted_extensions-ok,
}
use connectcoin_p2c_tools.Protocol.Certificate.Sound.{
  parse_certificate-Ensures, parse_certificate_iff,
}
use connectcoin_p2c_tools.Protocol.Certificate.Verify.{
  parse_certificate_verify-Ensures, parse_certificate_verify-ok,
}
use connectcoin_p2c_tools.Protocol.Proof.{ParsedProof, Messages, finish_proof, parse_proof}
use connectcoin_p2c_tools.Protocol.Proof.Sound.{
  AreMessages, Parses-read_messages, ReadsEnd-read_messages,
}

canonical_is_ascii : (domain : List ℕ) → is_canonical_domain domain ≡ true → is_ascii domain ≡ true
unfolding is_canonical_domain
canonical_is_ascii domain h = ground arith

module _ (sha256 : Bytes → Bytes) where
  -- The hash of the four messages that the transcript of CertificateVerify has before it.
  abbrev transcript_of : Messages → Bytes
  transcript_of m = m.client.0 ++ (m.server.0 ++ (m.encrypted.0 ++ m.certificate.0))

  abbrev pub parsed : Messages → List Bytes → ℕ → Bytes → ParsedProof
  parsed m chain scheme signature = record {
    client_hello = m.client.0;
    server_hello = m.server.0;
    encrypted_extensions = m.encrypted.0;
    certificate = m.certificate.0;
    certificate_verify = m.verify.0;
    certificate_chain = chain;
    certificate_verify_scheme = scheme;
    certificate_verify_signature = signature;
    transcript_hash = sha256 (transcript_of m);
    connection_work_hash = tagged_hash sha256 work_tag (transcript_of m);
  }

  pub record Finished (m : Messages) (domain : List ℕ) (challenge : Bytes) (p : ParsedProof)
      : Type 0 where
    pub client : ClientState
    pub chain : List Bytes
    pub scheme : ℕ
    pub signature : Bytes
    pub client_form : ClientHelloBody domain challenge client m.client.1
    pub server_form : ServerHelloBody client m.server.1
    pub encrypted_form : EncryptedBody m.encrypted.1
    pub certificate_form : CertificateBody chain m.certificate.1
    pub verify_form : VerifyBody client scheme signature m.verify.1
    pub result : p ≡ parsed m chain scheme signature

  finish_proof-Ensures :
      (m : Messages) (domain : List ℕ) (challenge : Bytes)
      → is_ascii domain ≡ true
      → Ensures proof_format (Finished m domain challenge) (finish_proof sha256 m domain challenge)
  unfolding finish_proof
  finish_proof-Ensures m domain challenge ascii =
      Ensures-bind (parse_client_hello-Ensures m.client.1 domain challenge ascii) λ client c.
        Ensures-bind (parse_server_hello-Ensures m.server.1 client) λ u s.
          Ensures-bind (parse_encrypted_extensions-Ensures m.encrypted.1) λ u e.
            Ensures-bind (parse_certificate-Ensures m.certificate.1) λ chain d.
              Ensures-bind (parse_certificate_verify-Ensures m.verify.1 client)
                λ (scheme, signature) v.
                  rw
                    (connection_work_hash-ok sha256 m.client.0 m.server.0 m.encrypted.0
                      m.certificate.0)
                    (holds (record {
                      client = client;
                      chain = chain;
                      scheme = scheme;
                      signature = signature;
                      client_form = c;
                      server_form = s;
                      encrypted_form = e;
                      certificate_form = d;
                      verify_form = v;
                      result = refl;
                    }))

  finish_proof-ok :
      (m : Messages) (domain : List ℕ) (challenge : Bytes) (p : ParsedProof)
      → is_ascii domain ≡ true
      → Finished m domain challenge p
      → finish_proof sha256 m domain challenge ≡ ok p
  unfolding finish_proof
  finish_proof-ok m domain challenge p ascii f =
      rw
        (
          (parse_client_hello_iff m.client.1 domain challenge f.client ascii).1 f.client_form,
          (parse_server_hello_iff m.server.1 f.client).1 f.server_form,
          parse_encrypted_extensions-ok m.encrypted.1 f.encrypted_form,
          (parse_certificate_iff m.certificate.1 f.chain).1 f.certificate_form,
          parse_certificate_verify-ok m.verify.1 f.client f.scheme f.signature f.verify_form,
          connection_work_hash-ok sha256 m.client.0 m.server.0 m.encrypted.0 m.certificate.0,
          f.result,
        )
        refl

  -- The documented proof, for a domain, a challenge and a result of the parser.
  pub record IsProof (domain : List ℕ) (challenge encoded : Bytes) (p : ParsedProof) : Type 0 where
    pub canonical : is_canonical_domain domain ≡ true
    pub challenge_size : length challenge ≡ 32
    pub size : length encoded ≤ max_proof_size
    pub messages : Messages
    pub framing : AreMessages messages encoded
    pub bodies : Finished messages domain challenge p

  size_test :
      (e : Bytes)
      → (is_empty e || ltb max_proof_size (length e)) ≡ false
      → length e ≤ max_proof_size
  size_test e h = ground arith

  ok_size_test :
      (x : ℕ) (e : Bytes)
      → length (x ∷ e) ≤ max_proof_size
      → (is_empty (x ∷ e) || ltb max_proof_size (length (x ∷ e))) ≡ false
  ok_size_test x e h = ground arith

  -- On every input the parser ends and raises nothing but ProofFormatError; what it accepts is a
  -- documented proof.
  pub parse_proof-Ensures :
      (encoded : Bytes) (domain : List ℕ) (challenge : Bytes)
      → Ensures proof_format
          (IsProof domain challenge encoded)
          (parse_proof sha256 encoded domain challenge)
  unfolding parse_proof
  parse_proof-Ensures encoded domain challenge = elim (Bool-cases (is_canonical_domain domain)) [
    | inr e ↦ rw e rejects
    | inl e ↦ rw e (elim (Bool-cases (length challenge == 32)) [
      | inr f ↦ rw f rejects
      | inl f ↦ rw f (elim (Bool-cases (is_empty encoded || ltb max_proof_size (length encoded))) [
        | inl g ↦ rw g rejects
        | inr g ↦ rw g (
            Ensures-bind (Ensures-run (Parses-read_messages encoded)) λ m (bs, left, es, (l, a)).
              Ensures-weaken
                (λ p fin. record {
                  canonical = e;
                  challenge_size = ==→eq _ _ f;
                  size = size_test encoded g;
                  messages = m;
                  framing = subst (λ (x : Bytes). AreMessages m x) (taken_whole es l) a;
                  bodies = fin;
                })
                (finish_proof-Ensures m domain challenge (canonical_is_ascii domain e)))
      ])
    ])
  ]

  parse_proof-ok :
      (encoded : Bytes) (domain : List ℕ) (challenge : Bytes) (p : ParsedProof)
      → IsProof domain challenge encoded p
      → parse_proof sha256 encoded domain challenge ≡ ok p
  unfolding parse_proof
  parse_proof-ok encoded domain challenge p h =
      let layout = h.framing.layout in
      let f : (length challenge == 32) ≡ true = eq→== _ _ h.challenge_size in
      let g : (is_empty encoded || ltb max_proof_size (length encoded)) ≡ false =
        rw layout (ok_size_test proof_version _ (rw layout at h.size)) in
      rw (h.canonical, f, g, run-ReadsEnd (ReadsEnd-read_messages h.messages encoded h.framing))
        (finish_proof-ok h.messages domain challenge p (canonical_is_ascii domain h.canonical)
          h.bodies)

  -- The proof parser accepts a byte string with a result exactly if the string is the documented
  -- proof of that result for the domain and the challenge.
  pub parse_proof_iff :
      (encoded : Bytes) (domain : List ℕ) (challenge : Bytes) (p : ParsedProof)
      → (parse_proof sha256 encoded domain challenge ≡ ok p) ↔ IsProof domain challenge encoded p
  parse_proof_iff encoded domain challenge p = (
    λ h. Ensures-ok (parse_proof-Ensures encoded domain challenge) h,
    parse_proof-ok encoded domain challenge p,
  )
