-- ===== src/Verify/Leaf/Signed.antt =====
-- The leaf certificates and signatures that src/connectcoin_p2c_tools/verify.py takes.
use connectcoin_p2c_tools.Common.{
  ℕ, ◌≤◌, ◌≡◌, ◌≢◌, inl, inr, refl, sym, ap, ◌∙◌, subst, true, false, ◌&&◌, List, [], ◌∷◌, ◌++◌,
  replicate, Option, none, some, ◌==◌, bytes_eq, bytes_eq→eq, bytes_eq_refl, Bytes, AreBytes,
  Bool-cases, ==→eq, not_ltb→le, le→not_ltb,
}
use connectcoin_p2c_tools.Common.Outcome.{
  ok, require, proof_verification, ◌>>◌, Ensures, holds, rejects, Ensures-bind, Ensures-require,
  Ensures-weaken,
}
use connectcoin_p2c_tools.Protocol.Constants.{
  ecdsa_secp256r1_sha256, rsa_pss_rsae_sha256, rsa_pss_pss_sha256,
}
use connectcoin_p2c_tools.Protocol.Proof.{ParsedProof}
use connectcoin_p2c_tools.Hashes.{codes}
use connectcoin_p2c_tools.Verify.X509.{
  X509, PublicKey, rsa, elliptic, other_key, Checked, valid, invalid_signature, unsupported,
}
use connectcoin_p2c_tools.Verify.Pss.Certificate.{
  IsPssCertificate, check_pss_key_restrictions-Ensures, check_pss_key_restrictions_iff,
}
use connectcoin_p2c_tools.Verify.Chain.{oid_rsa_encryption, oid_rsassa_pss}
use connectcoin_p2c_tools.Verify.Chain.Trusted.{
  HasBoundedKey, check_rsa_public_exponents-Ensures, check_rsa_public_exponents-HasBoundedKey,
}
use connectcoin_p2c_tools.Verify.Leaf.{
  key_of, is_p256, is_rsa_2048, checked, check_restrictions, verify_by_scheme,
  verify_certificate_signature,
}

-- What a CertificateVerify of a TLS 1.3 server signs (RFC 8446, 4.4.3): 64 spaces, the context of
-- the server, a zero and the transcript hash.
abbrev signed_content : Bytes → Bytes
signed_content transcript_hash =
    replicate 64 32 ++ (codes "TLS 1.3, server CertificateVerify" ++ (0 ∷ transcript_hash))

checked-Ensures : (c : Checked) → Ensures proof_verification (λ _. c ≡ valid) (checked c)
checked-Ensures valid = holds refl
checked-Ensures invalid_signature = rejects
checked-Ensures unsupported = rejects

is_p256→eq : (key : PublicKey) → is_p256 key ≡ true → key ≡ elliptic true
is_p256→eq (rsa size exponent) h = cc
is_p256→eq (elliptic b) h = ap elliptic h
is_p256→eq other_key h = cc

is_rsa_2048→eq :
    (key : PublicKey)
    → is_rsa_2048 key ≡ true
    → (size : ℕ) × (exponent : ℕ) × (key ≡ rsa size exponent) × (2048 ≤ size)
is_rsa_2048→eq (rsa size exponent) h = (size, exponent, refl, not_ltb→le size 2048 h)
is_rsa_2048→eq (elliptic b) h = cc
is_rsa_2048→eq other_key h = cc

key_of-Ensures :
    (o : Option PublicKey) → Ensures proof_verification (λ key. o ≡ some key) (key_of o)
key_of-Ensures none = rejects
key_of-Ensures (some key) = holds refl

module _ (x : X509) (leaf : x.Certificate) where
  -- The key and its encoding fit RSA-PSS, and the signature is valid.
  abbrev SignedByRsa : List ℕ → Bytes → Bytes → Type 0
  SignedByRsa oid signature message =
      (size : ℕ) × (exponent : ℕ) × (x.public_key leaf ≡ some (rsa size exponent))
      × (2048 ≤ size)
      × (x.public_key_algorithm_oid leaf ≡ oid)
      × (x.verify_pss leaf signature message ≡ valid)

  -- The signature on the message is one of the leaf's key for the scheme.
  pub data SignedBy (signature message : Bytes) : ℕ → Type 0 where
    by_ecdsa :
        x.public_key leaf ≡ some (elliptic true)
        → x.verify_ecdsa leaf signature message ≡ valid
        → SignedBy signature message ecdsa_secp256r1_sha256
    by_rsae :
        SignedByRsa oid_rsa_encryption signature message
        → SignedBy signature message rsa_pss_rsae_sha256
    by_pss :
        SignedByRsa oid_rsassa_pss signature message
        → IsPssCertificate (x.tbs_certificate_bytes leaf)
        → SignedBy signature message rsa_pss_pss_sha256

  abbrev Restricted : ℕ → Type 0
  Restricted scheme =
      scheme ≡ rsa_pss_pss_sha256
      → x.public_key_algorithm_oid leaf ≡ oid_rsassa_pss
      → IsPssCertificate (x.tbs_certificate_bytes leaf)

  both_tests :
      (scheme : ℕ) (oid : List ℕ)
      → (scheme == rsa_pss_pss_sha256 && bytes_eq oid oid_rsassa_pss) ≡ false
      → scheme ≡ rsa_pss_pss_sha256
      → oid ≢ oid_rsassa_pss
  both_tests scheme oid h e f = clash (rw (e, f, bytes_eq_refl oid_rsassa_pss) at h)
    where
      clash : true ≢ false
      clash e = cc

  check_restrictions-Ensures :
      (scheme : ℕ)
      → AreBytes (x.tbs_certificate_bytes leaf)
      → Ensures proof_verification (λ _. Restricted scheme) (check_restrictions x leaf scheme)
  unfolding check_restrictions
  check_restrictions-Ensures scheme k =
      elim (Bool-cases (
        scheme == rsa_pss_pss_sha256
        && bytes_eq (x.public_key_algorithm_oid leaf) oid_rsassa_pss)) [
          | inl e ↦ rw e (
              Ensures-weaken (λ _ is. λ _ _. is)
                (check_pss_key_restrictions-Ensures (x.tbs_certificate_bytes leaf) k))
          | inr e ↦
              rw e
                (holds (λ s o. absurd (both_tests scheme (x.public_key_algorithm_oid leaf) e s o)))
        ]

  rsa_case :
      (scheme : ℕ) (key : PublicKey) (oid : List ℕ) (signature message : Bytes)
      → x.public_key leaf ≡ some key
      → Ensures proof_verification
          (λ _. SignedByRsa oid signature message)
          (require (is_rsa_2048 key) proof_verification
            >> (require (bytes_eq (x.public_key_algorithm_oid leaf) oid) proof_verification
                >> checked (x.verify_pss leaf signature message)))
  rsa_case scheme key oid signature message e = Ensures-require (is_rsa_2048 key) λ big.
      Ensures-require (bytes_eq (x.public_key_algorithm_oid leaf) oid) λ same.
        let (size, exponent, f, enough) = is_rsa_2048→eq key big in
        Ensures-weaken
          (λ _ v.
            (size, exponent, e ∙ ap (λ (k : PublicKey). some k) f, enough, bytes_eq→eq _ _ same, v))
          (checked-Ensures (x.verify_pss leaf signature message))

  verify_by_scheme-Ensures :
      (key : PublicKey) (scheme : ℕ) (signature message : Bytes)
      → x.public_key leaf ≡ some key
      → Restricted scheme
      → Ensures proof_verification
          (λ _. SignedBy signature message scheme)
          (verify_by_scheme x leaf key scheme signature message)
  unfolding verify_by_scheme
  verify_by_scheme-Ensures key scheme signature message e restricted =
      elim (Bool-cases (scheme == ecdsa_secp256r1_sha256)) [
        | inl a ↦ rw a (
            Ensures-require (is_p256 key) λ p256.
              Ensures-weaken
                (λ _ v.
                  subst (λ (s : ℕ). SignedBy signature message s) (sym (==→eq _ _ a))
                    (by_ecdsa (e ∙ ap (λ (k : PublicKey). some k) (is_p256→eq key p256)) v))
                (checked-Ensures (x.verify_ecdsa leaf signature message)))
        | inr a ↦ rw a (elim (Bool-cases (scheme == rsa_pss_rsae_sha256)) [
          | inl b ↦ rw b (
              Ensures-weaken
                (λ _ s.
                  subst (λ (s : ℕ). SignedBy signature message s) (sym (==→eq _ _ b)) (by_rsae s))
                (rsa_case scheme key oid_rsa_encryption signature message e))
          | inr b ↦ rw b (elim (Bool-cases (scheme == rsa_pss_pss_sha256)) [
            | inl c ↦ rw c (
                Ensures-weaken
                  (λ _ s.
                    let (size, exponent, k, big, oid, v) = s in
                    subst (λ (s : ℕ). SignedBy signature message s) (sym (==→eq _ _ c))
                      (by_pss s (restricted (==→eq _ _ c) oid)))
                  (rsa_case scheme key oid_rsassa_pss signature message e))
            | inr c ↦ rw c rejects
          ])
        ])
      ]

  -- The checks of the leaf's key and of its signature on the transcript.
  abbrev pub IsSigned : ParsedProof → Type 0
  IsSigned p =
      HasBoundedKey x leaf
      × SignedBy p.certificate_verify_signature (signed_content p.transcript_hash)
          p.certificate_verify_scheme

  pub verify_certificate_signature-Ensures :
      (p : ParsedProof)
      → AreBytes (x.tbs_certificate_bytes leaf)
      → Ensures proof_verification (λ _. IsSigned p) (verify_certificate_signature x leaf p)
  unfolding verify_certificate_signature
  verify_certificate_signature-Ensures p k =
      Ensures-bind (check_rsa_public_exponents-Ensures x (leaf ∷ [])) λ _ bounded.
        Ensures-bind (check_restrictions-Ensures p.certificate_verify_scheme k) λ _ restricted.
          Ensures-bind (key_of-Ensures (x.public_key leaf)) λ key e.
            Ensures-weaken (λ _ s. (bounded.0, s))
              (verify_by_scheme-Ensures key p.certificate_verify_scheme
                p.certificate_verify_signature (signed_content p.transcript_hash) e restricted)

  signed_run :
      (scheme : ℕ) (signature message : Bytes)
      → AreBytes (x.tbs_certificate_bytes leaf)
      → SignedBy signature message scheme
      → (check_restrictions x leaf scheme ≡ ok tt)
        × ((key : PublicKey) × (x.public_key leaf ≡ some key)
            × (verify_by_scheme x leaf key scheme signature message ≡ ok tt))
  unfolding check_restrictions verify_by_scheme
  signed_run scheme signature message k (by_ecdsa e v) = (refl, (elliptic true, e, rw v refl))
  signed_run scheme signature message k (by_rsae (size, exponent, e, big, oid, v)) =
      (refl, (rsa size exponent, e, rw (le→not_ltb size 2048 big, oid, v) refl))
  signed_run scheme signature message k (by_pss (size, exponent, e, big, oid, v) is) = (
    rw oid ((check_pss_key_restrictions_iff (x.tbs_certificate_bytes leaf) k).1 is),
    (rsa size exponent, e, rw (le→not_ltb size 2048 big, oid, v) refl),
  )

  pub verify_certificate_signature-IsSigned :
      (p : ParsedProof)
      → AreBytes (x.tbs_certificate_bytes leaf)
      → IsSigned p
      → verify_certificate_signature x leaf p ≡ ok tt
  unfolding verify_certificate_signature
  verify_certificate_signature-IsSigned p k (bounded, s) =
      let (restrictions, (key, e, run)) = signed_run _ _ _ k s in
      rw (check_rsa_public_exponents-HasBoundedKey x (leaf ∷ []) (bounded, tt), restrictions, e) run
