-- ===== src/Verify/Connection/Accepted.antt =====
-- What a proof accepted by `verify_connection_proof` (src/connectcoin_p2c_tools/verify.py) is.
use mathlib.Core.List.{reverse}
use connectcoin_p2c_tools.Common.{
  ℕ, inr, ◌≤◌, ◌≡◌, inl, refl, sym, subst, Bool, true, List, [], ◌∷◌, Option, leb, eq→==, length,
  Bytes, AreBytes, arith,
}
use connectcoin_p2c_tools.Common.Outcome.{Exception, ok, proof_format, proof_verification}
use connectcoin_p2c_tools.Hashes.{tagged_hash, to_hex, internal_hash_to_display, meets_work_target}
use connectcoin_p2c_tools.Hashes.Hex.{hex_number}
use connectcoin_p2c_tools.Hashes.Display.{display_hash_to_internal_iff}
use connectcoin_p2c_tools.Hashes.Target.{meets_work_target-hex_number}
use connectcoin_p2c_tools.Signatures.Policy.{permits}
use connectcoin_p2c_tools.Protocol.Proof.{ParsedProof}
use connectcoin_p2c_tools.Protocol.Proof.Accepts.{IsProof}
use connectcoin_p2c_tools.Envelope.{ConnectionProof, challenge}
use connectcoin_p2c_tools.Envelope.Checks.{display_of_hex}
use connectcoin_p2c_tools.Envelope.Valid.{IsValid}
use connectcoin_p2c_tools.Verify.X509.{X509}
use connectcoin_p2c_tools.Verify.Chain.Trusted.{Escapes, IsLoadError, Loads, IsChain}
use connectcoin_p2c_tools.Verify.Chain.Rooted.{AreTimely, HasPath, AreRoots}
use connectcoin_p2c_tools.Verify.Leaf.Usage.{MayAuthenticate}
use connectcoin_p2c_tools.Verify.Leaf.Signed.{IsSigned}
use connectcoin_p2c_tools.Verify.Connection.{VerificationResult}

-- A hash function to 32 bytes.
abbrev pub IsHash32 : (Bytes → Bytes) → Type 0
IsHash32 sha256 = (m : Bytes) → (length (sha256 m) ≡ 32) × AreBytes (sha256 m)

-- The certificates hand out their signed part as bytes.
abbrev pub GivesBytes : X509 → Type 0
GivesBytes x = (c : x.Certificate) → AreBytes (x.tbs_certificate_bytes c)

-- The work hash, as the number that its display shows, is no greater than the target.
abbrev pub MeetsTarget : Bytes → List ℕ → Type 0
MeetsTarget work_hash target = hex_number (to_hex (reverse work_hash)) ≤ hex_number target

-- The target test of a valid envelope.
pub meets_work_target-valid :
    (envelope : ConnectionProof) (work_hash : Bytes)
    → IsValid envelope
    → length work_hash ≡ 32
    → AreBytes work_hash
    → meets_work_target work_hash envelope.connection_work_target
      ≡ ok (
          leb
            (hex_number (to_hex (reverse work_hash)))
            (hex_number envelope.connection_work_target))
unfolding internal_hash_to_display
meets_work_target-valid envelope work_hash h l a =
    meets_work_target-hex_number work_hash (reverse h.target_hex.shown) (to_hex (reverse work_hash))
      envelope.connection_work_target
      ((display_hash_to_internal_iff (to_hex (reverse work_hash)) work_hash).1
        (l, a, rw (eq→== _ _ l) refl))
      (display_of_hex envelope.connection_work_target h.target_hex)

abbrev pub result_of : ConnectionProof → Bytes → ParsedProof → VerificationResult
result_of envelope claim parsed = record {
  challenge = to_hex claim;
  transcript_hash = to_hex parsed.transcript_hash;
  connection_work_hash = to_hex (reverse parsed.connection_work_hash);
  certificate_count = length parsed.certificate_chain;
  certificate_verify_scheme = parsed.certificate_verify_scheme;
  signature_algorithms_mask = envelope.signature_algorithms_mask;
}

module _ (sha256 : Bytes → Bytes) (x : X509) where
  -- What makes a proof good: it is a proof of the claim, in the mask's schemes and under the
  -- target; its certificates are a path from the leaf to a trusted root, for the domain and at the
  -- time; and the leaf's key signed the transcript.
  pub record IsAccepted (envelope : ConnectionProof) (roots_file : Option Bytes)
      (enforce_root_pin : Bool) (claim : Bytes) (parsed : ParsedProof) : Type 0 where
    pub claimed : challenge sha256 envelope ≡ ok claim
    pub proved : IsProof sha256 envelope.domain claim envelope.proof parsed
    pub permitted :
        permits envelope.signature_algorithms_mask parsed.certificate_verify_scheme ≡ true
    pub worked : MeetsTarget parsed.connection_work_hash envelope.connection_work_target
    pub leaf : x.Certificate
    pub intermediates : List x.Certificate
    pub roots : List x.Certificate
    pub chain : IsChain x parsed.certificate_chain (leaf ∷ intermediates)
    pub trusted :
        AreRoots x sha256 roots_file envelope.root_certificates_version enforce_root_pin roots
    pub timely : AreTimely x envelope.validation_time (leaf ∷ intermediates)
    pub authenticates : MayAuthenticate x leaf
    pub path : HasPath x (leaf ∷ intermediates) roots envelope.domain envelope.validation_time
    pub signed : IsSigned x leaf parsed

  abbrev pub Accepts : ConnectionProof → Option Bytes → Bool → VerificationResult → Type 0
  Accepts envelope roots_file enforce_root_pin result =
      (claim : Bytes) × (parsed : ParsedProof) × IsAccepted envelope roots_file enforce_root_pin
        claim parsed
      × (result ≡ result_of envelope claim parsed)

module _ (x : X509) where
  -- The exceptions of a verification: those of the program, what reading the extensions of a
  -- certificate raised, and what loading a certificate or the bundle raised that is no ValueError.
  pub data IsRefusal : Exception → Type 0 where
    malformed : IsRefusal proof_format
    unverified : IsRefusal proof_verification
    unreadable : {e : Exception} (c : x.Certificate) → x.usages c ≡ inl e → IsRefusal e
    unloaded : {e : Exception} → Escapes x.load_der e → IsRefusal e
    bundle_unloaded : {e : Exception} → Escapes x.load_pem e → IsRefusal e

  pub chain-IsRefusal : (e : Exception) → IsLoadError x.load_der e → IsRefusal e
  chain-IsRefusal e (inl h) = subst IsRefusal (sym h) unverified
  chain-IsRefusal e (inr h) = unloaded h

  pub bundle-IsRefusal : (e : Exception) → IsLoadError x.load_pem e → IsRefusal e
  bundle-IsRefusal e (inl h) = subst IsRefusal (sym h) unverified
  bundle-IsRefusal e (inr h) = bundle_unloaded h

  pub first_loaded :
      (chain : List Bytes) (cs : List x.Certificate)
      → 1 ≤ length chain
      → Loads x chain cs
      → (leaf : x.Certificate) × (more : List x.Certificate) × (cs ≡ leaf ∷ more)
  first_loaded [] cs h l = absurd (omega arith)
  first_loaded (encoded ∷ chain) [] h l = absurd l
  first_loaded (encoded ∷ chain) (leaf ∷ more) h l = (leaf, more, refl)

module _ (sha256 : Bytes → Bytes) (hash_32 : IsHash32 sha256) where
  -- The work hash of a proof is a hash.
  pub work_hash-IsHash :
      (domain : List ℕ) (claim encoded : Bytes) (p : ParsedProof)
      → IsProof sha256 domain claim encoded p
      → (length p.connection_work_hash ≡ 32) × AreBytes p.connection_work_hash
  unfolding tagged_hash
  work_hash-IsHash domain claim encoded p f =
      subst
        (λ (q : ParsedProof).
          (length q.connection_work_hash ≡ 32) × AreBytes q.connection_work_hash)
        (sym f.bodies.result) (hash_32 _)

  pub work_display :
      (domain : List ℕ) (claim encoded : Bytes) (p : ParsedProof)
      → IsProof sha256 domain claim encoded p
      → internal_hash_to_display p.connection_work_hash
        ≡ ok (to_hex (reverse p.connection_work_hash))
  unfolding internal_hash_to_display
  work_display domain claim encoded p f =
      rw (eq→== _ _ (work_hash-IsHash domain claim encoded p f).0) refl
