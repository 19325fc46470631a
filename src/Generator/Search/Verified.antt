-- ===== src/Generator/Search/Verified.antt =====
-- What the search of src/connectcoin_p2c_tools/generator.py finds.
use connectcoin_p2c_tools.Common.{
  ℕ, ◌≡◌, inr, refl, ap, ◌∙◌, subst, Bool, true, false, List, Bytes, arith,
}
use connectcoin_p2c_tools.Common.Outcome.{Result, ok, raises, out_of_fuel, ◌>>=◌, bind_inv}
use connectcoin_p2c_tools.Hashes.{meets_work_target}
use connectcoin_p2c_tools.Envelope.{ConnectionProof, challenge}
use connectcoin_p2c_tools.Envelope.Valid.{IsValid}
use connectcoin_p2c_tools.Protocol.Proof.{ParsedProof, parse_proof}
use connectcoin_p2c_tools.Tls.Messages.{TlsProofMessages, encoded_proof}
use connectcoin_p2c_tools.Verify.Connection.{VerificationResult, verify_connection_proof}
use connectcoin_p2c_tools.Generator.Search.{Search, initial}
use connectcoin_p2c_tools.Generator.Search.Retarget.{
  replace_proof_lem, replace_target_lem, verify-retarget,
}
use connectcoin_p2c_tools.Generator.Search.Attempts.{
  Inputs, GenerationResult, Step, going, found, replace_proof, replace_target, easiest_target,
  Round, candidate_of, verify_unless, result_of, conclude, preflight,
}
use connectcoin_p2c_tools.Generator.Search.Loop.{search}
use connectcoin_p2c_tools.Generator.Search.Keeps.{Counts, OfStep, OfOption-met, OfOption-then}
use connectcoin_p2c_tools.Generator.Search.Tries.{Concludes, ReturnedIn}
use connectcoin_p2c_tools.Generator.Search.Bounds.{Within}
use connectcoin_p2c_tools.Generator.Search.Rounds.{search-OfStep}

module _ (i : Inputs) where
  open i use {sha256, x, roots_file, context, limits, enforce_root_pin as enforce}

  -- The envelope is the context with the proof of the messages that a connection of the rounds has
  -- returned, and it verifies.
  abbrev pub IsFound : List Round → GenerationResult → Type 0
  IsFound rounds g =
      IsValid g.envelope
      × ((capture : TlsProofMessages) × ReturnedIn capture rounds
          × (g.envelope ≡ record context { proof = encoded_proof capture })
          × (g.peer_ip ≡ capture.peer_ip))
      × ((result : VerificationResult) × (verify_connection_proof sha256 x g.envelope roots_file
              enforce
            ≡ ok result))

  abbrev Verifies : ConnectionProof → Type 0
  Verifies candidate =
      (result : VerificationResult) × (verify_connection_proof sha256 x candidate roots_file enforce
        ≡ ok result)

  -- What a candidate is.
  candidate_inv :
      (capture : TlsProofMessages) (candidate : ConnectionProof) (parsed : ParsedProof)
      → candidate_of i capture ≡ ok (candidate, parsed)
      → (replace_proof context (encoded_proof capture) ≡ ok candidate)
        × ((claim : Bytes) × (challenge sha256 candidate ≡ ok claim)
            × (parse_proof sha256 candidate.proof candidate.domain claim ≡ ok parsed))
  candidate_inv capture candidate parsed h =
      let (c, replaced, h₁) =
        bind_inv
          (λ (c : ConnectionProof). challenge sha256 c >>= λ claim.
            parse_proof sha256 c.proof c.domain claim >>= λ p. ok (c, p))
          (replace_proof context (encoded_proof capture)) h in
      let (claim, claimed, h₂) =
        bind_inv (λ (claim : Bytes). parse_proof sha256 c.proof c.domain claim >>= λ p. ok (c, p))
          (challenge sha256 c) h₁ in
      let (p, parses, h₃) =
        bind_inv (λ (p : ParsedProof). ok (c, p)) (parse_proof sha256 c.proof c.domain claim) h₂ in
      let same : c ≡ candidate = pair_left c candidate p parsed h₃ in
      let same_proof : p ≡ parsed = pair_right c candidate p parsed h₃ in
      (
        replaced ∙ ap (λ (e : ConnectionProof). ok e) same,
        (
          claim,
          subst (λ (e : ConnectionProof). challenge sha256 e ≡ ok claim) same claimed,
          subst (λ (e : ConnectionProof). parse_proof sha256 e.proof e.domain claim ≡ ok p) same
                parses
              ∙ ap (λ (q : ParsedProof). ok q) same_proof,
        ),
      )
    where
      pair_left :
          (c d : ConnectionProof) (p q : ParsedProof)
          → ◌≡◌ {A = Result (ConnectionProof × ParsedProof)} (ok (c, p)) (ok (d, q))
          → c ≡ d
      pair_left c d p q e = cc

      pair_right :
          (c d : ConnectionProof) (p q : ParsedProof)
          → ◌≡◌ {A = Result (ConnectionProof × ParsedProof)} (ok (c, p)) (ok (d, q))
          → p ≡ q
      pair_right c d p q e = cc

  -- After a preflight that passed, a candidate that meets its own target verifies.
  preflight-Verifies :
      (candidate : ConnectionProof) (parsed : ParsedProof) (claim : Bytes)
      → challenge sha256 candidate ≡ ok claim
      → parse_proof sha256 candidate.proof candidate.domain claim ≡ ok parsed
      → meets_work_target parsed.connection_work_hash candidate.connection_work_target ≡ ok true
      → preflight i candidate ≡ ok tt
      → Verifies candidate
  unfolding preflight
  preflight-Verifies candidate parsed claim claimed parses met h =
      let (easy, replaced, h₁) =
        bind_inv
          (λ (easy : ConnectionProof).
            verify_connection_proof sha256 x easy roots_file enforce >>= λ _. ok tt)
          (replace_target candidate easiest_target) h in
      let (result, verified, _) =
        bind_inv (λ (_ : VerificationResult). ok tt)
          (verify_connection_proof sha256 x easy roots_file enforce) h₁ in
      (
        result,
        verify-retarget sha256 x roots_file enforce candidate claim parsed claimed parses
            easiest_target result met
            (subst
              (λ (e : ConnectionProof).
                verify_connection_proof sha256 x e roots_file enforce ≡ ok result)
              (replace_target_lem candidate easy easiest_target replaced) verified),
      )

  -- The full verification, or the preflight in its place.
  verify_unless-Verifies :
      (candidate : ConnectionProof) (parsed : ParsedProof) (claim : Bytes) (verified : Bool)
      → challenge sha256 candidate ≡ ok claim
      → parse_proof sha256 candidate.proof candidate.domain claim ≡ ok parsed
      → meets_work_target parsed.connection_work_hash candidate.connection_work_target ≡ ok true
      → (verified ≡ true → preflight i candidate ≡ ok tt)
      → verify_unless i verified candidate ≡ ok tt
      → Verifies candidate
  verify_unless-Verifies candidate parsed claim true claimed parses met passed h =
      preflight-Verifies candidate parsed claim claimed parses met (passed refl)
  verify_unless-Verifies candidate parsed claim false claimed parses met passed h =
      let (result, verifies, _) =
        bind_inv (λ (_ : VerificationResult). ok tt)
          (verify_connection_proof sha256 x candidate roots_file enforce) h in
      (result, verifies)

  module _ (rounds : List Round) where
    abbrev From : TlsProofMessages → Type 0
    From capture = ReturnedIn capture rounds

    abbrev IsFoundHere : GenerationResult → Type 0
    IsFoundHere g = IsFound rounds g

    result_of-IsFound :
        (capture : TlsProofMessages) (candidate : ConnectionProof) (s : Search)
        → ReturnedIn capture rounds
        → replace_proof context (encoded_proof capture) ≡ ok candidate
        → Verifies candidate
        → IsFoundHere (result_of i candidate capture.peer_ip s)
    result_of-IsFound capture candidate s from replaced verifies =
        let (valid, is) = replace_proof_lem context candidate (encoded_proof capture) replaced in
        (valid, (capture, from, is, refl), verifies)

    concludes-IsFound : Concludes i From IsFoundHere
    unfolding conclude
    concludes-IsFound capture candidate parsed verified s from of passed =
        let (replaced, (claim, claimed, parses)) = candidate_inv capture candidate parsed of in
        OfOption-met IsFoundHere _
          (meets_work_target parsed.connection_work_hash candidate.connection_work_target)
          λ met. OfOption-then IsFoundHere _ (verify_unless i verified candidate) λ h.
            result_of-IsFound capture candidate s from replaced
              (verify_unless-Verifies candidate parsed claim verified claimed parses met passed h)

    found_inv :
        (r : Result Step) (B : Counts) (g : GenerationResult)
        → OfStep IsFoundHere B r
        → r ≡ ok (found g)
        → IsFoundHere g
    found_inv (ok (found f)) B g h e =
        subst (λ (k : GenerationResult). IsFoundHere k) (step_eq f g e) h
      where
        step_eq : (f g : GenerationResult) → ok (found f) ≡ ok (found g) → f ≡ g
        step_eq f g e = cc
    found_inv (ok (going s)) B g h e = cc
    found_inv (raises x) B g h e = cc
    found_inv out_of_fuel B g h e = cc

    -- What the search finds.
    pub search-IsFound :
        (started_at : ℕ) (g : GenerationResult)
        → search i rounds (initial started_at) ≡ ok (found g)
        → IsFoundHere g
    search-IsFound started_at g e =
        found_inv _ (Within limits 0) g
          (search-OfStep i From IsFoundHere concludes-IsFound 0 rounds (initial started_at)
            (λ capture m. m) (omega arith, omega arith, inr (omega arith), omega arith))
          e
