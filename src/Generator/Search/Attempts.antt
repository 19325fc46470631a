-- ===== src/Generator/Search/Attempts.antt =====
-- What the search of src/connectcoin_p2c_tools/generator.py does with a connection that is done.
use connectcoin_p2c_tools.Common.{
  ℕ, ◌+◌, ◌-◌, Bool, true, false, not, List, [], ◌∷◌, Option, none, some, ltb, ◌==◌, if◌then◌else◌,
  replicate, Bytes, from_le,
}
use connectcoin_p2c_tools.Common.Outcome.{
  Result, Exception, ok, raises, out_of_fuel, key_error, ◌>>=◌, ◌>>◌,
}
use connectcoin_p2c_tools.Common.Values.{pos, int, text, bytes}
use connectcoin_p2c_tools.Hashes.{internal_hash_to_display, meets_work_target}
use connectcoin_p2c_tools.Envelope.{ConnectionProof, Arguments, construct, challenge}
use connectcoin_p2c_tools.Protocol.Proof.{ParsedProof, parse_proof}
use connectcoin_p2c_tools.Tls.Messages.{Endpoint, TlsProofMessages, encoded_proof}
use connectcoin_p2c_tools.Verify.X509.{X509}
use connectcoin_p2c_tools.Verify.Connection.{verify_connection_proof}
use connectcoin_p2c_tools.Generator.Search.{Limits, Attempt, Search}

pub record GenerationResult : Type 0 where
  pub envelope : ConnectionProof
  pub attempts : ℕ
  pub elapsed : ℕ
  pub peer_ip : List ℕ

-- The search goes on, or has found a proof.
pub data Step : Type 0 where
  going : Search → Step
  found : GenerationResult → Step

-- The fields that `replace` passes on.
abbrev pub fields_of : ConnectionProof → List ℕ → Bytes → Arguments
fields_of envelope target proof = record {
  domain = text envelope.domain;
  txid = text envelope.txid;
  input_index = int (pos envelope.input_index);
  connection_work_target = text target;
  root_certificates_version = int (pos envelope.root_certificates_version);
  signature_algorithms_mask = int (pos envelope.signature_algorithms_mask);
  validation_time = int (pos envelope.validation_time);
  proof = bytes proof;
  version = int (pos envelope.version);
}

-- `replace(context, proof=...)` and `replace(candidate, connection_work_target=...)`, which check
-- the fields again.
abbrev pub replace_proof : ConnectionProof → Bytes → Result ConnectionProof
replace_proof context proof = construct (fields_of context context.connection_work_target proof)

abbrev pub replace_target : ConnectionProof → List ℕ → Result ConnectionProof
replace_target candidate target = construct (fields_of candidate target candidate.proof)

abbrev pub easiest_target : List ℕ
easiest_target = replicate 64 b'f'

-- `pending.pop(future)`
abbrev pub pop : ℕ → List Attempt → Result (List Attempt)
pop number [] = raises key_error
pop number (attempt ∷ pending) =
    if attempt.number == number
    then ok pending
    else do rest ← pop number pending; ok (attempt ∷ rest)

-- The exceptions that a connection may end with.
abbrev pub is_caught : Exception → Bool
is_caught Exception.os_error = true
is_caught Exception.tls_generation = true
is_caught Exception.proof_format = true
is_caught Exception.proof_verification = true
is_caught _ = false

-- `best_value is None or numeric_work < best_value`
abbrev pub is_better : ℕ → Option ℕ → Bool
is_better work none = true
is_better work (some best) = ltb work best

-- The state after a part of the try block, and how that ended.
abbrev pub Tried : Type 0
Tried = Search × Result (Option GenerationResult)

-- The except clause: the state that the block leaves stays.
unfoldable pub settle : Tried → Result Step
settle (s, ok (some result)) = ok (found result)
settle (s, ok none) = ok (going (record s { last_error = none }))
settle (s, raises e) =
    if is_caught e then ok (going (record s { last_error = some e })) else raises e
settle (s, out_of_fuel) = out_of_fuel

-- What `wait` reports: the futures that are done, and how their captures ended.
abbrev pub Round : Type 0
Round = List (ℕ × Result TlsProofMessages)

-- What the search runs on: the packages, and the variables that it does not change.
pub record Inputs : Type 1 where
  pub sha256 : Bytes → Bytes
  pub x : X509
  pub roots_file : Option Bytes
  pub enforce_root_pin : Bool
  pub context : ConnectionProof
  pub limits : Limits
  pub clock : ℕ → ℕ
  pub endpoints : List Endpoint

module _ (i : Inputs) where
  open i use {sha256, x, roots_file, enforce_root_pin, context, limits, clock, endpoints}

  abbrev pub candidate_of : TlsProofMessages → Result (ConnectionProof × ParsedProof)
  candidate_of capture = do
    candidate ← replace_proof context (encoded_proof capture)
    claim ← challenge sha256 candidate
    parsed ← parse_proof sha256 candidate.proof candidate.domain claim
    ok (candidate, parsed)

  -- The best hash so far: its value is set before it is displayed.
  abbrev pub show_best : ℕ → Search → Result (List ℕ) → Search × Result (Unit {0})
  show_best work s (ok display) =
      (record s { best_value = some work; best_hash = some display }, ok tt)
  show_best work s (raises e) = (record s { best_value = some work }, raises e)
  show_best work s out_of_fuel = (s, out_of_fuel)

  unfoldable pub note_best : ParsedProof → Search → Search × Result (Unit {0})
  note_best parsed s =
      let work = from_le parsed.connection_work_hash in
      if is_better work s.best_value
      then show_best work s (internal_hash_to_display parsed.connection_work_hash)
      else (s, ok tt)

  -- The full verification is skipped where the preflight was the candidate's.
  abbrev pub verify_unless : Bool → ConnectionProof → Result (Unit {0})
  verify_unless true candidate = ok tt
  verify_unless false candidate = do
    _ ← verify_connection_proof sha256 x candidate roots_file enforce_root_pin
    ok tt

  abbrev pub result_of : ConnectionProof → List ℕ → Search → GenerationResult
  result_of candidate peer_ip s = record {
    envelope = candidate;
    attempts = s.attempts_completed;
    elapsed = clock s.readings - s.started_at;
    peer_ip = peer_ip;
  }

  -- From `meets_work_target` on.
  unfoldable pub conclude :
      ConnectionProof → ParsedProof → List ℕ → Bool → Search → Result (Option GenerationResult)
  conclude candidate parsed peer_ip candidate_verified s =
      meets_work_target parsed.connection_work_hash candidate.connection_work_target >>= λ met.
      if not met
      then ok none
      else (verify_unless candidate_verified candidate >> ok (some (result_of candidate peer_ip s)))

  -- The first candidate is verified against the easiest target.
  unfoldable pub preflight : ConnectionProof → Result (Unit {0})
  preflight candidate = do
    easy ← replace_target candidate easiest_target
    _ ← verify_connection_proof sha256 x easy roots_file enforce_root_pin
    ok tt

  abbrev pub after_preflight :
      ConnectionProof → ParsedProof → List ℕ → Search → Result (Unit {0}) → Tried
  after_preflight candidate parsed peer_ip s (ok u) =
      (record s { preflight_complete = true }, conclude candidate parsed peer_ip true s)
  after_preflight candidate parsed peer_ip s (raises e) = (s, raises e)
  after_preflight candidate parsed peer_ip s out_of_fuel = (s, out_of_fuel)

  unfoldable pub judge : ConnectionProof → ParsedProof → List ℕ → Search → Tried
  judge candidate parsed peer_ip s =
      if s.preflight_complete
      then (s, conclude candidate parsed peer_ip false s)
      else after_preflight candidate parsed peer_ip s (preflight candidate)

  -- The try block from the noting of the best hash on.
  abbrev pub after_noting :
      ConnectionProof → ParsedProof → List ℕ → Search × Result (Unit {0}) → Tried
  after_noting candidate parsed peer_ip (s, ok u) = judge candidate parsed peer_ip s
  after_noting candidate parsed peer_ip (s, raises e) = (s, raises e)
  after_noting candidate parsed peer_ip (s, out_of_fuel) = (s, out_of_fuel)

  abbrev pub try_candidate : List ℕ → Search → Result (ConnectionProof × ParsedProof) → Tried
  try_candidate peer_ip s (ok (candidate, parsed)) =
      after_noting candidate parsed peer_ip (note_best parsed s)
  try_candidate peer_ip s (raises e) = (s, raises e)
  try_candidate peer_ip s out_of_fuel = (s, out_of_fuel)

  -- The whole try block, from `future.result()` on.
  unfoldable pub try_capture : Result TlsProofMessages → Search → Tried
  try_capture (ok capture) s = try_candidate capture.peer_ip s (candidate_of capture)
  try_capture (raises e) s = (s, raises e)
  try_capture out_of_fuel s = (s, out_of_fuel)

  -- The loop over the futures that are done.
  unfoldable pub finish_done : Round → Search → Result Step
  finish_done [] s = ok (going s)
  finish_done ((number, result) ∷ done) s = pop number s.pending >>= λ pending.
      (settle (
          try_capture result
            (record s { pending = pending; attempts_completed = s.attempts_completed + 1 }))
        >>= λ step. elim step [ found r ↦ ok (found r) | going after ↦ finish_done done after ])
