-- ===== src/Generator/Search/Returns.antt =====
-- The search of src/connectcoin_p2c_tools/generator.py never waits without end: each round returns
-- or raises where each connection that is done has returned or raised.
use connectcoin_p2c_tools.Common.{
  ℕ, zero, suc, refl, ◌+◌, ◌-◌, ◌%◌, ◌≢◌, inl, inr, Bool, true, false, ◌&&◌, not, List, [], ◌∷◌,
  Option, none, some, leb, ◌==◌, ◌!=◌, if◌then◌else◌, length, is_empty, All, Bytes, from_le,
  Bool-cases, get_elem?,
}
use connectcoin_p2c_tools.Common.Outcome.{
  Result, ok, raises, out_of_fuel, generation, ◌>>=◌, ◌>>◌, Ends, returns, stops, Ends-bind,
  Ends-weaken, Ensures-Ends,
}
use connectcoin_p2c_tools.Envelope.{ConnectionProof, challenge}
use connectcoin_p2c_tools.Envelope.Valid.{IsValid, construct-Ensures}
use connectcoin_p2c_tools.Envelope.Checks.{claim_challenge-ok}
use connectcoin_p2c_tools.Protocol.Proof.{ParsedProof}
use connectcoin_p2c_tools.Protocol.Proof.Accepts.{IsProof, parse_proof-Ensures}
use connectcoin_p2c_tools.Tls.Messages.{Endpoint, TlsProofMessages}
use connectcoin_p2c_tools.Verify.Connection.{verify_connection_proof}
use connectcoin_p2c_tools.Verify.Connection.Accepted.{
  IsHash32, GivesBytes, meets_work_target-valid, work_hash-IsHash, work_display,
}
use connectcoin_p2c_tools.Verify.Connection.Stages.{verify_connection_proof-Ends}
use connectcoin_p2c_tools.Generator.Search.{
  Attempt, Search, endpoint_at, tick, is_spent, must_wait, start, start_loop, start_attempts,
}
use connectcoin_p2c_tools.Generator.Search.Attempts.{
  Inputs, Step, going, found, pop, is_caught, is_better, Tried, settle, Round, candidate_of,
  note_best, verify_unless, result_of, conclude, preflight, after_preflight, judge, after_noting,
  try_candidate, try_capture, finish_done,
}
use connectcoin_p2c_tools.Generator.Search.Loop.{await, one_round, search}

-- The run returns or raises.
abbrev pub Returns : {A : Type 0} → Result A → Type 0
Returns r = Ends (λ _. Unit {0}) (λ _. Unit {0}) r

abbrev TryReturns : Tried → Type 0
TryReturns t = Returns t.1

-- Each connection of the round has returned or raised.
abbrev pub AreDone : Round → Type 0
AreDone done = All (λ (d : ℕ × Result TlsProofMessages). d.1 ≢ out_of_fuel) done

pop-Returns : (number : ℕ) (pending : List Attempt) → Returns (pop number pending)
pop-Returns number [] = stops tt
pop-Returns number (a ∷ pending) = elim (Bool-cases (a.number == number)) [
  | inl e ↦ rw e (returns tt)
  | inr e ↦ rw e (Ends-bind (pop-Returns number pending) λ rest _. returns tt)
]

settle-Returns : (t : Tried) → TryReturns t → Returns (settle t)
unfolding settle
settle-Returns (s, ok (some g)) h = returns tt
settle-Returns (s, ok none) h = returns tt
settle-Returns (s, raises e) h = elim (Bool-cases (is_caught e)) [
  | inl c ↦ rw c (returns tt)
  | inr c ↦ rw c (stops tt)
]
settle-Returns (s, out_of_fuel) h = elim h [ ]

module _ (i : Inputs) where
  open i use {sha256, x, roots_file, enforce_root_pin, limits, clock, endpoints}

  endpoint_at-Returns : (o : Option Endpoint) → Returns (endpoint_at o)
  endpoint_at-Returns none = stops tt
  endpoint_at-Returns (some endpoint) = returns tt

  start_loop-Returns : (room : ℕ) (s : Search) → Returns (start_loop limits clock endpoints room s)
  unfolding start_loop
  start_loop-Returns zero s = returns tt
  start_loop-Returns (suc room) s = elim (Bool-cases (is_spent limits s)) [
    | inl e ↦ rw e (returns tt)
    | inr e ↦ rw e (elim (Bool-cases (must_wait limits.interval (clock s.readings) s.next_start)) [
      | inl f ↦ rw f (returns tt)
      | inr f ↦ rw f (
          Ends-bind (endpoint_at-Returns (get_elem? endpoints (s.next_endpoint % length endpoints)))
            λ endpoint _.
              start_loop-Returns room
                (start limits clock endpoints (clock s.readings) endpoint (tick s)))
    ])
  ]

  module _ (hash_32 : IsHash32 sha256) (gives_bytes : GivesBytes x) where
    record IsCandidate (candidate : ConnectionProof) (parsed : ParsedProof) : Type 0 where
      valid : IsValid candidate
      claim : Bytes
      proved : IsProof sha256 candidate.domain claim candidate.proof parsed

    verify-Returns :
        (e : ConnectionProof)
        → IsValid e
        → Returns (verify_connection_proof sha256 x e roots_file enforce_root_pin)
    verify-Returns e valid =
        Ends-weaken (λ _ _. tt) (λ _ _. tt)
          (verify_connection_proof-Ends sha256 x hash_32 gives_bytes e valid roots_file
            enforce_root_pin)

    candidate_of-Ends :
        (capture : TlsProofMessages)
        → Ends
            (λ _. Unit {0})
            (λ (made : ConnectionProof × ParsedProof). IsCandidate made.0 made.1)
            (candidate_of i capture)
    unfolding challenge
    candidate_of-Ends capture = Ends-bind (Ensures-Ends tt (construct-Ensures _)) λ c (valid, _).
        rw (claim_challenge-ok sha256 c.txid c.input_index valid.txid_hex valid.index_fits) (
          Ends-bind (Ensures-Ends tt (parse_proof-Ensures sha256 c.proof c.domain _))
            λ parsed proved. returns (record { valid = valid; claim = _; proved = proved }))

    verify_unless-Returns :
        (verified : Bool) (candidate : ConnectionProof)
        → IsValid candidate
        → Returns (verify_unless i verified candidate)
    verify_unless-Returns true candidate valid = returns tt
    verify_unless-Returns false candidate valid =
        Ends-bind (verify-Returns candidate valid) λ _ _. returns tt

    module _ (candidate : ConnectionProof) (parsed : ParsedProof) (h : IsCandidate candidate parsed)
        (peer_ip : List ℕ) where
      conclude-Returns :
          (verified : Bool) (s : Search) → Returns (conclude i candidate parsed peer_ip verified s)
      unfolding conclude
      conclude-Returns verified s =
          let (size, are) =
            work_hash-IsHash sha256 hash_32 candidate.domain h.claim candidate.proof parsed
              h.proved in
          rw (meets_work_target-valid candidate parsed.connection_work_hash h.valid size are)
            (by_met _)
        where
          by_met :
              (met : Bool)
              → Returns (
                  if not met
                  then ok none
                  else (verify_unless i verified candidate
                      >> ok (some (result_of i candidate peer_ip s))))
          by_met false = returns tt
          by_met true =
              Ends-bind (verify_unless-Returns verified candidate h.valid) λ _ _. returns tt

      preflight-Returns : Returns (preflight i candidate)
      unfolding preflight
      preflight-Returns =
          Ends-bind (Ensures-Ends tt (construct-Ensures _))
            λ easy (valid, _). Ends-bind (verify-Returns easy valid) λ _ _. returns tt

      judge-Returns : (s : Search) → TryReturns (judge i candidate parsed peer_ip s)
      unfolding judge
      judge-Returns s = by_flag s.preflight_complete
        where
          by_preflight :
              (r : Result (Unit {0}))
              → Returns r
              → TryReturns (after_preflight i candidate parsed peer_ip s r)
          by_preflight (ok u) e = conclude-Returns true s
          by_preflight (raises x) e = stops tt
          by_preflight out_of_fuel e = elim e [ ]

          by_flag :
              (complete : Bool)
              → TryReturns (
                  if complete
                  then (s, conclude i candidate parsed peer_ip false s)
                  else after_preflight i candidate parsed peer_ip s (preflight i candidate))
          by_flag true = conclude-Returns false s
          by_flag false = by_preflight (preflight i candidate) preflight-Returns

      note_best-Returns : (s : Search) → Returns (note_best i parsed s).1
      unfolding note_best
      note_best-Returns s =
          let shown =
            work_display sha256 hash_32 candidate.domain h.claim candidate.proof parsed h.proved in
          elim (Bool-cases (is_better (from_le parsed.connection_work_hash) s.best_value)) [
            | inl c ↦ rw (c, shown) (returns tt)
            | inr c ↦ rw c (returns tt)
          ]

      after_noting-Returns :
          (noted : Search × Result (Unit {0}))
          → Returns noted.1
          → TryReturns (after_noting i candidate parsed peer_ip noted)
      after_noting-Returns (s, ok u) e = judge-Returns s
      after_noting-Returns (s, raises x) e = stops tt
      after_noting-Returns (s, out_of_fuel) e = elim e [ ]

    try_candidate-Returns :
        (peer_ip : List ℕ) (s : Search) (made : Result (ConnectionProof × ParsedProof))
        → Ends (λ _. Unit {0}) (λ (c : ConnectionProof × ParsedProof). IsCandidate c.0 c.1) made
        → TryReturns (try_candidate i peer_ip s made)
    try_candidate-Returns peer_ip s (ok (candidate, parsed)) (returns h) =
        after_noting-Returns candidate parsed h peer_ip (note_best i parsed s)
          (note_best-Returns candidate parsed h peer_ip s)
    try_candidate-Returns peer_ip s (raises e) h = stops tt
    try_candidate-Returns peer_ip s out_of_fuel h = elim h [ ]

    try_capture-Returns :
        (result : Result TlsProofMessages) (s : Search)
        → result ≢ out_of_fuel
        → TryReturns (try_capture i result s)
    unfolding try_capture
    try_capture-Returns (ok capture) s h =
        try_candidate-Returns capture.peer_ip s (candidate_of i capture) (candidate_of-Ends capture)
    try_capture-Returns (raises e) s h = stops tt
    try_capture-Returns out_of_fuel s h = absurd (h refl)

    finish_done-Returns :
        (done : Round) (s : Search) → AreDone done → Returns (finish_done i done s)
    unfolding finish_done
    finish_done-Returns [] s h = returns tt
    finish_done-Returns ((number, result) ∷ done) s (one, more) =
        Ends-bind (pop-Returns number s.pending) λ pending _.
          Ends-bind
            (settle-Returns _ (
              try_capture-Returns result
                (record s { pending = pending; attempts_completed = s.attempts_completed + 1 })
                one))
            λ step _. by_step step λ after. finish_done-Returns done after more
      where
        by_step :
            (step : Step)
            → ((after : Search) → Returns (finish_done i done after))
            → Returns
                (elim step [ found r ↦ ok (found r) | going after ↦ finish_done i done after ])
        by_step (found r) rest = returns tt
        by_step (going after) rest = rest after

    await-Returns : (done : Round) (s : Search) → AreDone done → Returns (await i done s)
    unfolding await
    await-Returns done s h = elim (Bool-cases (is_empty s.pending)) [
      | inl e ↦ rw e (returns tt)
      | inr e ↦ rw e (Ends-bind (finish_done-Returns done _ h) λ step _. returns tt)
    ]

    one_round-Returns : (done : Round) (s : Search) → AreDone done → Returns (one_round i done s)
    unfolding one_round start_attempts
    one_round-Returns done s h =
        by_tests
          (limits.overall_timeout != 0
            && leb limits.overall_timeout (clock s.readings - s.started_at))
          (is_spent limits s && is_empty s.pending)
      where
        by_tests :
            (late spent : Bool)
            → Returns (
                if late
                then raises generation
                else if spent
                then raises generation
                else (start_attempts limits clock endpoints (tick s) >>= λ started.
                    await i done started))
        by_tests true spent = stops tt
        by_tests false true = stops tt
        by_tests false false =
            Ends-bind (start_loop-Returns _ (tick s)) λ started _. await-Returns done started h

    pub search-Returns :
        (rounds : List Round) (s : Search) → All AreDone rounds → Returns (search i rounds s)
    unfolding search
    search-Returns [] s h = returns tt
    search-Returns (done ∷ rounds) s (one, more) =
        Ends-bind (one_round-Returns done s one)
          λ step _. by_step step λ after. search-Returns rounds after more
      where
        by_step :
            (step : Step)
            → ((after : Search) → Returns (search i rounds after))
            → Returns (elim step [ found r ↦ ok (found r) | going after ↦ search i rounds after ])
        by_step (found r) rest = returns tt
        by_step (going after) rest = rest after
