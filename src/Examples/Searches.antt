-- ===== src/Examples/Searches.antt =====
-- A search whose connections fail, and the theorems of the loop on it.
use connectcoin_p2c_tools.Common.{
  ℕ, ◌+◌, ◌≤◌, ◌≡◌, ◌≢◌, ◌⊎◌, refl, false, [], ◌∷◌, none, some, length, arith,
}
use connectcoin_p2c_tools.Common.Outcome.{Result, Exception, ok, raises, os_error}
use connectcoin_p2c_tools.Tls.Messages.{TlsProofMessages}
use connectcoin_p2c_tools.Generator.Search.{
  Limits, Search, initial, start, start_loop, start_attempts,
}
use connectcoin_p2c_tools.Generator.Search.Attempts.{
  Inputs, GenerationResult, found, going, Round, settle, try_capture, finish_done,
}
use connectcoin_p2c_tools.Generator.Search.Loop.{report, await, one_round, search}
use connectcoin_p2c_tools.Generator.Search.Ends.{search-Within, search-ends}
use connectcoin_p2c_tools.Examples.Certificates.{
  sevens, library, sevens-IsHash32, library-GivesBytes,
}
use connectcoin_p2c_tools.Examples.Generation.{context, peer, clock}

abbrev pub limits : Limits
limits = record {
  concurrency = 2;
  interval = none;
  connection_timeout = 10000000000;
  overall_timeout = 0;
  max_attempts = 2;
}

abbrev pub inputs : Inputs
inputs = record {
  sha256 = sevens;
  x = library;
  roots_file = some [];
  enforce_root_pin = false;
  context = context;
  limits = limits;
  clock = clock;
  endpoints = peer ∷ [];
}

-- A round in which a connection fails.
abbrev failing : ℕ → Round
failing number = (number, raises os_error) ∷ []

abbrev after_one : Search
after_one = record (initial 0) {
  attempts_started = 2;
  attempts_completed = 1;
  next_endpoint = 2;
  last_error = some os_error;
  pending = record { number = 2; endpoint = peer; timeout = 10000000000 } ∷ [];
  readings = 5;
  reports =
      record {
        attempts = 1;
        elapsed = 4000000000;
        attempts_per_second = (1000000000, 4000000000);
        best_work_hash = none;
        last_error = some os_error;
      }
      ∷ [];
}

one_failure : search inputs (failing 1 ∷ []) (initial 0) ≡ ok (going after_one)
unfolding search one_round start_attempts start_loop start await finish_done settle try_capture
    report
one_failure = refl

search-Within_example :
    (length after_one.pending ≤ limits.concurrency)
    × (after_one.attempts_started ≡ after_one.attempts_completed + length after_one.pending)
    × ((limits.max_attempts ≡ 0) ⊎ (after_one.attempts_started ≤ limits.max_attempts))
search-Within_example = search-Within inputs (failing 1 ∷ []) 0 after_one one_failure

search-ends_example :
    ((g : GenerationResult) × (search inputs (failing 1 ∷ failing 2 ∷ failing 3 ∷ []) (initial 0)
        ≡ ok (found g)))
    ⊎ ((e : Exception) × (search inputs (failing 1 ∷ failing 2 ∷ failing 3 ∷ []) (initial 0)
          ≡ raises e))
search-ends_example =
    search-ends inputs refl (omega arith) (failing 1 ∷ failing 2 ∷ failing 3 ∷ []) 0 sevens-IsHash32
      library-GivesBytes (omega arith) (omega arith) (nonempty, (nonempty, (nonempty, tt)))
      ((cc, tt), ((cc, tt), ((cc, tt), tt)))
  where
    nonempty : {d : ℕ × Result TlsProofMessages} → ◌≢◌ {A = Round} (d ∷ []) []
    nonempty e = cc
