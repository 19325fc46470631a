-- ===== src/Generator/Search.antt =====
-- The search of generate_connection_proof in src/connectcoin_p2c_tools/generator.py: its state and
-- how connections are started.
pub mod Attempts
pub mod Loop
pub mod Retarget
pub mod Keeps
pub mod Tries
pub mod Verified
pub mod Bounds
pub mod Rounds
pub mod Returns
pub mod Ends
use connectcoin_p2c_tools.Common.{
  ℕ, zero, suc, ◌+◌, ◌-◌, ◌*◌, ◌/◌, ◌%◌, Bool, true, false, ◌&&◌, ◌||◌, not, List, [], ◌∷◌, ◌++◌,
  Option, none, some, ltb, leb, ◌==◌, ◌!=◌, if◌then◌else◌, length, get_elem?,
}
use connectcoin_p2c_tools.Common.Outcome.{Result, Exception, ok, raises, index_error, ◌>>=◌}
use connectcoin_p2c_tools.Common.Values.{ℤ, pos, negsuc}
use connectcoin_p2c_tools.Tls.Messages.{Endpoint}
use connectcoin_p2c_tools.Generator.Options.{GenerationOptions, Seconds, finite}

-- The numbers of the options, which are validated; no interval where the rate is -1.
pub record Limits : Type 0 where
  pub concurrency : ℕ
  pub interval : Option ℕ
  pub connection_timeout : ℕ
  pub overall_timeout : ℕ
  pub max_attempts : ℕ

abbrev pub number_of : ℤ → ℕ
number_of (pos n) = n
number_of (negsuc n) = 0

abbrev seconds_of : Seconds → ℕ
seconds_of (finite (pos n)) = n
seconds_of _ = 0

-- `1.0 / connections_per_second`
abbrev pub interval_of : ℤ → Option ℕ
interval_of (pos n) = some (1000000000 / n)
interval_of (negsuc n) = none

abbrev pub limits_of : GenerationOptions → Limits
limits_of options = record {
  concurrency = number_of options.concurrency;
  interval = interval_of options.connections_per_second;
  connection_timeout = seconds_of options.connection_timeout;
  overall_timeout = seconds_of options.overall_timeout;
  max_attempts = number_of options.max_attempts;
}

-- A future of the executor: the call of _capture with an endpoint and a timeout.
pub record Attempt : Type 0 where
  pub number : ℕ
  pub endpoint : Endpoint
  pub timeout : ℕ

pub record GenerationProgress : Type 0 where
  pub attempts : ℕ
  pub elapsed : ℕ
  -- The rate as a fraction.
  pub attempts_per_second : ℕ × ℕ
  pub best_work_hash : Option (List ℕ)
  pub last_error : Option Exception

-- The variables of the search; `readings` counts the readings of the clock so far, and `reports`
-- are the calls of `progress`, the last first.
pub record Search : Type 0 where
  pub started_at : ℕ
  pub next_start : ℕ
  pub attempts_started : ℕ
  pub attempts_completed : ℕ
  pub next_endpoint : ℕ
  pub best_value : Option ℕ
  pub best_hash : Option (List ℕ)
  pub last_error : Option Exception
  pub preflight_complete : Bool
  pub pending : List Attempt
  pub readings : ℕ
  pub reports : List GenerationProgress

abbrev pub initial : ℕ → Search
initial started_at = record {
  started_at = started_at;
  next_start = started_at;
  attempts_started = 0;
  attempts_completed = 0;
  next_endpoint = 0;
  best_value = none;
  best_hash = none;
  last_error = none;
  preflight_complete = false;
  pending = [];
  readings = 1;
  reports = [];
}

abbrev pub minimum : ℕ → ℕ → ℕ
minimum a b = if leb a b then a else b

abbrev pub maximum : ℕ → ℕ → ℕ
maximum a b = if leb a b then b else a

abbrev pub tick : Search → Search
tick s = record s { readings = s.readings + 1 }

-- `endpoints[i]`
abbrev pub endpoint_at : Option Endpoint → Result Endpoint
endpoint_at none = raises index_error
endpoint_at (some endpoint) = ok endpoint

-- `max_attempts and attempts_started >= max_attempts`
abbrev pub is_spent : Limits → Search → Bool
is_spent limits s = limits.max_attempts != 0 && leb limits.max_attempts s.attempts_started

-- `connections_per_second != -1 and now < next_start`
abbrev pub must_wait : Option ℕ → ℕ → ℕ → Bool
must_wait none now next_start = false
must_wait (some interval) now next_start = ltb now next_start

abbrev pub start_after : Option ℕ → ℕ → ℕ → ℕ
start_after none now next_start = next_start
start_after (some interval) now next_start = maximum (next_start + interval) (now + interval)

-- A timeout that is used up is 0 here, and negative in the program; the connection refuses both.
abbrev pub attempt_timeout : Limits → ℕ → ℕ
attempt_timeout limits elapsed =
    if limits.overall_timeout == 0
    then limits.connection_timeout
    else minimum limits.connection_timeout (limits.overall_timeout - elapsed)

abbrev pub is_some {ℓ} : {A : Type ℓ} → Option A → Bool
is_some none = false
is_some (some a) = true

module _ (limits : Limits) (clock : ℕ → ℕ) (endpoints : List Endpoint) where
  -- A connection that starts at `now`.
  unfoldable pub start : ℕ → Endpoint → Search → Search
  start now endpoint s = record s {
    next_start = start_after limits.interval now s.next_start;
    attempts_started = s.attempts_started + 1;
    next_endpoint = s.next_endpoint + 1;
    pending =
        s.pending
        ++ (record {
          number = s.attempts_started + 1;
          endpoint = endpoint;
          timeout = attempt_timeout limits (now - s.started_at);
        }
            ∷ []);
  }

  -- The loop that starts connections, where there is room for so many more.
  unfoldable pub start_loop : ℕ → Search → Result Search
  start_loop zero s = ok s
  start_loop (suc room) s =
      let now = clock s.readings in
      if is_spent limits s
      then ok s
      else if must_wait limits.interval now s.next_start
      then ok (tick s)
      else (endpoint_at (get_elem? endpoints (s.next_endpoint % length endpoints)) >>= λ endpoint.
          start_loop room (start now endpoint (tick s)))

  unfoldable pub start_attempts : Search → Result Search
  start_attempts s = start_loop (limits.concurrency - length s.pending) s
