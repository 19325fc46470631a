-- ===== src/Generator/Search/Loop.antt =====
-- The rounds of the search of src/connectcoin_p2c_tools/generator.py.
use connectcoin_p2c_tools.Common.{
  ◌+◌, ◌-◌, ◌*◌, ◌&&◌, List, [], ◌∷◌, ltb, leb, ◌==◌, ◌!=◌, if◌then◌else◌, length, is_empty,
}
use connectcoin_p2c_tools.Common.Outcome.{Result, ok, raises, generation, ◌>>=◌}
use connectcoin_p2c_tools.Generator.Search.{is_some, Search, tick, is_spent, start_attempts}
use connectcoin_p2c_tools.Generator.Search.Attempts.{Inputs, Step, going, found, Round, finish_done}

module _ (i : Inputs) where
  open i use {limits, clock, endpoints}

  -- The clock is read for the timeout of `wait` where another connection may start.
  abbrev pub tick_for_wait : Search → Search
  tick_for_wait s =
      if ltb (length s.pending) limits.concurrency && is_some limits.interval then tick s else s

  -- `progress` is called after a round in which some attempt has completed.
  unfoldable pub report : Search → Search
  report s =
      let elapsed = clock s.readings - s.started_at in
      if s.attempts_completed == 0 then s else record s {
        readings = s.readings + 1;
        reports =
            record {
              attempts = s.attempts_completed;
              elapsed = elapsed;
              attempts_per_second =
                  if elapsed == 0 then (0, 1) else (s.attempts_completed * 1000000000, elapsed);
              best_work_hash = s.best_hash;
              last_error = s.last_error;
            }
            ∷ s.reports;
      }

  abbrev pub report_step : Step → Step
  report_step (found result) = found result
  report_step (going s) = going (report s)

  -- Where nothing is pending the search sleeps; else it handles what is done.
  unfoldable pub await : Round → Search → Result Step
  await done s =
      if is_empty s.pending
      then ok (going (tick s))
      else (finish_done i done (tick_for_wait s) >>= λ step. ok (report_step step))

  -- One round of the main loop.
  unfoldable pub one_round : Round → Search → Result Step
  one_round done s =
      if limits.overall_timeout != 0 && leb limits.overall_timeout (clock s.readings - s.started_at)
      then raises generation
      else if is_spent limits s && is_empty s.pending
      then raises generation
      else (start_attempts limits clock endpoints (tick s) >>= λ started. await done started)

  -- The main loop over the rounds that come.
  unfoldable pub search : List Round → Search → Result Step
  search [] s = ok (going s)
  search (round ∷ rounds) s = one_round round s >>= λ step. elim step [
    | found result ↦ ok (found result)
    | going after ↦ search rounds after
  ]
