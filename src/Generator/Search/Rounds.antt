-- ===== src/Generator/Search/Rounds.antt =====
-- The rounds of the search in src/connectcoin_p2c_tools/generator.py: its bounds, and its end.
use connectcoin_p2c_tools.Common.{
  ℕ, ◌-◌, inl, inr, Bool, true, false, ◌&&◌, List, [], ◌∷◌, ltb, leb, ◌==◌, ◌!=◌, if◌then◌else◌,
  length, is_empty, Bool-cases,
}
use connectcoin_p2c_tools.Common.Outcome.{
  Result, Exception, ok, raises, out_of_fuel, generation, ◌>>=◌, Ensures, holds, rejects,
}
use connectcoin_p2c_tools.Generator.Search.{
  GenerationProgress, Search, tick, is_spent, is_some, start_attempts,
}
use connectcoin_p2c_tools.Generator.Search.Attempts.{
  Inputs, GenerationResult, Step, going, found, Round,
}
use connectcoin_p2c_tools.Tls.Messages.{TlsProofMessages}
use connectcoin_p2c_tools.Generator.Search.Loop.{
  tick_for_wait, report, report_step, await, one_round, search,
}
use connectcoin_p2c_tools.Generator.Search.Keeps.{Counts, CountsOf, OfStep, bind-OfStep}
use connectcoin_p2c_tools.Generator.Search.Tries.{
  Concludes, Returned, ReturnedIn, finish_done-OfStep,
}
use connectcoin_p2c_tools.Generator.Search.Bounds.{Within, completes_within, start_attempts-Within}

module _ (i : Inputs) where
  open i use {limits, clock, endpoints}

  report-CountsOf : (B : Counts) (s : Search) → CountsOf B s → CountsOf B (report i s)
  unfolding report
  report-CountsOf B s h = by_flag _ _ (s.attempts_completed == 0)
    where
      by_flag :
          (readings : ℕ) (reports : List GenerationProgress) (b : Bool)
          → CountsOf B (if b then s else record s { readings = readings; reports = reports })
      by_flag readings reports true = h
      by_flag readings reports false = h

  pub report_step-OfStep :
      (Q : GenerationResult → Type 0) (B : Counts) (r : Result Step)
      → OfStep Q B r
      → OfStep Q B (r >>= λ step. ok (report_step i step))
  report_step-OfStep Q B (ok (found g)) h = h
  report_step-OfStep Q B (ok (going s)) h = report-CountsOf B s h
  report_step-OfStep Q B (raises e) h = tt
  report_step-OfStep Q B out_of_fuel h = tt

  pub tick_for_wait-CountsOf :
      (B : Counts) (s : Search) → CountsOf B s → CountsOf B (tick_for_wait i s)
  tick_for_wait-CountsOf B s h =
      by_flag (ltb (length s.pending) limits.concurrency && is_some limits.interval)
    where
      by_flag : (b : Bool) → CountsOf B (if b then tick s else s)
      by_flag true = h
      by_flag false = h

  module _ (P : TlsProofMessages → Type 0) (Q : GenerationResult → Type 0)
      (concludes : Concludes i P Q) where
    await-OfStep :
        (k : ℕ) (done : Round) (s : Search)
        → ((capture : TlsProofMessages) → Returned capture done → P capture)
        → CountsOf (Within limits k) s
        → OfStep Q (Within limits k) (await i done s)
    unfolding await
    await-OfStep k done s from h = elim (Bool-cases (is_empty s.pending)) [
      | inl e ↦ rw e h
      | inr e ↦ rw e (
          report_step-OfStep Q (Within limits k) _ (
            finish_done-OfStep i P Q concludes (Within limits k) (completes_within limits k) done
              from _ (tick_for_wait-CountsOf (Within limits k) s h)))
    ]

    one_round-OfStep :
        (k : ℕ) (done : Round) (s : Search)
        → ((capture : TlsProofMessages) → Returned capture done → P capture)
        → CountsOf (Within limits k) s
        → OfStep Q (Within limits k) (one_round i done s)
    unfolding one_round
    one_round-OfStep k done s from h =
        by_tests
          (limits.overall_timeout != 0
            && leb limits.overall_timeout (clock s.readings - s.started_at))
          (is_spent limits s && is_empty s.pending)
      where
        started_step :
            (r : Result Search)
            → Ensures Exception.index_error (λ after. CountsOf (Within limits k) after) r
            → OfStep Q (Within limits k) (r >>= λ started. await i done started)
        started_step (ok after) (holds within) = await-OfStep k done after from within
        started_step (raises _) rejects = tt
        started_step out_of_fuel e = elim e [ ]

        by_tests :
            (late spent : Bool)
            → OfStep Q (Within limits k) (
                if late
                then raises generation
                else if spent
                then raises generation
                else (start_attempts limits clock endpoints (tick s) >>= λ started.
                    await i done started))
        by_tests true spent = tt
        by_tests false true = tt
        by_tests false false =
            started_step (start_attempts limits clock endpoints (tick s))
              (start_attempts-Within limits clock endpoints k (tick s) h)

    pub search-OfStep :
        (k : ℕ) (rounds : List Round) (s : Search)
        → ((capture : TlsProofMessages) → ReturnedIn capture rounds → P capture)
        → CountsOf (Within limits k) s
        → OfStep Q (Within limits k) (search i rounds s)
    unfolding search
    search-OfStep k [] s from h = h
    search-OfStep k (done ∷ rounds) s from h =
        bind-OfStep Q (Within limits k) (Within limits k) _ _
          (one_round-OfStep k done s (λ capture m. from capture (inl m)) h) (λ g found. found)
          (λ after. search-OfStep k rounds after (λ capture m. from capture (inr m)))
