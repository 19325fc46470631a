-- ===== src/Generator/Search/Ends.antt =====
-- How long the search of src/connectcoin_p2c_tools/generator.py lasts, and what bounds it.
use connectcoin_p2c_tools.Common.{
  ℕ, suc, ◌+◌, ◌-◌, ◌≤◌, ◌<◌, ◌≡◌, ◌≢◌, ◌⊎◌, inl, inr, refl, subst, Bool, true, false, ◌&&◌, List,
  [], ◌∷◌, Option, none, some, leb, ◌!=◌, if◌then◌else◌, length, is_empty, All, arith,
}
use connectcoin_p2c_tools.Common.Outcome.{
  Result, Exception, Ends-value, ok, raises, out_of_fuel, generation, ◌>>=◌, Ensures, holds,
  rejects, index_error,
}
use connectcoin_p2c_tools.Generator.Search.{
  Attempt, Search, initial, tick, is_spent, start_attempts,
}
use connectcoin_p2c_tools.Generator.Search.Attempts.{
  Inputs, GenerationResult, Step, going, found, Round,
}
use connectcoin_p2c_tools.Tls.Messages.{TlsProofMessages}
use connectcoin_p2c_tools.Verify.Connection.Accepted.{IsHash32, GivesBytes}
use connectcoin_p2c_tools.Generator.Search.Returns.{AreDone, search-Returns}
use connectcoin_p2c_tools.Generator.Search.Loop.{await, one_round, search}
use connectcoin_p2c_tools.Generator.Search.Keeps.{Counts, CountsOf, OfOption, OfStep, bind-OfStep}
use connectcoin_p2c_tools.Generator.Search.Tries.{Concludes, finish_cons-OfStep, finish_done-OfStep}
use connectcoin_p2c_tools.Generator.Search.Rounds.{
  report_step-OfStep, tick_for_wait-CountsOf, search-OfStep,
}
use connectcoin_p2c_tools.Generator.Search.Bounds.{
  Within, completes_within, completes_more, start_attempts-Within, start_attempts-some,
}

module _ (i : Inputs) where
  open i use {sha256, x, limits, clock, endpoints}

  some_pending : (s : Search) → 1 ≤ length s.pending → is_empty s.pending ≡ false
  some_pending s h = by_list s.pending h
    where
      by_list : (l : List Attempt) → 1 ≤ length l → is_empty l ≡ false
      by_list [] h = absurd (omega arith)
      by_list (a ∷ l) h = refl

  abbrev Any : GenerationResult → Type 0
  Any g = Unit

  abbrev AnyCapture : TlsProofMessages → Type 0
  AnyCapture capture = Unit

  -- A conclusion of no interest.
  any_conclusion : (r : Result (Option GenerationResult)) → OfOption (λ _. Unit {0}) r
  any_conclusion (ok (some g)) = tt
  any_conclusion (ok none) = tt
  any_conclusion (raises e) = tt
  any_conclusion out_of_fuel = tt

  Any-Concludes : Concludes i AnyCapture Any
  Any-Concludes capture candidate parsed verified s from of v = any_conclusion _

  step_eq : (t s : Search) → ok (going t) ≡ ok (going s) → t ≡ s
  step_eq t s e = cc

  going-CountsOf :
      (B : Counts) (r : Result Step) (s : Search) → OfStep Any B r → r ≡ ok (going s) → CountsOf B s
  going-CountsOf B (ok (going t)) s h e = subst (λ (u : Search). CountsOf B u) (step_eq t s e) h
  going-CountsOf B (ok (found g)) s h e = cc
  going-CountsOf B (raises x) s h e = cc
  going-CountsOf B out_of_fuel s h e = cc

  -- After any rounds that leave the search going, at most concurrency connections are pending,
  -- each attempt is pending or has completed, and at most max_attempts are started where that is
  -- not 0.
  pub search-Within :
      (rounds : List Round) (started_at : ℕ) (s : Search)
      → search i rounds (initial started_at) ≡ ok (going s)
      → (length s.pending ≤ limits.concurrency)
        × (s.attempts_started ≡ s.attempts_completed + length s.pending)
        × ((limits.max_attempts ≡ 0) ⊎ (s.attempts_started ≤ limits.max_attempts))
  search-Within rounds started_at s e =
      let (room, sum, few, _) =
        going-CountsOf (Within limits 0) _ s
          (search-OfStep i AnyCapture Any Any-Concludes 0 rounds (initial started_at) (λ _ _. tt)
            (omega arith, omega arith, within_0 limits.max_attempts, omega arith))
          e in
      (room, sum, few)
    where
      within_0 : (n : ℕ) → (n ≡ 0) ⊎ (0 ≤ n)
      within_0 n = inr (omega arith)

  module _ (rate : limits.interval ≡ none) (room : 1 ≤ limits.concurrency) where
    await-more :
        (k : ℕ) (done : Round) (s : Search)
        → done ≢ []
        → 1 ≤ length s.pending
        → CountsOf (Within limits k) s
        → OfStep Any (Within limits (suc k)) (await i done s)
    unfolding await
    await-more k [] s none_done pending h = absurd (none_done refl)
    await-more k ((number, result) ∷ done) s none_done pending h = rw (some_pending s pending) (
        report_step-OfStep i Any (Within limits (suc k)) _ (
          finish_cons-OfStep i AnyCapture Any Any-Concludes (Within limits k)
            (Within limits (suc k)) (completes_more limits k) number result done _ (λ _ _. tt)
            (finish_done-OfStep i AnyCapture Any Any-Concludes (Within limits (suc k))
              (completes_within limits (suc k)) done (λ _ _. tt))
            (tick_for_wait-CountsOf i (Within limits k) s h)))

    -- Unless all attempts are spent and done, an attempt is open or may start.
    may_go_on :
        (s : Search)
        → (is_spent limits s && is_empty s.pending) ≡ false
        → (1 ≤ length s.pending)
          ⊎ ((1 ≤ limits.concurrency - length s.pending) × (is_spent limits s ≡ false))
    may_go_on s h = by_list s.pending (is_spent limits s) h
      where
        by_list :
            (l : List Attempt) (spent : Bool)
            → (spent && is_empty l) ≡ false
            → (1 ≤ length l) ⊎ ((1 ≤ limits.concurrency - length l) × (spent ≡ false))
        by_list [] spent h = inr (omega arith, ground arith)
        by_list (a ∷ l) spent h = inl (omega arith)

    one_round-more :
        (k : ℕ) (done : Round) (s : Search)
        → done ≢ []
        → CountsOf (Within limits k) s
        → OfStep Any (Within limits (suc k)) (one_round i done s)
    unfolding one_round
    one_round-more k done s some_done h =
        by_tests
          (limits.overall_timeout != 0
            && leb limits.overall_timeout (clock s.readings - s.started_at))
          (is_spent limits s && is_empty s.pending) refl
      where
        started_step :
            (r : Result Search)
            → start_attempts limits clock endpoints (tick s) ≡ r
            → Ensures index_error (λ after. CountsOf (Within limits k) after) r
            → (is_spent limits s && is_empty s.pending) ≡ false
            → OfStep Any (Within limits (suc k)) (r >>= λ started. await i done started)
        started_step (ok after) e (holds within) go =
            await-more k done after some_done
              (start_attempts-some limits clock endpoints (tick s) after rate (may_go_on s go) e)
              within
        started_step (raises _) e rejects go = tt
        started_step out_of_fuel e h go = elim h [ ]

        by_tests :
            (late spent : Bool)
            → (is_spent limits s && is_empty s.pending) ≡ spent
            → OfStep Any (Within limits (suc k)) (
                if late
                then raises generation
                else if spent
                then raises generation
                else (start_attempts limits clock endpoints (tick s) >>= λ started.
                    await i done started))
        by_tests true spent e = tt
        by_tests false true e = tt
        by_tests false false e =
            started_step (start_attempts limits clock endpoints (tick s)) refl
              (start_attempts-Within limits clock endpoints k (tick s) h) e

    search-more :
        (k : ℕ) (rounds : List Round) (s : Search)
        → All (λ done. done ≢ []) rounds
        → CountsOf (Within limits k) s
        → OfStep Any (Within limits (k + length rounds)) (search i rounds s)
    unfolding search
    search-more k [] s each h = subst (λ (n : ℕ). CountsOf (Within limits n) s) (omega arith) h
    search-more k (done ∷ rounds) s each h =
        bind-OfStep Any (Within limits (suc k)) (Within limits (k + length (done ∷ rounds))) _ _
          (one_round-more k done s each.0 h) (λ g found. found)
          λ after within.
            subst (λ (n : ℕ). OfStep Any (Within limits n) (search i rounds after)) (omega arith)
              (search-more (suc k) rounds after each.1 within)

    search_not_going :
        (rounds : List Round) (started_at : ℕ) (s : Search)
        → limits.max_attempts ≢ 0
        → limits.max_attempts < length rounds
        → All (λ done. done ≢ []) rounds
        → search i rounds (initial started_at) ≢ ok (going s)
    search_not_going rounds started_at s limited long each e =
        let (open_, sum, few, done) =
          going-CountsOf (Within limits (0 + length rounds)) _ s
            (search-more 0 rounds (initial started_at) each
              (omega arith, omega arith, inr (omega arith), omega arith))
            e in
        too_many few sum done
      where
        too_many :
            (limits.max_attempts ≡ 0) ⊎ (s.attempts_started ≤ limits.max_attempts)
            → s.attempts_started ≡ s.attempts_completed + length s.pending
            → 0 + length rounds ≤ s.attempts_completed
            → ⊥
        too_many (inl none_left) sum done = limited none_left
        too_many (inr few) sum done = omega arith

    -- For hashes of 32 bytes, certificates whose signed part is bytes, no limit on the rate, room
    -- for one connection and a limit on the attempts, the search on more rounds than that limit
    -- returns a proof that it found or raises an exception, if in each round some connection is
    -- done and each that is done has returned or raised.
    pub search-ends :
        (rounds : List Round) (started_at : ℕ)
        → IsHash32 sha256
        → GivesBytes x
        → limits.max_attempts ≢ 0
        → limits.max_attempts < length rounds
        → All (λ done. done ≢ []) rounds
        → All AreDone rounds
        → ((g : GenerationResult) × (search i rounds (initial started_at) ≡ ok (found g)))
          ⊎ ((e : Exception) × (search i rounds (initial started_at) ≡ raises e))
    search-ends rounds started_at hash_32 gives_bytes limited long each done =
        elim (Ends-value (search-Returns i hash_32 gives_bytes rounds (initial started_at) done)) [
          | inl (found g, e, _) ↦ inl (g, e)
          | inl (going s, e, _) ↦ absurd (search_not_going rounds started_at s limited long each e)
          | inr (x, e, _) ↦ inr (x, e)
        ]
