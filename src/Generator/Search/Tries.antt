-- ===== src/Generator/Search/Tries.antt =====
-- The try block of src/connectcoin_p2c_tools/generator.py and the loop over what is done: what holds
-- of the state and of what is found.
use connectcoin_p2c_tools.Common.{
  ℕ, suc, ◌+◌, ◌≡◌, ◌⊎◌, inl, inr, refl, subst, Bool, true, false, List, [], ◌∷◌, if◌then◌else◌,
  length, from_le, Bool-cases,
}
use connectcoin_p2c_tools.Common.Outcome.{Result, ok, raises, out_of_fuel, ◌>>=◌}
use connectcoin_p2c_tools.Envelope.{ConnectionProof}
use connectcoin_p2c_tools.Protocol.Proof.{ParsedProof}
use connectcoin_p2c_tools.Tls.Messages.{TlsProofMessages}
use connectcoin_p2c_tools.Generator.Search.{Attempt, Search}
use connectcoin_p2c_tools.Generator.Search.Attempts.{
  Inputs, GenerationResult, going, found, pop, is_better, settle, Round, candidate_of, show_best,
  note_best, conclude, preflight, after_preflight, judge, after_noting, try_candidate, try_capture,
  finish_done,
}
use connectcoin_p2c_tools.Generator.Search.Keeps.{
  Counts, CountsOf, OfOption, OfTried, OfStep, settle-OfStep, bind-OfStep, pop_lem,
}

-- A connection of the round, or of one of the rounds, has returned the messages.
abbrev pub Returned : TlsProofMessages → Round → Type 0
Returned capture [] = ⊥
Returned capture ((number, result) ∷ done) = (result ≡ ok capture) ⊎ Returned capture done

abbrev pub ReturnedIn : TlsProofMessages → List Round → Type 0
ReturnedIn capture [] = ⊥
ReturnedIn capture (done ∷ rounds) = Returned capture done ⊎ ReturnedIn capture rounds

module _ (i : Inputs) (P : TlsProofMessages → Type 0) (Q : GenerationResult → Type 0) where
  open i use {x}

  -- Every conclusion on the candidate of a capture that `P` holds of finds what `Q` says, if any.
  abbrev pub Concludes : Type 0
  Concludes =
      (capture : TlsProofMessages) (candidate : ConnectionProof) (parsed : ParsedProof)
      (verified : Bool) (s : Search)
      → P capture
      → candidate_of i capture ≡ ok (candidate, parsed)
      → (verified ≡ true → preflight i candidate ≡ ok tt)
      → OfOption Q (conclude i candidate parsed capture.peer_ip verified s)

  module _ (concludes : Concludes) (B : Counts) where
    judge-OfTried :
        (capture : TlsProofMessages) (candidate : ConnectionProof) (parsed : ParsedProof)
        (s : Search)
        → P capture
        → candidate_of i capture ≡ ok (candidate, parsed)
        → CountsOf B s
        → OfTried Q B (judge i candidate parsed capture.peer_ip s)
    unfolding judge
    judge-OfTried capture candidate parsed s from of h = by_flag s.preflight_complete
      where
        by_preflight :
            (r : Result (Unit {0}))
            → preflight i candidate ≡ r
            → OfTried Q B (after_preflight i candidate parsed capture.peer_ip s r)
        by_preflight (ok u) e = (h, concludes capture candidate parsed true s from of (λ _. e))
        by_preflight (raises x) e = (h, tt)
        by_preflight out_of_fuel e = (h, tt)

        by_flag :
            (complete : Bool)
            → OfTried Q B (
                if complete
                then (s, conclude i candidate parsed capture.peer_ip false s)
                else after_preflight i candidate parsed capture.peer_ip s (preflight i candidate))
        by_flag true = (h, concludes capture candidate parsed false s from of cc)
        by_flag false = by_preflight (preflight i candidate) refl

    show_best-CountsOf :
        (work : ℕ) (s : Search) (r : Result (List ℕ))
        → CountsOf B s
        → CountsOf B (show_best i work s r).0
    show_best-CountsOf work s (ok d) h = h
    show_best-CountsOf work s (raises e) h = h
    show_best-CountsOf work s out_of_fuel h = h

    note_best-CountsOf :
        (parsed : ParsedProof) (s : Search) → CountsOf B s → CountsOf B (note_best i parsed s).0
    unfolding note_best
    note_best-CountsOf parsed s h =
        elim (Bool-cases (is_better (from_le parsed.connection_work_hash) s.best_value)) [
          | inl c ↦ rw c (show_best-CountsOf _ s _ h)
          | inr c ↦ rw c h
        ]

    after_noting-OfTried :
        (capture : TlsProofMessages) (candidate : ConnectionProof) (parsed : ParsedProof)
        (noted : Search × Result (Unit {0}))
        → P capture
        → candidate_of i capture ≡ ok (candidate, parsed)
        → CountsOf B noted.0
        → OfTried Q B (after_noting i candidate parsed capture.peer_ip noted)
    after_noting-OfTried capture candidate parsed (s, ok u) from of h =
        judge-OfTried capture candidate parsed s from of h
    after_noting-OfTried capture candidate parsed (s, raises e) from of h = (h, tt)
    after_noting-OfTried capture candidate parsed (s, out_of_fuel) from of h = (h, tt)

    try_capture-OfTried :
        (result : Result TlsProofMessages) (s : Search)
        → ((capture : TlsProofMessages) → result ≡ ok capture → P capture)
        → CountsOf B s
        → OfTried Q B (try_capture i result s)
    unfolding try_capture
    try_capture-OfTried (raises e) s from h = (h, tt)
    try_capture-OfTried out_of_fuel s from h = (h, tt)
    try_capture-OfTried (ok capture) s from h = by_candidate (candidate_of i capture) refl
      where
        by_candidate :
            (r : Result (ConnectionProof × ParsedProof))
            → candidate_of i capture ≡ r
            → OfTried Q B (try_candidate i capture.peer_ip s r)
        by_candidate (ok (candidate, parsed)) e =
            after_noting-OfTried capture candidate parsed _ (from capture refl) e
              (note_best-CountsOf parsed s h)
        by_candidate (raises e) f = (h, tt)
        by_candidate out_of_fuel f = (h, tt)

  module _ (concludes : Concludes) where
    -- One attempt that is done.
    finish_one-OfStep :
        (B C : Counts)
        → ((p started completed : ℕ) → B (suc p) started completed → C p started (completed + 1))
        → (left : List Attempt) (number : ℕ) (result : Result TlsProofMessages) (s : Search)
        → ((capture : TlsProofMessages) → result ≡ ok capture → P capture)
        → pop number s.pending ≡ ok left
        → CountsOf B s
        → OfStep Q C (
            settle (
              try_capture i result
                (record s { pending = left; attempts_completed = s.attempts_completed + 1 })))
    finish_one-OfStep B C completes left number result s from popped h = settle-OfStep Q C _ (
        try_capture-OfTried concludes C result
          (record s { pending = left; attempts_completed = s.attempts_completed + 1 }) from
          (completes (length left) s.attempts_started s.attempts_completed (
            subst (λ (n : ℕ). B n s.attempts_started s.attempts_completed)
              (pop_lem number s.pending left popped) h)))

    abbrev AllFrom : Round → Type 0
    AllFrom done = (capture : TlsProofMessages) → Returned capture done → P capture

    abbrev Finishes : Counts → Round → Type 0
    Finishes C done = (s : Search) → CountsOf C s → OfStep Q C (finish_done i done s)

    pub finish_cons-OfStep :
        (B C : Counts)
        → ((p started completed : ℕ) → B (suc p) started completed → C p started (completed + 1))
        → (number : ℕ) (result : Result TlsProofMessages) (done : Round) (s : Search)
        → AllFrom ((number, result) ∷ done)
        → Finishes C done
        → CountsOf B s
        → OfStep Q C (finish_done i ((number, result) ∷ done) s)
    unfolding finish_done
    finish_cons-OfStep B C completes number result done s from rest h =
        by_pop (pop number s.pending) refl
      where
        by_pop :
            (r : Result (List Attempt))
            → pop number s.pending ≡ r
            → OfStep Q C (
                r >>= λ pending.
                (settle (
                    try_capture i result (record s {
                      pending = pending;
                      attempts_completed = s.attempts_completed + 1;
                    }))
                  >>= λ step. elim step [
                    | found g ↦ ok (found g)
                    | going after ↦ finish_done i done after
                  ]))
        by_pop (ok left) e =
            bind-OfStep Q C C _ _
              (finish_one-OfStep B C completes left number result s
                (λ capture same. from capture (inl same)) e h)
              (λ g found. found) rest
        by_pop (raises e) f = tt
        by_pop out_of_fuel f = tt

    pub finish_done-OfStep :
        (C : Counts)
        → ((p started completed : ℕ) → C (suc p) started completed → C p started (completed + 1))
        → (done : Round) → AllFrom done
        → Finishes C done
    unfolding finish_done
    finish_done-OfStep C completes [] from s h = h
    finish_done-OfStep C completes ((number, result) ∷ done) from s h =
        finish_cons-OfStep C C completes number result done s from
          (finish_done-OfStep C completes done (λ capture m. from capture (inr m))) h
