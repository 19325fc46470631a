-- ===== src/Generator/Search/Bounds.antt =====
-- The bounds on attempts and on open connections in src/connectcoin_p2c_tools/generator.py.
use connectcoin_p2c_tools.Common.{
  ℕ, zero, suc, ◌+◌, ◌-◌, ◌%◌, ◌≤◌, ◌<◌, ◌≡◌, ◌⊎◌, inl, inr, refl, ◌∙◌, subst, true, false, List,
  [], ◌∷◌, Option, none, some, ◌==◌, length, length-append, get_elem?, arith, Bool-cases,
}
use connectcoin_p2c_tools.Common.Outcome.{
  ok, index_error, Ensures, holds, rejects, Ensures-bind, bind_inv,
}
use connectcoin_p2c_tools.Tls.Messages.{Endpoint}
use connectcoin_p2c_tools.Generator.Search.{
  Limits, Search, tick, endpoint_at, is_spent, must_wait, start, start_loop, start_attempts,
}
use connectcoin_p2c_tools.Generator.Search.Keeps.{Counts, CountsOf}

-- At most so many connections are open, each attempt is open or has completed, and no more
-- attempts are started than are allowed; `k` of them have completed.
abbrev pub Within : Limits → ℕ → Counts
Within limits k p started completed =
    (p ≤ limits.concurrency)
    × (started ≡ completed + p)
    × ((limits.max_attempts ≡ 0) ⊎ (started ≤ limits.max_attempts))
    × (k ≤ completed)

pub completes_within :
    (limits : Limits) (k p started completed : ℕ)
    → Within limits k (suc p) started completed
    → Within limits k p started (completed + 1)
completes_within limits k p started completed (room, sum, few, done) =
    (omega arith, omega arith, few, omega arith)

pub completes_more :
    (limits : Limits) (k p started completed : ℕ)
    → Within limits k (suc p) started completed
    → Within limits (suc k) p started (completed + 1)
completes_more limits k p started completed (room, sum, few, done) =
    (omega arith, omega arith, few, omega arith)

not_spent :
    (limits : Limits) (s : Search)
    → is_spent limits s ≡ false
    → (limits.max_attempts ≡ 0) ⊎ (s.attempts_started + 1 ≤ limits.max_attempts)
not_spent limits s h = elim (Bool-cases (limits.max_attempts == 0)) [
  | inl e ↦ inl (ground arith)
  | inr e ↦ inr (ground arith)
]

no_wait :
    (interval : Option ℕ) (now next_start : ℕ)
    → interval ≡ none
    → must_wait interval now next_start ≡ false
no_wait interval now next_start e = rw e refl

ok_search : (s t : Search) → ok s ≡ ok t → s ≡ t
ok_search s t h = cc

endpoint_at-Ensures : (o : Option Endpoint) → Ensures index_error (λ e. o ≡ some e) (endpoint_at o)
endpoint_at-Ensures none = rejects
endpoint_at-Ensures (some e) = holds refl

module _ (limits : Limits) (clock : ℕ → ℕ) (endpoints : List Endpoint) where
  length-start :
      (now : ℕ) (endpoint : Endpoint) (s : Search)
      → length (start limits clock endpoints now endpoint s).pending ≡ suc (length s.pending)
  unfolding start
  length-start now endpoint s = length-append s.pending (_ ∷ []) ∙ omega arith

  start-Within :
      (k now : ℕ) (endpoint : Endpoint) (s : Search)
      → length s.pending < limits.concurrency
      → is_spent limits s ≡ false
      → CountsOf (Within limits k) s
      → CountsOf (Within limits k) (start limits clock endpoints now endpoint s)
  unfolding start
  start-Within k now endpoint s room open_ (_, sum, _, done) =
      let grows = length-start now endpoint s in
      (omega (arith, grows), omega (arith, grows), not_spent limits s open_, done)

  start_room :
      (room now : ℕ) (endpoint : Endpoint) (s : Search)
      → length s.pending + suc room ≤ limits.concurrency
      → length (start limits clock endpoints now endpoint s).pending + room ≤ limits.concurrency
  start_room room now endpoint s h = omega (arith, length-start now endpoint s)

  start_loop-Within :
      (k room : ℕ) (s : Search)
      → length s.pending + room ≤ limits.concurrency
      → CountsOf (Within limits k) s
      → Ensures index_error
          (λ after. CountsOf (Within limits k) after)
          (start_loop limits clock endpoints room s)
  unfolding start_loop
  start_loop-Within k zero s h within = holds within
  start_loop-Within k (suc room) s h within = elim (Bool-cases (is_spent limits s)) [
    | inl e ↦ rw e (holds within)
    | inr e ↦ rw e (elim (Bool-cases (must_wait limits.interval (clock s.readings) s.next_start)) [
      | inl f ↦ rw f (holds within)
      | inr f ↦ rw f (
          Ensures-bind
            (endpoint_at-Ensures (get_elem? endpoints (s.next_endpoint % length endpoints)))
            λ endpoint _.
              start_loop-Within k room
                (start limits clock endpoints (clock s.readings) endpoint (tick s))
                (start_room room (clock s.readings) endpoint (tick s) h)
                (start-Within k (clock s.readings) endpoint (tick s) (omega arith) e within))
    ])
  ]

  pub start_attempts-Within :
      (k : ℕ) (s : Search)
      → CountsOf (Within limits k) s
      → Ensures index_error
          (λ after. CountsOf (Within limits k) after)
          (start_attempts limits clock endpoints s)
  unfolding start_attempts
  start_attempts-Within k s within =
      start_loop-Within k (limits.concurrency - length s.pending) s (omega (arith, within.0)) within

  -- Where the rate is not limited, an attempt is open after the loop unless all are spent.
  start_loop-some :
      (room : ℕ) (s after : Search)
      → limits.interval ≡ none
      → (1 ≤ length s.pending) ⊎ ((1 ≤ room) × (is_spent limits s ≡ false))
      → start_loop limits clock endpoints room s ≡ ok after
      → 1 ≤ length after.pending
  unfolding start_loop
  start_loop-some zero s after rate (inl some_open) run =
      subst (λ (t : Search). 1 ≤ length t.pending) (ok_search s after run) some_open
  start_loop-some zero s after rate (inr (room, _)) run = absurd (omega arith)
  start_loop-some (suc room) s after rate why run = elim (Bool-cases (is_spent limits s)) [
    | inl e ↦ spent_case e why (rw e at run)
    | inr e ↦
        let (endpoint, _, rest) =
          bind_inv
            (λ (endpoint : Endpoint).
              start_loop limits clock endpoints room
                (start limits clock endpoints (clock s.readings) endpoint (tick s)))
            (endpoint_at (get_elem? endpoints (s.next_endpoint % length endpoints)))
            (rw (e, no_wait limits.interval (clock s.readings) s.next_start rate) at run) in
        start_loop-some room (start limits clock endpoints (clock s.readings) endpoint (tick s))
          after rate (inl (omega (arith, length-start (clock s.readings) endpoint (tick s)))) rest
  ]
    where
      spent_case :
          is_spent limits s ≡ true
          → (1 ≤ length s.pending) ⊎ ((1 ≤ suc room) × (is_spent limits s ≡ false))
          → ok s ≡ ok after
          → 1 ≤ length after.pending
      spent_case e (inl some_open) h =
          subst (λ (t : Search). 1 ≤ length t.pending) (ok_search s after h) some_open
      spent_case e (inr (_, f)) h = cc

  pub start_attempts-some :
      (s after : Search)
      → limits.interval ≡ none
      → (1 ≤ length s.pending)
        ⊎ ((1 ≤ limits.concurrency - length s.pending) × (is_spent limits s ≡ false))
      → start_attempts limits clock endpoints s ≡ ok after
      → 1 ≤ length after.pending
  unfolding start_attempts
  start_attempts-some s after rate why run =
      start_loop-some (limits.concurrency - length s.pending) s after rate why run
