-- ===== src/Tls/Buffer/Drained.antt =====
-- The inner loop of the capture in src/connectcoin_p2c_tools/tls13.py on messages cut into
-- fragments.
use mathlib.Core.List.{flatten}
use connectcoin_p2c_tools.Common.{
  ℕ, ◌+◌, ◌≤◌, ◌<◌, ◌≡◌, inl, inr, refl, sym, ap, ◌∙◌, subst, List, [], ◌∷◌, ◌++◌, append_assoc,
  append-nil, ltb, ltb→lt, length, length-append, drop, Bytes, Bool-cases, arith, le→not_ltb,
}
use connectcoin_p2c_tools.Common.Lists.{drop-drop}
use connectcoin_p2c_tools.Common.Outcome.{Result, ok, bind_ok, require_ok}
use connectcoin_p2c_tools.Tls.Buffer.{
  max_captured_handshake, expected_messages, Capture, check_message, drain, absorb,
}
use connectcoin_p2c_tools.Tls.Buffer.Messages.{IsFramed, whole_of, pop_whole, pop_part}

length-flatten_right : (xs ys : List Bytes) → length (flatten ys) ≤ length (flatten (xs ++ ys))
unfolding flatten
length-flatten_right [] ys = omega arith
length-flatten_right (x ∷ xs) ys =
    omega (arith, length-append x (flatten (xs ++ ys)), length-flatten_right xs ys)

module _ (validate : Bytes → Result (Unit {0})) where
  -- Framed messages of the types expected, each of which passes its check.
  pub data Ready : List ℕ → List Bytes → Type 0 where
    none_left : Ready [] []
    one_more :
        {t : ℕ} {ts : List ℕ} {m : Bytes} {ms : List Bytes}
        → IsFramed m
        → check_message validate t m ≡ ok tt
        → Ready ts ms
        → Ready (t ∷ ts) (m ∷ ms)

  abbrev pub Waits : Bytes → List Bytes → Type 0
  Waits buffer [] = Unit {0}
  Waits buffer (m ∷ ms) = length buffer < length m

  -- What the inner loop has done: it has taken the messages that were whole.
  pub record Drained (r : Bytes) (ts : List ℕ) (ms : List Bytes) (captured : List Bytes)
      (run : Result Capture) : Type 0 where
    pub taken : List Bytes
    pub left : List Bytes
    pub types : List ℕ
    pub buffer : Bytes
    pub result : run ≡ ok (record { captured = captured ++ taken; buffer = buffer })
    pub parts : taken ++ left ≡ ms
    pub types_left : types ≡ drop (length taken) ts
    pub ready : Ready types left
    pub rest : buffer ++ r ≡ flatten left
    pub waits : Waits buffer left

  untaken :
      (r : Bytes) (ts : List ℕ) (ms : List Bytes) (captured : List Bytes) (b : Bytes)
      (run : Result Capture)
      → run ≡ ok (record { captured = captured; buffer = b })
      → Ready ts ms
      → b ++ r ≡ flatten ms
      → Waits b ms
      → Drained r ts ms captured run
  untaken r ts ms captured b run e h q w = record {
    taken = [];
    left = ms;
    types = ts;
    buffer = b;
    result = rw (append-nil captured) e;
    parts = refl;
    types_left = refl;
    ready = h;
    rest = q;
    waits = w;
  }

  taken_first :
      (r : Bytes) (t : ℕ) (ts : List ℕ) (m : Bytes) (ms : List Bytes) (captured : List Bytes)
      (run : Result Capture)
      → Drained r ts ms (captured ++ (m ∷ [])) run
      → Drained r (t ∷ ts) (m ∷ ms) captured run
  taken_first r t ts m ms captured run d = record {
    taken = m ∷ d.taken;
    left = d.left;
    types = d.types;
    buffer = d.buffer;
    result = d.result ∙ rw (append_assoc captured (m ∷ []) d.taken) refl;
    parts = ap (λ (x : List Bytes). m ∷ x) d.parts;
    types_left = d.types_left;
    ready = d.ready;
    rest = d.rest;
    waits = d.waits;
  }

  drained :
      (ts : List ℕ) (ms : List Bytes) (captured : List Bytes) (b r : Bytes)
      → Ready ts ms
      → b ++ r ≡ flatten ms
      → Drained r ts ms captured (drain validate ts captured b)
  unfolding drain flatten
  drained [] [] captured b r none_left e = untaken r [] [] captured b _ refl none_left e tt
  drained [] (m ∷ ms) captured b r h e = elim h [ ]
  drained (t ∷ ts) [] captured b r h e = elim h [ ]
  drained (t ∷ ts) (m ∷ ms) captured b r (one_more framed checked more) e =
      elim (Bool-cases (ltb (length b) (length m))) [
        | inl short ↦
            let waits : length b < length m = ltb→lt _ _ short in
            untaken r (t ∷ ts) (m ∷ ms) captured b _
              (bind_ok _ (pop_part b m r (flatten ms) framed waits e) refl)
              (one_more framed checked more) e waits
        | inr long ↦
            let fits : length m ≤ length b = ground arith in
            let d =
              drained ts ms (captured ++ (m ∷ [])) (drop (length m) b) r more
                ((whole_of b m r (flatten ms) fits e).1) in
            subst (Drained r (t ∷ ts) (m ∷ ms) captured)
              (sym
                (bind_ok _ (pop_whole b m r (flatten ms) framed fits e) (bind_ok _ checked refl)))
              (taken_first r t ts m ms captured _ d)
      ]

  -- What a fragment of the handshake data does to the messages captured and to the buffer.
  pub record Absorbed (ms : List Bytes) (r : Bytes) (run : Result Capture) (whole : List Bytes)
      : Type 0 where
    pub captured : List Bytes
    pub left : List Bytes
    pub types : List ℕ
    pub buffer : Bytes
    pub result : run ≡ ok (record { captured = captured; buffer = buffer })
    pub parts : captured ++ left ≡ whole
    pub types_left : types ≡ drop (length captured) expected_messages
    pub ready : Ready types left
    pub rest : buffer ++ r ≡ flatten left
    pub small : length (flatten left) ≤ length (flatten ms)
    pub count : length captured + length left ≡ length whole
    pub waits : Waits buffer left

  pub absorbed :
      (ts : List ℕ) (ms : List Bytes) (captured : List Bytes) (b f r : Bytes)
      → Ready ts ms
      → ts ≡ drop (length captured) expected_messages
      → b ++ (f ++ r) ≡ flatten ms
      → length (flatten ms) ≤ max_captured_handshake
      → Absorbed ms r
          (absorb validate f (record { captured = captured; buffer = b }))
          (captured ++ ms)
  unfolding absorb
  absorbed ts ms captured b f r h t e max =
      let whole : (b ++ f) ++ r ≡ flatten ms = append_assoc b f r ∙ e in
      let d = drained ts ms captured (b ++ f) r h whole in
      let short : length (b ++ f) ≤ max_captured_handshake =
        omega (arith, max, ap length whole, length-append (b ++ f) r) in
      let parts : (captured ++ d.taken) ++ d.left ≡ captured ++ ms =
        append_assoc captured d.taken d.left ∙ ap (λ (x : List Bytes). captured ++ x) d.parts in
      record {
        captured = captured ++ d.taken;
        left = d.left;
        types = d.types;
        buffer = d.buffer;
        result = require_ok _ (le→not_ltb _ _ short) (
            subst
              (λ (x : List ℕ).
                drain validate x captured (b ++ f)
                ≡ ok (record { captured = captured ++ d.taken; buffer = d.buffer }))
              t d.result);
        parts = parts;
        types_left =
            d.types_left
            ∙ ap (λ (x : List ℕ). drop (length d.taken) x) t
            ∙ drop-drop (length captured) (length d.taken) expected_messages
            ∙ ap (λ (x : ℕ). drop x expected_messages) (sym (length-append captured d.taken));
        ready = d.ready;
        rest = d.rest;
        small = omega (
          arith,
          length-flatten_right d.taken d.left,
          ap (λ (x : List Bytes). length (flatten x)) d.parts,
        );
        count = omega (arith, ap length parts, length-append (captured ++ d.taken) d.left);
        waits = d.waits;
      }
