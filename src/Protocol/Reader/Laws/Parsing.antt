-- ===== src/Protocol/Reader/Laws/Parsing.antt =====
-- The rules of `Parses`, one for each way to build a `Reading`
-- (src/connectcoin_p2c_tools/protocol.py).
use connectcoin_p2c_tools.Common.{
  ℕ, zero, suc, ◌+◌, ◌-◌, ◌≤◌, ◌<◌, ◌≡◌, refl, sym, ap, ◌∙◌, subst, Bool, true, false, List, [],
  ◌∷◌, ◌++◌, append_assoc, append-nil, arith, ltb, leb, ◌==◌, inl, inr, Bool-cases, length, take,
  drop, length-append, take-length_append, drop-length_append, take-append-drop, length-take,
  length-drop, eq-nil_of_length, Bytes, from_be, ltb→lt, ==→eq, tests,
}
use connectcoin_p2c_tools.Common.Outcome.{
  Result, proof_format, Ensures, holds, rejects, Ensures-bind, Ensures-weaken,
}
use connectcoin_p2c_tools.Protocol.Reader.{
  Reading, pure, ◌>>=◌, ◌>>◌, require, lift, run, remaining, empty, read, first_byte, u8, u16, u24,
  captured, at,
}
use connectcoin_p2c_tools.Protocol.Reader.Laws.{Parses, room, slice-at, Parses-read}

module _ {A B : Type 0} {m : Reading A} (f : A → Reading B) {rest : Bytes}
    {R : Bytes → Bytes → A → Type 0} {Q : Bytes → Bytes → B → Type 0} where
  pub Parses-bind :
      Parses m rest R
      → ((bs left : Bytes) (a : A)
          → rest ≡ bs ++ left
          → R bs left a
          → Parses (f a) left (λ cs left' b. Q (bs ++ cs) left' b))
      → Parses (m >>= f) rest Q
  unfolding ◌>>=◌
  Parses-bind h k = record {
    from = λ before. Ensures-bind (h.from before) (λ (a, r') (bs, left, e, er, q). rw er (
        Ensures-weaken
          (λ (b, r'') (cs, left', e', er', q'). (
            bs ++ cs,
            left',
            e ∙ ap (λ (x : Bytes). bs ++ x) e' ∙ sym (append_assoc bs cs left'),
            er' ∙ ap (λ (x : Bytes). at x left') (append_assoc before bs cs),
            q',
          ))
          ((k bs left a e q).from (before ++ bs))));
  }

module _ {A : Type 0} {rest : Bytes} {Q : Bytes → Bytes → A → Type 0} where
  pub Parses-require :
      {f : Reading A} (test : Bool)
      → (test ≡ true → Parses f rest Q)
      → Parses (require test >> f) rest Q
  unfolding ◌>>=◌ require
  Parses-require true k = record { from = λ before. (k refl).from before }
  Parses-require false k = record { from = λ before. rejects }

  pub Parses-pure : (a : A) → Q [] rest a → Parses (pure a) rest Q
  Parses-pure a q = record {
    from = λ before.
        holds ([], rest, refl, ap (λ (x : Bytes). at x rest) (sym (append-nil before)), q);
  }

  pub Parses-remaining :
      (f : ℕ → Reading A) → Parses (f (length rest)) rest Q → Parses (remaining >>= f) rest Q
  unfolding ◌>>=◌ remaining
  Parses-remaining f h = record { from = λ before. rw (room before rest) (h.from before) }

  pub Parses-empty :
      (f : Bool → Reading A)
      → ((b : Bool) → (b ≡ true → rest ≡ []) → Parses (f b) rest Q)
      → Parses (empty >>= f) rest Q
  unfolding ◌>>=◌ empty
  Parses-empty f k = record {
    from = λ before.
        (k (length before == length (before ++ rest)) (λ e.
            eq-nil_of_length rest (omega (arith, ==→eq _ _ e, length-append before rest)))).from
          before;
  }

  pub Parses-lift :
      {B : Type 0} {P : B → Type 0} {m : Result B} (f : B → Reading A)
      → Ensures proof_format P m
      → ((b : B) → P b → Parses (f b) rest Q)
      → Parses (lift m >>= f) rest Q
  unfolding ◌>>=◌ lift
  Parses-lift f (holds {a = b} h) k = record { from = λ before. (k b h).from before }
  Parses-lift f rejects k = record { from = λ before. rejects }

  pub Parses-weaken :
      {R : Bytes → Bytes → A → Type 0} {m : Reading A}
      → Parses m rest R
      → ((bs left : Bytes) (a : A) → R bs left a → Q bs left a)
      → Parses m rest Q
  Parses-weaken h k = record {
    from = λ before.
        Ensures-weaken (λ (a, r') (bs, left, e, er, q). (bs, left, e, er, k bs left a q))
          (h.from before);
  }

  pub Ensures-run :
      {m : Reading A}
      → Parses m rest Q
      → Ensures proof_format
          (λ a. (bs left : Bytes) × (rest ≡ bs ++ left) × Q bs left a)
          (run m rest)
  unfolding run
  Ensures-run h = Ensures-bind (h.from []) (λ (a, r') (bs, left, e, er, q). holds (bs, left, e, q))

-- `read` gives back the bytes that it takes.
pub Parses-read_bind :
    {B : Type 0} (f : Bytes → Reading B) {n : ℕ} {rest : Bytes} {Q : Bytes → Bytes → B → Type 0}
    → ((v left : Bytes)
        → rest ≡ v ++ left
        → length v ≡ n
        → Parses (f v) left (λ cs left' b. Q (v ++ cs) left' b))
    → Parses (read n >>= f) rest Q
Parses-read_bind f {n} {rest} {Q} k = Parses-bind f (Parses-read n rest) (λ bs left a e (q, l).
    subst (λ x. Parses (f x) left (λ cs left' b. Q (bs ++ cs) left' b)) (sym q) (k bs left e l))

pub length-append_bytes : (xs ys : Bytes) → length (xs ++ ys) ≡ length xs + length ys
length-append_bytes = length-append

-- For `omega`, on byte strings.
pub ruleset lengths = (arith, length-append_bytes)

pub Parses-u8 : (rest : Bytes) → Parses u8 rest (λ bs left b. bs ≡ b ∷ [])
unfolding u8
Parses-u8 rest = Parses-bind _ (Parses-read 1 rest) (λ bs left a e (q, l). one bs left a q l)
  where
    one :
        (bs left a : Bytes)
        → a ≡ bs
        → length bs ≡ 1
        → Parses (lift (first_byte a)) left (λ cs left' b. bs ++ cs ≡ b ∷ [])
    one bs left [] q l = absurd (omega (arith, ap (λ (x : Bytes). length x) q))
    one bs left (b ∷ []) q l = record {
      from = λ before.
          unfold lift in
          holds (
            [],
            left,
            refl,
            ap (λ (x : Bytes). at x left) (sym (append-nil before)),
            append-nil bs ∙ sym q,
          );
    }
    one bs left (b ∷ c ∷ cs) q l = absurd (omega (arith, ap (λ (x : Bytes). length x) q))

pub Parses-u16 : (rest : Bytes) → Parses u16 rest (λ bs left n. (length bs ≡ 2) × (n ≡ from_be bs))
unfolding u16
Parses-u16 rest =
    Parses-bind _ (Parses-read 2 rest)
      (λ bs left a e (q, l). Parses-pure _ (rw (append-nil bs) (l, rw q refl)))

pub Parses-u24 : (rest : Bytes) → Parses u24 rest (λ bs left n. (length bs ≡ 3) × (n ≡ from_be bs))
unfolding u24
Parses-u24 rest =
    Parses-bind _ (Parses-read 3 rest)
      (λ bs left a e (q, l). Parses-pure _ (rw (append-nil bs) (l, rw q refl)))

pub Parses-captured :
    {A : Type 0} {m : Reading A} {rest : Bytes} {Q : Bytes → Bytes → A → Type 0}
    → Parses m rest Q
    → Parses (captured m) rest (λ bs left (full, a). (full ≡ bs) × Q bs left a)
unfolding captured
Parses-captured {A} h = record {
  from = λ before. Ensures-bind (h.from before) (λ (a, r') (bs, left, e, er, q).
      rw er (holds (bs, left, e, refl, (slice-at before bs left, q))));
}

-- A block that ends in a call on another reader.
pub Parses-lift_last :
    {A : Type 0} {rest : Bytes} {Q : Bytes → Bytes → A → Type 0} {P : A → Type 0} {m : Result A}
    → Ensures proof_format P m
    → ((a : A) → P a → Q [] rest a)
    → Parses (lift m) rest Q
unfolding lift
Parses-lift_last {rest} (holds {a} h) k = record {
  from = λ before.
      holds ([], rest, refl, ap (λ (x : Bytes). at x rest) (sym (append-nil before)), k a h);
}
Parses-lift_last rejects k = record { from = λ before. rejects }
