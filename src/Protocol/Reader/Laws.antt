-- ===== src/Protocol/Reader/Laws.antt =====
-- What a `Reading` consumes. `Reads` and `ReadsEnd` say that it reads some bytes as a value;
-- `Parses` says that whatever it accepts has a given shape, that it ends, and that it raises
-- nothing but ProofFormatError. Both have one rule for each way to build a `Reading`.
pub mod Parsing
pub mod Numbers
use connectcoin_p2c_tools.Common.{
  ℕ, zero, suc, ◌+◌, ◌-◌, ◌≤◌, ◌<◌, ◌≡◌, refl, sym, ap, ◌∙◌, subst, Bool, true, false, List, [],
  ◌∷◌, ◌++◌, append_assoc, append-nil, arith, ltb, leb, ◌==◌, inl, inr, Bool-cases, length, take,
  drop, length-append, take-length_append, drop-length_append, take-append-drop, length-take,
  length-drop, eq-nil_of_length, Bytes, from_be, ltb→lt, ==→eq, tests,
}
use connectcoin_p2c_tools.Common.Outcome.{
  Result, ok, raises, proof_format, Ensures, holds, rejects, Ensures-bind, Ensures-weaken,
}
use connectcoin_p2c_tools.Protocol.Reader.{
  Reader, Reading, pure, ◌>>=◌, ◌>>◌, require, lift, run, remaining, empty, read, first_byte, u8,
  u16, u24, captured, at, slice,
}

pub record Reads {ℓ} {A : Type ℓ} (m : Reading A) (bs : Bytes) (a : A) : Type ℓ where
  pub within :
      (before after : Bytes) → m (at before (bs ++ after)) ≡ ok (a, at (before ++ bs) after)

pub record ReadsEnd {ℓ} {A : Type ℓ} (m : Reading A) (bs : Bytes) (a : A) : Type ℓ where
  pub to_end : (before : Bytes) → m (at before bs) ≡ ok (a, at (before ++ bs) [])

-- Everything that the reading took and left, for any text before it.
pub record Parses {A : Type 0} (m : Reading A) (rest : Bytes) (Q : Bytes → Bytes → A → Type 0)
    : Type 0 where
  pub from :
      (before : Bytes)
      → Ensures proof_format
          (λ (a, r').
            (bs left : Bytes) × (rest ≡ bs ++ left) × (r' ≡ at (before ++ bs) left) × Q bs left a)
          (m (at before rest))

pub room : (before rest : Bytes) → length (before ++ rest) - length before ≡ length rest
room before rest = omega (arith, length-append before rest)

read_fits :
    (n : ℕ) (before rest : Bytes)
    → n ≤ length rest
    → read n (at before rest) ≡ ok (take n rest, at (before ++ take n rest) (drop n rest))
unfolding read
read_fits n before rest h =
    let e1 : length before + n - length before ≡ n = omega arith in
    let e2 : (let r : Reader = record { bytes = before ++ rest; position = length before + n } in r)
        ≡ at (before ++ take n rest) (drop n rest) =
      λ i. record { bytes = bytes_path i; position = position_path i } in
    let e3 : ltb (length rest) n ≡ false = ground arith in
    rw (room before rest, e3, drop-length_append before rest, e1, e2) refl
  where
    bytes_path : before ++ rest ≡ (before ++ take n rest) ++ drop n rest
    bytes_path = rw (append_assoc before (take n rest) (drop n rest), take-append-drop n rest) refl

    position_path : length before + n ≡ length (before ++ take n rest)
    position_path = omega (arith, length-append before (take n rest), length-take n rest h)

read_short :
    (n : ℕ) (before rest : Bytes) → length rest < n → read n (at before rest) ≡ raises proof_format
unfolding read
read_short n before rest h =
    let e : ltb (length rest) n ≡ true = ground arith in rw (room before rest, e)

pub slice-at :
    (before bs left : Bytes)
    → slice ((before ++ bs) ++ left) (length before) (length (before ++ bs)) ≡ bs
slice-at before bs left =
    let e : length (before ++ bs) - length before ≡ length bs =
      omega (arith, length-append before bs) in
    rw
      (
        e,
        append_assoc before bs left,
        drop-length_append before (bs ++ left),
        take-length_append bs left,
      )
      refl

pub Reads-read : (bs : Bytes) → Reads (read (length bs)) bs bs
Reads-read bs = record {
  within = λ before after.
      let fits : length bs ≤ length (bs ++ after) = omega (arith, length-append bs after) in
      rw
        (
          read_fits (length bs) before (bs ++ after) fits,
          take-length_append bs after,
          drop-length_append bs after,
        )
        refl;
}

pub Parses-read :
    (n : ℕ) (rest : Bytes) → Parses (read n) rest (λ bs left a. (a ≡ bs) × (length bs ≡ n))
Parses-read n rest = record {
  from = λ before. elim (Bool-cases (leb n (length rest))) [
    | inl h ↦
        let fits : n ≤ length rest = ground arith in
        rw (read_fits n before rest fits) (
          holds (
            take n rest,
            drop n rest,
            sym (take-append-drop n rest),
            refl,
            (refl, length-take n rest fits),
          ))
    | inr h ↦ rw (read_short n before rest (ground arith)) rejects
  ];
}

module _ {ℓ κ} {A : Type ℓ} {B : Type κ} {m : Reading A} (f : A → Reading B) where
  pub Reads-bind :
      {bs cs : Bytes} {a : A} {b : B}
      → Reads m bs a
      → Reads (f a) cs b
      → Reads (m >>= f) (bs ++ cs) b
  unfolding ◌>>=◌
  Reads-bind {bs} {cs} {a} {b} h k = record {
    within = λ before after.
        rw
          (
            append_assoc bs cs after,
            h.within before (cs ++ after),
            k.within (before ++ bs) after,
            append_assoc before bs cs,
          )
          refl;
  }

  pub ReadsEnd-bind :
      {bs cs : Bytes} {a : A} {b : B}
      → Reads m bs a
      → ReadsEnd (f a) cs b
      → ReadsEnd (m >>= f) (bs ++ cs) b
  unfolding ◌>>=◌
  ReadsEnd-bind {bs} {cs} {a} {b} h k = record {
    to_end =
        λ before. rw (h.within before cs, k.to_end (before ++ bs), append_assoc before bs cs) refl;
  }

  -- The rest of the block only tests where it stands.
  pub ReadsEnd-then :
      {bs : Bytes} {a : A} {b : B} → ReadsEnd m bs a → ReadsEnd (f a) [] b → ReadsEnd (m >>= f) bs b
  unfolding ◌>>=◌
  ReadsEnd-then {bs} {a} {b} h k = record {
    to_end = λ before.
        rw (h.to_end before) (
          k.to_end (before ++ bs)
          ∙ ap (λ (x : Bytes). ok (b, at x [])) (append-nil (before ++ bs)));
  }

module _ {ℓ} {A : Type ℓ} {f : Reading A} where
  pub Reads-require :
      {bs : Bytes} {a : A} (test : Bool)
      → test ≡ true
      → Reads f bs a
      → Reads (require test >> f) bs a
  unfolding ◌>>=◌ require
  Reads-require test e h = record { within = λ before after. rw e (h.within before after) }

  pub ReadsEnd-require :
      {bs : Bytes} {a : A} (test : Bool)
      → test ≡ true
      → ReadsEnd f bs a
      → ReadsEnd (require test >> f) bs a
  unfolding ◌>>=◌ require
  ReadsEnd-require test e h = record { to_end = λ before. rw e (h.to_end before) }

module _ {ℓ} {A : Type ℓ} where
  Reads-pure : (a : A) → Reads (pure a) [] a
  Reads-pure a = record {
    within = λ before after. ap (λ (x : Bytes). ok (a, at x after)) (sym (append-nil before));
  }

  pub ReadsEnd-pure : (a : A) → ReadsEnd (pure a) [] a
  ReadsEnd-pure a = record {
    to_end = λ before. ap (λ (x : Bytes). ok (a, at x [])) (sym (append-nil before));
  }

  Reads→ReadsEnd : {m : Reading A} {bs : Bytes} {a : A} → Reads m bs a → ReadsEnd m bs a
  Reads→ReadsEnd {bs} h = record { to_end = λ before. rw (append-nil bs) at (h.within before []) }

  pub ReadsEnd-remaining :
      (f : ℕ → Reading A) {bs : Bytes} {a : A}
      → ReadsEnd (f (length bs)) bs a
      → ReadsEnd (remaining >>= f) bs a
  unfolding ◌>>=◌ remaining
  ReadsEnd-remaining f {bs} h = record { to_end = λ before. rw (room before bs) (h.to_end before) }

  pub ReadsEnd-empty :
      (f : Bool → Reading A) {a : A} → ReadsEnd (f true) [] a → ReadsEnd (empty >>= f) [] a
  unfolding ◌>>=◌ empty
  ReadsEnd-empty f h = record {
    to_end = λ before.
        let e : (length before == length (before ++ [])) ≡ true =
          rw (append-nil before) (omega tests) in
        rw e (h.to_end before);
  }

  pub ReadsEnd-lift {κ} :
      {B : Type κ} {m : Result B} (f : B → Reading A) {b : B} {bs : Bytes} {a : A}
      → m ≡ ok b
      → ReadsEnd (f b) bs a
      → ReadsEnd (lift m >>= f) bs a
  unfolding ◌>>=◌ lift
  ReadsEnd-lift f e h = record { to_end = λ before. rw e (h.to_end before) }

  pub run-ReadsEnd : {m : Reading A} {bs : Bytes} {a : A} → ReadsEnd m bs a → run m bs ≡ ok a
  unfolding run
  run-ReadsEnd h = rw (h.to_end []) refl
