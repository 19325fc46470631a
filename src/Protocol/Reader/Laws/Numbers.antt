-- ===== src/Protocol/Reader/Laws/Numbers.antt =====
-- The rules of `Reads` for numbers and captured messages (src/connectcoin_p2c_tools/protocol.py,
-- `_Reader`).
use connectcoin_p2c_tools.Common.{
  ℕ, ◌<◌, ◌≡◌, refl, sym, ap, Bool, false, [], ◌∷◌, ◌++◌, append-nil, arith, ◌==◌, length,
  length-append, Bytes, from_be,
}
use connectcoin_p2c_tools.Common.Outcome.{Result, ok}
use connectcoin_p2c_tools.Protocol.Reader.{
  Reading, ◌>>=◌, lift, empty, read, u8, u16, u24, captured, at,
}
use connectcoin_p2c_tools.Protocol.Reader.Laws.{Reads, ReadsEnd, slice-at, Reads-read}

pub Reads-u8 : (b : ℕ) → Reads u8 (b ∷ []) b
unfolding u8 lift ◌>>=◌
Reads-u8 b = record { within = λ before after. rw ((Reads-read (b ∷ [])).within before after) refl }

Reads-u16 : (bs : Bytes) → length bs ≡ 2 → Reads u16 bs (from_be bs)
unfolding u16 ◌>>=◌
Reads-u16 bs e = record {
  within = λ before after. rw (← e, (Reads-read bs).within before after) refl;
}

Reads-u24 : (bs : Bytes) → length bs ≡ 3 → Reads u24 bs (from_be bs)
unfolding u24 ◌>>=◌
Reads-u24 bs e = record {
  within = λ before after. rw (← e, (Reads-read bs).within before after) refl;
}

pub Reads-captured :
    {A : Type 0} {m : Reading A} {bs : Bytes} {a : A} → Reads m bs a → Reads (captured m) bs (bs, a)
unfolding captured
Reads-captured {bs} {a} h = record {
  within = λ before after.
      rw (h.within before after)
        (ap (λ (x : Bytes). ok ((x, a), at (before ++ bs) after)) (slice-at before bs after));
}

pub ReadsEnd-lift_last {ℓ} : {A : Type ℓ} {m : Result A} {a : A} → m ≡ ok a → ReadsEnd (lift m) [] a
unfolding lift
ReadsEnd-lift_last {a} e = record {
  to_end = λ before. rw e (ap (λ (x : Bytes). ok (a, at x [])) (sym (append-nil before)));
}

pub ReadsEnd-not_empty {ℓ} :
    {A : Type ℓ} (f : Bool → Reading A) {bs : Bytes} {a : A}
    → 0 < length bs
    → ReadsEnd (f false) bs a
    → ReadsEnd (empty >>= f) bs a
unfolding ◌>>=◌ empty
ReadsEnd-not_empty f {bs} h k = record {
  to_end = λ before.
      let e : (length before == length (before ++ bs)) ≡ false =
        rw (length-append before bs) (ground arith) in
      rw e (k.to_end before);
}

-- The rules at a number or a length that is known by an equation.
pub Reads-u16_of : (n : ℕ) (bs : Bytes) → length bs ≡ 2 → n ≡ from_be bs → Reads u16 bs n
Reads-u16_of n bs l e = rw e (Reads-u16 bs l)

pub Reads-u24_of : (n : ℕ) (bs : Bytes) → length bs ≡ 3 → n ≡ from_be bs → Reads u24 bs n
Reads-u24_of n bs l e = rw e (Reads-u24 bs l)

pub Reads-read_of : (n : ℕ) (bs : Bytes) → length bs ≡ n → Reads (read n) bs bs
Reads-read_of n bs l = rw (← l) (Reads-read bs)

pub ReadsEnd-cast {ℓ} :
    {A : Type ℓ} {m : Reading A} {bs cs : Bytes} {a b : A}
    → bs ≡ cs
    → a ≡ b
    → ReadsEnd m cs b
    → ReadsEnd m bs a
ReadsEnd-cast e q h = rw (e, q) h

pub Reads-cast {ℓ} :
    {A : Type ℓ} {m : Reading A} {bs cs : Bytes} {a : A} → bs ≡ cs → Reads m cs a → Reads m bs a
Reads-cast e h = rw e h

pub Reads-u8_of : (n : ℕ) (bs : Bytes) → length bs ≡ 1 → n ≡ from_be bs → Reads u8 bs n
Reads-u8_of n [] l e = absurd (omega (arith, l))
Reads-u8_of n (b ∷ []) l e = let same : b ≡ n = omega (arith, e) in rw same (Reads-u8 n)
Reads-u8_of n (b ∷ c ∷ bs) l e = absurd (omega (arith, l))

pub single_number : (n : ℕ) {bs : Bytes} → bs ≡ n ∷ [] → (length bs ≡ 1) × (n ≡ from_be bs)
single_number n e = rw e (refl, omega arith)
