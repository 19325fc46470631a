-- ===== src/Hashes/Hex.antt =====
-- Lower-case hexadecimal text and bytes, as src/connectcoin_p2c_tools/hashes.py uses them.
use mathlib.Core.List.{reverse, reverse-cons}
use connectcoin_p2c_tools.Common.{
  ℕ, zero, suc, ◌+◌, ◌*◌, ◌/◌, ◌%◌, ◌<◌, ◌≡◌, refl, ap, ◌∙◌, true, List, [], ◌∷◌, ◌++◌, map, none,
  some, arith, length, length-append, All-append, Bytes, IsByte, AreBytes, from_le, from_be,
  &&-eq_true,
}
use connectcoin_p2c_tools.Common.Ints.{from_be_loop}
use connectcoin_p2c_tools.Common.Outcome.{ok}
use connectcoin_p2c_tools.Hashes.{
  is_hex_digit, lower_char, all_hex_digits, digit_value, from_hex, hex_digit, to_hex,
}

pub length-reverse : (bs : Bytes) → length (reverse bs) ≡ length bs
length-reverse [] = refl
length-reverse (b ∷ bs) =
    ap length (reverse-cons b bs)
    ∙ omega (arith, length-append (reverse bs) (b ∷ []), length-reverse bs)

pub AreBytes-reverse : (bs : Bytes) → AreBytes bs → AreBytes (reverse bs)
AreBytes-reverse [] h = tt
AreBytes-reverse (b ∷ bs) h =
    rw (reverse-cons b bs)
      (All-append IsByte (reverse bs) (b ∷ []) (AreBytes-reverse bs h.1) (h.0, tt))

from_be_loop-append :
    (acc b : ℕ) (bs : Bytes) → from_be_loop acc (bs ++ (b ∷ [])) ≡ from_be_loop acc bs * 256 + b
from_be_loop-append acc b [] = refl
from_be_loop-append acc b (x ∷ bs) = from_be_loop-append (acc * 256 + x) b bs

-- Little-endian bytes are big-endian bytes read backwards.
pub from_be-reverse : (bs : Bytes) → from_be (reverse bs) ≡ from_le bs
from_be-reverse [] = refl
from_be-reverse (b ∷ bs) =
    rw (reverse-cons b bs)
      (from_be_loop-append 0 b (reverse bs) ∙ omega (arith, from_be-reverse bs))

hex_digit-is : (v : ℕ) → v < 16 → is_hex_digit (hex_digit v) ≡ true
hex_digit-is v h = ground arith

hex_digit-value : (v : ℕ) → v < 16 → digit_value (hex_digit v) ≡ some v
hex_digit-value v h = ground arith

hex_digit-lower : (v : ℕ) → v < 16 → lower_char (hex_digit v) ≡ hex_digit v
hex_digit-lower v h = ground arith

pub length-to_hex : (bs : Bytes) → length (to_hex bs) ≡ 2 * length bs
unfolding to_hex
length-to_hex [] = refl
length-to_hex (b ∷ bs) = omega (arith, length-to_hex bs)

pub all_hex_digits-to_hex : (bs : Bytes) → AreBytes bs → all_hex_digits (to_hex bs) ≡ true
unfolding to_hex all_hex_digits
all_hex_digits-to_hex [] h = refl
all_hex_digits-to_hex (b ∷ bs) h =
    rw (hex_digit-is (b / 16) (omega arith), hex_digit-is (b % 16) (omega arith))
      (all_hex_digits-to_hex bs h.1)

pub lower-to_hex : (bs : Bytes) → AreBytes bs → map lower_char (to_hex bs) ≡ to_hex bs
unfolding to_hex
lower-to_hex [] h = refl
lower-to_hex (b ∷ bs) h =
    rw
      (
        hex_digit-lower (b / 16) (omega arith),
        hex_digit-lower (b % 16) (omega arith),
        lower-to_hex bs h.1,
      )
      refl

pub from_hex-to_hex : (bs : Bytes) → AreBytes bs → from_hex (to_hex bs) ≡ ok bs
unfolding to_hex from_hex
from_hex-to_hex [] h = refl
from_hex-to_hex (b ∷ bs) h =
    let whole : 16 * (b / 16) + b % 16 ≡ b = omega arith in
    rw
      (
        hex_digit-value (b / 16) (omega arith),
        hex_digit-value (b % 16) (omega arith),
        from_hex-to_hex bs h.1,
        whole,
      )
      refl

-- The value of a lower-case hexadecimal digit.
abbrev nibble : ℕ → ℕ
nibble c = elim (digit_value c) [ none ↦ 0 | some v ↦ v ]

nibble_facts :
    (c : ℕ)
    → is_hex_digit c ≡ true
    → (nibble c < 16) × (hex_digit (nibble c) ≡ c) × (digit_value c ≡ some (nibble c))
nibble_facts c h = ground arith

nibble-hex_digit : (v : ℕ) → v < 16 → nibble (hex_digit v) ≡ v
nibble-hex_digit v h = ground arith

-- The number that hexadecimal text shows, highest digit first.
abbrev hex_number_loop : ℕ → List ℕ → ℕ
hex_number_loop acc [] = acc
hex_number_loop acc (c ∷ s) = hex_number_loop (acc * 16 + nibble c) s

abbrev pub hex_number : List ℕ → ℕ
hex_number s = hex_number_loop 0 s

hex_number_loop-to_hex :
    (acc : ℕ) (bs : Bytes) → AreBytes bs → hex_number_loop acc (to_hex bs) ≡ from_be_loop acc bs
unfolding to_hex
hex_number_loop-to_hex acc [] h = refl
hex_number_loop-to_hex acc (b ∷ bs) h =
    let e : (acc * 16 + nibble (hex_digit (b / 16))) * 16 + nibble (hex_digit (b % 16))
        ≡ acc * 256 + b =
      rw (nibble-hex_digit (b / 16) (omega arith), nibble-hex_digit (b % 16) (omega arith))
        (omega arith) in
    ap (λ (x : ℕ). hex_number_loop x (to_hex bs)) e ∙ hex_number_loop-to_hex (acc * 256 + b) bs h.1

pub hex_number-to_hex : (bs : Bytes) → AreBytes bs → hex_number (to_hex bs) ≡ from_be bs
hex_number-to_hex bs h = hex_number_loop-to_hex 0 bs h

-- Text that `from_hex` reads after the test on its digits.
pub record HexText (s : List ℕ) (bs : Bytes) : Type 0 where
  pub printed : to_hex bs ≡ s
  pub are_bytes : AreBytes bs
  pub reads : from_hex s ≡ ok bs

pub hex_text :
    (n : ℕ) (s : List ℕ) → length s ≡ 2 * n → all_hex_digits s ≡ true → (bs : Bytes) × HexText s bs
unfolding to_hex from_hex all_hex_digits
hex_text zero [] l h = ([], record { printed = refl; are_bytes = tt; reads = refl })
hex_text zero (c ∷ s) l h = absurd (omega arith)
hex_text (suc n) [] l h = absurd (omega arith)
hex_text (suc n) (c ∷ []) l h = absurd (omega arith)
hex_text (suc n) (c ∷ d ∷ s) l h =
    let (hc, h') = &&-eq_true _ _ h in
    let (hd, hs) = &&-eq_true _ _ h' in
    let (lc, pc, vc) = nibble_facts c hc in
    let (ld, pd, vd) = nibble_facts d hd in
    let (bs, t) = hex_text n s (omega arith) hs in
    let high : (16 * nibble c + nibble d) / 16 ≡ nibble c = omega arith in
    let low : (16 * nibble c + nibble d) % 16 ≡ nibble d = omega arith in
    (
      (16 * nibble c + nibble d) ∷ bs,
      record {
        printed = rw (high, low, pc, pd, t.printed) refl;
        are_bytes = (omega arith, t.are_bytes);
        reads = rw (vc, vd, t.reads) refl;
      },
    )
