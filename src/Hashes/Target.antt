-- ===== src/Hashes/Target.antt =====
-- The work target as a number, and the message of a claim (src/connectcoin_p2c_tools/hashes.py).
use mathlib.Core.List.{reverse, reverse-reverse}
use native.Mathlib.Nat.{pow-suc}
use connectcoin_p2c_tools.Common.{
  ℕ, zero, suc, ◌/◌, ◌%◌, ◌^◌, ◌≤◌, ◌<◌, ◌≡◌, ◌⊎◌, inl, inr, refl, sym, ap, ◌∙◌, Bool, true, List,
  [], ◌∷◌, ◌++◌, replicate, arith, leb, le→leb, length, Bytes, AreBytes, eq→==, Bool-cases, from_le,
  from_be, le_bytes, leb→le, ltb, lt→ltb,
}
use connectcoin_p2c_tools.Common.Ints.{to_bytes_little}
use connectcoin_p2c_tools.Common.Values.{Value, pos, negsuc, int, null}
use connectcoin_p2c_tools.Common.Outcome.{ok, raises, value_error, bind_ok, bind_inv, require_ok}
use connectcoin_p2c_tools.Hashes.{
  display_hash_to_internal, meets_work_target, uint32_of, claim_message, all_hex_digits, from_hex,
}
use connectcoin_p2c_tools.Hashes.Hex.{hex_number, hex_number-to_hex, from_be-reverse}
use connectcoin_p2c_tools.Hashes.Display.{ShowsHash, display-shows, display_hash_to_internal_iff}

shown_number : (t : List ℕ) (b : Bytes) → ShowsHash t b → hex_number t ≡ from_le b
shown_number t b s =
    ap hex_number (sym (s.text.printed))
    ∙ hex_number-to_hex s.shown (s.text.are_bytes)
    ∙ ap from_be (sym (reverse-reverse s.shown) ∙ ap (λ (x : Bytes). reverse x) (sym s.backwards))
    ∙ from_be-reverse b

-- A work hash with a display meets a readable target exactly if the number that its display shows
-- is at most the number that the target shows.
pub meets_work_target-hex_number :
    (work_hash target_hash : Bytes) (display target : List ℕ)
    → display_hash_to_internal display ≡ ok work_hash
    → display_hash_to_internal target ≡ ok target_hash
    → meets_work_target work_hash target ≡ ok (leb (hex_number display) (hex_number target))
unfolding meets_work_target
meets_work_target-hex_number work_hash target_hash display target h k =
    let size = ((display_hash_to_internal_iff display work_hash).0 h).0 in
    require_ok _ (eq→== _ _ size) (
      bind_ok _ k (
        rw
          (
            shown_number display work_hash (display-shows display work_hash h),
            shown_number target target_hash (display-shows target target_hash k),
          )
          refl))

from_le_bound : (n : ℕ) (b : Bytes) → length b ≡ n → AreBytes b → from_le b < 256 ^ n
from_le_bound zero [] l a = omega arith
from_le_bound zero (x ∷ b) l a = absurd (omega arith)
from_le_bound (suc n) [] l a = absurd (omega arith)
from_le_bound (suc n) (x ∷ b) l a =
    omega (arith, pow-suc 256 n, from_le_bound n b (omega arith) a.1)

easiest_target : display_hash_to_internal (replicate 64 b'f') ≡ ok (replicate 32 255)
unfolding display_hash_to_internal all_hex_digits from_hex
easiest_target = refl

-- Every work hash of 32 bytes meets the target of 64 digits f.
meets_work_target-easiest :
    (work_hash : Bytes)
    → length work_hash ≡ 32
    → AreBytes work_hash
    → meets_work_target work_hash (replicate 64 b'f') ≡ ok true
unfolding meets_work_target
meets_work_target-easiest work_hash l a =
    let bound : from_le work_hash ≤ from_le (replicate 32 255) =
      omega (arith, from_le_bound 32 work_hash l a) in
    require_ok _ (eq→== _ _ l)
      (bind_ok _ easiest_target (ap (λ (x : Bool). ok x) (le→leb _ _ bound)))

le_bytes_injective : (n a b : ℕ) → a < 256 ^ n → b < 256 ^ n → le_bytes n a ≡ le_bytes n b → a ≡ b
le_bytes_injective zero a b h k e = omega arith
le_bytes_injective (suc n) a b h k e =
    let low : a % 256 ≡ b % 256 = cc in
    let high : le_bytes n (a / 256) ≡ le_bytes n (b / 256) = cc in
    omega (
      arith,
      low,
      le_bytes_injective n (a / 256) (b / 256) (omega (arith, pow-suc 256 n))
          (omega (arith, pow-suc 256 n)) high,
    )

append_parts :
    (n : ℕ) (a b c d : Bytes) → length a ≡ n → length b ≡ n → a ++ c ≡ b ++ d → (a ≡ b) × (c ≡ d)
append_parts zero [] [] c d l k e = (refl, e)
append_parts zero (x ∷ a) b c d l k e = absurd (omega arith)
append_parts zero [] (y ∷ b) c d l k e = absurd (omega arith)
append_parts (suc n) [] b c d l k e = absurd (omega arith)
append_parts (suc n) (x ∷ a) [] c d l k e = absurd (omega arith)
append_parts (suc n) (x ∷ a) (y ∷ b) c d l k e =
    let tails : a ++ c ≡ b ++ d = cc in
    let (ea, ec) = append_parts n a b c d (omega arith) (omega arith) tails in (cc, ec)

-- The parts of a claim message.
record ClaimParts (txid : List ℕ) (input_index : Value) (message : Bytes) : Type 0 where
  index : ℕ
  internal_txid : Bytes
  is_index : input_index ≡ int (pos index)
  index_fits : index < 256 ^ 4
  is_txid : display_hash_to_internal txid ≡ ok internal_txid
  layout : message ≡ internal_txid ++ le_bytes 4 index

uint32_cases :
    (v : Value)
    → ((n : ℕ) × (v ≡ int (pos n)) × (n < 256 ^ 4) × (uint32_of v ≡ ok n))
      ⊎ (uint32_of v ≡ raises value_error)
uint32_cases (int (pos n)) = elim (Bool-cases (leb n 0xffffffff)) [
  | inl e ↦
      let fits : n ≤ 0xffffffff = leb→le n 0xffffffff e in
      let low : leb 0 n ≡ true = le→leb 0 n (omega arith) in
      inl (n, refl, omega arith, rw (low, e) refl)
  | inr e ↦ let low : leb 0 n ≡ true = le→leb 0 n (omega arith) in inr (rw (low, e) refl)
]
uint32_cases (int (negsuc n)) = inr refl
uint32_cases null = inr refl
uint32_cases _ = inr refl

claim_parts :
    (txid : List ℕ) (v : Value) (message : Bytes)
    → claim_message txid v ≡ ok message
    → ClaimParts txid v message
unfolding claim_message to_bytes_little
claim_parts txid v message h =
    let (n, en, h₁) = bind_inv _ (uint32_of v) h in
    let (b, eb, h₂) = bind_inv _ (display_hash_to_internal txid) h₁ in
    elim (uint32_cases v) [
      | inl (m, ev, fits, em) ↦
          let same : n ≡ m = cc (en, em) in
          let test : ltb n (256 ^ 4) ≡ true = rw same (lt→ltb m (256 ^ 4) fits) in
          record {
            index = n;
            internal_txid = b;
            is_index = rw same ev;
            index_fits = rw same fits;
            is_txid = eb;
            layout = cc (rw test at h₂);
          }
      | inr e ↦ cc (e, en)
    ]

-- Claims with the same message to hash have the same transaction and the same input.
pub claim_message-injective :
    (txid txid' : List ℕ) (input_index input_index' : Value) (message : Bytes)
    → claim_message txid input_index ≡ ok message
    → claim_message txid' input_index' ≡ ok message
    → (txid ≡ txid') × (input_index ≡ input_index')
claim_message-injective txid txid' i i' message h h' =
    let p = claim_parts txid i message h in
    let q = claim_parts txid' i' message h' in
    let (lp, ap', dp) = (display_hash_to_internal_iff txid p.internal_txid).0 p.is_txid in
    let (lq, aq, dq) = (display_hash_to_internal_iff txid' q.internal_txid).0 q.is_txid in
    let (et, ei) =
      append_parts 32 p.internal_txid q.internal_txid _ _ lp lq (sym p.layout ∙ q.layout) in
    let en : p.index ≡ q.index =
      le_bytes_injective 4 p.index q.index p.index_fits q.index_fits ei in
    (cc (dp, dq, et), p.is_index ∙ ap (λ (n : ℕ). int (pos n)) en ∙ sym q.is_index)
