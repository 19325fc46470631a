-- ===== src/Envelope/Checks.antt =====
-- The checks of src/connectcoin_p2c_tools/envelope.py, one by one.
use mathlib.Core.List.{reverse}
use connectcoin_p2c_tools.Common.{
  ℕ, ◌*◌, ◌/◌, ◌%◌, ◌^◌, ◌≤◌, ◌≡◌, inl, inr, refl, sym, ap, ◌∙◌, subst, true, false, ◌&&◌, not,
  List, [], ◌∷◌, ◌++◌, map, Option, some, arith, leb, leb→le, le→leb, lt→ltb, ◌==◌, eq→==, ==→eq,
  ◌!=◌, length, is_empty, bytes_eq, bytes_eq_refl, Bytes, Bool-cases, &&-eq_true, not-eq_true,
  le_bytes,
}
use connectcoin_p2c_tools.Common.Ints.{to_bytes_little}
use connectcoin_p2c_tools.Common.Outcome.{
  Result, ok, proof_format, Ensures, holds, rejects, Ensures-bind, Ensures-require, bind_ok,
  require_ok,
}
use connectcoin_p2c_tools.Common.Values.{Value, pos, negsuc, int, text}
use connectcoin_p2c_tools.Domain.{is_canonical_domain}
use connectcoin_p2c_tools.Hashes.{
  lower_char, all_hex_digits, to_hex, display_hash_to_internal, claim_message, claim_challenge,
  tagged_hash, claim_tag,
}
use connectcoin_p2c_tools.Hashes.Hex.{
  HexText, hex_text, length-to_hex, all_hex_digits-to_hex, lower-to_hex,
}
use connectcoin_p2c_tools.Signatures.{validate_signature_algorithms_mask}
use connectcoin_p2c_tools.Envelope.{
  wrong_size, require_hex_text, require_hex, require_uint, require_positive, require_domain,
}

-- Lower-case hexadecimal text of some bytes, at least one and as many as required.
pub record IsHex (size : Option ℕ) (s : List ℕ) : Type 0 where
  pub shown : Bytes
  pub hex : HexText s shown
  pub some_bytes : 1 ≤ length shown
  pub fits : wrong_size size (length shown) ≡ false

hex_of_tests :
    (s : List ℕ)
    → (length s % 2 == 0) ≡ true
    → all_hex_digits s ≡ true
    → (bs : Bytes) × HexText s bs
hex_of_tests s even digits = hex_text (length s / 2) s (omega (arith, ==→eq _ _ even)) digits

some_shown : (s : List ℕ) (bs : Bytes) → HexText s bs → is_empty s ≡ false → 1 ≤ length bs
unfolding to_hex
some_shown s (b ∷ bs) h e = omega arith
some_shown (c ∷ s) [] h e = absurd (omega (arith, ap length h.printed))
some_shown [] [] h e = absurd (ground arith)

require_hex_text-Ensures :
    (s : List ℕ) (size : Option ℕ)
    → Ensures proof_format (λ (r : List ℕ). (s ≡ r) × IsHex size r) (require_hex_text s size)
unfolding require_hex_text
require_hex_text-Ensures s size =
    elim (Bool-cases (bytes_eq s (map lower_char s) && not (is_empty s))) [
      | inr e ↦ rw e rejects
      | inl lower ↦ elim (Bool-cases (length s % 2 == 0)) [
        | inr e ↦ rw (lower, e) rejects
        | inl even ↦ elim (Bool-cases (all_hex_digits s)) [
          | inr e ↦ rw (lower, even, e) rejects
          | inl digits ↦
              let (bs, hex) = hex_of_tests s even digits in
              let least = some_shown s bs hex (not-eq_true _ (&&-eq_true _ _ lower).1) in
              elim (Bool-cases (wrong_size size (length bs))) [
                | inl e ↦ rw (lower, even, digits, hex.reads, e) rejects
                | inr fits ↦
                    rw (lower, even, digits, hex.reads, fits)
                      (holds
                        (refl, record { shown = bs; hex = hex; some_bytes = least; fits = fits }))
              ]
        ]
      ]
    ]

shown_some : (bs : Bytes) → 1 ≤ length bs → not (is_empty (to_hex bs)) ≡ true
unfolding to_hex
shown_some [] k = absurd (omega arith)
shown_some (b ∷ bs) k = refl

lower_of_hex :
    (s : List ℕ) (bs : Bytes)
    → HexText s bs
    → 1 ≤ length bs
    → (bytes_eq s (map lower_char s) && not (is_empty s)) ≡ true
lower_of_hex s bs h least =
    subst (λ (t : List ℕ). (bytes_eq t (map lower_char t) && not (is_empty t)) ≡ true) h.printed
      (rw (lower-to_hex bs h.are_bytes, bytes_eq_refl (to_hex bs)) (shown_some bs least))

digits_of_hex : (s : List ℕ) (bs : Bytes) → HexText s bs → all_hex_digits s ≡ true
digits_of_hex s bs h =
    subst (λ (t : List ℕ). all_hex_digits t ≡ true) h.printed (all_hex_digits-to_hex bs h.are_bytes)

length-hex : (s : List ℕ) (bs : Bytes) → HexText s bs → length s ≡ 2 * length bs
length-hex s bs h = ap length (sym h.printed) ∙ length-to_hex bs

pub require_hex-ok :
    (s : List ℕ) (size : Option ℕ) → IsHex size s → require_hex (text s) size ≡ ok s
unfolding require_hex require_hex_text
require_hex-ok s size h = require_ok _ (lower_of_hex s h.shown h.hex h.some_bytes) (
    require_ok _ (eq→== _ _ (omega (arith, length-hex s h.shown h.hex))) (
      require_ok _ (digits_of_hex s h.shown h.hex)
        (bind_ok _ h.hex.reads (require_ok _ (rw (h.fits) refl) refl))))

pub require_hex-Ensures :
    (v : Value) (size : Option ℕ)
    → Ensures proof_format (λ (r : List ℕ). (v ≡ text r) × IsHex size r) (require_hex v size)
unfolding require_hex
require_hex-Ensures (text s) size = Outcome_weaken (require_hex_text-Ensures s size)
  where
    Outcome_weaken :
        {r : Result (List ℕ)}
        → Ensures proof_format (λ (r : List ℕ). (s ≡ r) × IsHex size r) r
        → Ensures proof_format (λ (r : List ℕ). (text s ≡ text r) × IsHex size r) r
    Outcome_weaken (holds (e, h)) = holds (ap (λ (x : List ℕ). text x) e, h)
    Outcome_weaken rejects = rejects
require_hex-Ensures _ size = rejects

pub require_uint-Ensures :
    (v : Value) (maximum : ℕ)
    → Ensures proof_format (λ (n : ℕ). (v ≡ int (pos n)) × (n ≤ maximum)) (require_uint v maximum)
unfolding require_uint
require_uint-Ensures (int (pos n)) maximum = elim (Bool-cases (leb n maximum)) [
  | inl e ↦ rw (e, le→leb 0 n (omega arith)) (holds (refl, leb→le n maximum e))
  | inr e ↦ rw (e, le→leb 0 n (omega arith)) rejects
]
require_uint-Ensures (int (negsuc n)) maximum = rejects
require_uint-Ensures _ maximum = rejects

pub require_uint-ok : (n maximum : ℕ) → n ≤ maximum → require_uint (int (pos n)) maximum ≡ ok n
unfolding require_uint
require_uint-ok n maximum h = rw (le→leb n maximum h, le→leb 0 n (omega arith)) refl

pub require_positive-Ensures :
    (v : Value) (maximum : ℕ)
    → Ensures proof_format
        (λ (n : ℕ). (v ≡ int (pos n)) × (1 ≤ n) × (n ≤ maximum))
        (require_positive v maximum)
unfolding require_positive
require_positive-Ensures v maximum =
    Ensures-bind (require_uint-Ensures v maximum)
      λ n (e, h). Ensures-require (n != 0) λ (k : (n != 0) ≡ true). holds (e, ground arith, h)

pub require_positive-ok :
    (n maximum : ℕ) → 1 ≤ n → n ≤ maximum → require_positive (int (pos n)) maximum ≡ ok n
unfolding require_positive
require_positive-ok n maximum h k =
    bind_ok _ (require_uint-ok n maximum k) (require_ok _ (ground arith) refl)

pub require_domain-Ensures :
    (v : Value)
    → Ensures proof_format
        (λ (d : List ℕ). (v ≡ text d) × (is_canonical_domain d ≡ true))
        (require_domain v)
unfolding require_domain
require_domain-Ensures (text d) = elim (Bool-cases (is_canonical_domain d)) [
  | inl e ↦ rw e (holds (refl, e))
  | inr e ↦ rw e rejects
]
require_domain-Ensures _ = rejects

pub require_domain-ok : (d : List ℕ) → is_canonical_domain d ≡ true → require_domain (text d) ≡ ok d
unfolding require_domain
require_domain-ok d h = rw h refl

pub validate_mask-Ensures :
    (v : Value)
    → Ensures proof_format
        (λ (n : ℕ). (v ≡ int (pos n)) × (1 ≤ n) × (n ≤ 7))
        (validate_signature_algorithms_mask v)
unfolding validate_signature_algorithms_mask
validate_mask-Ensures (int (pos n)) = elim (Bool-cases (leb 1 n)) [
  | inr e ↦ rw e rejects
  | inl e ↦ elim (Bool-cases (leb n 7)) [
    | inl f ↦ rw (e, f) (holds (refl, leb→le 1 n e, leb→le n 7 f))
    | inr f ↦ rw (e, f) rejects
  ]
]
validate_mask-Ensures (int (negsuc n)) = rejects
validate_mask-Ensures _ = rejects

pub display_of_hex :
    (txid : List ℕ) (h : IsHex (some 32) txid)
    → display_hash_to_internal txid ≡ ok (reverse h.shown)
unfolding display_hash_to_internal
display_of_hex txid h =
    let bytes_32 : length h.shown ≡ 32 = ground (arith, h.fits) in
    let lower =
      (&&-eq_true (bytes_eq txid (map lower_char txid)) (not (is_empty txid))
        (lower_of_hex txid h.shown h.hex h.some_bytes)).0 in
    require_ok _ (eq→== _ _ (omega (arith, length-hex txid h.shown h.hex, bytes_32))) (
      require_ok _ lower
        (require_ok _ (digits_of_hex txid h.shown h.hex) (bind_ok _ h.hex.reads refl)))

message_of_hex :
    (txid : List ℕ) (n : ℕ) (h : IsHex (some 32) txid)
    → n ≤ 0xffffffff
    → claim_message txid (int (pos n)) ≡ ok (reverse h.shown ++ le_bytes 4 n)
unfolding claim_message to_bytes_little
message_of_hex txid n h k =
    rw
      (
        le→leb 0 n (omega arith),
        le→leb n 0xffffffff k,
        display_of_hex txid h,
        lt→ltb n (256 ^ 4) (omega arith),
      )
      refl

-- A transaction id that passes its check has a challenge.
pub claim_challenge-ok :
    (sha256 : Bytes → Bytes) (txid : List ℕ) (n : ℕ) (h : IsHex (some 32) txid)
    → n ≤ 0xffffffff
    → claim_challenge sha256 txid (int (pos n))
      ≡ ok (tagged_hash sha256 claim_tag (reverse h.shown ++ le_bytes 4 n))
unfolding claim_challenge
claim_challenge-ok sha256 txid n h k = rw (message_of_hex txid n h k) refl
