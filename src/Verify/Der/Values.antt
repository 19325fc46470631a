-- ===== src/Verify/Der/Values.antt =====
-- The single values that the DER reader of src/connectcoin_p2c_tools/verify.py takes apart: an
-- element of one tag, the name of SHA-256, and a number.
use mathlib.Core.Path.{ap₂}
use connectcoin_p2c_tools.Common.{
  ℕ, ◌<◌, ◌≤◌, ◌≡◌, ◌⊎◌, inl, inr, refl, ap, subst, Bool, true, false, not, ◌||◌, ◌&&◌, List, [],
  ◌∷◌, ltb, ◌==◌, if◌then◌else◌, length, is_empty, All, arith, Bytes, AreBytes, be_bytes, from_be,
  Bool-cases, &&-eq_true, ==→eq, ==-refl, bytes_eq, bytes_eq→eq,
}
use connectcoin_p2c_tools.Common.Outcome.{
  ok, value_error, Ensures, holds, rejects, Ensures-bind, Ensures-require,
}
use connectcoin_p2c_tools.Verify.Der.{
  Element, is_long, is_padded, is_negative, is_element, only, names_sha256, sha256_oid_der,
  der_single, sha256_algorithm, der_nonnegative_integer,
}
use connectcoin_p2c_tools.Verify.Der.Canonical.{
  IsEncoding, HoldsBytes, der_elements-encode, der_elements-Ensures,
}

pub is_element→eq :
    (e : Element) (tag : ℕ) (value : Bytes) → is_element e tag value ≡ true → e ≡ (tag, value)
is_element→eq (t, v) tag value h =
    let (a, b) = &&-eq_true (t == tag) (bytes_eq v value) h in
    ap₂ (λ (x : ℕ) (y : Bytes). (x, y)) (==→eq t tag a) (bytes_eq→eq v value b)

abbrev pub IsSingle : ℕ → Bytes → Bytes → Type 0
IsSingle tag bs value = IsEncoding bs ((tag, value) ∷ [])

only-Ensures :
    (bs : Bytes) (elements : List Element) (tag : ℕ)
    → IsEncoding bs elements
    → All HoldsBytes elements
    → Ensures value_error (λ value. IsSingle tag bs value × AreBytes value) (only elements tag)
only-Ensures bs [] tag h k = rejects
only-Ensures bs ((t, value) ∷ []) tag h k = elim (Bool-cases (t == tag)) [
  | inr e ↦ rw e rejects
  | inl e ↦ rw e (holds (subst (λ (x : ℕ). IsEncoding bs ((x, value) ∷ [])) (==→eq t tag e) h, k.0))
]
only-Ensures bs (a ∷ b ∷ more) tag h k = rejects

pub der_single-Ensures :
    (bs : Bytes) (tag : ℕ)
    → AreBytes bs
    → Ensures value_error (λ value. IsSingle tag bs value × AreBytes value) (der_single bs tag)
unfolding der_single
der_single-Ensures bs tag k =
    Ensures-bind (der_elements-Ensures bs k) λ elements (h, are). only-Ensures bs elements tag h are

pub der_single-encode :
    (bs value : Bytes) (tag : ℕ) → IsSingle tag bs value → der_single bs tag ≡ ok value
unfolding der_single
der_single-encode bs value tag h = rw (der_elements-encode bs _ h, ==-refl tag) refl

-- The AlgorithmIdentifier of SHA-256, with no parameters or with NULL.
abbrev Sha256Names : List Element → Type 0
Sha256Names fields =
    (fields ≡ (0x06, sha256_oid_der) ∷ []) ⊎ (fields ≡ (0x06, sha256_oid_der) ∷ (0x05, []) ∷ [])

names_sha256→ : (fields : List Element) → names_sha256 fields ≡ true → Sha256Names fields
names_sha256→ [] h = cc
names_sha256→ (a ∷ []) h =
    inl (ap (λ (x : Element). x ∷ []) (is_element→eq a 0x06 sha256_oid_der h))
names_sha256→ (a ∷ b ∷ []) h =
    let (p, q) = &&-eq_true (is_element a 0x06 sha256_oid_der) (is_element b 0x05 []) h in
    inr (
      ap₂ (λ (x y : Element). x ∷ y ∷ []) (is_element→eq a 0x06 sha256_oid_der p)
        (is_element→eq b 0x05 [] q))
names_sha256→ (a ∷ b ∷ c ∷ more) h = cc

→names_sha256 : (fields : List Element) → Sha256Names fields → names_sha256 fields ≡ true
→names_sha256 fields (inl e) = rw e refl
→names_sha256 fields (inr e) = rw e refl

abbrev pub IsSha256 : Bytes → Type 0
IsSha256 bs = (fields : List Element) × IsEncoding bs fields × Sha256Names fields

pub sha256_algorithm-Ensures :
    (bs : Bytes)
    → AreBytes bs
    → Ensures value_error (λ named. named ≡ true → IsSha256 bs) (sha256_algorithm bs)
unfolding sha256_algorithm
sha256_algorithm-Ensures bs k =
    Ensures-bind (der_elements-Ensures bs k)
      λ fields (h, are). holds (λ e. (fields, h, names_sha256→ fields e))

pub sha256_algorithm-IsSha256 : (bs : Bytes) → IsSha256 bs → sha256_algorithm bs ≡ ok true
unfolding sha256_algorithm
sha256_algorithm-IsSha256 bs (fields, h, names) =
    rw (der_elements-encode bs fields h, →names_sha256 fields names) refl

-- The octets of a number below 2^31: the fewest whose first bit is clear.
pub integer_octets : ℕ → Bytes
integer_octets n =
    if ltb n 0x80
    then be_bytes 1 n
    else if ltb n 0x8000
    then be_bytes 2 n
    else if ltb n 0x800000
    then be_bytes 3 n
    else be_bytes 4 n

abbrev pub IsInteger : ℕ → Bytes → Type 0
IsInteger n bs = (n < 0x80000000) × IsSingle 0x02 bs (integer_octets n)

abbrev IsNumber : Bytes → Type 0
IsNumber bs = (from_be bs < 0x80000000) × (bs ≡ integer_octets (from_be bs))

IsNumber-1 : (a : ℕ) → a < 256 → is_long a ≡ false → IsNumber (a ∷ [])
unfolding integer_octets
IsNumber-1 a h s = ground arith

IsNumber-2 :
    (a b : ℕ)
    → a < 256
    → b < 256
    → is_long a ≡ false
    → (a == 0 && not (is_long b)) ≡ false
    → IsNumber (a ∷ b ∷ [])
unfolding integer_octets
IsNumber-2 a b h k s p = ground arith

IsNumber-3 :
    (a b c : ℕ)
    → a < 256
    → b < 256
    → c < 256
    → is_long a ≡ false
    → (a == 0 && not (is_long b)) ≡ false
    → IsNumber (a ∷ b ∷ c ∷ [])
unfolding integer_octets
IsNumber-3 a b c h k l s p = ground arith

IsNumber-4 :
    (a b c d : ℕ)
    → a < 256
    → b < 256
    → c < 256
    → d < 256
    → is_long a ≡ false
    → (a == 0 && not (is_long b)) ≡ false
    → IsNumber (a ∷ b ∷ c ∷ d ∷ [])
unfolding integer_octets
IsNumber-4 a b c d h k l m s p = ground arith

four_false :
    (a b c d : Bool)
    → not (a || (b || (c || d))) ≡ true
    → (a ≡ false) × (b ≡ false) × (c ≡ false) × (d ≡ false)
four_false a b c d h = ground arith

abbrev is_number : Bytes → Bool
is_number value =
    not (is_empty value || (ltb 4 (length value) || (is_negative value || is_padded value)))

ltb_false→le : (a b : ℕ) → ltb a b ≡ false → b ≤ a
ltb_false→le a b h = ground arith

number_tests :
    (value : Bytes)
    → is_number value ≡ true
    → (length value ≤ 4) × (is_negative value ≡ false) × (is_padded value ≡ false)
number_tests value h =
    let (_, long, negative, padded) =
      four_false (is_empty value) (ltb 4 (length value)) (is_negative value) (is_padded value) h in
    (ltb_false→le 4 (length value) long, negative, padded)

IsNumber-of_test : (value : Bytes) → AreBytes value → is_number value ≡ true → IsNumber value
IsNumber-of_test [] k h = cc
IsNumber-of_test (a ∷ []) k h = let (_, s, _) = number_tests (a ∷ []) h in IsNumber-1 a k.0 s
IsNumber-of_test (a ∷ b ∷ []) k h =
    let (_, s, p) = number_tests (a ∷ b ∷ []) h in IsNumber-2 a b k.0 k.1.0 s p
IsNumber-of_test (a ∷ b ∷ c ∷ []) k h =
    let (_, s, p) = number_tests (a ∷ b ∷ c ∷ []) h in IsNumber-3 a b c k.0 k.1.0 k.1.1.0 s p
IsNumber-of_test (a ∷ b ∷ c ∷ d ∷ []) k h =
    let (_, s, p) = number_tests (a ∷ b ∷ c ∷ d ∷ []) h in
    IsNumber-4 a b c d k.0 k.1.0 k.1.1.0 k.1.1.1.0 s p
IsNumber-of_test (a ∷ b ∷ c ∷ d ∷ e ∷ more) k h =
    let (short, _, _) = number_tests (a ∷ b ∷ c ∷ d ∷ e ∷ more) h in absurd (omega arith)

integer_octets_lem :
    (n : ℕ)
    → n < 0x80000000
    → (is_number (integer_octets n) ≡ true) × (from_be (integer_octets n) ≡ n)
unfolding integer_octets
integer_octets_lem n h = elim (Bool-cases (ltb n 0x80)) [
  | inl a ↦ rw a (ground arith, ground arith)
  | inr a ↦ rw a (elim (Bool-cases (ltb n 0x8000)) [
    | inl b ↦ rw b (ground arith, ground arith)
    | inr b ↦ rw b (elim (Bool-cases (ltb n 0x800000)) [
      | inl c ↦ rw c (ground arith, ground arith)
      | inr c ↦ rw c (ground arith, ground arith)
    ])
  ])
]

pub der_nonnegative_integer-Ensures :
    (bs : Bytes)
    → AreBytes bs
    → Ensures value_error (λ n. IsInteger n bs) (der_nonnegative_integer bs)
unfolding der_nonnegative_integer
der_nonnegative_integer-Ensures bs k =
    Ensures-bind (der_single-Ensures bs 0x02 k) λ value (single, are).
      Ensures-require (is_number value) λ test.
        let (below, e) = IsNumber-of_test value are test in
        holds (below, subst (λ (v : Bytes). IsSingle 0x02 bs v) e single)

pub der_nonnegative_integer-IsInteger :
    (bs : Bytes) (n : ℕ) → IsInteger n bs → der_nonnegative_integer bs ≡ ok n
unfolding der_nonnegative_integer
der_nonnegative_integer-IsInteger bs n (below, single) =
    let (test, e) = integer_octets_lem n below in
    rw (der_single-encode bs _ 0x02 single, test, e) refl
