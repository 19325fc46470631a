-- ===== src/Verify/Der/Octets.antt =====
-- The length octets of DER, as src/connectcoin_p2c_tools/verify.py reads them.
use mathlib.Core.Path.{ap₂}
use connectcoin_p2c_tools.Common.{
  ℕ, zero, suc, ◌+◌, ◌%◌, ◌<◌, ◌≤◌, ◌≡◌, ◌≢◌, inl, inr, refl, sym, ap, ◌∙◌, Bool, true, false, not,
  ◌||◌, [], ◌∷◌, ◌++◌, ltb, ◌==◌, if◌then◌else◌, length, take, drop, arith, Bytes, AreBytes,
  be_bytes, from_be, Bool-cases, take-append-drop, length-take,
}
use connectcoin_p2c_tools.Common.Outcome.{ok, value_error, Ensures, holds, Ensures-require}
use connectcoin_p2c_tools.Verify.Der.{is_long, starts_with_0, der_length}

-- The length octets of DER: one byte below 128, and else the fewest bytes that hold the number,
-- four at most, behind their count.
unfoldable pub length_octets : ℕ → Bytes
length_octets n =
    if ltb n 0x80
    then n ∷ []
    else if ltb n 0x100
    then 0x81 ∷ be_bytes 1 n
    else if ltb n 0x10000
    then 0x82 ∷ be_bytes 2 n
    else if ltb n 0x1000000
    then 0x83 ∷ be_bytes 3 n
    else 0x84 ∷ be_bytes 4 n

octets_1 :
    (a : ℕ) → a < 256 → 128 ≤ from_be (a ∷ []) → length_octets (from_be (a ∷ [])) ≡ 0x81 ∷ a ∷ []
unfolding length_octets
octets_1 a h k = ground arith

octets_2 :
    (a b : ℕ) → a < 256 → b < 256 → a ≢ 0 → length_octets (from_be (a ∷ b ∷ [])) ≡ 0x82 ∷ a ∷ b ∷ []
unfolding length_octets
octets_2 a b h k e = ground arith

octets_3 :
    (a b c : ℕ)
    → a < 256
    → b < 256
    → c < 256
    → a ≢ 0
    → length_octets (from_be (a ∷ b ∷ c ∷ [])) ≡ 0x83 ∷ a ∷ b ∷ c ∷ []
unfolding length_octets
octets_3 a b c h k l e = ground arith

octets_4 :
    (a b c d : ℕ)
    → a < 256
    → b < 256
    → c < 256
    → d < 256
    → a ≢ 0
    → length_octets (from_be (a ∷ b ∷ c ∷ d ∷ [])) ≡ 0x84 ∷ a ∷ b ∷ c ∷ d ∷ []
unfolding length_octets
octets_4 a b c d h k l m e = ground arith

not_0 : (a : ℕ) → (a == 0) ≡ false → a ≢ 0
not_0 a h = ground arith

-- The bytes of a long length are the octets of the number that they hold.
long_octets :
    (bs : Bytes)
    → AreBytes bs
    → 1 ≤ length bs
    → length bs ≤ 4
    → starts_with_0 bs ≡ false
    → 128 ≤ from_be bs
    → length_octets (from_be bs) ≡ (128 + length bs) ∷ bs
long_octets [] h low high s big = absurd (omega arith)
long_octets (a ∷ []) h low high s big = octets_1 a h.0 big
long_octets (a ∷ b ∷ []) h low high s big = octets_2 a b h.0 h.1.0 (not_0 a s)
long_octets (a ∷ b ∷ c ∷ []) h low high s big = octets_3 a b c h.0 h.1.0 h.1.1.0 (not_0 a s)
long_octets (a ∷ b ∷ c ∷ d ∷ []) h low high s big =
    octets_4 a b c d h.0 h.1.0 h.1.1.0 h.1.1.1.0 (not_0 a s)
long_octets (a ∷ b ∷ c ∷ d ∷ e ∷ bs) h low high s big = absurd (omega arith)

long_bound : (bs : Bytes) → AreBytes bs → length bs ≤ 4 → from_be bs < 0x100000000
long_bound [] h high = omega arith
long_bound (a ∷ []) h high = omega (arith, h.0)
long_bound (a ∷ b ∷ []) h high = omega (arith, h.0, h.1.0)
long_bound (a ∷ b ∷ c ∷ []) h high = omega (arith, h.0, h.1.0, h.1.1.0)
long_bound (a ∷ b ∷ c ∷ d ∷ []) h high = omega (arith, h.0, h.1.0, h.1.1.0, h.1.1.1.0)
long_bound (a ∷ b ∷ c ∷ d ∷ e ∷ bs) h high = absurd (omega arith)

short_octets : (n : ℕ) → n < 256 → is_long n ≡ false → (n < 128) × (length_octets n ≡ n ∷ [])
unfolding length_octets
short_octets n h s = ground arith

count_fits :
    (count size : ℕ)
    → not (count == 0 || (ltb 4 count || ltb size count)) ≡ true
    → (1 ≤ count) × (count ≤ 4) × (count ≤ size)
count_fits count size h = ground arith

is_canonical : (s : Bool) (n : ℕ) → not (s || ltb n 128) ≡ true → (s ≡ false) × (128 ≤ n)
is_canonical s n h = ground arith

long_size : (size : ℕ) → size < 256 → is_long size ≡ true → size ≡ 128 + size % 128
long_size size h l = ground arith

AreBytes-take : (n : ℕ) (bs : Bytes) → AreBytes bs → AreBytes (take n bs)
AreBytes-take zero bs h = tt
AreBytes-take (suc n) [] h = tt
AreBytes-take (suc n) (b ∷ bs) h = (h.0, AreBytes-take n bs h.1)

pub AreBytes-drop : (n : ℕ) (bs : Bytes) → AreBytes bs → AreBytes (drop n bs)
AreBytes-drop zero bs h = h
AreBytes-drop (suc n) [] h = tt
AreBytes-drop (suc n) (b ∷ bs) h = AreBytes-drop n bs h.1

abbrev HasLength : ℕ → Bytes → ℕ × Bytes → Type 0
HasLength size rest (n, left) =
    (size ∷ rest ≡ length_octets n ++ left) × (n < 0x100000000) × AreBytes left

pub der_length-Ensures :
    (size : ℕ) (rest : Bytes)
    → size < 256
    → AreBytes rest
    → Ensures value_error (HasLength size rest) (der_length size rest)
unfolding der_length
der_length-Ensures size rest h k = elim (Bool-cases (is_long size)) [
  | inr short ↦
      let (small, octets) = short_octets size h short in
      rw short (holds (ap (λ (t : Bytes). t ++ rest) (sym octets), omega arith, k))
  | inl long ↦ rw long (
      Ensures-require _ λ counted. Ensures-require _ λ minimal.
        let (low, high, there) = count_fits (size % 128) (length rest) counted in
        let (first, big) = is_canonical _ _ minimal in
        let bytes = take (size % 128) rest in
        let counts : length bytes ≡ size % 128 = length-take (size % 128) rest there in
        let are = AreBytes-take (size % 128) rest k in
        holds (
          ap₂ ◌∷◌ (long_size size h long ∙ ap (λ (x : ℕ). 128 + x) (sym counts))
                (sym (take-append-drop (size % 128) rest))
              ∙ ap (λ (t : Bytes). t ++ drop (size % 128) rest)
                  (sym (
                    long_octets bytes are (omega (arith, counts, low)) (omega (arith, counts, high))
                      first big)),
          long_bound bytes are (omega (arith, counts, high)),
          AreBytes-drop (size % 128) rest k,
        ))
]

pub length-octets_pos : (n : ℕ) → 1 ≤ length (length_octets n)
unfolding length_octets
length-octets_pos n = ground arith

-- The octets of a length are read back.
abbrev ReadsOctets : ℕ → Type 0
ReadsOctets n =
    (size : ℕ) × (more : Bytes) × (length_octets n ≡ size ∷ more)
    × ((left : Bytes) → der_length size (more ++ left) ≡ ok (n, left))

pub ReadsOctets-below_2_32 : (n : ℕ) → n < 0x100000000 → ReadsOctets n
unfolding length_octets der_length
ReadsOctets-below_2_32 n h = elim (Bool-cases (ltb n 0x80)) [
  | inl a ↦ rw a (n, [], refl, λ left. ground arith)
  | inr a ↦ rw a (elim (Bool-cases (ltb n 0x100)) [
    | inl b ↦ rw b (_, _, refl, λ left. ground arith)
    | inr b ↦ rw b (elim (Bool-cases (ltb n 0x10000)) [
      | inl c ↦ rw c (_, _, refl, λ left. ground arith)
      | inr c ↦ rw c (elim (Bool-cases (ltb n 0x1000000)) [
        | inl d ↦ rw d (_, _, refl, λ left. ground arith)
        | inr d ↦ rw d (_, _, refl, λ left. ground arith)
      ])
    ])
  ])
]
